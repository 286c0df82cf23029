-- ===== src/Api/Jwt.antt =====
-- dcp-control-plane/internal/api/jwt.go. HMAC-SHA256 and the JSON decoder are parameters.
pub mod Dots
pub mod Signed
use provider_engine.Base.{
  ℕ, Text, bytes, ◌==◌, ==_iff, ==_refl, ==_sound, ℤ, leb_ℤ, ltb_ℤ, ◌≤ℤ◌, List, [], ◌∷◌, ◌++◌, Bool,
  true, false, not, ◌&&◌, Option, none, some, ◌≡◌, ◌≢◌, ◌↔◌, refl, eqb, if◌then◌else◌, All, arith,
  Option-cases, Bool-cases, inl, inr, ap, sym, ◌∙◌,
}
use provider_engine.Api.Base64.{encode, decode, encode-NoDot, IsByte, NoDot}

-- strings.Split(s, ".")
prepend : ℕ → List Text → List Text
prepend c [] = (c ∷ []) ∷ []
prepend c (part ∷ parts) = (c ∷ part) ∷ parts

unfoldable pub split_dots : Text → List Text
unfolding prepend
split_dots [] = [] ∷ []
split_dots (c ∷ s) = let rest = split_dots s in if eqb c 46 then [] ∷ rest else prepend c rest

-- The claims that are read, as `int64` of the JSON numbers; none if absent or of another type.
pub record Claims : Type 0 where
  pub exp : Option ℤ
  pub nbf : Option ℤ

pub record Crypto : Type 0 where
  -- the HMAC-SHA256 of a message under a secret
  pub mac : Text → Text → Text
  pub unmarshal : Text → Option Claims

abbrev expired : ℤ → Option ℤ → Bool
expired now none = false
expired now (some exp) = leb_ℤ exp now

abbrev too_early : ℤ → Option ℤ → Bool
too_early now none = false
too_early now (some nbf) = ltb_ℤ now nbf

abbrev pub signing_input : Text → Text → Text
signing_input header payload = header ++ (bytes "." ++ payload)

module _ (c : Crypto) (now : ℤ) where
  valid_claims : Option Claims → Bool
  valid_claims none = false
  valid_claims (some claims) = not (expired now claims.exp) && not (too_early now claims.nbf)

  valid_payload : Option Text → Bool
  valid_payload none = false
  valid_payload (some payload) = valid_claims (c.unmarshal payload)

  valid_parts : Text → List Text → Bool
  unfolding valid_payload valid_claims
  valid_parts secret (header ∷ payload ∷ signature ∷ []) =
      if encode (c.mac secret (signing_input header payload)) == signature
      then valid_payload (decode payload)
      else false
  valid_parts secret _ = false

  -- `now` is time.Now().Unix().
  pub validate_jwt : Text → Text → Bool
  validate_jwt token secret = valid_parts secret (split_dots token)
