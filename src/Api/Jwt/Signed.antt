-- ===== src/Api/Jwt/Signed.antt =====
-- Which tokens validateJWT accepts.
use provider_engine.Base.{
  Text, ==_refl, ==_sound, ℤ, ◌≤ℤ◌, List, [], ◌∷◌, ◌++◌, Bool, true, false, Option, none, some, ◌≡◌,
  ◌↔◌, refl, if◌then◌else◌, All, arith, Option-cases, inl, inr, ap, ◌∙◌,
}
use provider_engine.Api.Base64.{encode, decode, encode-NoDot, IsByte, NoDot}
use provider_engine.Api.Jwt.{
  split_dots, Claims, Crypto, signing_input, valid_claims, valid_payload, valid_parts, validate_jwt,
}
use provider_engine.Api.Jwt.Dots.{
  join_dots, join_dots-split, split_dots-NoDot, split_dots-part, split_dots-append,
}

abbrev pub Holds : (ℤ → Type 0) → Option ℤ → Type 0
Holds P none = Unit
Holds P (some t) = P t

-- At the time `now` the claim exp is in the future and the claim nbf is not, where they are present.
abbrev pub InForce : ℤ → Claims → Type 0
InForce now claims = Holds (λ t. ¬ (t ≤ℤ now)) claims.exp × Holds (λ t. t ≤ℤ now) claims.nbf

valid_claims-InForce :
    (c : Crypto) (now : ℤ) (claims : Claims)
    → (valid_claims c now (some claims) ≡ true) ↔ InForce now claims
unfolding valid_claims
valid_claims-InForce c now claims = ground arith

if_true : (b d : Bool) → (if b then d else false) ≡ true → (b ≡ true) × (d ≡ true)
if_true b d h = ground arith

valid_payload-some :
    (c : Crypto) (now : ℤ) (o : Option Text)
    → valid_payload c now o ≡ true
    → (json : Text) × (o ≡ some json)
      × (claims : Claims) × (c.unmarshal json ≡ some claims)
      × (valid_claims c now (some claims) ≡ true)
unfolding valid_payload valid_claims
valid_payload-some c now none h = cc
valid_payload-some c now (some json) h = elim (Option-cases (c.unmarshal json)) [
  | inl e ↦ let stuck : valid_claims c now none ≡ true = rw e at h in cc stuck
  | inr (claims, e) ↦ (json, refl, claims, e, rw e at h)
]

module _ (c : Crypto) (now : ℤ) (secret : Text) where
  -- A token of three parts, signed with the secret, whose payload decodes to claims in force.
  pub record IsSigned (token : Text) : Type 0 where
    pub header : Text
    pub payload : Text
    pub json : Text
    pub claims : Claims
    pub header_NoDot : NoDot header
    pub payload_NoDot : NoDot payload
    pub form :
        token
        ≡ header ++ 46 ∷ (payload ++ 46 ∷ encode (c.mac secret (signing_input header payload)))
    pub decoded : decode payload ≡ some json
    pub parsed : c.unmarshal json ≡ some claims
    pub in_force : InForce now claims

  valid_parts-IsSigned :
      (ps : List Text) → All NoDot ps → valid_parts c now secret ps ≡ true → IsSigned (join_dots ps)
  unfolding valid_parts
  valid_parts-IsSigned (h ∷ p ∷ s ∷ []) (nh, (np, _)) v =
      let (signed, valid) = if_true _ _ v in
      let (json, decoded, claims, parsed, good) = valid_payload-some c now (decode p) valid in
      record {
        header = h;
        payload = p;
        json = json;
        claims = claims;
        header_NoDot = nh;
        payload_NoDot = np;
        form = rw (==_sound _ s signed) refl;
        decoded = decoded;
        parsed = parsed;
        in_force = (valid_claims-InForce c now claims).0 good;
      }
  valid_parts-IsSigned [] n v = cc
  valid_parts-IsSigned (a ∷ []) n v = cc
  valid_parts-IsSigned (a ∷ b ∷ []) n v = cc
  valid_parts-IsSigned (a ∷ b ∷ d ∷ e ∷ ps) n v = cc

  IsSigned-valid :
      ((m : Text) → All IsByte (c.mac secret m))
      → {token : Text} → IsSigned token
      → validate_jwt c now token secret ≡ true
  unfolding validate_jwt valid_parts
  IsSigned-valid byte {token} t =
      let signature = encode (c.mac secret (signing_input t.header t.payload)) in
      let parts : split_dots token ≡ t.header ∷ t.payload ∷ signature ∷ [] =
        ap split_dots t.form
        ∙ split_dots-append t.header (t.payload ++ 46 ∷ signature) t.header_NoDot
        ∙ ap (λ ps. t.header ∷ ps)
            (split_dots-append t.payload signature t.payload_NoDot
              ∙ ap (λ ps. t.payload ∷ ps) (split_dots-part signature (encode-NoDot _ (byte _)))) in
      rw (parts, ==_refl signature, t.decoded, t.parsed)
        ((valid_claims-InForce c now t.claims).1 t.in_force)

  -- A token is accepted exactly if it has three parts without dots, the third is the signature of
  -- the other two under the secret, the second decodes to claims, and these are in force. It
  -- assumes that a signature under the secret is made of bytes.
  pub validate_jwt_iff :
      ((m : Text) → All IsByte (c.mac secret m))
      → (token : Text) → (validate_jwt c now token secret ≡ true) ↔ IsSigned token
  unfolding validate_jwt
  validate_jwt_iff byte token = (
    λ v.
        rw (join_dots-split token) at
          (valid_parts-IsSigned (split_dots token) (split_dots-NoDot token) v),
    λ t. IsSigned-valid byte t,
  )
