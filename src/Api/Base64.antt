-- ===== src/Api/Base64.antt =====
-- base64.RawURLEncoding of package encoding/base64, which jwt.go calls: the URL alphabet, with no
-- padding. The decoder skips line breaks and does not look at the unused bits of the last group.
use provider_engine.Base.{
  ℕ, ◌+◌, ◌-◌, ◌*◌, ◌/◌, ◌%◌, ◌<◌, Text, List, [], ◌∷◌, ◌||◌, ◌&&◌, ◌≡◌, ◌≢◌, refl, Option, none,
  some, ltb, leb, eqb, if◌then◌else◌, All, arith, map,
}

-- The letter of six bits.
unfoldable pub letter : ℕ → ℕ
letter v =
    if ltb v 26
    then 65 + v
    else if ltb v 52
    then 71 + v
    else if ltb v 62
    then v - 4
    else if eqb v 62
    then 45
    else 95

unfoldable pub sextet : ℕ → Option ℕ
sextet c =
    if leb 65 c && leb c 90
    then some (c - 65)
    else if leb 97 c && leb c 122
    then some (c - 71)
    else if leb 48 c && leb c 57
    then some (c + 4)
    else if eqb c 45
    then some 62
    else if eqb c 95
    then some 63
    else none

-- Three bytes are four sextets; the last one or two bytes are two or three.
unfoldable pub split_sextets : Text → List ℕ
split_sextets [] = []
split_sextets (a ∷ []) = (a / 4) ∷ (a % 4 * 16) ∷ []
split_sextets (a ∷ b ∷ []) = (a / 4) ∷ (a % 4 * 16 + b / 16) ∷ (b % 16 * 4) ∷ []
split_sextets (a ∷ b ∷ c ∷ s) =
    (a / 4) ∷ (a % 4 * 16 + b / 16) ∷ (b % 16 * 4 + c / 64) ∷ (c % 64) ∷ split_sextets s

unfoldable pub encode : Text → Text
encode s = map letter (split_sextets s)

infixl 5 ◌>>=◌
abbrev ◌>>=◌ : {A B : Type 0} → Option A → (A → Option B) → Option B
none >>= f = none
some a >>= f = f a

-- The sextets of the letters; a letter outside the alphabet is an error.
unfoldable pub sextets : Text → Option (List ℕ)
sextets [] = some []
sextets (c ∷ s) =
    let rest = sextets s in
    if eqb c 10 || eqb c 13 then rest else do v ← sextet c; vs ← rest; some (v ∷ vs)

unfoldable pub join_sextets : List ℕ → Option Text
join_sextets [] = some []
join_sextets (u ∷ []) = none
join_sextets (u ∷ v ∷ []) = some ((u * 4 + v / 16) ∷ [])
join_sextets (u ∷ v ∷ w ∷ []) = some ((u * 4 + v / 16) ∷ (v % 16 * 16 + w / 4) ∷ [])
join_sextets (u ∷ v ∷ w ∷ x ∷ s) = do
  rest ← join_sextets s
  some ((u * 4 + v / 16) ∷ (v % 16 * 16 + w / 4) ∷ (w % 4 * 64 + x) ∷ rest)

unfoldable pub decode : Text → Option Text
decode s = do vs ← sextets s; join_sextets vs

sextet-letter : (v : ℕ) → v < 64 → sextet (letter v) ≡ some v
unfolding sextet letter
sextet-letter v h = ground arith

letter_ne : (v : ℕ) → v < 64 → (letter v ≢ 10) × (letter v ≢ 13) × (letter v ≢ 46)
unfolding letter
letter_ne v h = ground arith

sextets-letter :
    (v : ℕ) (s : Text) (vs : List ℕ)
    → v < 64
    → sextets s ≡ some vs
    → sextets (letter v ∷ s) ≡ some (v ∷ vs)
unfolding sextets
sextets-letter v s vs h e = ground (arith, sextet-letter v h, letter_ne v h)

sextets-map-letter : (vs : List ℕ) → All (λ v. v < 64) vs → sextets (map letter vs) ≡ some vs
unfolding sextets
sextets-map-letter [] h = refl
sextets-map-letter (v ∷ vs) (h, hs) =
    sextets-letter v (map letter vs) vs h (sextets-map-letter vs hs)

abbrev pub IsByte : ℕ → Type 0
IsByte b = b < 256

split_sextets-lt : (s : Text) → All IsByte s → All (λ v. v < 64) (split_sextets s)
unfolding split_sextets
split_sextets-lt [] h = tt
split_sextets-lt (a ∷ []) h = omega arith
split_sextets-lt (a ∷ b ∷ []) h = omega arith
split_sextets-lt (a ∷ b ∷ c ∷ s) (p, (q, (r, h))) =
    (omega arith, (omega arith, (omega arith, (omega arith, split_sextets-lt s h))))

join_sextets-split : (s : Text) → All IsByte s → join_sextets (split_sextets s) ≡ some s
unfolding split_sextets join_sextets
join_sextets-split [] h = refl
join_sextets-split (a ∷ []) h = ground arith
join_sextets-split (a ∷ b ∷ []) h = ground arith
join_sextets-split (a ∷ b ∷ c ∷ s) (p, (q, (r, h))) = rw (join_sextets-split s h) (ground arith)

-- Decoding gives back the bytes that were encoded.
pub decode-encode : (s : Text) → All IsByte s → decode (encode s) ≡ some s
unfolding encode decode
decode-encode s h =
    rw (sextets-map-letter (split_sextets s) (split_sextets-lt s h)) (join_sextets-split s h)

abbrev pub NoDot : Text → Type 0
NoDot = All (λ c. c ≢ 46)

NoDot-map-letter : (vs : List ℕ) → All (λ v. v < 64) vs → NoDot (map letter vs)
NoDot-map-letter [] h = tt
NoDot-map-letter (v ∷ vs) (h, hs) = ((letter_ne v h).2, NoDot-map-letter vs hs)

pub encode-NoDot : (s : Text) → All IsByte s → NoDot (encode s)
unfolding encode
encode-NoDot s h = NoDot-map-letter (split_sextets s) (split_sextets-lt s h)
