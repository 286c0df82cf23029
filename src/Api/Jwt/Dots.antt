-- ===== src/Api/Jwt/Dots.antt =====
-- strings.Split on dots and its reverse.
use provider_engine.Base.{
  ℕ, Text, List, [], ◌∷◌, ◌++◌, ◌≡◌, ◌≢◌, refl, eqb, All, arith, Bool-cases, inl, inr,
}
use provider_engine.Api.Base64.{NoDot}
use provider_engine.Api.Jwt.{prepend, split_dots}

-- The reverse of `split_dots`.
abbrev pub join_dots : List Text → Text
join_dots [] = []
join_dots (p ∷ []) = p
join_dots (p ∷ q ∷ ps) = p ++ 46 ∷ join_dots (q ∷ ps)

split_dots-ne-nil : (s : Text) → split_dots s ≢ []
unfolding split_dots
split_dots-ne-nil [] e = cc
split_dots-ne-nil (c ∷ s) e = ground arith

join_dots-prepend : (c : ℕ) (ps : List Text) → join_dots (prepend c ps) ≡ c ∷ join_dots ps
unfolding prepend
join_dots-prepend c [] = refl
join_dots-prepend c (p ∷ []) = refl
join_dots-prepend c (p ∷ q ∷ ps) = refl

join_dots-nil : (ps : List Text) → ps ≢ [] → join_dots ([] ∷ ps) ≡ 46 ∷ join_dots ps
join_dots-nil [] h = absurd (h refl)
join_dots-nil (p ∷ ps) h = refl

pub join_dots-split : (s : Text) → join_dots (split_dots s) ≡ s
unfolding split_dots
join_dots-split [] = refl
join_dots-split (c ∷ s) = elim (Bool-cases (eqb c 46)) [
  | inl e ↦
      rw (e, join_dots-nil (split_dots s) (split_dots-ne-nil s)) (ground (arith, join_dots-split s))
  | inr e ↦ rw (e, join_dots-prepend c (split_dots s)) (rw (join_dots-split s))
]

prepend-NoDot : (c : ℕ) (ps : List Text) → c ≢ 46 → All NoDot ps → All NoDot (prepend c ps)
unfolding prepend
prepend-NoDot c [] n h = ((n, tt), tt)
prepend-NoDot c (p ∷ ps) n (h, hs) = ((n, h), hs)

pub split_dots-NoDot : (s : Text) → All NoDot (split_dots s)
unfolding split_dots
split_dots-NoDot [] = (tt, tt)
split_dots-NoDot (c ∷ s) = elim (Bool-cases (eqb c 46)) [
  | inl e ↦ rw e (tt, split_dots-NoDot s)
  | inr e ↦ rw e (prepend-NoDot c (split_dots s) (ground arith) (split_dots-NoDot s))
]

pub split_dots-part : (p : Text) → NoDot p → split_dots p ≡ p ∷ []
unfolding split_dots
split_dots-part [] h = refl
split_dots-part (c ∷ p) (n, h) = ground (arith, split_dots-part p h)

pub split_dots-append : (p s : Text) → NoDot p → split_dots (p ++ 46 ∷ s) ≡ p ∷ split_dots s
unfolding split_dots
split_dots-append [] s h = refl
split_dots-append (c ∷ p) s (n, h) = ground (arith, split_dots-append p s h)
