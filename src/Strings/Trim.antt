-- ===== src/Strings/Trim.antt =====
-- Lemmas on strings.TrimSpace.
use provider_engine.Base.{Text, [], ◌∷◌, ◌++◌, false, Bool-cases, ◌≡◌, refl, sym, ◌∙◌, ap, inl, inr}
use mathlib.Core.Path.{subst}
use mathlib.Core.List.{reverse, reverse-reverse, reverse-append}
use provider_engine.Strings.{is_space, trim_left, trim_space}

-- A text with no white space at its start
abbrev pub IsTrimmedLeft : Text → Type 0
IsTrimmedLeft [] = Unit {0}
IsTrimmedLeft (c ∷ s) = is_space c ≡ false

trim_left-IsTrimmedLeft : (s : Text) → IsTrimmedLeft (trim_left s)
trim_left-IsTrimmedLeft [] = tt
trim_left-IsTrimmedLeft (c ∷ s) = elim (Bool-cases (is_space c)) [
  | inl e ↦ rw e (trim_left-IsTrimmedLeft s)
  | inr e ↦ rw e e
]

trim_left-trimmed : (s : Text) → IsTrimmedLeft s → trim_left s ≡ s
trim_left-trimmed [] h = refl
trim_left-trimmed (c ∷ s) h = rw h refl

trim_left-suffix : (s : Text) → (w : Text) × (w ++ trim_left s ≡ s)
trim_left-suffix [] = ([], refl)
trim_left-suffix (c ∷ s) = elim (Bool-cases (is_space c)) [
  | inl e ↦ (let (w, h) = trim_left-suffix s in (c ∷ w, rw e (ap (λ t. c ∷ t) h)))
  | inr e ↦ ([], rw e refl)
]

IsTrimmedLeft-prefix : (s t : Text) → IsTrimmedLeft (s ++ t) → IsTrimmedLeft s
IsTrimmedLeft-prefix [] t h = tt
IsTrimmedLeft-prefix (c ∷ s) t h = h

-- what is left of a text whose white space at the end is removed starts as the text does
end_trimmed-IsTrimmedLeft :
    (s : Text) → IsTrimmedLeft s → IsTrimmedLeft (reverse (trim_left (reverse s)))
end_trimmed-IsTrimmedLeft s h =
    let (w, e) = trim_left-suffix (reverse s) in
    IsTrimmedLeft-prefix (reverse (trim_left (reverse s))) (reverse w) (
      subst IsTrimmedLeft
        (sym (reverse-reverse s) ∙ ap reverse (sym e) ∙ reverse-append w (trim_left (reverse s))) h)

trim_space-line :
    (u : Text) → IsTrimmedLeft u → IsTrimmedLeft (reverse u) → trim_space (u ++ 10 ∷ []) ≡ u
trim_space-line [] h i = refl
trim_space-line (c ∷ r) h i =
    ap (λ t. reverse (trim_left (reverse t))) (trim_left-trimmed (c ∷ r ++ 10 ∷ []) h)
    ∙ ap (λ t. reverse (trim_left t)) (reverse-append (c ∷ r) (10 ∷ []))
    ∙ ap reverse (trim_left-trimmed (reverse (c ∷ r)) i)
    ∙ reverse-reverse (c ∷ r)

-- A trimmed text that is stored as a line is read back by trimming the line.
pub trim_space-stored : (s : Text) → trim_space (trim_space s ++ 10 ∷ []) ≡ trim_space s
trim_space-stored s =
    trim_space-line (trim_space s)
      (end_trimmed-IsTrimmedLeft (trim_left s) (trim_left-IsTrimmedLeft s))
      (subst IsTrimmedLeft (sym (reverse-reverse (trim_left (reverse (trim_left s)))))
        (trim_left-IsTrimmedLeft (reverse (trim_left s))))
