-- ===== src/Strings.antt =====
-- Functions of Go's package strings on ASCII text, as the code calls them.
pub mod Trim
use provider_engine.Base.{
  ℕ, Text, bytes, ◌==◌, List, [], ◌∷◌, ◌++◌, Bool, true, false, ◌||◌, ◌&&◌, not, Option, none, some,
  eqb, leb, if◌then◌else◌,
}
use mathlib.Core.List.{reverse}

-- strings.TrimSpace, on ASCII text
abbrev pub is_space : ℕ → Bool
is_space c = eqb c 32 || (leb 9 c && leb c 13)

abbrev pub trim_left : Text → Text
trim_left [] = []
trim_left (c ∷ s) = let rest = trim_left s in if is_space c then rest else c ∷ s

abbrev pub trim_space : Text → Text
trim_space s = reverse (trim_left (reverse (trim_left s)))

-- strings.Split(s, "\n")
unfoldable pub prepend : ℕ → List Text → List Text
prepend c [] = (c ∷ []) ∷ []
prepend c (l ∷ ls) = (c ∷ l) ∷ ls

unfoldable pub split_lines : Text → List Text
unfolding prepend
split_lines [] = [] ∷ []
split_lines (c ∷ s) = let rest = split_lines s in if eqb c 10 then [] ∷ rest else prepend c rest

-- strings.Fields
grow_field : ℕ → Bool → List Text → List Text
grow_field c true (f ∷ fs) = (c ∷ f) ∷ fs
grow_field c true [] = (c ∷ []) ∷ []
grow_field c false fs = (c ∷ []) ∷ fs

abbrev starts_field : Text → Bool
starts_field [] = false
starts_field (c ∷ s) = not (is_space c)

unfoldable pub fields : Text → List Text
unfolding grow_field
fields [] = []
fields (c ∷ s) =
    let rest = fields s in if is_space c then rest else grow_field c (starts_field s) rest

-- strings.HasPrefix and strings.TrimPrefix
unfoldable pub strip_prefix : Text → Text → Option Text
strip_prefix [] s = some s
strip_prefix (c ∷ p) [] = none
strip_prefix (c ∷ p) (d ∷ s) = let rest = strip_prefix p s in if eqb c d then rest else none

-- strings.Contains
abbrev pub starts_with : Text → Text → Bool
starts_with p s = elim (strip_prefix p s) [ some _ ↦ true | none ↦ false ]

unfoldable pub contains : Text → Text → Bool
contains p [] = starts_with p []
contains p (c ∷ s) = let rest = contains p s in starts_with p (c ∷ s) || rest
