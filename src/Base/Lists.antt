-- ===== src/Base/Lists.antt =====
-- Lists measured by native numbers, and predicates on lists by recursion.
use mathlib.Core.Logic.{◌⊎◌, inl, inr}
use mathlib.Core.Bool.{true}
use Prim.Native.Nat.{ℕ, suc, ◌+◌, ◌≤◌}
use mathlib.Core.Path.{◌≡◌}
use mathlib.Core.Bool.{Bool}
use mathlib.Core.List.{List, [], ◌∷◌, ◌++◌}
use native.Mathlib.Omega.{arith}
use provider_engine.Base.Tests.{if◌then◌else◌}

module _ {ℓ} {A : Type ℓ} where
  abbrev pub length : List A → ℕ
  length [] = 0
  length (x ∷ xs) = suc (length xs)

  -- How many elements pass the test.
  abbrev pub count : (A → Bool) → List A → ℕ
  count p [] = 0
  count p (x ∷ xs) = (if p x then 1 else 0) + count p xs

  -- The elements that pass the test.
  abbrev pub select : (A → Bool) → List A → List A
  select p [] = []
  select p (x ∷ xs) = let rest = select p xs in if p x then x ∷ rest else rest

  pub length-append : (xs ys : List A) → length (xs ++ ys) ≡ length xs + length ys
  length-append [] ys = omega arith
  length-append (x ∷ xs) ys = omega (arith, length-append xs ys)

  pub count-append : (p : A → Bool) (xs ys : List A) → count p (xs ++ ys) ≡ count p xs + count p ys
  count-append p [] ys = omega arith
  count-append p (x ∷ xs) ys = omega (arith, count-append p xs ys)

  pub count-le-length : (p : A → Bool) (xs : List A) → count p xs ≤ length xs
  count-le-length p [] = omega arith
  count-le-length p (x ∷ xs) = ground (arith, count-le-length p xs)

module _ {A : Type 0} where
  -- Membership by recursion, which the tactics read.
  abbrev pub Listed : A → List A → Type 0
  Listed y [] = ⊥
  Listed y (x ∷ xs) = (y ≡ x) ⊎ Listed y xs

  pub Listed-select :
      (p : A → Bool) (y : A) (xs : List A) → Listed y (select p xs) → Listed y xs × (p y ≡ true)
  Listed-select p y [] h = absurd h
  Listed-select p y (x ∷ xs) h = ground (arith, Listed-select p y xs)

  pub select-Listed :
      (p : A → Bool) (y : A) (xs : List A) → Listed y xs → p y ≡ true → Listed y (select p xs)
  select-Listed p y [] h e = h
  select-Listed p y (x ∷ xs) (inl same) e = ground arith
  select-Listed p y (x ∷ xs) (inr later) e = ground (arith, select-Listed p y xs later e)

module _ {ℓ κ} {A : Type ℓ} (P : A → Type κ) where
  abbrev pub All : List A → Type κ
  All [] = Unit
  All (x ∷ xs) = P x × All xs

  pub All-append : (xs ys : List A) → All xs → All ys → All (xs ++ ys)
  All-append [] ys h k = k
  All-append (x ∷ xs) ys (p, h) k = (p, All-append xs ys h k)

pub All-Listed {ℓ} :
    {A : Type 0} (P : A → Type ℓ) (xs : List A) (y : A) → All P xs → Listed y xs → P y
All-Listed P [] y h l = absurd l
All-Listed P (x ∷ xs) y (p, h) (inl same) = rw same p
All-Listed P (x ∷ xs) y (p, h) (inr later) = All-Listed P xs y h later
