-- ===== src/Store/Sql.antt =====
-- The SQL that the statements of postgres.go are made of: UPDATE … WHERE, and ORDER BY … LIMIT 1
-- over the rows in the order in which the server delivers them.
use provider_engine.Base.{
  ◌≡◌, refl, Bool, true, false, Option, none, some, List, [], ◌∷◌, ◌||◌, arith, if◌then◌else◌,
  Listed, inl, inr, Option-cases, Bool-cases, All, map,
}

module _ {ℓ} {A : Type ℓ} where
  abbrev pub exists : (A → Bool) → List A → Bool
  exists p [] = false
  exists p (x ∷ xs) = p x || exists p xs

  abbrev pub update : (A → Bool) → (A → A) → List A → List A
  update p f [] = []
  update p f (x ∷ xs) = (if p x then f x else x) ∷ update p f xs

  -- the better of a row and of the best of the rows after it; of equals, the first
  abbrev pub better : (A → A → Bool) → A → Option A → Option A
  better le x none = some x
  better le x (some y) = if le x y then some x else some y

  abbrev pub first_by : (A → A → Bool) → List A → Option A
  first_by le [] = none
  first_by le (x ∷ xs) = better le x (first_by le xs)

  -- ORDER BY without a limit
  abbrev pub insert_by : (A → A → Bool) → A → List A → List A
  insert_by le x [] = x ∷ []
  insert_by le x (y ∷ ys) = let rest = insert_by le x ys in if le x y then x ∷ y ∷ ys else y ∷ rest

  abbrev pub sort_by : (A → A → Bool) → List A → List A
  sort_by le [] = []
  sort_by le (x ∷ xs) = insert_by le x (sort_by le xs)

-- An order that ORDER BY may sort by.
pub record IsOrder {A : Type 0} (le : A → A → Bool) : Type 0 where
  pub reflexive : (x : A) → le x x ≡ true
  pub total : (x y : A) → le x y ≡ false → le y x ≡ true
  pub transitive : (x y z : A) → le x y ≡ true → le y z ≡ true → le x z ≡ true

module _ {A : Type 0} (le : A → A → Bool) where
  pub first_by-none : (xs : List A) → first_by le xs ≡ none → xs ≡ []
  first_by-none [] h = refl
  first_by-none (x ∷ xs) h = ground arith

  pub first_by-Listed : (xs : List A) (y : A) → first_by le xs ≡ some y → Listed y xs
  first_by-Listed [] y h = cc
  first_by-Listed (x ∷ xs) y h = ground (arith, first_by-Listed xs y)

  -- No row comes before the one that is chosen.
  pub first_by-le :
      IsOrder le → (xs : List A) (y z : A) → first_by le xs ≡ some y → Listed z xs → le y z ≡ true
  first_by-le o [] y z h l = absurd l
  first_by-le o (x ∷ xs) y z h (inl same) = elim (Option-cases (first_by le xs)) [
    | inl e ↦ ground (arith, o.reflexive z)
    | inr (w, e) ↦ ground (arith, o.total z w, o.reflexive z)
  ]
  first_by-le o (x ∷ xs) y z h (inr later) = elim (Option-cases (first_by le xs)) [
    | inl e ↦ absurd (rw (first_by-none xs e) at later)
    | inr (w, e) ↦ ground (arith, first_by-le o xs w z e later, o.transitive x w z)
  ]

pub All-update {ℓ κ} :
    {A : Type ℓ} (P : A → Type κ) (p : A → Bool) (f : A → A) (xs : List A)
    → ((x : A) → P x → P (f x))
    → All P xs
    → All P (update p f xs)
All-update P p f [] keep h = tt
All-update P p f (x ∷ xs) keep (q, h) = elim (Bool-cases (p x)) [
  | inl e ↦ rw e (keep x q, All-update P p f xs keep h)
  | inr e ↦ rw e (q, All-update P p f xs keep h)
]

-- An update that leaves a column alone.
pub map-update {ℓ κ} :
    {A : Type ℓ} {B : Type κ} (g : A → B) (p : A → Bool) (f : A → A) (xs : List A)
    → ((x : A) → g (f x) ≡ g x)
    → map g (update p f xs) ≡ map g xs
map-update g p f [] keep = refl
map-update g p f (x ∷ xs) keep = elim (Bool-cases (p x)) [
  | inl e ↦ rw (e, keep x, map-update g p f xs keep) refl
  | inr e ↦ rw (e, map-update g p f xs keep) refl
]
