-- ===== src/Store/Jobs.antt =====
-- What the statements on the table `jobs` do to it.
use provider_engine.Base.{
  ◌+◌, Text, ◌==◌, ==_iff, List, [], ◌∷◌, ◌++◌, Bool, true, false, ◌≡◌, ◌≢◌, refl, count, All,
  arith, Bool-cases, inl, inr, Listed, sym, All-append, All-Listed,
}
use provider_engine.Errors.{Error, driver}
use provider_engine.Exec.{Result, ok, err}
use provider_engine.Store.Models.{JobRow, running, Tables}
use provider_engine.Store.Sql.{exists, update, All-update}
use provider_engine.Store.Postgres.{Reply, done, refused, unconfirmed, settle, waits_for}

-- No two rows have one id: the PRIMARY KEY.
abbrev pub DistinctIds : List JobRow → Type 0
DistinctIds [] = Unit
DistinctIds (x ∷ xs) = All (λ y. y.id ≢ x.id) xs × DistinctIds xs

abbrev pub has_id : Text → JobRow → Bool
has_id id r = r.id == id

pub All-ne_of_exists :
    (id : Text) (rows : List JobRow) → exists (has_id id) rows ≡ false → All (λ y. y.id ≢ id) rows
All-ne_of_exists id [] h = tt
All-ne_of_exists id (x ∷ xs) h = ground (arith, ==_iff x.id id, All-ne_of_exists id xs)

pub update-All_ne :
    (id : Text) (f : JobRow → JobRow) (rows : List JobRow)
    → All (λ y. y.id ≢ id) rows
    → update (has_id id) f rows ≡ rows
update-All_ne id f [] h = refl
update-All_ne id f (x ∷ xs) (n, h) = ground (arith, ==_iff x.id id, update-All_ne id f xs h)

-- An update of the row that was just added.
pub update-snoc :
    (id : Text) (f : JobRow → JobRow) (rows : List JobRow) (row : JobRow)
    → All (λ y. y.id ≢ id) rows
    → row.id ≡ id
    → update (has_id id) f (rows ++ row ∷ []) ≡ rows ++ f row ∷ []
update-snoc id f [] row n e = ground (arith, ==_iff row.id id)
update-snoc id f (x ∷ xs) row (n, ns) e =
    ground (arith, ==_iff x.id id, update-snoc id f xs row ns e)

pub DistinctIds-snoc :
    (rows : List JobRow) (r : JobRow)
    → DistinctIds rows
    → All (λ y. y.id ≢ r.id) rows
    → DistinctIds (rows ++ r ∷ [])
DistinctIds-snoc [] r d n = (tt, tt)
DistinctIds-snoc (x ∷ xs) r (h, d) (n, ns) =
    (All-append (λ y. y.id ≢ x.id) xs (r ∷ []) h (λ e. n (sym e), tt), DistinctIds-snoc xs r d ns)

abbrev pub start : JobRow → JobRow
start r = record r { status = running }

pub DistinctIds-start :
    (id : Text) (rows : List JobRow)
    → DistinctIds rows
    → DistinctIds (update (has_id id) start rows)
DistinctIds-start id [] d = tt
DistinctIds-start id (x ∷ xs) (h, d) =
    let later = (All-update (λ y. y.id ≢ x.id) (has_id id) start xs (λ y n. n) h) in
    elim (Bool-cases (x.id == id)) [
      | inl e ↦ rw e (later, DistinctIds-start id xs d)
      | inr e ↦ rw e (later, DistinctIds-start id xs d)
    ]

-- Starting a row that waits takes one from those that wait for its provider, and none from others.
pub count-start :
    (rows : List JobRow) (p : Text) (row : JobRow)
    → DistinctIds rows
    → Listed row rows
    → waits_for p row ≡ true
    → count (waits_for p) rows ≡ count (waits_for p) (update (has_id row.id) start rows) + 1
count-start [] p row d l w = absurd l
count-start (x ∷ xs) p row (h, d) (inl same) w =
    ground
      (arith, ==_iff x.id row.id, ==_iff x.provider_id p, update-All_ne row.id start xs (rw same h))
count-start (x ∷ xs) p row (h, d) (inr later) w = ground (
  arith,
  ==_iff x.id row.id,
  All-Listed (λ y. y.id ≢ x.id) xs row h later,
  count-start xs p row d later w,
)

pub count-start_other :
    (rows : List JobRow) (p q : Text) (row : JobRow)
    → q ≢ p
    → DistinctIds rows
    → Listed row rows
    → waits_for p row ≡ true
    → count (waits_for q) (update (has_id row.id) start rows) ≡ count (waits_for q) rows
count-start_other [] p q row n d l w = absurd l
count-start_other (x ∷ xs) p q row n (h, d) (inl same) w = ground (
  arith,
  ==_iff x.id row.id,
  ==_iff x.provider_id p,
  ==_iff x.provider_id q,
  update-All_ne row.id start xs (rw same h),
)
count-start_other (x ∷ xs) p q row n (h, d) (inr later) w = ground (
  arith,
  ==_iff x.id row.id,
  All-Listed (λ y. y.id ≢ x.id) xs row h later,
  count-start_other xs p q row n d later w,
)

-- A statement that takes the tables from `before` to `after` ends in one of three ways.
pub data Ran (before after : Tables) : Result (Unit {0}) × Tables → Type 0 where
  not_done : (e : Error) → Ran before after (err e, before)
  half_done : (e : Error) → Ran before after (err e, after)
  all_done : Ran before after (ok tt, after)

pub settle-Ran :
    (x : Reply) (before after : Tables) → Ran before after (settle x (ok tt, after) before)
settle-Ran done before after = all_done
settle-Ran (refused t) before after = not_done (driver t)
settle-Ran (unconfirmed t) before after = half_done (driver t)

-- A statement that the server refuses changes nothing.
pub settle-err :
    {A : Type 0} (x : Reply) (e : Error) (before : Tables)
    → (e' : Error) × (settle {A = A} x (err e, before) before ≡ (err e', before))
settle-err done e before = (e, refl)
settle-err (refused t) e before = (driver t, refl)
settle-err (unconfirmed t) e before = (driver t, refl)
