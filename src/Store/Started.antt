-- ===== src/Store/Started.antt =====
-- The status of a job in the table, which NextPendingJob sets to running.
use provider_engine.Base.{
  Text, ◌==◌, ==_iff, ==_refl, List, [], ◌∷◌, ◌++◌, Option, none, some, ◌≡◌, ◌≢◌, refl,
  if◌then◌else◌, arith, Listed, All-Listed, Bool-cases, inl, inr, sym,
}
use provider_engine.Store.Models.{JobRow, JobStatus, running}
use provider_engine.Store.Sql.{update}
use provider_engine.Store.Jobs.{DistinctIds, has_id, start}

-- the status of the job with that id
abbrev pub status_of : Text → List JobRow → Option JobStatus
status_of id [] = none
status_of id (x ∷ xs) = if x.id == id then some x.status else status_of id xs

pub status_of-append :
    (id : Text) (rows more : List JobRow) (s : JobStatus)
    → status_of id rows ≡ some s
    → status_of id (rows ++ more) ≡ some s
status_of-append id [] more s h = absurd (cc h)
status_of-append id (x ∷ xs) more s h = elim (Bool-cases (x.id == id)) [
  | inl e ↦ rw e (rw e at h)
  | inr e ↦ rw e (status_of-append id xs more s (rw e at h))
]

pub status_of-start :
    (id other : Text) (rows : List JobRow)
    → status_of id rows ≡ some running
    → status_of id (update (has_id other) start rows) ≡ some running
status_of-start id other [] h = absurd (cc h)
status_of-start id other (x ∷ xs) h = ground (arith, status_of-start id other xs)

pub status_of-started :
    (rows : List JobRow) (row : JobRow)
    → Listed row rows
    → status_of row.id (update (has_id row.id) start rows) ≡ some running
status_of-started [] row l = absurd l
status_of-started (x ∷ xs) row (inl same) = rw (same, ==_refl x.id, ==_refl x.id) refl
status_of-started (x ∷ xs) row (inr later) = elim (Bool-cases (x.id == row.id)) [
  | inl e ↦ rw (e, e) refl
  | inr e ↦ rw (e, e) (status_of-started xs row later)
]

-- The ids are distinct, so the status that is found is that of the row.
pub status_of-Listed :
    (rows : List JobRow) (row : JobRow)
    → DistinctIds rows
    → Listed row rows
    → status_of row.id rows ≡ some row.status
status_of-Listed [] row d l = absurd l
status_of-Listed (x ∷ xs) row (h, d) (inl same) = rw (same, ==_refl x.id) refl
status_of-Listed (x ∷ xs) row (h, d) (inr later) = elim (Bool-cases (x.id == row.id)) [
  | inl e ↦ absurd (All-Listed (λ y. y.id ≢ x.id) xs row h later (sym ((==_iff x.id row.id).0 e)))
  | inr e ↦ rw e (status_of-Listed xs row d later)
]
