-- ===== src/Api/Runs/Lifecycle.antt =====
-- The life of a job as its users see it, which the tables of the control plane implement.
use provider_engine.Base.{
  Text, ◌==◌, ==_iff, ==_refl, List, [], ◌∷◌, ◌++◌, ◌≡◌, ◌≢◌, ◌⊎◌, All, All-Listed, Listed,
  Bool-cases, Bool, true, false, inl, inr, arith, if◌then◌else◌, ◌&&◌, sym, ap, ◌∙◌,
}
use provider_engine.Store.Models.{JobRow, JobStatus, pending, scheduled, running, failed}
use provider_engine.Store.Sql.{update}
use provider_engine.Store.Jobs.{
  DistinctIds, has_id, start, DistinctIds-snoc, DistinctIds-start, All-ne_of_exists, update-All_ne,
}
use provider_engine.Store.Postgres.{Postgres, waits_for, is_scheduled}
use provider_engine.Store.Pending.{Chosen-Listed, claimable}
use provider_engine.Store.Redis.{Redis}
use provider_engine.Api.Server.{Server, Config}
use provider_engine.Api.Runs.{Event, run}
use provider_engine.Api.Runs.Invariant.{IsServed}
use provider_engine.Api.Runs.Kept.{IsKept, IsPolledBy, IsPolledBy-any, run-kept}

-- where a job stands, with the provider it was given to
pub data Phase : Type 0 where
  unknown unassigned abandoned : Phase
  assigned delivered : Text → Phase

-- The life cycle of a row: a job is submitted, given to a provider, and running with that provider.
infix 30 ◌⟶◌ ◌⟶*◌
pub data ◌⟶◌ : Phase → Phase → Type 0 where
  submitted : unknown ⟶ unassigned
  given : {p : Text} → unassigned ⟶ assigned p
  handed_over : {p : Text} → assigned p ⟶ delivered p

pub data ◌⟶*◌ : Phase → Phase → Type 0 where
  stay : {a : Phase} → a ⟶* a
  go : {a b c : Phase} → a ⟶* b → b ⟶ c → a ⟶* c

abbrev pub phase_from : JobStatus → Text → Phase
phase_from pending p = unassigned
phase_from scheduled p = assigned p
phase_from running p = delivered p
phase_from failed p = abandoned

abbrev pub phase_of_row : JobRow → Phase
phase_of_row x = phase_from x.status x.provider_id

abbrev pub phase_of : Text → List JobRow → Phase
phase_of id [] = unknown
phase_of id (x ∷ xs) = if x.id == id then phase_of_row x else phase_of id xs

⟶*_trans : {a b c : Phase} → a ⟶* b → b ⟶* c → a ⟶* c
⟶*_trans h stay = h
⟶*_trans h (go i s) = go (⟶*_trans h i) s

claim :
    (s : JobStatus) (q : Text) (b : Bool)
    → (b && is_scheduled s) ≡ true
    → phase_from s q ⟶* delivered q
claim scheduled q b h = go stay handed_over
claim pending q true h = absurd (cc h)
claim pending q false h = absurd (cc h)
claim running q b h = stay
claim failed q true h = absurd (cc h)
claim failed q false h = absurd (cc h)

module _ (id : Text) where
  phase_of-snoc :
      (rows : List JobRow) (row : JobRow)
      → unknown ⟶* phase_of_row row
      → phase_of id rows ⟶* phase_of id (rows ++ row ∷ [])
  phase_of-snoc [] row h = elim (Bool-cases (row.id == id)) [ inl e ↦ rw e h | inr e ↦ rw e stay ]
  phase_of-snoc (x ∷ xs) row h = elim (Bool-cases (x.id == id)) [
    | inl e ↦ rw e stay
    | inr e ↦ rw e (phase_of-snoc xs row h)
  ]

  phase_of-start :
      (p : Text) (row : JobRow) (rows : List JobRow)
      → DistinctIds rows
      → Listed row rows
      → waits_for p row ≡ true
      → phase_of id rows ⟶* phase_of id (update (has_id row.id) start rows)
  phase_of-start p row [] d l w = absurd l
  phase_of-start p row (x ∷ xs) (h, d) (inl same) w = elim (Bool-cases (x.id == id)) [
    | inl e ↦ rw (same, ==_refl x.id, e) (claim x.status x.provider_id _ (rw same at w))
    | inr e ↦ rw (update-All_ne row.id start xs (rw same h), same, ==_refl x.id, e) stay
  ]
  phase_of-start p row (x ∷ xs) (h, d) (inr later) w =
      let apart : (x.id == row.id) ≡ false =
        (let ne = All-Listed (λ y. y.id ≢ x.id) xs row h later in
          ground (arith, ==_iff x.id row.id)) in
      elim (Bool-cases (x.id == id)) [
        | inl e ↦ rw (apart, e) stay
        | inr e ↦ rw (apart, e) (phase_of-start p row xs d later w)
      ]

-- The ids of the jobs are distinct, and the job has come from a to where it stands.
abbrev IsReached : Text → Phase → List JobRow → Type 0
IsReached id a rows = DistinctIds rows × (a ⟶* phase_of id rows)

waits_of_claimable :
    (db : Postgres) (p : Text) (row : JobRow) → claimable db p row ≡ true → waits_for p row ≡ true
waits_of_claimable db p row h = ground arith

new-phase :
    (row : JobRow) → (row.status ≡ pending) ⊎ (row.status ≡ scheduled) → unknown ⟶* phase_of_row row
new-phase row (inl e) = rw e (go stay submitted)
new-phase row (inr e) = rw e (go (go stay submitted) given)

IsReached-IsKept : (id : Text) (a : Phase) → IsKept (IsReached id a) (λ p. Unit)
IsReached-IsKept id a = record {
  of_new = λ rows row fresh new (d, h). (
    DistinctIds-snoc rows row d (All-ne_of_exists row.id rows fresh),
    ⟶*_trans h (phase_of-snoc id rows row (new-phase row new)),
  );
  of_claim = λ db p t row server q c (d, h).
      let (listed, good) = Chosen-Listed db server p t row c in
      (
        DistinctIds-start row.id t.jobs d,
        ⟶*_trans h (phase_of-start id p row t.jobs d listed (waits_of_claimable db p row good)),
      );
}

-- In any run of the control plane the row of a job only moves along its life cycle: it is submitted,
-- then scheduled with one provider, then running with that same provider. It assumes that the ids of
-- the jobs are distinct at first and that the queries meet the rows of the tables.
pub run-advances :
    (r : Redis) (cfg : Config) (id : Text) (s : Server r) (es : List Event)
    → DistinctIds s.world.pg.jobs
    → All IsServed es
    → phase_of id s.world.pg.jobs ⟶* phase_of id (run r cfg s es).world.pg.jobs
run-advances r cfg id s es d served =
    let (d', h) =
      run-kept r (IsReached id (phase_of id s.world.pg.jobs)) (λ p. Unit) (IsReached-IsKept id _)
        cfg s es served (IsPolledBy-any es) (d, stay) in
    h

-- The ids of the jobs are distinct, and the job is not running for this provider.
abbrev IsWithheld : Text → Text → List JobRow → Type 0
IsWithheld id p rows = DistinctIds rows × (phase_of id rows ≢ delivered p)

module _ (id p : Text) where
  withheld-snoc :
      (rows : List JobRow) (row : JobRow)
      → phase_of_row row ≢ delivered p
      → phase_of id rows ≢ delivered p
      → phase_of id (rows ++ row ∷ []) ≢ delivered p
  withheld-snoc [] row n h = elim (Bool-cases (row.id == id)) [ inl e ↦ rw e n | inr e ↦ rw e h ]
  withheld-snoc (x ∷ xs) row n h = elim (Bool-cases (x.id == id)) [
    | inl e ↦ rw e (rw e at h)
    | inr e ↦ rw e (withheld-snoc xs row n (rw e at h))
  ]

  withheld-start :
      (q : Text) (row : JobRow) (rows : List JobRow)
      → DistinctIds rows
      → Listed row rows
      → row.provider_id ≢ p
      → phase_of id rows ≢ delivered p
      → phase_of id (update (has_id row.id) start rows) ≢ delivered p
  withheld-start q row [] d l n h = absurd l
  withheld-start q row (x ∷ xs) (u, d) (inl same) n h = elim (Bool-cases (x.id == id)) [
    | inl e ↦
        rw (same, ==_refl x.id, e)
          (λ eq. let named : x.provider_id ≡ p = cc eq in n (ap (λ y. y.provider_id) same ∙ named))
    | inr e ↦ rw (update-All_ne row.id start xs (rw same u), same, ==_refl x.id, e) (rw e at h)
  ]
  withheld-start q row (x ∷ xs) (u, d) (inr later) n h =
      let apart : (x.id == row.id) ≡ false =
        (let ne = All-Listed (λ y. y.id ≢ x.id) xs row u later in
          ground (arith, ==_iff x.id row.id)) in
      elim (Bool-cases (x.id == id)) [
        | inl e ↦ rw (apart, e) (rw e at h)
        | inr e ↦ rw (apart, e) (withheld-start q row xs d later n (rw e at h))
      ]

new-withheld :
    (p : Text) (row : JobRow)
    → (row.status ≡ pending) ⊎ (row.status ≡ scheduled)
    → phase_of_row row ≢ delivered p
new-withheld p row (inl e) = rw e (λ eq. cc eq)
new-withheld p row (inr e) = rw e (λ eq. cc eq)

owner-waits_for : (q : Text) (row : JobRow) → waits_for q row ≡ true → row.provider_id ≡ q
owner-waits_for q row h =
    let same : (row.provider_id == q) ≡ true = ground arith in (==_iff row.provider_id q).0 same

IsWithheld-IsKept : (id p : Text) → IsKept (IsWithheld id p) (λ q. q ≢ p)
IsWithheld-IsKept id p = record {
  of_new = λ rows row fresh new (d, h). (
    DistinctIds-snoc rows row d (All-ne_of_exists row.id rows fresh),
    withheld-snoc id p rows row (new-withheld p row new) h,
  );
  of_claim = λ db q t row server ne c (d, h).
      let (listed, good) = Chosen-Listed db server q t row c in
      let owner : row.provider_id ≡ q = owner-waits_for q row (waits_of_claimable db q row good) in
      (
        DistinctIds-start row.id t.jobs d,
        withheld-start id p q row t.jobs d listed (λ eq. ne (sym owner ∙ eq)) h,
      );
}

-- A job gets to run for a provider only by a poll of this provider: in a run of the control plane
-- in which the provider does not poll, a job that was not running for it is not running for it
-- afterwards. It assumes that the ids of the jobs are distinct at first and that the queries meet
-- the rows of the tables.
pub run-withheld :
    (r : Redis) (cfg : Config) (id p : Text) (s : Server r) (es : List Event)
    → DistinctIds s.world.pg.jobs
    → All IsServed es
    → All (IsPolledBy (λ q. q ≢ p)) es
    → phase_of id s.world.pg.jobs ≢ delivered p
    → phase_of id (run r cfg s es).world.pg.jobs ≢ delivered p
run-withheld r cfg id p s es d served others h =
    (run-kept r (IsWithheld id p) (λ q. q ≢ p) (IsWithheld-IsKept id p) cfg s es served others
      (d, h)).1
