-- ===== src/Scheduler/Delivery.antt =====
-- What PollForProvider delivers, and when it must.
use provider_engine.Base.{
  leb, ℕ, ◌+◌, ◌≤◌, Text, List, [], ◌∷◌, Bool, true, false, not, ◌&&◌, Option, some, ◌≡◌, ◌≢◌, refl,
  ap, count, length, length-append, Listed, Listed-select, select-Listed, select, arith,
  Option-cases, Bool-cases, inl, inr,
}
use provider_engine.Exec.{Result, ok}
use provider_engine.World.{World}
use provider_engine.Store.Models.{Job, JobRow, Tables}
use provider_engine.Store.Sql.{
  first_by, IsOrder, first_by-none, first_by-Listed, first_by-le, update,
}
use provider_engine.Store.Postgres.{
  Postgres, Statement, done, waits_for, older, scan_job, next_pending_job, start_row,
}
use provider_engine.Store.Jobs.{has_id, start}
use provider_engine.Store.Pending.{
  IsServer, claimable, started, Next, no_job, failed, claimed, lost, next_pending_job-Next,
}
use provider_engine.Store.Redis.{Redis, pop_job}
use provider_engine.Store.Redis.Laws.{IsRedis}
use provider_engine.Store.Redis.Queue.{queue, queue-pop_job}
use provider_engine.Scheduler.{poll_for_provider}
use provider_engine.Scheduler.Poll.{
  Polled, pop_failed, woken_by_none, woken, popped_data, poll-Polled,
}
use provider_engine.Scheduler.Wakeups.{IsWoken}

older-IsOrder : IsOrder older
older-IsOrder = record {
  reflexive = λ x. ground arith;
  total = λ x y h. ground arith;
  transitive = λ x y z h k. ground arith;
}

-- The job comes from a row that waits for the provider and that nobody has locked, as old as any
-- such row; that row alone is set to running.
pub record IsDelivered (db : Postgres) (p : Text) (t : Tables) (job : Job) (t' : Tables)
    : Type 0 where
  pub row : JobRow
  pub listed : Listed row t.jobs
  pub waiting : waits_for p row ≡ true
  pub unlocked : db.locked row.id ≡ false
  pub oldest :
      (x : JobRow) → Listed x t.jobs → claimable db p x ≡ true → row.created_at ≤ x.created_at
  pub read : job ≡ scan_job db row
  pub running : t' ≡ record t { jobs = update (has_id row.id) start t.jobs }

able_both : (a b : Bool) → (a && not b) ≡ true → (a ≡ true) × (b ≡ false)
able_both a b h = ground arith

leb_le : (a b : ℕ) → leb a b ≡ true → a ≤ b
leb_le a b h = ground arith

module _ (db : Postgres) (server : IsServer db) (p : Text) (t : Tables) where
  able_waits :
      (row : JobRow)
      → claimable db p row ≡ true
      → (waits_for p row ≡ true) × (db.locked row.id ≡ false)
  able_waits row good = able_both (waits_for p row) (db.locked row.id) good

  claimed-IsDelivered :
      (row : JobRow)
      → first_by older (select (claimable db p) (db.scan_jobs t.jobs)) ≡ some row
      → IsDelivered db p t (scan_job db row) (started t row)
  claimed-IsDelivered row e =
      let (seen, good) = Listed-select (claimable db p) row _ (first_by-Listed older _ row e) in
      let able_parts = able_waits row good in
      record {
        row = row;
        listed = (server.jobs_same t.jobs row).0 seen;
        waiting = able_parts.0;
        unlocked = able_parts.1;
        oldest = λ x l able. leb_le row.created_at x.created_at (
            first_by-le older older-IsOrder _ row x e
              (select-Listed (claimable db p) x _ ((server.jobs_same t.jobs x).1 l) able));
        read = refl;
        running = refl;
      }

  Next-IsDelivered :
      {out : Result (Option Job) × Tables}
      → Next db p t out
      → (job : Job) → out.0 ≡ ok (some job)
      → IsDelivered db p t job out.1
  Next-IsDelivered (no_job c) job h = absurd (cc h)
  Next-IsDelivered (failed e) job h = absurd (cc h)
  Next-IsDelivered (claimed row c) job h =
      let e : scan_job db row ≡ job = cc h in rw (← e) (claimed-IsDelivered row c)
  Next-IsDelivered (lost e row c) job h = absurd (cc h)

  -- A job that NextPendingJob returns was scheduled for that provider, was locked by nobody, was
  -- as old as any such job, and is now running, with no other job and no other table changed; it
  -- assumes that the query meets the rows of the table.
  pub next_pending_job-IsDelivered :
      (job : Job)
      → (next_pending_job db p t).0 ≡ ok (some job)
      → IsDelivered db p t job (next_pending_job db p t).1
  next_pending_job-IsDelivered = Next-IsDelivered (next_pending_job-Next db p t)

  -- Some row waits for the provider.
  waiting_row :
      (rows : List JobRow)
      → 1 ≤ count (waits_for p) rows
      → (row : JobRow) × Listed row rows × (waits_for p row ≡ true)
  waiting_row [] h = absurd (omega arith)
  waiting_row (x ∷ xs) h = elim (Bool-cases (waits_for p x)) [
    | inl e ↦ (x, inl refl, e)
    | inr e ↦
        let (row, l, good) =
          waiting_row xs (let more : 1 ≤ 0 + count (waits_for p) xs = rw e at h in omega arith) in
        (row, inr l, good)
  ]

  module _ (up : (s : Statement) → db.reply s ≡ done)
      (free : (id : Text) → db.locked id ≡ false) where
    claim :
        1 ≤ count (waits_for p) t.jobs
        → (row : JobRow) × (first_by older (select (claimable db p) (db.scan_jobs t.jobs))
            ≡ some row)
    claim h = elim (Option-cases (first_by older (select (claimable db p) (db.scan_jobs t.jobs)))) [
      | inr found ↦ found
      | inl e ↦
          let (row, l, good) = waiting_row t.jobs h in
          let able : claimable db p row ≡ true = rw (good, free row.id) refl in
          absurd (
            rw (first_by-none older (select (claimable db p) (db.scan_jobs t.jobs)) e) at
              (select-Listed (claimable db p) row _ ((server.jobs_same t.jobs row).1 l) able))
    ]

    -- When a job is scheduled for the provider, nobody has locked a row and every statement is
    -- carried out, NextPendingJob returns a job.
    pub next_pending_job-some :
        1 ≤ count (waits_for p) t.jobs → (job : Job) × ((next_pending_job db p t).0 ≡ ok (some job))
    unfolding next_pending_job start_row
    next_pending_job-some h = let (row, e) = claim h in (scan_job db row, simp (up, e))

module _ (r : Redis) (ax : IsRedis r) (db : Postgres) (server : IsServer db) where
  Polled-IsDelivered :
      {p : Text} {wait : ℕ} {w : World r} {out : Result (Option Job) × World r}
      → Polled r db p wait w out
      → (job : Job) → out.0 ≡ ok (some job)
      → IsDelivered db p w.pg job out.1.pg
  Polled-IsDelivered (pop_failed e f) job h = absurd (cc h)
  Polled-IsDelivered (woken_by_none e) job h = absurd (cc h)
  Polled-IsDelivered {p} {wait} {w} (woken v n e) job h =
      next_pending_job-IsDelivered db server p w.pg job h

  -- The job that a poll delivers to a provider was scheduled for that provider, was locked by
  -- nobody, was as old as any such job, and is now running, with no other job and no other table
  -- changed; it assumes that the query meets the rows of the table.
  pub poll-IsDelivered :
      (p : Text) (wait : ℕ) (w : World r) (job : Job)
      → (poll_for_provider r db p wait w).0 ≡ ok (some job)
      → IsDelivered db p w.pg job (poll_for_provider r db p wait w).1.pg
  poll-IsDelivered p wait w = Polled-IsDelivered (poll-Polled r db p wait w)

  Polled-some :
      {p : Text} {wait : ℕ} {w : World r} {out : Result (Option Job) × World r}
      → ((s : Statement) → db.reply s ≡ done)
      → ((id : Text) → db.locked id ≡ false)
      → IsWoken r w.pg.jobs w.redis
      → (v : Text) → v ≢ []
      → (pop_job r p wait w.redis).0 ≡ ok v
      → Polled r db p wait w out
      → (job : Job) × (out.0 ≡ ok (some job))
  Polled-some up free sound v n got (pop_failed e f) = absurd (cc (got, f))
  Polled-some up free sound v n got (woken_by_none e) = absurd (n (cc (got, e)))
  Polled-some {p} {wait} {w} up free sound v n got (woken x m e) =
      next_pending_job-some db server p w.pg up free (
        omega (
          arith,
          sound.covered p,
          ap length (queue-pop_job r ax p x wait w.redis m e),
          length-append (queue r (popped_data r db p wait w) p) (x ∷ []),
        ))

  -- When every statement is carried out, nobody has locked a row, and no queue is longer than the
  -- jobs that are scheduled for its provider are many, then a poll that Redis wakes with a job's id
  -- returns a job. It assumes that Redis does what the code relies on and that the query meets the
  -- rows of the table.
  pub poll-some :
      ((s : Statement) → db.reply s ≡ done)
      → ((id : Text) → db.locked id ≡ false)
      → (p : Text) (wait : ℕ) (w : World r) → IsWoken r w.pg.jobs w.redis
      → (v : Text) → v ≢ []
      → (pop_job r p wait w.redis).0 ≡ ok v
      → (job : Job) × ((poll_for_provider r db p wait w).0 ≡ ok (some job))
  poll-some up free p wait w sound v n got =
      Polled-some up free sound v n got (poll-Polled r db p wait w)
