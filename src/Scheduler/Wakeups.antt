-- ===== src/Scheduler/Wakeups.antt =====
-- The wake-up queues of Redis against the table of jobs.
use provider_engine.Base.{
  ℕ, ◌+◌, ◌≤◌, Text, ◌==◌, ==_iff, List, [], ◌∷◌, Bool, true, false, ◌≡◌, ◌≢◌, ap, count,
  count-append, length, length-append, arith, Bool-cases, Option, some, inl, inr, ◌&&◌,
}
use provider_engine.Exec.{Result}
use provider_engine.World.{World}
use provider_engine.Store.Models.{Job, JobRow, Tables}
use provider_engine.Store.Sql.{exists}
use provider_engine.Store.Postgres.{Postgres, waits_for}
use provider_engine.Store.Redis.{Redis, push_job}
use provider_engine.Store.Redis.Laws.{IsRedis}
use provider_engine.Store.Redis.Queue.{
  queue, length-push_job, queue-push_job_ne, length-pop_job, queue-pop_job,
}
use provider_engine.Store.Jobs.{
  DistinctIds, has_id, All-ne_of_exists, DistinctIds-snoc, DistinctIds-start, count-start,
  count-start_other,
}
use provider_engine.Store.Pending.{
  IsServer, started, Next, no_job, failed, claimed, lost, next_pending_job-Next, Chosen,
  Chosen-Listed,
}
use provider_engine.Scheduler.{DeployRequest, DeployResult, submit, poll_for_provider}
use provider_engine.Scheduler.Poll.{
  Polled, pop_failed, woken_by_none, woken, popped_data, poll-Polled,
}
use provider_engine.Scheduler.Outcome.{
  pending_row, scheduled_row, add_job, Submitted, rejected, left_pending, left_scheduled,
  push_failed, dispatched, submit-Submitted,
}

and_left : (a b : Bool) → (a && b) ≡ true → a ≡ true
and_left a b h = ground arith

-- The ids of the jobs are distinct, and every id in a provider's queue has a job that is scheduled
-- for the provider behind it: the queue is no longer than those jobs are many.
pub record IsWoken (r : Redis) (jobs : List JobRow) (redis : r.Data) : Type 0 where
  pub distinct : DistinctIds jobs
  pub covered : (p : Text) → length (queue r redis p) ≤ count (waits_for p) jobs

module _ (r : Redis) (ax : IsRedis r) where
  IsWoken-pending :
      (db : Postgres) (job_id : Text) (req : DeployRequest) (t : Tables) (s : r.Data)
      → exists (has_id job_id) t.jobs ≡ false
      → IsWoken r t.jobs s
      → IsWoken r (add_job t (pending_row db job_id req)).jobs s
  IsWoken-pending db job_id req t s fresh v = record {
    distinct =
        DistinctIds-snoc t.jobs (pending_row db job_id req) v.distinct
          (All-ne_of_exists job_id t.jobs fresh);
    covered = λ p.
        ground
          (arith, v.covered p, count-append (waits_for p) t.jobs (pending_row db job_id req ∷ []));
  }

  IsWoken-scheduled :
      (db : Postgres) (job_id p : Text) (req : DeployRequest) (t : Tables) (s : r.Data)
      → exists (has_id job_id) t.jobs ≡ false
      → IsWoken r t.jobs s
      → IsWoken r (add_job t (scheduled_row db job_id req p)).jobs s
  IsWoken-scheduled db job_id p req t s fresh v = record {
    distinct =
        DistinctIds-snoc t.jobs (scheduled_row db job_id req p) v.distinct
          (All-ne_of_exists job_id t.jobs fresh);
    covered = λ q. ground (
      arith,
      v.covered q,
      count-append (waits_for q) t.jobs (scheduled_row db job_id req p ∷ []),
    );
  }

  IsWoken-pushed :
      (db : Postgres) (job_id p : Text) (req : DeployRequest) (t : Tables) (s : r.Data)
      → exists (has_id job_id) t.jobs ≡ false
      → IsWoken r t.jobs s
      → IsWoken r (add_job t (scheduled_row db job_id req p)).jobs (push_job r p job_id s).1
  IsWoken-pushed db job_id p req t s fresh v = record {
    distinct =
        DistinctIds-snoc t.jobs (scheduled_row db job_id req p) v.distinct
          (All-ne_of_exists job_id t.jobs fresh);
    covered = λ q. ground (
      arith,
      v.covered q,
      ==_iff p q,
      length-push_job r ax p job_id s,
      queue-push_job_ne r ax p q job_id s,
      count-append (waits_for q) t.jobs (scheduled_row db job_id req p ∷ []),
    );
  }

  Submitted-IsWoken :
      {db : Postgres} {job_id : Text} {req : DeployRequest} {w : World r}
      {res : Result DeployResult} {w' : World r}
      → Submitted r db job_id req w res w'
      → IsWoken r w.pg.jobs w.redis
      → IsWoken r w'.pg.jobs w'.redis
  Submitted-IsWoken (rejected e) v = v
  Submitted-IsWoken {db} {job_id} {req} {w} (left_pending e fresh) v =
      IsWoken-pending db job_id req w.pg w.redis fresh v
  Submitted-IsWoken {db} {job_id} {req} {w} (left_scheduled e p fresh) v =
      IsWoken-scheduled db job_id p req w.pg w.redis fresh v
  Submitted-IsWoken {db} {job_id} {req} {w} (push_failed e p fresh) v =
      IsWoken-pushed db job_id p req w.pg w.redis fresh v
  Submitted-IsWoken {db} {job_id} {req} {w} (dispatched pr fresh found pushed) v =
      IsWoken-pushed db job_id pr.id req w.pg w.redis fresh v

  -- However Submit ends, an error at any statement included, if the ids of the jobs are distinct and
  -- no provider's queue holds more ids than it has scheduled jobs, this is still so afterwards. It
  -- assumes that Redis does what the code relies on.
  pub submit-IsWoken :
      (db : Postgres) (job_id : Text) (req : DeployRequest) (w : World r)
      → IsWoken r w.pg.jobs w.redis
      → IsWoken r (submit r db job_id req w).1.pg.jobs (submit r db job_id req w).1.redis
  submit-IsWoken db job_id req w v = Submitted-IsWoken (submit-Submitted r db job_id req w) v

  IsWoken-less :
      (jobs : List JobRow) (s s' : r.Data)
      → ((q : Text) → length (queue r s' q) ≤ length (queue r s q))
      → IsWoken r jobs s
      → IsWoken r jobs s'
  IsWoken-less jobs s s' less v = record {
    distinct = v.distinct;
    covered = λ q. omega (arith, less q, v.covered q);
  }

  module _ {db : Postgres} (server : IsServer db) where
    IsWoken-started :
        (p : Text) (t : Tables) (row : JobRow) (s s' : r.Data)
        → Chosen db p t (some row)
        → length (queue r s' p) + 1 ≤ length (queue r s p)
        → ((q : Text) → length (queue r s' q) ≤ length (queue r s q))
        → IsWoken r t.jobs s
        → IsWoken r (started t row).jobs s'
    IsWoken-started p t row s s' c fewer none_more v =
        let (listed, good) = Chosen-Listed db server p t row c in
        record {
          distinct = DistinctIds-start row.id t.jobs v.distinct;
          covered = λ q. elim (Bool-cases (q == p)) [
            | inl e ↦
                let same = (==_iff q p).0 e in
                rw same (
                  omega (
                    arith,
                    fewer,
                    v.covered p,
                    count-start t.jobs p row v.distinct listed (and_left _ _ good),
                  ))
            | inr e ↦
                let differ : q ≢ p = λ same. cc (e, (==_iff q p).1 same) in
                omega (
                  arith,
                  none_more q,
                  v.covered q,
                  count-start_other t.jobs p q row differ v.distinct listed (and_left _ _ good),
                )
          ];
        }

    Next-IsWoken :
        (p : Text) (t : Tables) (s s' : r.Data) (out : Result (Option Job) × Tables)
        → Next db p t out
        → length (queue r s' p) + 1 ≤ length (queue r s p)
        → ((q : Text) → length (queue r s' q) ≤ length (queue r s q))
        → IsWoken r t.jobs s
        → IsWoken r out.1.jobs s'
    Next-IsWoken p t s s' out (no_job c) fewer less v = IsWoken-less t.jobs s s' less v
    Next-IsWoken p t s s' out (failed e) fewer less v = IsWoken-less t.jobs s s' less v
    Next-IsWoken p t s s' out (claimed row c) fewer less v =
        IsWoken-started p t row s s' c fewer less v
    Next-IsWoken p t s s' out (lost e row c) fewer less v =
        IsWoken-started p t row s s' c fewer less v

    Polled-IsWoken :
        (p : Text) (wait : ℕ) (w : World r) (out : Result (Option Job) × World r)
        → Polled r db p wait w out
        → IsWoken r w.pg.jobs w.redis
        → IsWoken r out.1.pg.jobs out.1.redis
    Polled-IsWoken p wait w out (pop_failed e f) v =
        IsWoken-less w.pg.jobs w.redis _ (λ q. length-pop_job r ax p q wait w.redis) v
    Polled-IsWoken p wait w out (woken_by_none e) v =
        IsWoken-less w.pg.jobs w.redis _ (λ q. length-pop_job r ax p q wait w.redis) v
    Polled-IsWoken p wait w out (woken x n e) v =
        Next-IsWoken p w.pg w.redis _ _ (next_pending_job-Next db p w.pg)
          (omega (
            arith,
            ap length (queue-pop_job r ax p x wait w.redis n e),
            length-append (queue r (popped_data r db p wait w) p) (x ∷ []),
          ))
          (λ q. length-pop_job r ax p q wait w.redis) v

    -- However PollForProvider ends, an error at any statement included, if the ids of the jobs are
    -- distinct and no provider's queue holds more ids than it has scheduled jobs, this is still so
    -- afterwards. It assumes that Redis does what the code relies on and that the query meets the
    -- rows of the table.
    pub poll-IsWoken :
        (p : Text) (wait : ℕ) (w : World r)
        → IsWoken r w.pg.jobs w.redis
        → IsWoken r
            (poll_for_provider r db p wait w).1.pg.jobs
            (poll_for_provider r db p wait w).1.redis
    poll-IsWoken p wait w v = Polled-IsWoken p wait w _ (poll-Polled r db p wait w) v
