-- ===== src/Scheduler/Dispatch.antt =====
-- What a Submit that succeeds promises, and what one that fails may leave.
use provider_engine.Base.{Text, ◌∷◌, ◌≡◌, ◌≢◌, ◌⊎◌, refl, ap, inl, inr, Listed, false, sym, ◌∙◌}
use provider_engine.Errors.{no_rows, no_capacity}
use provider_engine.Exec.{Result, ok, err, continue, rewrap}
use provider_engine.World.{World, with_pg}
use provider_engine.Store.Models.{Provider, Tables}
use provider_engine.Store.Postgres.{Postgres, selecting_best, done, eligible}
use provider_engine.Store.Pending.{IsServer}
use provider_engine.Store.Best.{IsBest, best_provider-IsBest, best_provider-none_iff}
use provider_engine.Store.Redis.{Redis, push_job}
use provider_engine.Store.Redis.Laws.{IsRedis}
use provider_engine.Store.Redis.Queue.{queue, queue-push_job, queue-push_job_ne}
use provider_engine.Scheduler.{
  DeployRequest, DeployResult, submit, submit_to, found_provider, find_error,
}
use provider_engine.Scheduler.Outcome.{
  pending_row, scheduled_row, add_job, Submitted, rejected, left_pending, left_scheduled,
  push_failed, dispatched, submit-Submitted, pushed_world, best_provider-tables,
}

module _ (r : Redis) (db : Postgres) (job_id : Text) (req : DeployRequest) (w : World r) where
  -- The job is scheduled for the best provider, and its id is at the head of that provider's queue.
  pub record IsDispatched (res : DeployResult) (w' : World r) : Type 0 where
    pub provider : Provider
    pub best : IsBest req.cpu_cores req.memory_mb w.pg.providers provider
    pub to_provider : res.provider_id ≡ provider.id
    pub named : res.job_id ≡ job_id
    pub stored : w'.pg ≡ add_job w.pg (scheduled_row db job_id req provider.id)
    pub announced : queue r w'.redis provider.id ≡ job_id ∷ queue r w.redis provider.id
    pub others : (q : Text) → provider.id ≢ q → queue r w'.redis q ≡ queue r w.redis q

  module _ (ax : IsRedis r) (server : IsServer db) where
    best-IsDispatched :
        (pr row : Provider)
        → IsBest req.cpu_cores req.memory_mb w.pg.providers row
        → pr.id ≡ row.id
        → (push_job r pr.id job_id w.redis).0 ≡ ok tt
        → IsDispatched
            (record { job_id = job_id; provider_id = pr.id })
            (pushed_world r db job_id req w pr.id)
    best-IsDispatched pr row best same pushed = record {
      provider = row;
      best = best;
      to_provider = same;
      named = refl;
      stored = rw same refl;
      announced = rw (← same) (queue-push_job r ax pr.id job_id w.redis pushed);
      others = λ q n. queue-push_job_ne r ax pr.id q job_id w.redis (λ e. n (sym same ∙ e));
    }

    Submitted-IsDispatched :
        {out : Result DeployResult} {w' : World r}
        → Submitted r db job_id req w out w'
        → (res : DeployResult) → out ≡ ok res
        → IsDispatched res w'
    Submitted-IsDispatched (rejected e) res h = absurd (cc h)
    Submitted-IsDispatched (left_pending e f) res h = absurd (cc h)
    Submitted-IsDispatched (left_scheduled e p f) res h = absurd (cc h)
    Submitted-IsDispatched (push_failed e p f) res h = absurd (cc h)
    Submitted-IsDispatched (dispatched pr f found pushed) res h =
        let (row, best, form) =
          best_provider-IsBest db server req.cpu_cores req.memory_mb w.pg pr found in
        let e : record { job_id = job_id; provider_id = pr.id } ≡ res = cc h in
        rw (← e) (best-IsDispatched pr row best (ap (λ x. x.id) form) pushed)

    -- A Submit that succeeds returns the job's id and the id of an eligible provider with the most
    -- free memory; it has added one row to the jobs, scheduled for that provider, put the job's id
    -- at the head of the provider's queue, and left the other queues alone. It assumes that Redis
    -- does what the code relies on and that the queries meet the rows of the tables.
    pub submit-IsDispatched :
        (res : DeployResult)
        → (submit r db job_id req w).0 ≡ ok res
        → IsDispatched res (submit r db job_id req w).1
    submit-IsDispatched res h = Submitted-IsDispatched (submit-Submitted r db job_id req w) res h

  -- What may be left of a job when Submit fails.
  abbrev pub IsLeft : World r → Type 0
  IsLeft w' =
      (w'.pg ≡ w.pg)
      ⊎ ((w'.pg ≡ add_job w.pg (pending_row db job_id req))
          ⊎ ((p : Text) × (w'.pg ≡ add_job w.pg (scheduled_row db job_id req p))))

  Submitted-IsLeft :
      {out : Result DeployResult} {w' : World r} → Submitted r db job_id req w out w' → IsLeft w'
  Submitted-IsLeft (rejected e) = inl refl
  Submitted-IsLeft (left_pending e f) = inr (inl refl)
  Submitted-IsLeft (left_scheduled e p f) = inr (inr (p, refl))
  Submitted-IsLeft (push_failed e p f) = inr (inr (p, refl))
  Submitted-IsLeft (dispatched pr f found pushed) = inr (inr (pr.id, refl))

  -- However Submit ends, an error at any statement included, the tables are the old ones, or the
  -- old ones with one row added for the new job: pending without a provider, or scheduled.
  pub submit-IsLeft : IsLeft (submit r db job_id req w).1
  submit-IsLeft = Submitted-IsLeft (submit-Submitted r db job_id req w)

  module _ (server : IsServer db) where
    after_none :
        (out : Result Provider × Tables)
        → out.0 ≡ err no_rows
        → out.1 ≡ w.pg
        → continue (λ pr. submit_to r db job_id req pr) (rewrap (find_error req) (with_pg w out))
          ≡ (err (no_capacity req.cpu_cores req.memory_mb), w)
    unfolding find_error
    after_none (ok pr, t) h same = absurd (cc h)
    after_none (err e, t) h same = let is : e ≡ no_rows = cc h in rw (is, same) refl

    -- When no row of the providers is online with the cores and the free memory asked for, and the
    -- query is carried out, Submit answers that there is no capacity and changes nothing. It assumes that the
    -- query meets the rows of the table.
    submit-no_capacity :
        db.reply selecting_best ≡ done
        → ((x : Provider)
            → Listed x w.pg.providers
            → eligible req.cpu_cores req.memory_mb x ≡ false)
        → submit r db job_id req w ≡ (err (no_capacity req.cpu_cores req.memory_mb), w)
    unfolding submit found_provider
    submit-no_capacity up none_able =
        after_none _
          ((best_provider-none_iff db server req.cpu_cores req.memory_mb w.pg up).1 none_able)
          (best_provider-tables r db job_id req w)
