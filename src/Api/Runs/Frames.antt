-- ===== src/Api/Runs/Frames.antt =====
-- The scheduler leaves the providers and the counter of addresses alone, and the registry leaves
-- the jobs and the queues alone.
use provider_engine.Base.{
  ℕ, Text, ◌==◌, [], length, ◌≡◌, refl, ap, ◌∙◌, Option, Bool-cases, inl, inr, List, arith, map,
}
use provider_engine.Exec.{Result}
use provider_engine.World.{World}
use provider_engine.Store.Models.{Job, JobRow, Time, Tables}
use provider_engine.Store.Postgres.{Postgres}
use provider_engine.Store.Pending.{Next, no_job, failed, claimed, lost, next_pending_job-Next}
use provider_engine.Store.Redis.{
  Redis, push_job, pop_job, token_valid, alloc_wg_ip, alloc_port, job_queue_key,
}
use provider_engine.Store.Redis.Laws.{IsRedis}
use provider_engine.Store.Redis.Queue.{queue, push_job-state, pop_job-state}
use provider_engine.Store.Redis.Counter.{drawn, map_state}
use provider_engine.Scheduler.{DeployRequest, DeployResult, submit, poll_for_provider}
use provider_engine.Scheduler.Outcome.{
  Submitted, rejected, left_pending, left_scheduled, push_failed, dispatched, submit-Submitted,
}
use provider_engine.Scheduler.Poll.{Polled, pop_failed, woken_by_none, woken, poll-Polled}
use provider_engine.Scheduler.Wakeups.{IsWoken}
use provider_engine.Registry.{Config, RegisterRequest, RegisterResult, register}
use provider_engine.Registry.Outcome.{
  Registered, unchecked, unknown_token, no_address, no_port, not_stored, half_stored, registered,
  register-Registered, checked,
}
use provider_engine.Registry.Addresses.{IsAddressed, IsAddressed-same}

module _ (r : Redis) (ax : IsRedis r) where
  drawn-push_job : (p id : Text) (s : r.Data) → drawn r (push_job r p id s).1 ≡ drawn r s
  drawn-push_job p id s =
      ap (drawn r) (push_job-state r p id s) ∙ ax.lpush_counter (job_queue_key p) id _ s

  drawn-pop_job : (p : Text) (wait : ℕ) (s : r.Data) → drawn r (pop_job r p wait s).1 ≡ drawn r s
  drawn-pop_job p wait s =
      ap (drawn r) (pop_job-state r ax p wait s) ∙ ax.brpop_counter _ (job_queue_key p) _ s

  module _ (db : Postgres) where
    Submitted-IsAddressed :
        (job_id : Text) (req : DeployRequest) (w : World r) {res : Result DeployResult}
        {w' : World r}
        → Submitted r db job_id req w res w'
        → IsAddressed r w.pg.providers w.redis
        → IsAddressed r w'.pg.providers w'.redis
    Submitted-IsAddressed job_id req w (rejected e) v = v
    Submitted-IsAddressed job_id req w (left_pending e f) v = v
    Submitted-IsAddressed job_id req w (left_scheduled e p f) v = v
    Submitted-IsAddressed job_id req w (push_failed e p f) v =
        IsAddressed-same r ax w.pg.providers _ w.redis _ refl (drawn-push_job p job_id w.redis) v
    Submitted-IsAddressed job_id req w (dispatched pr f found pushed) v =
        IsAddressed-same r ax w.pg.providers _ w.redis _ refl (drawn-push_job pr.id job_id w.redis)
          v

    pub submit-IsAddressed :
        (job_id : Text) (req : DeployRequest) (w : World r)
        → IsAddressed r w.pg.providers w.redis
        → IsAddressed r (submit r db job_id req w).1.pg.providers (submit r db job_id req w).1.redis
    submit-IsAddressed job_id req w =
        Submitted-IsAddressed job_id req w (submit-Submitted r db job_id req w)

    Next-providers :
        {p : Text} {t : Tables} (out : Result (Option Job) × Tables)
        → Next db p t out
        → out.1.providers ≡ t.providers
    Next-providers out (no_job c) = refl
    Next-providers out (failed e) = refl
    Next-providers out (claimed row c) = refl
    Next-providers out (lost e row c) = refl

    Polled-IsAddressed :
        (p : Text) (wait : ℕ) (w : World r) (out : Result (Option Job) × World r)
        → Polled r db p wait w out
        → IsAddressed r w.pg.providers w.redis
        → IsAddressed r out.1.pg.providers out.1.redis
    Polled-IsAddressed p wait w out (pop_failed e f) v =
        IsAddressed-same r ax w.pg.providers _ w.redis _ refl (drawn-pop_job p wait w.redis) v
    Polled-IsAddressed p wait w out (woken_by_none e) v =
        IsAddressed-same r ax w.pg.providers _ w.redis _ refl (drawn-pop_job p wait w.redis) v
    Polled-IsAddressed p wait w out (woken x n e) v =
        IsAddressed-same r ax w.pg.providers _ w.redis _
          (ap (λ rows. map (λ y. y.wg_ip) rows)
            (Next-providers _ (next_pending_job-Next db p w.pg)))
          (drawn-pop_job p wait w.redis) v

    pub poll-IsAddressed :
        (p : Text) (wait : ℕ) (w : World r)
        → IsAddressed r w.pg.providers w.redis
        → IsAddressed r
            (poll_for_provider r db p wait w).1.pg.providers
            (poll_for_provider r db p wait w).1.redis
    poll-IsAddressed p wait w v = Polled-IsAddressed p wait w _ (poll-Polled r db p wait w) v

  queue-token_valid :
      (token p : Text) (s : r.Data) → queue r (token_valid r token s).1 p ≡ queue r s p
  unfolding token_valid
  queue-token_valid token p s = elim (Bool-cases (token == [])) [
    | inl e ↦ rw e refl
    | inr e ↦ rw e (ax.sismember_items _ _ _ s)
  ]

  queue-alloc_wg_ip : (p : Text) (s : r.Data) → queue r (alloc_wg_ip r s).1 p ≡ queue r s p
  unfolding alloc_wg_ip
  queue-alloc_wg_ip p s = ap (λ u. queue r u p) (map_state r _ _) ∙ ax.incr_items _ _ s

  queue-alloc_port : (p : Text) (s : r.Data) → queue r (alloc_port r s).1 p ≡ queue r s p
  unfolding alloc_port
  queue-alloc_port p s = ap (λ u. queue r u p) (map_state r _ _) ∙ ax.incr_items _ _ s

  IsWoken-same :
      (jobs : List JobRow) (s s' : r.Data)
      → ((p : Text) → queue r s' p ≡ queue r s p)
      → IsWoken r jobs s
      → IsWoken r jobs s'
  IsWoken-same jobs s s' same v = record {
    distinct = v.distinct;
    covered = λ p. omega (arith, ap length (same p), v.covered p);
  }

  module _ (db : Postgres) (cfg : Config) (id : Text) (now : Time) (req : RegisterRequest) where
    Registered-IsWoken :
        (w : World r) (out : Result RegisterResult × World r)
        → Registered r db cfg id now req w out
        → IsWoken r w.pg.jobs w.redis
        → IsWoken r out.1.pg.jobs out.1.redis
    Registered-IsWoken w out end v = go out end
      where
        s1 : r.Data
        s1 = checked r db cfg id now req w

        at_check : IsWoken r w.pg.jobs s1
        at_check = IsWoken-same w.pg.jobs w.redis s1 (λ p. queue-token_valid req.token p w.redis) v

        at_address : IsWoken r w.pg.jobs (alloc_wg_ip r s1).1
        at_address = IsWoken-same w.pg.jobs s1 _ (λ p. queue-alloc_wg_ip p s1) at_check

        at_port : IsWoken r w.pg.jobs (alloc_port r (alloc_wg_ip r s1).1).1
        at_port =
            IsWoken-same w.pg.jobs _ _ (λ p. queue-alloc_port p (alloc_wg_ip r s1).1) at_address

        go :
            (o : Result RegisterResult × World r)
            → Registered r db cfg id now req w o
            → IsWoken r o.1.pg.jobs o.1.redis
        go o (unchecked e f) = at_check
        go o (unknown_token e) = at_check
        go o (no_address e a) = at_address
        go o (no_port e a) = at_port
        go o (not_stored e a) = at_port
        go o (half_stored e ip port a got) = at_port
        go o (registered ip port a got) = at_port

    pub register-IsWoken :
        (w : World r)
        → IsWoken r w.pg.jobs w.redis
        → IsWoken r
            (register r db cfg id now req w).1.pg.jobs
            (register r db cfg id now req w).1.redis
    register-IsWoken w v = Registered-IsWoken w _ (register-Registered r db cfg id now req w) v
