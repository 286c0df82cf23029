-- ===== src/Scheduler/Poll.antt =====
-- Every way in which PollForProvider can end.
use provider_engine.Base.{
  ℕ, Text, ◌==◌, ==_iff, [], Option, none, ◌≡◌, ◌≢◌, refl, ap, if◌then◌else◌, Bool-cases, inl, inr,
  ◌∙◌,
}
use provider_engine.Errors.{Error}
use provider_engine.Exec.{Result, ok, err, continue, pure}
use provider_engine.World.{World, with_redis, on_pg}
use provider_engine.Store.Models.{Job}
use provider_engine.Store.Postgres.{Postgres, next_pending_job}
use provider_engine.Store.Redis.{Redis, pop_job}
use provider_engine.Scheduler.{poll_for_provider}

module _ (r : Redis) (db : Postgres) (p : Text) (wait : ℕ) (w : World r) where
  abbrev pub popped_data : r.Data
  popped_data = (pop_job r p wait w.redis).1

  pub data Polled : Result (Option Job) × World r → Type 0 where
    pop_failed :
        (e : Error)
        → (pop_job r p wait w.redis).0 ≡ err e
        → Polled (err e, record w { redis = popped_data })
    -- the wait ended, or an empty id was popped
    woken_by_none :
        (pop_job r p wait w.redis).0 ≡ ok [] → Polled (ok none, record w { redis = popped_data })
    woken :
        (v : Text)
        → v ≢ []
        → (pop_job r p wait w.redis).0 ≡ ok v
        → Polled (
          (next_pending_job db p w.pg).0,
          record { pg = (next_pending_job db p w.pg).1; redis = popped_data },
        )

  abbrev take_job : Text → World r → Result (Option Job) × World r
  take_job v = if v == [] then pure none else on_pg (next_pending_job db p)

  after_pop :
      (out : Result Text × r.Data)
      → pop_job r p wait w.redis ≡ out
      → Polled (continue take_job (with_redis w out))
  after_pop (err e, s) h = rw (← (ap (λ o. o.1) h)) (pop_failed e (ap (λ o. o.0) h))
  after_pop (ok v, s) h = rw (← (ap (λ o. o.1) h)) (elim (Bool-cases (v == [])) [
    | inl nil ↦ rw nil (woken_by_none (ap (λ o. o.0) h ∙ ap ok ((==_iff v []).0 nil)))
    | inr full ↦ rw full (woken v (λ e. cc (full, (==_iff v []).1 e)) (ap (λ o. o.0) h))
  ])

  pub poll-Polled : Polled (poll_for_provider r db p wait w)
  unfolding poll_for_provider
  poll-Polled = after_pop (pop_job r p wait w.redis) refl
