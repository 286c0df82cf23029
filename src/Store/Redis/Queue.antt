-- ===== src/Store/Redis/Queue.antt =====
-- What PushJob and PopJob do to the queues of the providers.
use provider_engine.Base.{
  ℕ, ◌≤◌, ◌*◌, ◌==◌, ==_iff, Bool-cases, Text, List, [], ◌∷◌, ◌++◌, ◌≡◌, ◌≢◌, ◌⊎◌, inl, inr, length,
  length-append, arith, refl, ◌+◌, ap,
}
use provider_engine.Exec.{Result, ok, err, continue, pure}
use provider_engine.Errors.{redis_nil}
use provider_engine.Store.Models.{second}
use provider_engine.Store.Redis.{Redis, job_queue_key, push_job, pop_job, popped}
use provider_engine.Store.Redis.Laws.{IsRedis}

job_queue_key-ne : (p q : Text) → p ≢ q → job_queue_key p ≢ job_queue_key q
unfolding job_queue_key
job_queue_key-ne p q n e = n (cc)

module _ (r : Redis) where
  abbrev pub queue : r.Data → Text → List Text
  queue s p = r.items s (job_queue_key p)

  pub continue-pure :
      {A B : Type 0} (b : B) (x : Result A × r.Data) → (continue (λ _. pure b) x).1 ≡ x.1
  continue-pure b (ok a, s) = refl
  continue-pure b (err e, s) = refl

  pub continue-ok :
      {A B : Type 0} (b : B) (x : Result A × r.Data)
      → (continue (λ _. pure b) x).0 ≡ ok b
      → (a : A) × (x.0 ≡ ok a)
  continue-ok b (ok a, s) h = (a, refl)
  continue-ok b (err e, s) h = absurd (cc h)

  pub push_job-state :
      (p id : Text) (s : r.Data) → (push_job r p id s).1 ≡ (r.lpush (job_queue_key p) id s).1
  unfolding push_job
  push_job-state p id s = continue-pure tt (r.lpush (job_queue_key p) id s)

  popped-state : (x : Result (Text × Text) × r.Data) → (popped r x).1 ≡ x.1
  unfolding popped
  popped-state (ok (k, v), s) = refl
  popped-state (err redis_nil, s) = refl
  popped-state (err e, s) = refl

  popped-value :
      (x : Result (Text × Text) × r.Data) (v : Text)
      → v ≢ []
      → (popped r x).0 ≡ ok v
      → (key : Text) × (x.0 ≡ ok (key, v))
  unfolding popped
  popped-value (ok (k, x), s) v n h = (k, cc h)
  popped-value (err redis_nil, s) v n h = absurd (n (cc h))
  popped-value (err e, s) v n h = absurd (cc h)

module _ (r : Redis) (ax : IsRedis r) where
  -- A push lengthens the queue of its provider by one at most.
  pub length-push_job :
      (p id : Text) (s : r.Data)
      → length (queue r (push_job r p id s).1 p) ≤ length (queue r s p) + 1
  length-push_job p id s =
      rw (push_job-state r p id s) (elim (ax.lpush_either (job_queue_key p) id s) [
        | inl e ↦ omega (arith, ap length e)
        | inr e ↦ omega (arith, ap length e)
      ])

  pub queue-push_job_ne :
      (p q id : Text) (s : r.Data) → p ≢ q → queue r (push_job r p id s).1 q ≡ queue r s q
  queue-push_job_ne p q id s n =
      rw (push_job-state r p id s) (ax.lpush_other _ _ id s (job_queue_key-ne p q n))

  pub queue-push_job :
      (p id : Text) (s : r.Data)
      → (push_job r p id s).0 ≡ ok tt
      → queue r (push_job r p id s).1 p ≡ id ∷ queue r s p
  unfolding push_job
  queue-push_job p id s h =
      let (n, e) = continue-ok r tt (r.lpush (job_queue_key p) id s) h in
      rw (continue-pure r tt (r.lpush (job_queue_key p) id s))
        (ax.lpush_done (job_queue_key p) id s n e)

  pub pop_job-state :
      (p : Text) (wait : ℕ) (s : r.Data)
      → (pop_job r p wait s).1 ≡ (r.brpop (wait * second) (job_queue_key p) s).1
  unfolding pop_job
  pop_job-state p wait s = popped-state r _

  shorter :
      {xs ys : List Text} → (ys ≡ xs) ⊎ ((v : Text) × (xs ≡ ys ++ v ∷ [])) → length ys ≤ length xs
  shorter (inl e) = omega (arith, ap length e)
  shorter {ys} (inr (v, e)) = omega (arith, ap length e, length-append ys (v ∷ []))

  -- A pop lengthens no queue.
  pub length-pop_job :
      (p q : Text) (wait : ℕ) (s : r.Data)
      → length (queue r (pop_job r p wait s).1 q) ≤ length (queue r s q)
  length-pop_job p q wait s = rw (pop_job-state p wait s) (elim (Bool-cases (p == q)) [
    | inl e ↦ rw (← ((==_iff p q).0 e)) (shorter (ax.brpop_either _ (job_queue_key p) s))
    | inr e ↦
        let differ : p ≢ q = λ same. cc (e, (==_iff p q).1 same) in
        omega
          (arith, ap length (ax.brpop_other (wait * second) _ _ s (job_queue_key-ne p q differ)))
  ])

  -- A job id that is popped was the last of the queue.
  pub queue-pop_job :
      (p v : Text) (wait : ℕ) (s : r.Data)
      → v ≢ []
      → (pop_job r p wait s).0 ≡ ok v
      → queue r s p ≡ queue r (pop_job r p wait s).1 p ++ v ∷ []
  unfolding pop_job
  queue-pop_job p v wait s n h =
      let (key, e) = popped-value r _ v n h in rw (popped-state r _) (ax.brpop_done _ _ s key v e)
