-- ===== src/Scheduler/Outcome.antt =====
-- Every way in which Submit can end, and what it leaves in the stores.
use provider_engine.Base.{
  ap, Text, bytes, [], ◌∷◌, ◌++◌, false, ◌≡◌, refl, arith, inl, inr, Bool-cases,
}
use provider_engine.Errors.{Error, wrap, driver}
use provider_engine.Exec.{Result, ok, err, pure, wrapping, rewrap, continue, ◌>>◌}
use provider_engine.World.{World, with_pg, with_redis, on_pg, on_redis}
use provider_engine.Store.Models.{JobRow, Provider, pending, scheduled, Tables}
use provider_engine.Store.Sql.{exists}
use provider_engine.Store.Postgres.{
  Postgres, inserting_job, assigning_job, best_provider, insert_job, assign_job,
}
use provider_engine.Store.Redis.{Redis, push_job}
use provider_engine.Store.Jobs.{
  has_id, All-ne_of_exists, update-snoc, Ran, not_done, half_done, all_done, settle-Ran, settle-err,
}
use provider_engine.Scheduler.{
  DeployRequest, DeployResult, submit, submit_to, find_error, found_provider,
}

-- The row of the new job, before and after AssignJob.
abbrev pub pending_row : Postgres → Text → DeployRequest → JobRow
pending_row db job_id req = record {
  id = job_id;
  provider_id = [];
  image_url = req.image_url;
  cpu_cores = req.cpu_cores;
  memory_mb = req.memory_mb;
  disk_gb = req.disk_gb;
  ssh_pubkey = req.ssh_pubkey;
  env = db.marshal req.env;
  status = pending;
  created_at = 0;
}

abbrev pub scheduled_row : Postgres → Text → DeployRequest → Text → JobRow
scheduled_row db job_id req provider_id = record (pending_row db job_id req) {
  provider_id = provider_id;
  status = scheduled;
}

abbrev pub add_job : Tables → JobRow → Tables
add_job t row = record t { jobs = t.jobs ++ row ∷ [] }

module _ (r : Redis) (db : Postgres) (job_id : Text) (req : DeployRequest) (w : World r) where
  -- the stores after AssignJob
  abbrev pub assigned_world : Text → World r
  assigned_world p = record w { pg = add_job w.pg (scheduled_row db job_id req p) }

  abbrev pub pushed_world : Text → World r
  pushed_world p = record (assigned_world p) { redis = (push_job r p job_id w.redis).1 }

  -- the provider that BestProvider finds
  abbrev pub Found : Provider → Type 0
  Found pr = (best_provider db req.cpu_cores req.memory_mb w.pg).0 ≡ ok pr

  abbrev pub IsFresh : Type 0
  IsFresh = exists (has_id job_id) w.pg.jobs ≡ false

  pub data Submitted : Result DeployResult → World r → Type 0 where
    -- nothing was stored
    rejected : (e : Error) → Submitted (err e) w
    -- the job was inserted and not assigned
    left_pending :
        (e : Error)
        → IsFresh
        → Submitted (err e) (record w { pg = add_job w.pg (pending_row db job_id req) })
    -- the job was assigned, and its id was not pushed
    left_scheduled : (e : Error) (p : Text) → IsFresh → Submitted (err e) (assigned_world p)
    -- the push ended with an error
    push_failed : (e : Error) (p : Text) → IsFresh → Submitted (err e) (pushed_world p)
    dispatched :
        (pr : Provider)
        → IsFresh
        → Found pr
        → (push_job r pr.id job_id w.redis).0 ≡ ok tt
        → Submitted (ok (record { job_id = job_id; provider_id = pr.id })) (pushed_world pr.id)

  -- what Submit does after InsertJob, after AssignJob and after PushJob
  abbrev push_rest : Text → Result (Unit {0}) × r.Data → Result DeployResult × World r
  push_rest p out =
      continue (λ _. pure (record { job_id = job_id; provider_id = p }))
        (rewrap (wrap (bytes "push job to redis")) (with_redis (assigned_world p) out))

  abbrev assign_rest : Text → Result (Unit {0}) × Tables → Result DeployResult × World r
  assign_rest p out =
      continue
        (λ _.
          wrapping (bytes "push job to redis") (on_redis (push_job r p job_id))
          >> pure (record { job_id = job_id; provider_id = p }))
        (rewrap (wrap (bytes "assign job")) (with_pg w out))

  abbrev insert_rest : Text → Result (Unit {0}) × Tables → Result DeployResult × World r
  insert_rest p out =
      continue
        (λ _.
          wrapping (bytes "assign job") (on_pg (assign_job db job_id p))
          >> (wrapping (bytes "push job to redis") (on_redis (push_job r p job_id))
              >> pure (record { job_id = job_id; provider_id = p })))
        (rewrap (wrap (bytes "insert job")) (with_pg w out))

  abbrev best_rest : Result Provider × Tables → Result DeployResult × World r
  best_rest out =
      continue (λ pr. submit_to r db job_id req pr) (rewrap (find_error req) (with_pg w out))

  module _ (fresh : IsFresh) (pr : Provider) (found : Found pr) where
    after_push :
        (out : Result (Unit {0}) × r.Data)
        → push_job r pr.id job_id w.redis ≡ out
        → Submitted (push_rest pr.id out).0 (push_rest pr.id out).1
    after_push (ok u, s) e = rw (← (ap (λ o. o.1) e)) (dispatched pr fresh found (ap (λ o. o.0) e))
    after_push (err x, s) e = rw (← (ap (λ o. o.1) e)) (push_failed _ pr.id fresh)

    after_assign :
        (out : Result (Unit {0}) × Tables)
        → Ran
            (add_job w.pg (pending_row db job_id req))
            (add_job w.pg (scheduled_row db job_id req pr.id))
            out
        → Submitted (assign_rest pr.id out).0 (assign_rest pr.id out).1
    after_assign out (not_done e) = left_pending _ fresh
    after_assign out (half_done e) = left_scheduled _ pr.id fresh
    after_assign out all_done = after_push (push_job r pr.id job_id w.redis) refl

    assign_job-Ran :
        Ran
          (add_job w.pg (pending_row db job_id req))
          (add_job w.pg (scheduled_row db job_id req pr.id))
          (assign_job db job_id pr.id (add_job w.pg (pending_row db job_id req)))
    unfolding assign_job
    assign_job-Ran =
        rw
          (update-snoc job_id (λ x. record x { provider_id = pr.id; status = scheduled }) w.pg.jobs
            (pending_row db job_id req) (All-ne_of_exists job_id w.pg.jobs fresh) refl)
          (settle-Ran (db.reply assigning_job) _ _)

    after_insert :
        (out : Result (Unit {0}) × Tables)
        → Ran w.pg (add_job w.pg (pending_row db job_id req)) out
        → Submitted (insert_rest pr.id out).0 (insert_rest pr.id out).1
    after_insert out (not_done e) = rejected _
    after_insert out (half_done e) = left_pending _ fresh
    after_insert out all_done = after_assign (assign_job db job_id pr.id _) assign_job-Ran

  submit_to-Submitted :
      (pr : Provider)
      → Found pr
      → Submitted (submit_to r db job_id req pr w).0 (submit_to r db job_id req pr w).1
  unfolding submit_to insert_job
  submit_to-Submitted pr found = elim (Bool-cases (exists (has_id job_id) w.pg.jobs)) [
    | inl taken ↦
        let (e, same) =
          settle-err {A = Unit {0}} (db.reply inserting_job) (driver db.duplicate_key) w.pg in
        rw (taken, same) (rejected _)
    | inr fresh ↦ rw fresh (after_insert fresh pr found _ (settle-Ran (db.reply inserting_job) _ _))
  ]

  pub best_provider-tables : (best_provider db req.cpu_cores req.memory_mb w.pg).1 ≡ w.pg
  unfolding best_provider
  best_provider-tables = ground arith

  after_best :
      (out : Result Provider × Tables)
      → best_provider db req.cpu_cores req.memory_mb w.pg ≡ out
      → out.1 ≡ w.pg
      → Submitted (best_rest out).0 (best_rest out).1
  after_best (ok pr, t) e same = rw same (submit_to-Submitted pr (ap (λ o. o.0) e))
  after_best (err x, t) e same = rw same (rejected _)

  -- Submit ends in one of these ways.
  pub submit-Submitted : Submitted (submit r db job_id req w).0 (submit r db job_id req w).1
  unfolding submit found_provider
  submit-Submitted =
      after_best (best_provider db req.cpu_cores req.memory_mb w.pg) refl best_provider-tables
