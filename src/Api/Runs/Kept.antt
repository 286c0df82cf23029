-- ===== src/Api/Runs/Kept.antt =====
-- What a run of the control plane keeps of the stores, one rule for each operation on them.
use provider_engine.Base.{
  ℕ, Text, List, [], ◌∷◌, ◌++◌, Option, none, some, ◌≡◌, refl, false, ◌⊎◌, Bool-cases, inl, inr,
  All, ◌*◌, ◌/◌,
}
use provider_engine.Exec.{Result}
use provider_engine.World.{World}
use provider_engine.Store.Models.{Job, JobRow, second, pending, scheduled, Tables, Time}
use provider_engine.Store.Sql.{exists}
use provider_engine.Store.Jobs.{has_id}
use provider_engine.Store.Postgres.{Postgres}
use provider_engine.Store.Pending.{
  IsServer, Next, no_job, failed, claimed, lost, next_pending_job-Next, started, Chosen,
}
use provider_engine.Store.Frames.{
  jobs-update_heartbeat, jobs-mark_offline, jobs-upsert_vm, tables-list_providers,
}
use provider_engine.Store.Redis.{Redis}
use provider_engine.Scheduler.{DeployRequest, DeployResult}
use provider_engine.Scheduler.Outcome.{
  pending_row, scheduled_row, Submitted, rejected, left_pending, left_scheduled, push_failed,
  dispatched, submit-Submitted,
}
use provider_engine.Scheduler.Poll.{Polled, pop_failed, woken_by_none, woken, poll-Polled}
use provider_engine.Registry as Registry
use provider_engine.Registry.{RegisterRequest, RegisterResult, sweep_offline}
use provider_engine.Registry.Outcome.{
  Registered, unchecked, unknown_token, no_address, no_port, not_stored, half_stored, registered,
  register-Registered,
}
use provider_engine.Api.Http.{Request, Response}
use provider_engine.Api.Jwt.{validate_jwt}
use provider_engine.Api.Requests.{vm_of, deploy_request, register_request}
use provider_engine.SshCa.{unix}
use provider_engine.Api.Server.{
  Server, Env, Config, register, heartbeat, poll_jobs, report_vm, deploy, issue_certificate,
  list_all, with_jwt, check_token,
}
use provider_engine.Api.Routes.{
  serve, serve_endpoint, Endpoint, registering, heartbeating, reporting, deploying, certifying,
  listing, health, polling, not_found, method_not_allowed, endpoint,
}
use provider_engine.Api.Runs.{Event, request, sweep, step, run}
use provider_engine.Api.Runs.Invariant.{IsServed, decode-elim, after_register-world}

-- A property of the rows of jobs that an inserted row keeps, and a row that is claimed for one of
-- these providers
pub record IsKept (P : List JobRow → Type 0) (Q : Text → Type 0) : Type 0 where
  -- a row with a new id, pending or given to a provider
  pub of_new :
      (rows : List JobRow) (row : JobRow)
      → exists (has_id row.id) rows ≡ false
      → (row.status ≡ pending) ⊎ (row.status ≡ scheduled)
      → P rows
      → P (rows ++ row ∷ [])
  pub of_claim :
      (db : Postgres) (p : Text) (t : Tables) (row : JobRow)
      → IsServer db
      → Q p
      → Chosen db p t (some row)
      → P t.jobs
      → P (started t row).jobs

-- only these providers poll
abbrev pub IsPolledBy : (Text → Type 0) → Event → Type 0
IsPolledBy Q (request env req) = (p : Text) → endpoint req.method req.path ≡ polling p → Q p
IsPolledBy Q (sweep db) = Unit {0}

module _ (r : Redis) (P : List JobRow → Type 0) (Q : Text → Type 0) (kept : IsKept P Q) where
  of_submit :
      {db : Postgres} {id : Text} {req : DeployRequest} {w w' : World r} {res : Result DeployResult}
      → Submitted r db id req w res w'
      → P w.pg.jobs
      → P w'.pg.jobs
  of_submit (rejected e) v = v
  of_submit {db} {id} {req} {w} (left_pending e f) v =
      kept.of_new w.pg.jobs (pending_row db id req) f (inl refl) v
  of_submit {db} {id} {req} {w} (left_scheduled e p f) v =
      kept.of_new w.pg.jobs (scheduled_row db id req p) f (inr refl) v
  of_submit {db} {id} {req} {w} (push_failed e p f) v =
      kept.of_new w.pg.jobs (scheduled_row db id req p) f (inr refl) v
  of_submit {db} {id} {req} {w} (dispatched pr f g h) v =
      kept.of_new w.pg.jobs (scheduled_row db id req pr.id) f (inr refl) v

  of_next :
      {db : Postgres} {p : Text} {t : Tables} {out : Result (Option Job) × Tables}
      → IsServer db
      → Q p
      → Next db p t out
      → P t.jobs
      → P out.1.jobs
  of_next server q (no_job c) v = v
  of_next server q (failed e) v = v
  of_next {db} {p} {t} server q (claimed row c) v = kept.of_claim db p t row server q c v
  of_next {db} {p} {t} server q (lost e row c) v = kept.of_claim db p t row server q c v

  of_poll :
      {db : Postgres} {p : Text} {wait : ℕ} {w : World r} {out : Result (Option Job) × World r}
      → IsServer db
      → Q p
      → Polled r db p wait w out
      → P w.pg.jobs
      → P out.1.pg.jobs
  of_poll server q (pop_failed e f) v = v
  of_poll server q (woken_by_none e) v = v
  of_poll {db} {p} {wait} {w} server q (woken x n e) v =
      of_next server q (next_pending_job-Next db p w.pg) v

  of_register :
      {db : Postgres} {cfg : Registry.Config} {uuid : Text} {now : Time} {req : RegisterRequest}
      {w : World r} {out : Result RegisterResult × World r}
      → Registered r db cfg uuid now req w out
      → P w.pg.jobs
      → P out.1.pg.jobs
  of_register (unchecked e f) v = v
  of_register (unknown_token e) v = v
  of_register (no_address e a) v = v
  of_register (no_port e a) v = v
  of_register (not_stored e a) v = v
  of_register (half_stored e ip port a got) v = v
  of_register (registered ip port a got) v = v

  module _ (cfg : Config) (env : Env) (server : IsServer env.db) where
    abbrev KeepsJobs : (Server r → Response × Server r) → Type 0
    KeepsJobs h = (s : Server r) → P s.world.pg.jobs → P (h s).1.world.pg.jobs

    check_token-KeepsJobs :
        (o : Option Text) (h : Server r → Response × Server r)
        → KeepsJobs h
        → KeepsJobs (check_token r cfg env o h)
    unfolding check_token
    check_token-KeepsJobs none h keep s v = v
    check_token-KeepsJobs (some token) h keep s v =
        elim (Bool-cases (validate_jwt env.crypto (unix env.unix_now) token cfg.jwt_secret)) [
          | inl e ↦ rw e (keep s v)
          | inr e ↦ rw e v
        ]

    endpoint-KeepsJobs :
        (e : Endpoint) (req : Request)
        → ((p : Text) → e ≡ polling p → Q p)
        → KeepsJobs (serve_endpoint r cfg env e req)
    unfolding register heartbeat Registry.heartbeat poll_jobs report_vm deploy issue_certificate
        list_all with_jwt
    endpoint-KeepsJobs registering req only =
        decode-elim KeepsJobs (env.codec.register_body req.body) _ _ (λ e s v. v)
          λ b s v. rw (after_register-world r cfg env) (
            of_register
              (register-Registered r env.db cfg.registry env.uuid env.now (register_request b)
                s.world)
              v)
    endpoint-KeepsJobs heartbeating req only =
        decode-elim KeepsJobs (env.codec.heartbeat_body req.body) _ _ (λ e s v. v)
          λ b s v.
            rw
              (jobs-update_heartbeat env.db s.world.pg b.provider_id b.active_vms b.cpu_load
                b.mem_free_mb)
              v
    endpoint-KeepsJobs (polling p) req only =
        λ s v. of_poll server (only p refl) (poll-Polled r env.db p 25 s.world) v
    endpoint-KeepsJobs reporting req only =
        decode-elim KeepsJobs (env.codec.report_body req.body) _ _ (λ e s v. v)
          (λ b s v. rw (jobs-upsert_vm env.db s.world.pg (vm_of env.now b)) v)
    endpoint-KeepsJobs deploying req only = check_token-KeepsJobs _ _ (
        decode-elim KeepsJobs (env.codec.deploy_body req.body) _ _ (λ e s v. v)
          λ b s v. of_submit (submit-Submitted r env.db env.uuid (deploy_request b) s.world) v)
    endpoint-KeepsJobs certifying req only =
        check_token-KeepsJobs _ _
          (decode-elim KeepsJobs (env.codec.cert_body req.body) _ _ (λ e s v. v) (λ b s v. v))
    endpoint-KeepsJobs listing req only =
        check_token-KeepsJobs _ _ (λ s v. rw (tables-list_providers env.db s.world.pg) v)
    endpoint-KeepsJobs health req only = λ s v. v
    endpoint-KeepsJobs not_found req only = λ s v. v
    endpoint-KeepsJobs method_not_allowed req only = λ s v. v

  pub run-kept :
      (cfg : Config) (s : Server r) (es : List Event)
      → All IsServed es
      → All (IsPolledBy Q) es
      → P s.world.pg.jobs
      → P (run r cfg s es).world.pg.jobs
  unfolding run step serve sweep_offline
  run-kept cfg s [] h k v = v
  run-kept cfg s (request env req ∷ es) (h, hs) (k, ks) v =
      run-kept cfg (serve r cfg env req s).1 es hs ks
        (endpoint-KeepsJobs cfg env h (endpoint req.method req.path) req k s v)
  run-kept cfg s (sweep db ∷ es) (h, hs) (k, ks) v =
      run-kept cfg (record s { world = sweep_offline r db s.world }) es hs ks
        (rw (jobs-mark_offline db s.world.pg (90 * second / second * second)) v)

pub IsPolledBy-any : (es : List Event) → All (IsPolledBy (λ p. Unit)) es
IsPolledBy-any [] = tt
IsPolledBy-any (request env req ∷ es) = ((λ p e. tt), IsPolledBy-any es)
IsPolledBy-any (sweep db ∷ es) = (tt, IsPolledBy-any es)
