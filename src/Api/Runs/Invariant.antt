-- ===== src/Api/Runs/Invariant.antt =====
-- The two invariants of the stores, over any run.
use provider_engine.Base.{
  ℕ, Text, List, [], ◌∷◌, ◌≡◌, refl, Option, none, some, Bool-cases, inl, inr, ap, All, ◌*◌, ◌/◌,
}
use provider_engine.Exec.{Result, ok, err}
use provider_engine.World.{World}
use provider_engine.Store.Models.{Tables, second}
use provider_engine.Store.Postgres.{Postgres}
use provider_engine.Store.Pending.{IsServer}
use provider_engine.Store.Frames.{
  jobs-update_heartbeat, addresses-update_heartbeat, jobs-mark_offline, addresses-mark_offline,
  jobs-upsert_vm, providers-upsert_vm, tables-list_providers,
}
use provider_engine.Store.Redis.{Redis}
use provider_engine.Store.Redis.Laws.{IsRedis}
use provider_engine.Scheduler.{poll_for_provider}
use provider_engine.Scheduler.Wakeups.{IsWoken, submit-IsWoken, poll-IsWoken}
use provider_engine.Registry.Addresses.{
  IsAddressed, register-IsAddressed, IsAddressed-same, addresses,
}
use provider_engine.Api.Runs.Frames.{submit-IsAddressed, poll-IsAddressed, register-IsWoken}
use provider_engine.Registry.{sweep_offline}
use provider_engine.Registry as Registry
use provider_engine.Registry.{RegisterResult}
use provider_engine.Api.Http.{Request, RegisterBody, Response, Decoded, value, malformed, decode}
use provider_engine.Api.Server.{
  Server, Env, Config, register, heartbeat, poll_jobs, report_vm, deploy, issue_certificate,
  list_all, with_jwt, after_register, check_token,
}
use provider_engine.Api.Requests.{vm_of, deploy_request, register_request, bearer}
use provider_engine.Strings.{strip_prefix}
use provider_engine.Api.Jwt.{validate_jwt}
use provider_engine.SshCa.{unix}
use provider_engine.Api.Routes.{
  serve, serve_endpoint, Endpoint, registering, heartbeating, reporting, deploying, certifying,
  listing, health, polling, not_found, method_not_allowed, endpoint,
}
use provider_engine.Api.Runs.{Event, request, sweep, step, run}

-- Both invariants of the stores.
pub record IsSound (r : Redis) (w : World r) : Type 0 where
  pub woken : IsWoken r w.pg.jobs w.redis
  pub addressed : IsAddressed r w.pg.providers w.redis

-- `decode` either answers or goes on.
pub decode-elim :
    {A : Type 0} {B : Type 0} (P : B → Type 0) (d : Decoded A) (fail : Response → B) (next : A → B)
    → ((e : Response) → P (fail e))
    → ((a : A) → P (next a))
    → P (decode d fail next)
decode-elim P (value a) fail next stop go = go a
decode-elim P (malformed e) fail next stop go = stop _

module _ (r : Redis) (cfg : Config) (env : Env) where
  pub after_register-world :
      (b : RegisterBody) (res : Result RegisterResult) (s : Server r)
      → (after_register r cfg env b res s).1.world ≡ s.world
  unfolding after_register
  after_register-world b (ok x) s = refl
  after_register-world b (err e) s = refl

module _ (r : Redis) (ax : IsRedis r) where
  -- Tables with the same jobs and the same addresses.
  IsSound-pg :
      (w : World r) (t : Tables)
      → t.jobs ≡ w.pg.jobs
      → addresses t.providers ≡ addresses w.pg.providers
      → IsSound r w
      → IsSound r (record w { pg = t })
  IsSound-pg w t jobs same v = record {
    woken = rw jobs v.woken;
    addressed =
        IsAddressed-same r ax w.pg.providers t.providers w.redis w.redis same refl v.addressed;
  }

  pub poll-IsSound :
      (db : Postgres) (server : IsServer db) (p : Text) (wait : ℕ) (w : World r)
      → IsSound r w
      → IsSound r (poll_for_provider r db p wait w).1
  poll-IsSound db server p wait w v = record {
    woken = poll-IsWoken r ax server p wait w v.woken;
    addressed = poll-IsAddressed r ax db p wait w v.addressed;
  }

module _ (r : Redis) (ax : IsRedis r) (cfg : Config) (env : Env) (server : IsServer env.db) where
  abbrev Keeps : (Server r → Response × Server r) → Type 0
  Keeps h = (s : Server r) → IsSound r s.world → IsSound r (h s).1.world

  heartbeat-IsSound : (body : Text) → Keeps (heartbeat r cfg env body)
  unfolding heartbeat Registry.heartbeat
  heartbeat-IsSound body =
      decode-elim Keeps (env.codec.heartbeat_body body) _ _ (λ e s v. v)
        λ b s v.
          IsSound-pg r ax s.world _
            (jobs-update_heartbeat env.db s.world.pg b.provider_id b.active_vms b.cpu_load
              b.mem_free_mb)
            (addresses-update_heartbeat env.db s.world.pg b.provider_id b.active_vms b.cpu_load
              b.mem_free_mb)
            v

  report_vm-IsSound : (body : Text) → Keeps (report_vm r cfg env body)
  unfolding report_vm
  report_vm-IsSound body =
      decode-elim Keeps (env.codec.report_body body) _ _ (λ e s v. v)
        λ b s v.
          IsSound-pg r ax s.world _ (jobs-upsert_vm env.db s.world.pg (vm_of env.now b))
            (ap addresses (providers-upsert_vm env.db s.world.pg (vm_of env.now b))) v

  list_all-IsSound : Keeps (list_all r cfg env)
  unfolding list_all
  list_all-IsSound s v =
      IsSound-pg r ax s.world _ (ap (λ t. t.jobs) (tables-list_providers env.db s.world.pg))
        (ap (λ t. addresses t.providers) (tables-list_providers env.db s.world.pg)) v

  poll_jobs-IsSound : (id : Text) → Keeps (poll_jobs r cfg env id)
  unfolding poll_jobs
  poll_jobs-IsSound id s v = poll-IsSound r ax env.db server id 25 s.world v

  deploy-IsSound : (body : Text) → Keeps (deploy r cfg env body)
  unfolding deploy
  deploy-IsSound body =
      decode-elim Keeps (env.codec.deploy_body body) _ _ (λ e s v. v)
        λ b s v. record {
          woken = submit-IsWoken r ax env.db env.uuid (deploy_request b) s.world v.woken;
          addressed =
              submit-IsAddressed r ax env.db env.uuid (deploy_request b) s.world v.addressed;
        }

  register-IsSound : (body : Text) → Keeps (register r cfg env body)
  unfolding register
  register-IsSound body =
      decode-elim Keeps (env.codec.register_body body) _ _ (λ e s v. v)
        λ b s v. rw (after_register-world r cfg env) (record {
          woken =
              register-IsWoken r ax env.db cfg.registry env.uuid env.now (register_request b)
                s.world v.woken;
          addressed =
              register-IsAddressed r ax env.db cfg.registry env.uuid env.now (register_request b)
                s.world v.addressed;
        })

  certificate-IsSound : (body : Text) → Keeps (issue_certificate r cfg env body)
  unfolding issue_certificate
  certificate-IsSound body =
      decode-elim Keeps (env.codec.cert_body body) _ _ (λ e s v. v) (λ b s v. v)

  check_token-IsSound :
      (o : Option Text) (h : Server r → Response × Server r)
      → Keeps h
      → Keeps (check_token r cfg env o h)
  unfolding check_token
  check_token-IsSound none h keep s v = v
  check_token-IsSound (some token) h keep s v =
      elim (Bool-cases (validate_jwt env.crypto (unix env.unix_now) token cfg.jwt_secret)) [
        | inl e ↦ rw e (keep s v)
        | inr e ↦ rw e v
      ]

  with_jwt-IsSound :
      (h : Server r → Response × Server r) (req : Request)
      → Keeps h
      → Keeps (with_jwt r cfg env h req)
  unfolding with_jwt
  with_jwt-IsSound h req keep = check_token-IsSound (strip_prefix bearer req.authorization) h keep

  endpoint-IsSound : (e : Endpoint) (req : Request) → Keeps (serve_endpoint r cfg env e req)
  endpoint-IsSound registering req = register-IsSound req.body
  endpoint-IsSound heartbeating req = heartbeat-IsSound req.body
  endpoint-IsSound (polling id) req = poll_jobs-IsSound id
  endpoint-IsSound reporting req = report_vm-IsSound req.body
  endpoint-IsSound deploying req =
      with_jwt-IsSound (deploy r cfg env req.body) req (deploy-IsSound req.body)
  endpoint-IsSound certifying req =
      with_jwt-IsSound (issue_certificate r cfg env req.body) req (certificate-IsSound req.body)
  endpoint-IsSound listing req = with_jwt-IsSound (list_all r cfg env) req list_all-IsSound
  endpoint-IsSound health req = λ s v. v
  endpoint-IsSound not_found req = λ s v. v
  endpoint-IsSound method_not_allowed req = λ s v. v

  serve-IsSound : (req : Request) → Keeps (serve r cfg env req)
  unfolding serve
  serve-IsSound req = endpoint-IsSound (endpoint req.method req.path) req

-- What an event meets is a server whose queries meet every row.
abbrev pub IsServed : Event → Type 0
IsServed (request env req) = IsServer env.db
IsServed (sweep db) = Unit

module _ (r : Redis) (ax : IsRedis r) (cfg : Config) where
  step-IsSound :
      (s : Server r) (e : Event) → IsServed e → IsSound r s.world → IsSound r (step r cfg s e).world
  unfolding sweep_offline step serve
  step-IsSound s (request env req) h v = serve-IsSound r ax cfg env h req s v
  step-IsSound s (sweep db) h v =
      IsSound-pg r ax s.world _ (jobs-mark_offline db s.world.pg (90 * second / second * second))
        (addresses-mark_offline db s.world.pg (90 * second / second * second)) v

  -- After any sequence of HTTP requests and ticks of SweepOffline, whatever the databases answer,
  -- the ids of the jobs are distinct, no provider's queue holds more ids than it has scheduled
  -- jobs, and the WireGuard addresses of the stored providers are pairwise distinct addresses that
  -- the counter has given. It assumes that this held at the start, that Redis does what the code
  -- relies on, and that the queries of each request's database meet the rows of the tables.
  pub run-IsSound :
      (s : Server r) (es : List Event)
      → All IsServed es
      → IsSound r s.world
      → IsSound r (run r cfg s es).world
  unfolding run
  run-IsSound s [] h v = v
  run-IsSound s (e ∷ es) (h, hs) v = run-IsSound (step r cfg s e) es hs (step-IsSound s e h v)
