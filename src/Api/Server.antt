-- ===== src/Api/Server.antt =====
-- dcp-control-plane/internal/api/server.go: the handlers, the JWT middleware and the routes. What
-- one request meets outside the program is the parameter `Env`; the configuration is `Config`.
use provider_engine.Strings.{strip_prefix}
use provider_engine.Base.{Text, bytes, ℤ, List, Option, none, some, if◌then◌else◌}
use provider_engine.Errors.{Error, message}
use provider_engine.Exec.{Result, ok, err, Exec}
use provider_engine.Store.Models.{Time}
use provider_engine.Store.Postgres.{Postgres, upsert_vm, list_providers}
use provider_engine.Store.Redis.{Redis}
use provider_engine.World.{World, on_pg}
use provider_engine.Registry as Registry
use provider_engine.Registry.{RegisterResult}
use provider_engine.Scheduler.{submit, poll_for_provider}
use provider_engine.Relay.{Action, Host, add_peer}
use provider_engine.SshCa.{Ssh, issue_cert, unix}
use provider_engine.Api.Jwt.{Crypto, validate_jwt}
use provider_engine.Api.Http.{
  Request, RegisterBody, Codec, Response, registered, deployed, certificate, provider_list, respond,
  no_content, http_err, decode,
}
use provider_engine.Api.Requests.{
  register_request, register_error, job_response, vm_of, deploy_request, sign_request, bearer,
}

-- The times are those of time.Now, since Go's zero time and since 1970; `uuid` is the next uuid.
pub record Env : Type 0 where
  pub db : Postgres
  pub host : Host
  pub ssh : Ssh
  pub crypto : Crypto
  pub codec : Codec
  pub uuid : Text
  pub now : Time
  pub unix_now : ℤ

pub record Config : Type 0 where
  pub registry : Registry.Config
  pub jwt_secret : Text

-- The stores, and what the handlers did to the host, the latest first.
pub record Server (r : Redis) : Type 0 where
  pub world : World r
  pub actions : List Action

module _ (r : Redis) (cfg : Config) (env : Env) where
  abbrev pub Handler : Type 0
  Handler = Server r → Response × Server r

  abbrev pub reply : Response → Handler
  reply res s = (res, s)

  -- A call of the registry, the scheduler or the store, and what is answered.
  abbrev pub answer :
      {A : Type 0} → Exec (World r) A → (Error → Response) → (A → Response) → Handler
  answer m on_error on_ok s =
      let (res, w) = m s.world in
      (elim res [ ok a ↦ on_ok a | err e ↦ on_error e ], record s { world = w })

  -- A failure of AddPeer is only logged.
  unfoldable pub after_register :
      RegisterBody → Result RegisterResult → Server r → Response × Server r
  after_register b (err e) s = (register_error e, s)
  after_register b (ok res) s = (
    respond (registered res),
    record s { actions = (add_peer env.host b.wg_pubkey res.wg_ip s.actions).1 },
  )

  unfoldable pub register : Text → Handler
  unfolding after_register
  register body = decode (env.codec.register_body body) reply λ b s.
      let (res, w) =
        Registry.register r env.db cfg.registry env.uuid env.now (register_request b) s.world in
      after_register b res (record s { world = w })

  unfoldable pub heartbeat : Text → Handler
  heartbeat body = decode (env.codec.heartbeat_body body) reply λ b.
      answer (Registry.heartbeat r env.db b.provider_id b.active_vms b.cpu_load b.mem_free_mb)
        (λ e. http_err (message e) 500) (λ _. no_content)

  unfoldable pub poll_jobs : Text → Handler
  poll_jobs provider_id =
      answer (poll_for_provider r env.db provider_id 25) (λ e. http_err (message e) 500)
        job_response

  unfoldable pub report_vm : Text → Handler
  report_vm body = decode (env.codec.report_body body) reply λ b.
      answer (on_pg (upsert_vm env.db (vm_of env.now b))) (λ e. http_err (message e) 500)
        (λ _. no_content)

  unfoldable pub deploy : Text → Handler
  deploy body = decode (env.codec.deploy_body body) reply λ b.
      answer (submit r env.db env.uuid (deploy_request b)) (λ e. http_err (message e) 503)
        (λ res. respond (deployed res))

  unfoldable pub issue_certificate : Text → Handler
  issue_certificate body = decode (env.codec.cert_body body) reply λ b s. (
    elim (issue_cert env.ssh env.unix_now (sign_request b)) [
      | ok cert ↦ respond (certificate cert)
      | err e ↦ http_err (message e) 400
    ],
    s,
  )

  unfoldable pub list_all : Handler
  list_all =
      answer (on_pg (list_providers env.db)) (λ e. http_err (message e) 500)
        (λ ps. respond (provider_list ps))

  unfoldable pub check_token : Option Text → Handler → Handler
  check_token none next = reply (http_err (bytes "missing bearer token") 401)
  check_token (some token) next =
      if validate_jwt env.crypto (unix env.unix_now) token cfg.jwt_secret
      then next
      else reply (http_err (bytes "invalid token") 401)

  unfoldable pub with_jwt : Handler → Request → Handler
  unfolding check_token
  with_jwt next req = check_token (strip_prefix bearer req.authorization) next
