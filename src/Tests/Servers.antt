-- ===== src/Tests/Servers.antt =====
-- The theorems on the HTTP server and its tokens.
use provider_engine.Base.{bytes, pos, [], ◌∷◌, true, some, ◌≡◌, ◌↔◌, refl, inl, arith, ◌==◌}
use provider_engine.Store.Redis.Memory.{memory, memory-IsRedis}
use provider_engine.Registry as Registry
use provider_engine.Registry.{RegisterResult, enroll, store_provider}
use provider_engine.Store.Postgres.{upsert_provider}
use provider_engine.Store.Redis.{token_valid, alloc_wg_ip, alloc_port}
use provider_engine.Api.Base64.{encode, decode, decode-encode}
use provider_engine.Api.Jwt.{validate_jwt}
use provider_engine.Api.Jwt.Signed.{IsSigned, validate_jwt_iff}
use provider_engine.Api.Http.{http_err}
use provider_engine.Api.Requests.{register_request}
use provider_engine.Strings.{strip_prefix}
use provider_engine.Api.Server.{register}
use provider_engine.Api.Routes.{serve, endpoint}
use provider_engine.Api.Guard.{IsDenied, serve-IsDenied, serve_open}
use provider_engine.Api.Enrolment.{register-denied, IsAnswered, register-IsAnswered}
use provider_engine.Api.Runs.{request, sweep, run}
use provider_engine.Api.Runs.Invariant.{IsSound, run-IsSound}
use provider_engine.Tests.Setting.{
  database, database-IsServer, register_body, config, env_now, server, crypto, deploy_request,
  heartbeat_request,
}
use provider_engine.Tests.Stores.{IsWoken-world, IsAddressed-world}

decode-encode_example : decode (encode (bytes "dcp")) ≡ some (bytes "dcp")
decode-encode_example = decode-encode (bytes "dcp") (omega arith, (omega arith, (omega arith, tt)))

validate_jwt_iff_example :
    (validate_jwt crypto (pos 50) (bytes "e.e30.AQID") (bytes "secret") ≡ true)
    ↔ IsSigned crypto (pos 50) (bytes "secret") (bytes "e.e30.AQID")
validate_jwt_iff_example =
    validate_jwt_iff crypto (pos 50) (bytes "secret")
      (λ m. (omega arith, (omega arith, (omega arith, tt)))) (bytes "e.e30.AQID")

serve-IsDenied_example :
    IsDenied memory config env_now
      (serve memory config env_now (deploy_request (bytes "Basic x")) server)
      server
unfolding endpoint strip_prefix ◌==◌
serve-IsDenied_example =
    serve-IsDenied memory config env_now (deploy_request (bytes "Basic x")) server refl refl

serve_open_example :
    serve memory config env_now (record heartbeat_request { authorization = bytes "none" }) server
    ≡ serve memory config env_now heartbeat_request server
unfolding endpoint ◌==◌
serve_open_example = serve_open memory config env_now heartbeat_request (bytes "none") server refl

register-denied_example :
    ((register memory config env_now [] server).0
      ≡ http_err (bytes "invalid registration token") 401)
    × ((register memory config env_now [] server).1.world.pg ≡ server.world.pg)
    × ((register memory config env_now [] server).1.actions ≡ server.actions)
register-denied_example =
    register-denied memory config env_now (record register_body { token = [] }) [] server refl
      (inl refl)

register-IsAnswered_example :
    (res : RegisterResult) × IsAnswered memory config env_now register_body server
      (register memory config env_now (bytes "t") server)
      res
unfolding register Registry.register token_valid ◌==◌ register_request enroll alloc_wg_ip alloc_port
    store_provider upsert_provider
register-IsAnswered_example =
    register-IsAnswered memory config env_now register_body memory-IsRedis (bytes "t") server refl
      refl refl

run-IsSound_example :
    IsSound memory
      (run memory config server (request env_now heartbeat_request ∷ sweep database ∷ [])).world
run-IsSound_example =
    run-IsSound memory memory-IsRedis config server
      (request env_now heartbeat_request ∷ sweep database ∷ []) (database-IsServer, (tt, tt))
      (record { woken = IsWoken-world; addressed = IsAddressed-world })
