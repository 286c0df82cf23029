-- ===== src/Registry/Outcome.antt =====
-- Every way in which Register can end, and what it leaves in the stores.
use provider_engine.Base.{Text, bytes, ℤ, Bool, true, false, not, ◌≡◌, refl, ap, if◌then◌else◌}
use provider_engine.Errors.{Error, wrap, invalid_token}
use provider_engine.Exec.{Result, ok, err, pure, raise, wrapping, rewrap, continue, ◌>>=◌}
use provider_engine.World.{World, with_pg, with_redis, on_redis}
use provider_engine.Store.Models.{Time, Tables}
use provider_engine.Store.Postgres.{Postgres, upsert_rows, upsert_provider, upserting_provider}
use provider_engine.Store.Redis.{Redis, token_valid, alloc_wg_ip, alloc_port}
use provider_engine.Store.Jobs.{Ran, not_done, half_done, all_done, settle-Ran}
use provider_engine.Registry.{
  Config, RegisterRequest, RegisterResult, build_wg_config, new_provider, register, enroll,
  store_provider,
}

module _ (r : Redis) (db : Postgres) (cfg : Config) where
  module _ (provider_id : Text) (now : Time) (req : RegisterRequest) (w : World r) where
    -- the data of Redis after TokenValid, after AllocWGIP and after AllocPort
    abbrev pub checked : r.Data
    checked = (token_valid r req.token w.redis).1

    abbrev pub addressed : r.Data
    addressed = (alloc_wg_ip r checked).1

    abbrev pub ported : r.Data
    ported = (alloc_port r addressed).1

    abbrev pub with_provider : Text → ℤ → Tables
    with_provider ip port = record w.pg {
      providers = upsert_rows db (new_provider req provider_id ip port now) w.pg.providers;
    }

    abbrev pub result : Text → ℤ → RegisterResult
    result ip port = record {
      provider_id = provider_id;
      wg_config = build_wg_config req.wg_pubkey ip cfg.wg_pub cfg.cp_endpoint;
      tunnel_port = port;
      wg_ip = ip;
    }

    abbrev pub Accepted : Type 0
    Accepted = (token_valid r req.token w.redis).0 ≡ ok true

    abbrev pub Allocated : Text → ℤ → Type 0
    Allocated ip port = ((alloc_wg_ip r checked).0 ≡ ok ip) × ((alloc_port r addressed).0 ≡ ok port)

    pub data Registered : Result RegisterResult × World r → Type 0 where
      -- the token could not be checked
      unchecked :
          (e : Error)
          → (token_valid r req.token w.redis).0 ≡ err e
          → Registered (err (wrap (bytes "validate token") e), record w { redis = checked })
      unknown_token :
          (token_valid r req.token w.redis).0 ≡ ok false
          → Registered (err invalid_token, record w { redis = checked })
      no_address :
          (e : Error)
          → Accepted
          → Registered (err (wrap (bytes "alloc wg ip") e), record w { redis = addressed })
      no_port :
          (e : Error)
          → Accepted
          → Registered (err (wrap (bytes "alloc port") e), record w { redis = ported })
      not_stored :
          (e : Error)
          → Accepted
          → Registered (err (wrap (bytes "upsert provider") e), record w { redis = ported })
      -- the row was stored, and the answer was lost
      half_stored :
          (e : Error) (ip : Text) (port : ℤ)
          → Accepted
          → Allocated ip port
          → Registered (
            err (wrap (bytes "upsert provider") e),
            record { pg = with_provider ip port; redis = ported },
          )
      registered :
          (ip : Text) (port : ℤ)
          → Accepted
          → Allocated ip port
          → Registered (ok (result ip port), record { pg = with_provider ip port; redis = ported })

    module _ (accepted : Accepted) where
      after_upsert :
          (ip : Text) (port : ℤ) (out : Result (Unit {0}) × Tables)
          → Allocated ip port
          → Ran w.pg (with_provider ip port) out
          → Registered (
              continue
                (λ _. pure (result ip port))
                (rewrap
                  (wrap (bytes "upsert provider"))
                  (with_pg (record w { redis = ported }) out)))
      after_upsert ip port out a (not_done e) = not_stored e accepted
      after_upsert ip port out a (half_done e) = half_stored e ip port accepted a
      after_upsert ip port out a all_done = registered ip port accepted a

      store_provider-Registered :
          (ip : Text) (port : ℤ)
          → Allocated ip port
          → Registered
              (store_provider r db cfg provider_id now req ip port (record w { redis = ported }))
      unfolding store_provider upsert_provider
      store_provider-Registered ip port a =
          after_upsert ip port _ a (settle-Ran (db.reply upserting_provider) _ _)

      after_port :
          (ip : Text) (out : Result ℤ × r.Data)
          → (alloc_wg_ip r checked).0 ≡ ok ip
          → alloc_port r addressed ≡ out
          → Registered (
              continue (store_provider r db cfg provider_id now req ip) (
                rewrap
                  (wrap (bytes "alloc port"))
                  (with_redis (record w { redis = addressed }) out)))
      after_port ip (err e, s) a h = rw (← (ap (λ o. o.1) h)) (no_port e accepted)
      after_port ip (ok port, s) a h =
          rw (← (ap (λ o. o.1) h)) (store_provider-Registered ip port (a, ap (λ o. o.0) h))

      abbrev port_rest : Text → World r → Result RegisterResult × World r
      port_rest ip =
          wrapping (bytes "alloc port") (on_redis (alloc_port r))
          >>= store_provider r db cfg provider_id now req ip

      after_address :
          (out : Result Text × r.Data)
          → alloc_wg_ip r checked ≡ out
          → Registered (
              continue port_rest (
                rewrap
                  (wrap (bytes "alloc wg ip"))
                  (with_redis (record w { redis = checked }) out)))
      after_address (err e, s) h = rw (← (ap (λ o. o.1) h)) (no_address e accepted)
      after_address (ok ip, s) h =
          rw (← (ap (λ o. o.1) h)) (after_port ip (alloc_port r addressed) (ap (λ o. o.0) h) refl)

      enroll-Registered :
          Registered (enroll r db cfg provider_id now req (record w { redis = checked }))
      unfolding enroll
      enroll-Registered = after_address (alloc_wg_ip r checked) refl

    abbrev token_rest : Bool → World r → Result RegisterResult × World r
    token_rest valid =
        if not valid then raise invalid_token else enroll r db cfg provider_id now req

    after_token :
        (out : Result Bool × r.Data)
        → token_valid r req.token w.redis ≡ out
        → Registered
            (continue token_rest (rewrap (wrap (bytes "validate token")) (with_redis w out)))
    after_token (err e, s) h = rw (← (ap (λ o. o.1) h)) (unchecked e (ap (λ o. o.0) h))
    after_token (ok false, s) h = rw (← (ap (λ o. o.1) h)) (unknown_token (ap (λ o. o.0) h))
    after_token (ok true, s) h = rw (← (ap (λ o. o.1) h)) (enroll-Registered (ap (λ o. o.0) h))

    -- Register ends in one of these ways.
    pub register-Registered : Registered (register r db cfg provider_id now req w)
    unfolding register
    register-Registered = after_token (token_valid r req.token w.redis) refl
