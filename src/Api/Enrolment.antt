-- ===== src/Api/Enrolment.antt =====
-- The registration of a provider over HTTP.
use provider_engine.Base.{
  Text, bytes, ◌≡◌, ◌∙◌, refl, ap, Bool-cases, inl, inr, arith, ◌≢◌, ℤ, pos, ◌==◌, [], ◌∷◌, ◌++◌,
  true, false,
}
use provider_engine.Errors.{Error, invalid_token, is_invalid_token}
use provider_engine.Exec.{Result, ok, err}
use provider_engine.World.{World}
use provider_engine.Store.Redis.{Redis, token_set_key}
use provider_engine.Store.Redis.Laws.{IsRedis}
use provider_engine.Registry as Registry
use provider_engine.Registry.{RegisterResult, new_provider}
use provider_engine.Registry.Tokens.{IsRefused, IsEnrolled, register-IsEnrolled, register-refused}
use provider_engine.Relay.{add_peer}
use provider_engine.Relay.Allowed.{IsAllowed, add_peer-IsAllowed}
use provider_engine.Store.Models.{Provider, online}
use provider_engine.Store.Sql.{exists}
use provider_engine.Store.Postgres.{upsert_rows}
use provider_engine.Api.Http.{RegisterBody, Response, value, registered, respond, http_err}
use provider_engine.Api.Requests.{get_or_empty, register_request, register_error}
use provider_engine.Api.Server.{Server, Env, Config, register, after_register}

-- the row of a provider that registers with this body, under this id
abbrev pub row_of : Env → RegisterBody → Text → Text → ℤ → Provider
row_of env b id wg_ip port = record {
  id = id;
  token = b.token;
  wg_pubkey = b.wg_pubkey;
  wg_ip = wg_ip;
  tunnel_port = port;
  location = b.location;
  mode = b.mode;
  cpu_cores = b.cpu_cores;
  memory_mb = b.memory_mb;
  disk_gb = b.disk_gb;
  machine_id = get_or_empty (bytes "machine_id") b.meta;
  binary_hash = get_or_empty (bytes "binary_hash") b.meta;
  status = online;
  active_vms = pos 0;
  cpu_load = 0;
  mem_free_mb = pos 0;
  last_seen = env.db.now;
  registered_at = env.now;
}

-- no stored provider has the id that uuid.New gives next
abbrev pub IsFresh : {r : Redis} → Env → Server r → Type 0
IsFresh env s = exists (λ x. x.id == env.uuid) s.world.pg.providers ≡ false

module _ (r : Redis) (env : Env) (b : RegisterBody) (s : Server r) where
  -- From s, the token was in the set, one row was added to the table of providers, under the new id
  -- and with this address and port, and the provider's key is allowed this address on the relay.
  abbrev pub IsStored : Text → Text → ℤ → Server r → Type 0
  IsStored id wg_ip port s' =
      (b.token ≢ [])
      × (r.is_member s.world.redis token_set_key b.token ≡ true)
      × (id ≡ env.uuid)
      × (s'.world.pg ≡ record s.world.pg {
        providers = s.world.pg.providers ++ row_of env b id wg_ip port ∷ [];
      })
      × IsAllowed env.host b.wg_pubkey wg_ip s.actions s'.actions

  enrolled-IsStored :
      (cfg : Registry.Config) (res : RegisterResult) (s' : Server r)
      → IsFresh env s
      → IsEnrolled r env.db cfg env.uuid env.now (register_request b) s.world res s'.world
      → s'.actions ≡ (add_peer env.host b.wg_pubkey res.wg_ip s.actions).1
      → IsStored res.provider_id res.wg_ip res.tunnel_port s'
  unfolding register_request new_provider upsert_rows
  enrolled-IsStored cfg res s' fresh v acts = (
    v.token,
    v.member,
    v.named,
    rw (v.stored, v.named, fresh) refl,
    rw acts (add_peer-IsAllowed env.host b.wg_pubkey res.wg_ip s.actions),
  )

module _ (r : Redis) (cfg : Config) (env : Env) (b : RegisterBody) where
  abbrev enrolling : World r → Result RegisterResult × World r
  enrolling = Registry.register r env.db cfg.registry env.uuid env.now (register_request b)

  after_refused :
      (out : Result RegisterResult) (s : Server r)
      → out ≡ err invalid_token
      → after_register r cfg env b out s ≡ (http_err (bytes "invalid registration token") 401, s)
  unfolding after_register register_error is_invalid_token
  after_refused out s h = rw h refl

  -- A registration whose token is empty, or not in the set of tokens by the answer of Redis, is
  -- answered with 401; the tables stay as they are, and no peer is added to the relay. It
  -- assumes that the body decodes.
  pub register-denied :
      (body : Text) (s : Server r)
      → env.codec.register_body body ≡ value b
      → IsRefused r b.token s.world.redis
      → ((register r cfg env body s).0 ≡ http_err (bytes "invalid registration token") 401)
        × ((register r cfg env body s).1.world.pg ≡ s.world.pg)
        × ((register r cfg env body s).1.actions ≡ s.actions)
  unfolding register register_request
  register-denied body s e h =
      let (answer, same) =
        register-refused r env.db cfg.registry env.uuid env.now (register_request b) s.world h in
      let now = after_refused _ (record s { world = (enrolling s.world).1 }) answer in
      rw e (ap (λ o. o.0) now, ap (λ o. o.1.world.pg) now ∙ same, ap (λ o. o.1.actions) now)

  abbrev pub IsAnswered : Server r → Response × Server r → RegisterResult → Type 0
  IsAnswered s out res =
      (out.0 ≡ respond (registered res))
      × IsStored r env b s res.provider_id res.wg_ip res.tunnel_port out.1

  error_code : (e : Error) → (register_error e).code ≢ 200
  unfolding register_error
  error_code e h = elim (Bool-cases (is_invalid_token e)) [
    | inl f ↦ let stuck : 401 ≡ 200 = rw f at h in absurd (omega (arith, stuck))
    | inr f ↦ let stuck : 400 ≡ 200 = rw f at h in absurd (omega (arith, stuck))
  ]

  after_accepted :
      (out : Result RegisterResult) (s : Server r)
      → (after_register r cfg env b out s).0.code ≡ 200
      → (res : RegisterResult) × (out ≡ ok res)
        × ((after_register r cfg env b out s).0 ≡ respond (registered res))
        × ((after_register r cfg env b out s).1.world ≡ s.world)
        × ((after_register r cfg env b out s).1.actions
            ≡ (add_peer env.host b.wg_pubkey res.wg_ip s.actions).1)
  unfolding after_register
  after_accepted (ok res) s h = (res, refl, refl, refl, refl)
  after_accepted (err e) s h = absurd (error_code e h)

  -- A registration that is answered with 200 had a token of the set, and has added one row to the
  -- table of providers and changed nothing else in the tables: under the new id, online, seen now, with the
  -- address and the port that the answer holds and what the body says. The handler has run the
  -- command that allows the provider's key on the relay this one address, which may have failed,
  -- and if it worked, the one that saves this. It assumes that the body decodes, that no stored
  -- provider has the new id, and that Redis does what the code relies on.
  pub register-IsAnswered :
      IsRedis r
      → (body : Text) (s : Server r) → env.codec.register_body body ≡ value b
      → IsFresh env s
      → (register r cfg env body s).0.code ≡ 200
      → (res : RegisterResult) × IsAnswered s (register r cfg env body s) res
  unfolding register
  register-IsAnswered ax body s e fresh h =
      let after = record s { world = (enrolling s.world).1 } in
      let (res, got, answer, world, acts) =
        after_accepted (enrolling s.world).0 after (rw e at h) in
      let left = (after_register r cfg env b (enrolling s.world).0 after).1 in
      let stored =
        register-IsEnrolled r env.db cfg.registry env.uuid env.now (register_request b) s.world ax
          res got in
      rw e (
        res,
        (answer, enrolled-IsStored r env b s cfg.registry res left fresh (rw world stored) acts),
      )
