-- ===== src/Api/Guard.antt =====
-- Which endpoints the JWT middleware guards.
use provider_engine.Base.{Text, Bool, true, false, Option, none, some, ◌≡◌, refl}
use provider_engine.Store.Redis.{Redis}
use provider_engine.Api.Http.{Request, Response}
use provider_engine.Api.Jwt.{validate_jwt}
use provider_engine.Strings.{strip_prefix}
use provider_engine.Api.Requests.{bearer}
use provider_engine.SshCa.{unix}
use provider_engine.Api.Server.{Server, Env, Config, check_token, with_jwt}
use provider_engine.Api.Routes.{
  Endpoint, registering, heartbeating, polling, reporting, deploying, certifying, listing, health,
  not_found, method_not_allowed, serve, serve_endpoint, endpoint,
}

-- the endpoints of the users
abbrev pub is_guarded : Endpoint → Bool
is_guarded registering = false
is_guarded heartbeating = false
is_guarded (polling id) = false
is_guarded reporting = false
is_guarded deploying = true
is_guarded certifying = true
is_guarded listing = true
is_guarded health = false
is_guarded not_found = false
is_guarded method_not_allowed = false

module _ (r : Redis) (cfg : Config) (env : Env) where
  -- a bearer token that validateJWT accepts
  abbrev pub bears_token : Option Text → Bool
  bears_token none = false
  bears_token (some token) = validate_jwt env.crypto (unix env.unix_now) token cfg.jwt_secret

  -- the request is answered with 401 and nothing is changed
  abbrev pub IsDenied : Response × Server r → Server r → Type 0
  IsDenied out s = (out.0.code ≡ 401) × (out.1 ≡ s)

  check_token-IsDenied :
      (o : Option Text) (next : Server r → Response × Server r) (s : Server r)
      → bears_token o ≡ false
      → IsDenied (check_token r cfg env o next s) s
  unfolding check_token
  check_token-IsDenied none next s h = (refl, refl)
  check_token-IsDenied (some token) next s h = rw h (refl, refl)

  check_token-next :
      (o : Option Text) (next : Server r → Response × Server r) (s : Server r)
      → bears_token o ≡ true
      → check_token r cfg env o next s ≡ next s
  unfolding check_token
  check_token-next none next s h = absurd (cc h)
  check_token-next (some token) next s h = rw h refl

  endpoint-IsDenied :
      (e : Endpoint) (req : Request) (s : Server r)
      → is_guarded e ≡ true
      → bears_token (strip_prefix bearer req.authorization) ≡ false
      → IsDenied (serve_endpoint r cfg env e req s) s
  unfolding with_jwt
  endpoint-IsDenied deploying req s g h = check_token-IsDenied _ _ s h
  endpoint-IsDenied certifying req s g h = check_token-IsDenied _ _ s h
  endpoint-IsDenied listing req s g h = check_token-IsDenied _ _ s h
  endpoint-IsDenied registering req s g h = absurd (cc g)
  endpoint-IsDenied heartbeating req s g h = absurd (cc g)
  endpoint-IsDenied (polling id) req s g h = absurd (cc g)
  endpoint-IsDenied reporting req s g h = absurd (cc g)
  endpoint-IsDenied health req s g h = absurd (cc g)
  endpoint-IsDenied not_found req s g h = absurd (cc g)
  endpoint-IsDenied method_not_allowed req s g h = absurd (cc g)

  -- A request for deploy, ssh-cert or the list of providers whose header Authorization is not
  -- "Bearer " and a token that validateJWT accepts is answered with 401, and neither the tables,
  -- nor Redis, nor the host change.
  pub serve-IsDenied :
      (req : Request) (s : Server r)
      → is_guarded (endpoint req.method req.path) ≡ true
      → bears_token (strip_prefix bearer req.authorization) ≡ false
      → IsDenied (serve r cfg env req s) s
  unfolding serve
  serve-IsDenied req s = endpoint-IsDenied (endpoint req.method req.path) req s

  endpoint_open :
      (e : Endpoint) (req : Request) (authorization : Text) (s : Server r)
      → is_guarded e ≡ false
      → serve_endpoint r cfg env e (record req { authorization = authorization }) s
        ≡ serve_endpoint r cfg env e req s
  endpoint_open deploying req a s g = absurd (cc g)
  endpoint_open certifying req a s g = absurd (cc g)
  endpoint_open listing req a s g = absurd (cc g)
  endpoint_open registering req a s g = refl
  endpoint_open heartbeating req a s g = refl
  endpoint_open (polling id) req a s g = refl
  endpoint_open reporting req a s g = refl
  endpoint_open health req a s g = refl
  endpoint_open not_found req a s g = refl
  endpoint_open method_not_allowed req a s g = refl

  -- Every other endpoint, so those of the providers too, answers and acts the same whatever the
  -- header Authorization holds.
  pub serve_open :
      (req : Request) (authorization : Text) (s : Server r)
      → is_guarded (endpoint req.method req.path) ≡ false
      → serve r cfg env (record req { authorization = authorization }) s ≡ serve r cfg env req s
  unfolding serve
  serve_open req a s = endpoint_open (endpoint req.method req.path) req a s
