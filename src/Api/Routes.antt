-- ===== src/Api/Routes.antt =====
-- dcp-control-plane/internal/api/server.go, Serve: the routes of the mux. A pattern with the method
-- GET also takes HEAD; a path that only other methods have is answered with 405.
use provider_engine.Base.{Text, bytes, ◌==◌, List, [], ◌∷◌, Bool, ◌||◌, if◌then◌else◌}
use provider_engine.Store.Redis.{Redis}
use provider_engine.Api.Http.{Request, Response, plain, respond}
use provider_engine.Api.Server.{
  Server, Env, Config, register, heartbeat, poll_jobs, report_vm, deploy, issue_certificate,
  list_all, with_jwt,
}

pub data Endpoint : Type 0 where
  registering heartbeating reporting deploying certifying listing health : Endpoint
  polling : Text → Endpoint
  not_found method_not_allowed : Endpoint

abbrev is_get : Text → Bool
is_get m = m == bytes "GET" || m == bytes "HEAD"

abbrev is_post : Text → Bool
is_post m = m == bytes "POST"

abbrev allow : Bool → Endpoint → Endpoint
allow b e = if b then e else method_not_allowed

-- the path below /api/v1
api_endpoint : Text → List Text → Endpoint
api_endpoint m (a ∷ []) =
    if a == bytes "deploy"
    then allow (is_post m) deploying
    else if a == bytes "ssh-cert"
    then allow (is_post m) certifying
    else if a == bytes "providers"
    then allow (is_get m) listing
    else not_found
api_endpoint m (a ∷ b ∷ []) =
    if a == bytes "providers"
    then (if b == bytes "register"
        then allow (is_post m) registering
        else if b == bytes "heartbeat"
        then allow (is_post m) heartbeating
        else not_found)
    else if a == bytes "vms"
    then (if b == bytes "report" then allow (is_post m) reporting else not_found)
    else not_found
api_endpoint m (a ∷ id ∷ c ∷ []) =
    if a == bytes "providers"
    then (if c == bytes "jobs" then allow (is_get m) (polling id) else not_found)
    else not_found
api_endpoint m [] = not_found
api_endpoint m (a ∷ b ∷ c ∷ d ∷ p) = not_found

unfoldable pub endpoint : Text → List Text → Endpoint
unfolding api_endpoint
endpoint m [] = not_found
endpoint m (a ∷ []) = if a == bytes "healthz" then allow (is_get m) health else not_found
endpoint m (a ∷ b ∷ p) =
    if a == bytes "api"
    then (if b == bytes "v1" then api_endpoint m p else not_found)
    else not_found

module _ (r : Redis) (cfg : Config) (env : Env) where
  abbrev pub serve_endpoint : Endpoint → Request → Server r → Response × Server r
  serve_endpoint registering req s = register r cfg env req.body s
  serve_endpoint heartbeating req s = heartbeat r cfg env req.body s
  serve_endpoint (polling id) req s = poll_jobs r cfg env id s
  serve_endpoint reporting req s = report_vm r cfg env req.body s
  serve_endpoint deploying req s = with_jwt r cfg env (deploy r cfg env req.body) req s
  serve_endpoint certifying req s = with_jwt r cfg env (issue_certificate r cfg env req.body) req s
  serve_endpoint listing req s = with_jwt r cfg env (list_all r cfg env) req s
  serve_endpoint health req s = (respond (plain (bytes "ok")), s)
  serve_endpoint not_found req s =
      (record { code = 404; body = plain (bytes "404 page not found\n") }, s)
  serve_endpoint method_not_allowed req s =
      (record { code = 405; body = plain (bytes "Method Not Allowed\n") }, s)

  unfoldable pub serve : Request → Server r → Response × Server r
  serve req = serve_endpoint (endpoint req.method req.path) req
