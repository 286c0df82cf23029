-- ===== src/Provider/Client.antt =====
-- dcp-provider/pkg/api/client.go. The network and encoding/json are the parameter `Network`; the
-- state is the list of the requests that were sent, the latest first.
pub mod Polling
use provider_engine.Base.{
  ℕ, Text, bytes, ℤ, decimal, List, ◌∷◌, ◌++◌, Option, none, some, eqb, leb, if◌then◌else◌,
}
use provider_engine.Errors.{driver, wrap}
use provider_engine.Exec.{Result, ok, err, Exec, pure, raise, wrapping, ◌>>=◌, ◌>>◌}
use provider_engine.Store.Models.{Env}

pub record ResourceInfo : Type 0 where
  pub cpu_cores : ℤ
  pub memory_mb : ℤ
  pub disk_gb : ℤ

pub record RegisterRequest : Type 0 where
  pub token : Text
  pub public_key : Text
  pub resources : ResourceInfo
  pub location : Text
  pub mode : Text
  pub meta : Env

pub record RegisterResponse : Type 0 where
  pub provider_id : Text
  pub wg_config : Text
  pub tunnel_port : ℤ
  pub wg_ip : Text

pub record HeartbeatRequest : Type 0 where
  pub provider_id : Text
  pub active_vms : ℤ
  pub cpu_load : ℕ
  pub mem_free_mb : ℤ

pub record DeployJob : Type 0 where
  pub job_id : Text
  pub image_url : Text
  pub cpu_cores : ℤ
  pub memory_mb : ℤ
  pub disk_gb : ℤ
  pub ssh_pubkey : Text
  pub env : Env

pub record VmReport : Type 0 where
  pub job_id : Text
  pub provider_id : Text
  pub vm_ip : Text
  pub port : ℤ
  pub status : Text
  pub error : Text

-- A body is the value that encoding/json prints.
pub data Body : Type 0 where
  empty : Body
  registering : RegisterRequest → Body
  beating : HeartbeatRequest → Body
  reporting : VmReport → Body

pub record Sent : Type 0 where
  pub method : Text
  pub url : Text
  pub authorization : Text
  pub body : Body

-- What `http.Client.Do` returns: an error, or a status and a body.
pub data Answer : Type 0 where
  unanswered : Text → Answer
  answered : ℕ → Text → Answer

pub record Network : Type 0 where
  -- the error of a URL that cannot be parsed
  pub bad_url : Text → Option Text
  pub answer : Sent → Answer
  pub read_register : Text → Result RegisterResponse
  pub read_job : Text → Result DeployJob

-- `provider_id` is what SetProviderID sets.
pub record Client : Type 0 where
  pub base_url : Text
  pub token : Text
  pub provider_id : Text

module _ (net : Network) (c : Client) where
  abbrev pub request_of : Text → Text → Body → Sent
  request_of method url body = record {
    method = method;
    url = url;
    authorization = bytes "Bearer " ++ c.token;
    body = body;
  }

  send_if : Option Text → Sent → Exec (List Sent) Answer
  send_if (some e) req log = (err (driver e), log)
  send_if none req log = (ok (net.answer req), req ∷ log)

  -- http.NewRequestWithContext, setHeaders and Do
  unfoldable pub send : Text → Text → Body → Exec (List Sent) Answer
  unfolding send_if
  send method url body = send_if (net.bad_url url) (request_of method url body)

  unfoldable pub poll_answer : Answer → Result (Option DeployJob)
  poll_answer (unanswered e) = err (driver e)
  poll_answer (answered code text) =
      if eqb code 204
      then ok none
      else if eqb code 200
      then elim (net.read_job text) [ ok job ↦ ok (some job) | err e ↦ err e ]
      else err (driver (bytes "poll jobs: HTTP " ++ decimal code))

  abbrev pub jobs_url : Text
  jobs_url = c.base_url ++ (bytes "/api/v1/providers/" ++ (c.provider_id ++ bytes "/jobs?wait=25"))

  unfoldable pub poll_jobs : Exec (List Sent) (Option DeployJob)
  unfolding send poll_answer
  poll_jobs = do a ← send (bytes "GET") jobs_url empty; λ log. (poll_answer a, log)

  unfoldable pub post_answer : Text → Answer → Result Text
  post_answer path (unanswered e) = err (driver e)
  post_answer path (answered code text) =
      if leb 400 code
      then err (driver (bytes "HTTP " ++ (decimal code ++ (bytes " from " ++ path))))
      else ok text

  -- post, which returns the body that its callers decode
  unfoldable pub post : Text → Body → Exec (List Sent) Text
  unfolding send post_answer
  post path body = do
    a ← send (bytes "POST") (c.base_url ++ path) body
    λ log. (post_answer path a, log)

  unfoldable pub register : RegisterRequest → Exec (List Sent) RegisterResponse
  unfolding post
  register req = wrapping (bytes "register") (do
    text ← post (bytes "/api/v1/providers/register") (registering req)
    λ log. (net.read_register text, log))

  unfoldable pub heartbeat : HeartbeatRequest → Exec (List Sent) (Unit {0})
  unfolding post
  heartbeat req = do post (bytes "/api/v1/providers/heartbeat") (beating req); pure tt

  unfoldable pub report_vm : VmReport → Exec (List Sent) (Unit {0})
  unfolding post
  report_vm r = do post (bytes "/api/v1/vms/report") (reporting r); pure tt
