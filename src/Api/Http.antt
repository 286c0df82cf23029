-- ===== src/Api/Http.antt =====
-- What the handlers of dcp-control-plane/internal/api/server.go read of a request and write as a
-- response. The mux gives the path cleaned and cut at its slashes; encoding/json, which reads and
-- prints the bodies, is the parameter `Codec`, so a body is the value that is printed.
use provider_engine.Base.{ℕ, Text, ℤ, List, bytes, ◌++◌}
use provider_engine.Store.Models.{Provider, Env, Job}
use provider_engine.Registry.{RegisterResult}
use provider_engine.Scheduler.{DeployResult}

pub record Request : Type 0 where
  pub method : Text
  pub path : List Text
  -- the header Authorization, "" if it is missing
  pub authorization : Text
  pub body : Text

pub record RegisterBody : Type 0 where
  pub token : Text
  pub wg_pubkey : Text
  pub location : Text
  pub mode : Text
  pub cpu_cores : ℤ
  pub memory_mb : ℤ
  pub disk_gb : ℤ
  pub meta : Env

pub record HeartbeatBody : Type 0 where
  pub provider_id : Text
  pub active_vms : ℤ
  pub cpu_load : ℕ
  pub mem_free_mb : ℤ

pub record ReportBody : Type 0 where
  pub job_id : Text
  pub provider_id : Text
  pub vm_ip : Text
  pub port : ℤ
  pub status : Text
  pub error : Text

pub record DeployBody : Type 0 where
  pub image_url : Text
  pub cpu_cores : ℤ
  pub memory_mb : ℤ
  pub disk_gb : ℤ
  pub ssh_pubkey : Text
  pub env : Env

pub record CertBody : Type 0 where
  pub user_pubkey : Text
  pub principal : Text
  pub vm_id : Text
  pub ttl_hours : ℤ

-- A decoded value or the text of the decoder's error.
pub data Decoded (A : Type 0) : Type 0 where
  value : A → Decoded A
  malformed : Text → Decoded A

pub record Codec : Type 0 where
  pub register_body : Text → Decoded RegisterBody
  pub heartbeat_body : Text → Decoded HeartbeatBody
  pub report_body : Text → Decoded ReportBody
  pub deploy_body : Text → Decoded DeployBody
  pub cert_body : Text → Decoded CertBody

pub data Payload : Type 0 where
  empty : Payload
  plain : Text → Payload
  error : Text → Payload
  registered : RegisterResult → Payload
  deploy_job : Job → Payload
  deployed : DeployResult → Payload
  certificate : Text → Payload
  provider_list : List Provider → Payload

pub record Response : Type 0 where
  pub code : ℕ
  pub body : Payload

-- respond, and w.WriteHeader(http.StatusNoContent)
abbrev pub respond : Payload → Response
respond p = record { code = 200; body = p }

abbrev pub no_content : Response
no_content = record { code = 204; body = empty }

abbrev pub http_err : Text → ℕ → Response
http_err msg code = record { code = code; body = error msg }

-- decode
abbrev pub decode {ℓ} : {A : Type 0} {B : Type ℓ} → Decoded A → (Response → B) → (A → B) → B
decode (malformed e) fail next = fail (http_err (bytes "invalid JSON: " ++ e) 400)
decode (value a) fail next = next a
