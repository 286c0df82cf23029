-- ===== src/Api/Requests.antt =====
-- dcp-control-plane/internal/api/server.go: how the handlers turn decoded bodies into the requests
-- of the registry, the scheduler and the certificate authority, and results into responses.
use provider_engine.Base.{Text, bytes, ◌==◌, [], ◌∷◌, Option, none, some, if◌then◌else◌}
use provider_engine.Errors.{Error, is_invalid_token, message}
use provider_engine.Store.Models.{Time, Env, Job, Vm}
use provider_engine.Registry.{RegisterRequest}
use provider_engine.Scheduler.{DeployRequest}
use provider_engine.SshCa.{SignRequest, duration_of_hours}
use provider_engine.Api.Http.{
  RegisterBody, ReportBody, DeployBody, CertBody, Response, deploy_job, respond, no_content,
  http_err,
}

-- `m[key]` of a map of strings
abbrev pub get_or_empty : Text → Env → Text
get_or_empty k [] = []
get_or_empty k ((j, v) ∷ m) = if j == k then v else get_or_empty k m

unfoldable pub register_request : RegisterBody → RegisterRequest
register_request b = record {
  token = b.token;
  wg_pubkey = b.wg_pubkey;
  location = b.location;
  mode = b.mode;
  cpu_cores = b.cpu_cores;
  memory_mb = b.memory_mb;
  disk_gb = b.disk_gb;
  machine_id = get_or_empty (bytes "machine_id") b.meta;
  binary_hash = get_or_empty (bytes "binary_hash") b.meta;
}

unfoldable pub register_error : Error → Response
register_error e =
    if is_invalid_token e
    then http_err (bytes "invalid registration token") 401
    else http_err (message e) 400

unfoldable pub job_response : Option Job → Response
job_response none = no_content
job_response (some job) = respond (deploy_job job)

unfoldable pub vm_of : Time → ReportBody → Vm
vm_of now b = record {
  id = b.job_id;
  job_id = b.job_id;
  provider_id = b.provider_id;
  vm_ip = b.vm_ip;
  port = b.port;
  status = b.status;
  error = b.error;
  created_at = now;
}

unfoldable pub deploy_request : DeployBody → DeployRequest
deploy_request b = record {
  image_url = b.image_url;
  cpu_cores = b.cpu_cores;
  memory_mb = b.memory_mb;
  disk_gb = b.disk_gb;
  ssh_pubkey = b.ssh_pubkey;
  env = b.env;
}

unfoldable pub sign_request : CertBody → SignRequest
sign_request b = record {
  user_pubkey = b.user_pubkey;
  principal = if b.principal == [] then bytes "root" else b.principal;
  vm_id = b.vm_id;
  ttl = duration_of_hours b.ttl_hours;
}

abbrev pub bearer : Text
bearer = bytes "Bearer "
