-- ===== src/Tests/Setting.antt =====
-- The database, the tables and the server of the examples.
use provider_engine.Base.{Text, bytes, ℤ, pos, [], ◌∷◌, ◌*◌, true, false, none, some}
use provider_engine.Exec.{ok}
use provider_engine.World.{World}
use provider_engine.Store.Models.{
  Provider, zero_provider, online, Tables, JobRow, scheduled, second,
}
use provider_engine.Store.Postgres.{Postgres, done}
use provider_engine.Store.Pending.{IsServer}
use provider_engine.Store.Redis.{token_set_key, job_queue_key, wg_ip_counter_key}
use provider_engine.Store.Redis.Memory.{Memory, no_data, put, memory}
use provider_engine.Scheduler.{DeployRequest}
use provider_engine.Relay.{Host}
use provider_engine.SshCa.{Ssh}
use provider_engine.Api.Jwt.{Crypto}
use provider_engine.Api.Http.{Codec, malformed, value, RegisterBody, Request}
use provider_engine.Api.Server.{Server, Env, Config}

abbrev pub database : Postgres
database = record {
  reply = λ s. done;
  now = 1000 * second;
  scan_providers = λ rows. rows;
  scan_jobs = λ rows. rows;
  locked = λ id. false;
  real = λ x. x;
  marshal = λ env. [];
  unmarshal = λ t. [];
  duplicate_key = [];
  no_parent = [];
}

pub database-IsServer : IsServer database
database-IsServer = record {
  providers_same = λ rows x. (λ l. l, λ l. l);
  jobs_same = λ rows x. (λ l. l, λ l. l);
}

abbrev pub provider_id : Text
provider_id = bytes "p1"

abbrev pub job_id : Text
job_id = bytes "j1"

abbrev pub one_provider : Provider
one_provider = record zero_provider {
  id = provider_id;
  wg_ip = bytes "10.99.1.1";
  cpu_cores = pos 4;
  mem_free_mb = pos 2048;
  status = online;
  last_seen = 950 * second;
}

abbrev pub tables : Tables
tables = record { providers = one_provider ∷ []; vms = []; jobs = [] }

-- one address is taken, and one token is known
abbrev pub data_now : Memory
data_now = record no_data {
  counters = put (λ k. pos 0) wg_ip_counter_key (pos 1);
  sets = put (λ k v. false) token_set_key (put (λ v. false) (bytes "t") true);
}

abbrev pub world : World memory
world = record { pg = tables; redis = data_now }

abbrev pub one_job : JobRow
one_job = record {
  id = job_id;
  provider_id = provider_id;
  image_url = bytes "image";
  cpu_cores = pos 1;
  memory_mb = pos 512;
  disk_gb = pos 1;
  ssh_pubkey = [];
  env = [];
  status = scheduled;
  created_at = 0;
}

-- the job is scheduled, and its id is in the queue
abbrev pub world_with_job : World memory
world_with_job = record {
  pg = record tables { jobs = one_job ∷ [] };
  redis = record data_now { lists = put (λ k. []) (job_queue_key provider_id) (job_id ∷ []) };
}

abbrev pub request_of : ℤ → DeployRequest
request_of cpu = record {
  image_url = bytes "image";
  cpu_cores = cpu;
  memory_mb = pos 512;
  disk_gb = pos 1;
  ssh_pubkey = [];
  env = [];
}

abbrev pub crypto : Crypto
crypto = record {
  mac = λ secret m. 1 ∷ 2 ∷ 3 ∷ [];
  unmarshal = λ t. some (record { exp = some (pos 100); nbf = none });
}

abbrev pub register_body : RegisterBody
register_body = record {
  token = bytes "t";
  wg_pubkey = bytes "key";
  location = bytes "x";
  mode = bytes "container";
  cpu_cores = pos 4;
  memory_mb = pos 4096;
  disk_gb = pos 10;
  meta = [];
}

abbrev pub codec : Codec
codec = record {
  register_body = λ t. value (record register_body { token = t });
  heartbeat_body = λ t.
      value (record { provider_id = t; active_vms = pos 0; cpu_load = 0; mem_free_mb = pos 1024 });
  report_body = λ t. malformed [];
  deploy_body = λ t. value (record {
    image_url = t;
    cpu_cores = pos 2;
    memory_mb = pos 512;
    disk_gb = pos 1;
    ssh_pubkey = [];
    env = [];
  });
  cert_body = λ t. malformed [];
}

abbrev pub host : Host
host = record {
  run = λ args. none;
  write = λ path. none;
  read = λ path. none;
  exists = λ path. false;
  unreadable = λ path. [];
}

abbrev pub ssh : Ssh
ssh = record { parse_authorized_key = ok; sign = ok; marshal = λ c. [] }

abbrev pub env_now : Env
env_now = record {
  db = database;
  host = host;
  ssh = ssh;
  crypto = crypto;
  codec = codec;
  uuid = job_id;
  now = 1000 * second;
  unix_now = pos (50 * second);
}

abbrev pub config : Config
config = record {
  registry = record { wg_pub = bytes "cp"; cp_endpoint = bytes "host:51820" };
  jwt_secret = bytes "secret";
}

abbrev pub server : Server memory
server = record { world = world; actions = [] }

abbrev pub deploy_request : Text → Request
deploy_request authorization = record {
  method = bytes "POST";
  path = bytes "api" ∷ bytes "v1" ∷ bytes "deploy" ∷ [];
  authorization = authorization;
  body = bytes "image";
}

abbrev pub heartbeat_request : Request
heartbeat_request = record {
  method = bytes "POST";
  path = bytes "api" ∷ bytes "v1" ∷ bytes "providers" ∷ bytes "heartbeat" ∷ [];
  authorization = [];
  body = provider_id;
}
