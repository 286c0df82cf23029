-- ===== src/Store/Models.antt =====
-- dcp-control-plane/pkg/store/models.go: the rows that the control plane keeps. A time is the
-- number of nanoseconds since Go's zero time; a float64 is its bit pattern, which is only stored.
use provider_engine.Base.{ℕ, Text, ℤ, pos, List, [], Bool, true, false}

abbrev pub Time : Type 0
Time = ℕ

abbrev pub second : ℕ
second = 1000000000

pub data ProviderStatus : Type 0 where
  online offline : ProviderStatus
  -- the zero value "", in a struct whose column was not read
  unset : ProviderStatus

abbrev pub is_online : ProviderStatus → Bool
is_online online = true
is_online offline = false
is_online unset = false

pub record Provider : Type 0 where
  pub id : Text
  pub token : Text
  pub wg_pubkey : Text
  pub wg_ip : Text
  pub tunnel_port : ℤ
  pub location : Text
  pub mode : Text
  pub cpu_cores : ℤ
  pub memory_mb : ℤ
  pub disk_gb : ℤ
  pub machine_id : Text
  pub binary_hash : Text
  pub status : ProviderStatus
  pub active_vms : ℤ
  pub cpu_load : ℕ
  pub mem_free_mb : ℤ
  pub last_seen : Time
  pub registered_at : Time

-- The zero value of the struct, into which a query scans its columns.
abbrev pub zero_provider : Provider
zero_provider = record {
  id = [];
  token = [];
  wg_pubkey = [];
  wg_ip = [];
  tunnel_port = pos 0;
  location = [];
  mode = [];
  cpu_cores = pos 0;
  memory_mb = pos 0;
  disk_gb = pos 0;
  machine_id = [];
  binary_hash = [];
  status = unset;
  active_vms = pos 0;
  cpu_load = 0;
  mem_free_mb = pos 0;
  last_seen = 0;
  registered_at = 0;
}

pub record Vm : Type 0 where
  pub id : Text
  pub job_id : Text
  pub provider_id : Text
  pub vm_ip : Text
  pub port : ℤ
  pub status : Text
  pub error : Text
  pub created_at : Time

-- `map[string]string`
abbrev pub Env : Type 0
Env = List (Text × Text)

pub data JobStatus : Type 0 where
  pending scheduled running failed : JobStatus

-- The struct's field Status is never set or read; the column is in `JobRow`.
pub record Job : Type 0 where
  pub id : Text
  pub provider_id : Text
  pub image_url : Text
  pub cpu_cores : ℤ
  pub memory_mb : ℤ
  pub disk_gb : ℤ
  pub ssh_pubkey : Text
  pub env : Env
  pub created_at : Time

-- A row of the table `jobs`, whose column `env` holds JSON.
pub record JobRow : Type 0 where
  pub id : Text
  pub provider_id : Text
  pub image_url : Text
  pub cpu_cores : ℤ
  pub memory_mb : ℤ
  pub disk_gb : ℤ
  pub ssh_pubkey : Text
  pub env : Text
  pub status : JobStatus
  pub created_at : Time

pub record Tables : Type 0 where
  pub providers : List Provider
  pub vms : List Vm
  pub jobs : List JobRow

-- `CREATE TABLE IF NOT EXISTS` on a new database
abbrev pub no_tables : Tables
no_tables = record { providers = []; vms = []; jobs = [] }
