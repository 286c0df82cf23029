-- ===== src/Tests/Agents.antt =====
-- The theorems on the provider's agent.
use provider_engine.Base.{
  ◌++◌, ◌/◌, bytes, pos, [], ◌∷◌, none, some, true, ◌≡◌, refl, inr, arith, decimal,
}
use provider_engine.Errors.{driver}
use provider_engine.Exec.{ok, err}
use provider_engine.Strings.{strip_prefix, split_lines, fields}
use provider_engine.Provider.Client.{Network, Client, answered, DeployJob}
use provider_engine.Provider.Keys.{Device, is_authorized, authorize_canonical}
use provider_engine.Provider.Keys.Lines.{authorize_canonical-idempotent}
use provider_engine.Provider.Meminfo.{mem_free_mb}
use provider_engine.Provider.Meminfo.Atoi.{mem_free_mb-line}
use provider_engine.Provider.Vm.Firecracker.{Vmm}
use provider_engine.Provider.Agent.{Agent}
use provider_engine.Tests.Hosts.{bare}

abbrev job : DeployJob
job = record {
  job_id = bytes "0a1b2c3d-0000";
  image_url = bytes "image";
  cpu_cores = pos 1;
  memory_mb = pos 512;
  disk_gb = pos 1;
  ssh_pubkey = [];
  env = [];
}

abbrev network : Network
network = record {
  bad_url = λ url. none;
  answer = λ req. answered 200 [];
  read_register = λ t. err (driver t);
  read_job = λ t. ok job;
}

abbrev client : Client
client = record { base_url = bytes "http://cp"; token = bytes "t"; provider_id = bytes "p1" }

abbrev pub device : Device
device = record {
  canonical = ok;
  home_error = none;
  mkdir_error = none;
  open_error = none;
  write_error = none;
  partly = λ t. [];
  can_read = true;
  is_android = true;
}

abbrev pub vmm : Vmm
vmm = record {
  start = λ args m. ok 42;
  put = λ socket url body m. ok 204;
  join = λ dir name. dir ++ (47 ∷ name);
}

abbrev pub agent : Agent
agent = record {
  keys = none;
  vms = record { machine = bare; ip_counter = 1; puts = [] };
  proxies = [];
  sent = [];
}

authorize_canonical-idempotent_example :
    (is_authorized (bytes "k") (authorize_canonical device (bytes "k") (some (bytes "a\n"))).1
      ≡ true)
    × (authorize_canonical device
          (bytes "k")
          (authorize_canonical device (bytes "k") (some (bytes "a\n"))).1
        ≡ (ok tt, (authorize_canonical device (bytes "k") (some (bytes "a\n"))).1))
authorize_canonical-idempotent_example =
    authorize_canonical-idempotent device (bytes "k")
      (record { home = refl; mkdir = refl; read = refl; open_file = refl; write = refl })
      ((λ e. absurd (omega (arith, e))), tt) refl (some (bytes "a\n")) (inr (bytes "a", refl))

mem_free_mb-line_example :
    mem_free_mb (some (bytes "MemTotal: 9 kB\nMemAvailable: 20480 kB\n")) ≡ pos (20480 / 1024)
unfolding split_lines fields strip_prefix decimal
mem_free_mb-line_example =
    mem_free_mb-line 20480 (bytes "MemTotal: 9 kB\nMemAvailable: 20480 kB\n")
      (bytes "MemTotal: 9 kB" ∷ []) ([] ∷ []) (bytes "kB" ∷ []) (bytes "MemAvailable: 20480 kB")
      (omega arith) refl (refl, tt) refl refl
