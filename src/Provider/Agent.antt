-- ===== src/Provider/Agent.antt =====
-- dcp-provider/internal/agent/agent.go: the mode of the agent and the handling of a job, on the
-- machine that Provider/Vm starts VMs and containers on, and on authorized_keys in the mode ssh.
pub mod Starting
pub mod Report
pub mod Clean
use provider_engine.Base.{
  ℕ, Text, bytes, ◌==◌, ℤ, pos, List, [], ◌∷◌, ◌||◌, Bool, Option, none, some, if◌then◌else◌,
}
use provider_engine.Errors.{Error, message}
use provider_engine.Exec.{Result, ok, err}
use provider_engine.Machine.{Os}
use provider_engine.Provider.Client.{Network, Client, Sent, DeployJob, VmReport, report_vm}
use provider_engine.Provider.Keys.{Device, File, spawn_ssh}
use provider_engine.Provider.Vm.Container.{ContainerVm, ContainerConfig, spawn_container}
use provider_engine.Provider.Vm.Firecracker as Firecracker
use provider_engine.Provider.Vm.Firecracker.{FirecrackerVm, SpawnConfig, Vms, Vmm, on_machine}

-- The switch on the mode. Any other text selects no case.
pub data Mode : Type 0 where
  firecracker container ssh other : Mode

unfoldable pub mode_of : Text → Mode
mode_of t =
    if t == bytes "firecracker"
    then firecracker
    else if t == bytes "container"
    then container
    else if t == bytes "ssh"
    then ssh
    else other

-- step 1 of Run
unfoldable pub resolve_mode : Bool → Bool → Text → Text
resolve_mode kvm_available is_android mode =
    if mode == bytes "auto" || mode == []
    then (if kvm_available
        then bytes "firecracker"
        else if is_android
        then bytes "ssh"
        else bytes "container")
    else mode

-- tunnel.Proxy, started in a goroutine
pub record Relayed : Type 0 where
  pub bind_ip : Text
  pub local_port : ℤ
  pub vm_ip : Text

pub record Agent : Type 0 where
  pub keys : File
  pub vms : Vms
  pub proxies : List Relayed
  pub sent : List Sent

-- `if bindIP == ""` of tunnel.Proxy
unfoldable pub bind_address : Text → Text
bind_address ip = if ip == [] then bytes "127.0.0.1" else ip

-- What the switch leaves: the address and the port to report, spawnErr, a panic, or, if it has no
-- case for the mode, the zero values it began with.
pub data Spawned : Type 0 where
  started : Text → ℤ → Spawned
  failed : Error → Spawned
  panicked unstarted : Spawned

abbrev pub vm_config : DeployJob → SpawnConfig
vm_config job = record {
  job_id = job.job_id;
  image_path = job.image_url;
  cpu_cores = job.cpu_cores;
  memory_mb = job.memory_mb;
  ssh_pub_key = job.ssh_pubkey;
}

abbrev pub container_config : DeployJob → ContainerConfig
container_config job = record {
  job_id = job.job_id;
  image_ref = job.image_url;
  cpu_cores = job.cpu_cores;
  memory_mb = job.memory_mb;
  ssh_pub_key = job.ssh_pubkey;
}

abbrev pub of_vm : ℤ → Result (Option FirecrackerVm) → Spawned
of_vm port (ok (some vm)) = started vm.vm_ip port
of_vm port (ok none) = panicked
of_vm port (err e) = failed e

abbrev pub of_container : ℤ → Result (Option ContainerVm) → Spawned
of_container port (ok (some vm)) = started vm.ip port
of_container port (ok none) = panicked
of_container port (err e) = failed e

abbrev pub of_ssh : Result (Text × ℤ) → Spawned
of_ssh (ok (ip, port)) = started ip port
of_ssh (err e) = failed e

-- In the mode ssh nothing is relayed.
unfoldable pub relays : Mode → ℤ → Text → Text → List Relayed → List Relayed
unfolding bind_address
relays ssh tunnel_port wg_ip ip ps = ps
relays mode tunnel_port wg_ip ip ps =
    record { bind_ip = bind_address wg_ip; local_port = tunnel_port; vm_ip = ip } ∷ ps

module _ (d : Device) (os : Os) (vmm : Vmm) where
  unfoldable pub spawn : Mode → DeployJob → ℤ → ℤ → Text → File → Vms → Spawned × File × Vms
  spawn firecracker job tunnel_port ssh_port wg_ip f s =
      let (r, s') = Firecracker.spawn os vmm (vm_config job) s in (of_vm tunnel_port r, f, s')
  spawn container job tunnel_port ssh_port wg_ip f s =
      let (r, s') = on_machine (spawn_container os (container_config job)) s in
      (of_container tunnel_port r, f, s')
  spawn ssh job tunnel_port ssh_port wg_ip f s =
      let (r, f') = spawn_ssh d wg_ip ssh_port job.ssh_pubkey f in (of_ssh r, f', s)
  spawn other job tunnel_port ssh_port wg_ip f s = (unstarted, f, s)

module _ (c : Client) where
  abbrev pub running_report : DeployJob → Text → ℤ → VmReport
  running_report job ip port = record {
    job_id = job.job_id;
    provider_id = c.provider_id;
    vm_ip = ip;
    port = port;
    status = bytes "running";
    error = [];
  }

  abbrev pub failed_report : DeployJob → Error → VmReport
  failed_report job e = record {
    job_id = job.job_id;
    provider_id = c.provider_id;
    vm_ip = [];
    port = pos 0;
    status = bytes "failed";
    error = message e;
  }

module _ (net : Network) (c : Client) where
  -- handleJob from its report on, none if the switch panicked: then the program has ended. A report
  -- that fails is only logged.
  unfoldable pub finish : Mode → DeployJob → ℤ → Text → Spawned → Agent → Option Agent
  unfolding relays
  finish mode job tunnel_port wg_ip (started ip port) a = some (record a {
    proxies = relays mode tunnel_port wg_ip ip a.proxies;
    sent = (report_vm net c (running_report c job ip port) a.sent).1;
  })
  finish mode job tunnel_port wg_ip unstarted a = some (record a {
    proxies = relays mode tunnel_port wg_ip [] a.proxies;
    sent = (report_vm net c (running_report c job [] (pos 0)) a.sent).1;
  })
  finish mode job tunnel_port wg_ip (failed e) a =
      some (record a { sent = (report_vm net c (failed_report c job e) a.sent).1 })
  finish mode job tunnel_port wg_ip panicked a = none

module _ (net : Network) (c : Client) (d : Device) (os : Os) (vmm : Vmm) where
  unfoldable pub handle_job : DeployJob → Text → ℤ → ℤ → Text → Agent → Option Agent
  unfolding spawn finish mode_of
  handle_job job mode tunnel_port ssh_port wg_ip a =
      let (out, keys, vms) =
        spawn d os vmm (mode_of mode) job tunnel_port ssh_port wg_ip a.keys a.vms in
      finish net c (mode_of mode) job tunnel_port wg_ip out (record a { keys = keys; vms = vms })
