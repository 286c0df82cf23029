-- ===== src/Provider/Agent/Starting.antt =====
-- How the switch of handleJob starts a machine, by the mode.
use provider_engine.Base.{Text, ℤ, Option, some, none, ◌≡◌, refl}
use provider_engine.Exec.{Result, ok, err}
use provider_engine.Provider.Client.{DeployJob}
use provider_engine.Machine.{Os}
use provider_engine.Provider.Keys.{Device, spawn_ssh}
use provider_engine.Provider.Vm.Container.{ContainerVm, spawn_container}
use provider_engine.Provider.Vm.Firecracker as Firecracker
use provider_engine.Provider.Vm.Firecracker.{FirecrackerVm, Vms, Vmm}
use provider_engine.Provider.Agent.{
  Mode, firecracker, container, ssh, other, Agent, Spawned, started, failed, panicked, unstarted,
  spawn, of_vm, of_container, of_ssh,
}

-- The machine started at this address and port, or did not, or its start panicked.
abbrev FromVm : ℤ → Result (Option FirecrackerVm) → Spawned → Type 0
FromVm port (ok (some vm)) out = out ≡ started vm.vm_ip port
FromVm port (ok none) out = out ≡ panicked
FromVm port (err e) out = out ≡ failed e

abbrev FromContainer : ℤ → Result (Option ContainerVm) → Spawned → Type 0
FromContainer port (ok (some vm)) out = out ≡ started vm.ip port
FromContainer port (ok none) out = out ≡ panicked
FromContainer port (err e) out = out ≡ failed e

abbrev FromSsh : Result (Text × ℤ) → Spawned → Type 0
FromSsh (ok (ip, port)) out = out ≡ started ip port
FromSsh (err e) out = out ≡ failed e

module _ (d : Device) (os : Os) (vmm : Vmm) (job : DeployJob) (tunnel_port ssh_port : ℤ)
    (wg_ip : Text) (a : Agent) where
  -- The machine of this job was started the way of the mode: a VM, a container or a key; in another
  -- mode nothing was.
  abbrev pub IsSpawned : Mode → Spawned → Type 0
  IsSpawned firecracker out =
      FromVm tunnel_port
        (Firecracker.spawn os vmm
          (record {
            job_id = job.job_id;
            image_path = job.image_url;
            cpu_cores = job.cpu_cores;
            memory_mb = job.memory_mb;
            ssh_pub_key = job.ssh_pubkey;
          })
          a.vms).0
        out
  IsSpawned container out =
      FromContainer tunnel_port
        (spawn_container os
          (record {
            job_id = job.job_id;
            image_ref = job.image_url;
            cpu_cores = job.cpu_cores;
            memory_mb = job.memory_mb;
            ssh_pub_key = job.ssh_pubkey;
          })
          a.vms.machine).0
        out
  IsSpawned ssh out = FromSsh (spawn_ssh d wg_ip ssh_port job.ssh_pubkey a.keys).0 out
  IsSpawned other out = out ≡ unstarted

  FromVm-of_vm : (x : Result (Option FirecrackerVm)) → FromVm tunnel_port x (of_vm tunnel_port x)
  FromVm-of_vm (ok (some vm)) = refl
  FromVm-of_vm (ok none) = refl
  FromVm-of_vm (err e) = refl

  FromContainer-of_container :
      (x : Result (Option ContainerVm)) → FromContainer tunnel_port x (of_container tunnel_port x)
  FromContainer-of_container (ok (some vm)) = refl
  FromContainer-of_container (ok none) = refl
  FromContainer-of_container (err e) = refl

  FromSsh-of_ssh : (x : Result (Text × ℤ)) → FromSsh x (of_ssh x)
  FromSsh-of_ssh (ok (ip, port)) = refl
  FromSsh-of_ssh (err e) = refl

  pub spawn-IsSpawned :
      (m : Mode) → IsSpawned m (spawn d os vmm m job tunnel_port ssh_port wg_ip a.keys a.vms).0
  unfolding spawn
  spawn-IsSpawned firecracker = FromVm-of_vm _
  spawn-IsSpawned container = FromContainer-of_container _
  spawn-IsSpawned ssh = FromSsh-of_ssh _
  spawn-IsSpawned other = refl
