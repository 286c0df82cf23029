-- ===== src/Provider/Vm/Firecracker/Booting.antt =====
-- dcp-provider/internal/vm/firecracker.go: the requests of configure.
use provider_engine.Base.{
  ℕ, ltb, Text, bytes, List, [], ◌∷◌, Bool, true, false, ◌≡◌, refl, if◌then◌else◌,
}
use provider_engine.Errors.{Error}
use provider_engine.Exec.{Result, ok, err, Exec, continue, ◌>>◌}
use provider_engine.Machine.{Machine, Os}
use provider_engine.Provider.Vm.Firecracker.{
  Vms, Vmm, FirecrackerVm, SpawnConfig, Body, boot_source, drive, machine_config, network_interface,
  action, Put, accepted, put_result, fc_put, configure,
}

abbrev pub requests : FirecrackerVm → SpawnConfig → List (Text × Body)
requests v cfg =
    (
      bytes "http://localhost/boot-source",
      boot_source (bytes "/opt/dcp/kernels/vmlinux")
          (bytes "console=ttyS0 reboot=k panic=1 pci=off"),
    )
    ∷ (bytes "http://localhost/drives/rootfs", drive (bytes "rootfs") cfg.image_path true false)
    ∷ (bytes "http://localhost/machine-config", machine_config cfg.cpu_cores cfg.memory_mb)
    ∷ (
      bytes "http://localhost/network-interfaces/eth0",
      network_interface (bytes "eth0") (bytes "AA:FC:00:00:00:01") v.tap_name,
    )
    ∷ (bytes "http://localhost/actions", action (bytes "InstanceStart"))
    ∷ []

abbrev put_of : Text → Body → Result ℕ → Put
put_of url body answer = record { url = url; body = body; answer = answer }

-- The requests are sent in their order, each after the one before it was accepted: the result,
-- what was sent before and what was sent afterwards.
pub data Sent : List (Text × Body) → Result (Unit {0}) → List Put → List Put → Type 0 where
  all_sent : {l : List Put} → Sent [] (ok tt) l l
  refused :
      {url : Text} {body : Body} {rs : List (Text × Body)} {l : List Put} (a : Result ℕ) (e : Error)
      → accepted a ≡ false
      → Sent ((url, body) ∷ rs) (err e) l (put_of url body a ∷ l)
  sent :
      {url : Text} {body : Body} {rs : List (Text × Body)} {l l' : List Put} {r : Result (Unit {0})}
      (a : Result ℕ)
      → accepted a ≡ true
      → Sent rs r (put_of url body a ∷ l) l'
      → Sent ((url, body) ∷ rs) r l l'

abbrev Ran : List (Text × Body) → List Put → Result (Unit {0}) × Vms → Type 0
Ran rs l (r, s) = Sent rs r l s.puts

module _ (url : Text) (body : Body) (m : Machine) (c : ℕ) (l : List Put) where
  abbrev after : Result ℕ → Vms
  after a = record { machine = m; ip_counter = c; puts = put_of url body a ∷ l }

  last_status-Sent :
      (n : ℕ) (b : Bool) (e : Error)
      → ltb n 300 ≡ b
      → Ran ((url, body) ∷ []) l (if b then ok tt else err e, after (ok n))
  last_status-Sent n true e h = sent (ok n) h all_sent
  last_status-Sent n false e h = refused (ok n) e h

  last_answer-Sent : (a : Result ℕ) → Ran ((url, body) ∷ []) l (put_result url a, after a)
  last_answer-Sent (err e) = refused (err e) e refl
  last_answer-Sent (ok n) = last_status-Sent n (ltb n 300) _ refl

  module _ (rs : List (Text × Body)) (next : Exec Vms (Unit {0}))
      (k : (s : Vms) → Ran rs s.puts (next s)) where
    status-Sent :
        (n : ℕ) (b : Bool) (e : Error)
        → ltb n 300 ≡ b
        → Ran ((url, body) ∷ rs) l (continue (λ _. next) (if b then ok tt else err e, after (ok n)))
    status-Sent n true e h = sent (ok n) h (k (after (ok n)))
    status-Sent n false e h = refused (ok n) e h

    answer-Sent :
        (a : Result ℕ) → Ran ((url, body) ∷ rs) l (continue (λ _. next) (put_result url a, after a))
    answer-Sent (err e) = refused (err e) e refl
    answer-Sent (ok n) = status-Sent n (ltb n 300) _ refl

module _ (os : Os) (vmm : Vmm) (socket : Text) where
  last_put-Sent :
      (url : Text) (body : Body) (s : Vms)
      → Ran ((url, body) ∷ []) s.puts (fc_put os vmm socket url body s)
  unfolding fc_put
  last_put-Sent url body s =
      last_answer-Sent url body s.machine s.ip_counter s.puts (vmm.put socket url body s.machine)

  fc_put-Sent :
      (url : Text) (body : Body) (rs : List (Text × Body)) (next : Exec Vms (Unit {0}))
      → ((s : Vms) → Ran rs s.puts (next s))
      → (s : Vms) → Ran ((url, body) ∷ rs) s.puts ((fc_put os vmm socket url body >> next) s)
  unfolding fc_put
  fc_put-Sent url body rs next k s =
      answer-Sent url body s.machine s.ip_counter s.puts rs next k
        (vmm.put socket url body s.machine)

-- The configuration of a VM sends the boot source, the root drive, the machine's size and the
-- network interface in this order and then starts the instance, each only after the request before
-- it was answered with a status below 300, and it succeeds exactly if all five were.
pub configure-Sent :
    (os : Os) (vmm : Vmm) (v : FirecrackerVm) (cfg : SpawnConfig) (s : Vms)
    → let (r, s') = configure os vmm v cfg s in Sent (requests v cfg) r s.puts s'.puts
unfolding configure
configure-Sent os vmm v cfg = fc_put-Sent os vmm v.socket_path _ _ _ _ (
    fc_put-Sent os vmm v.socket_path _ _ _ _ (
      fc_put-Sent os vmm v.socket_path _ _ _ _
        (fc_put-Sent os vmm v.socket_path _ _ _ _ (last_put-Sent os vmm v.socket_path _ _))))
