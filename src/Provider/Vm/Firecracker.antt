-- ===== src/Provider/Vm/Firecracker.antt =====
-- dcp-provider/internal/vm/firecracker.go. The processes, the API of the VMM and filepath.Join are
-- the parameter `Vmm`; commands and files are the parameter `Os`. A step that returns none stands
-- for the panic of a slice that is out of range.
pub mod Waiting
pub mod Booting
pub mod Live
pub mod Processes
use provider_engine.Base.{
  ℕ, zero, suc, ◌+◌, Text, bytes, List, [], ◌∷◌, ◌++◌, Bool, true, false, Option, none, some, ℤ,
  decimal, ltb, if◌then◌else◌,
}
use provider_engine.Errors.{Error, driver}
use provider_engine.Exec.{Result, ok, err, Exec, pure, raise, wrapping, ◌>>=◌, ◌>>◌}
use provider_engine.Machine.{
  Machine, Os, Step, Action, started, killed, argv, note, has_file, mkdir_all, run, combined, sleep,
}
use provider_engine.Provider.Vm.Container.{slice_to}

pub record FirecrackerVm : Type 0 where
  pub job_id : Text
  pub id : Text
  pub socket_path : Text
  pub tap_name : Text
  pub vm_ip : Text
  pub pid : ℕ

pub record SpawnConfig : Type 0 where
  pub job_id : Text
  pub image_path : Text
  pub cpu_cores : ℤ
  pub memory_mb : ℤ
  pub ssh_pub_key : Text

-- the bodies of the requests to the VMM, as the fields of the JSON objects
pub data Body : Type 0 where
  boot_source : (kernel_image_path boot_args : Text) → Body
  drive : (drive_id path_on_host : Text) (is_root_device is_read_only : Bool) → Body
  machine_config : (vcpu_count mem_size_mib : ℤ) → Body
  network_interface : (iface_id guest_mac host_dev_name : Text) → Body
  action : (action_type : Text) → Body

pub record Put : Type 0 where
  pub url : Text
  pub body : Body
  -- the status code, or the error of the request
  pub answer : Result ℕ

pub record Vmm : Type 0 where
  -- the process id of a started command
  pub start : List Text → Machine → Result ℕ
  -- the answer to a PUT over the socket
  pub put : Text → Text → Body → Machine → Result ℕ
  pub join : Text → Text → Text

pub record Vms : Type 0 where
  pub machine : Machine
  -- ipCounter, which starts at 1
  pub ip_counter : ℕ
  -- the requests to VMMs, the latest first
  pub puts : List Put

abbrev with_machine : {A : Type 0} → Vms → Result A × Machine → Result A × Vms
with_machine s (r, m) = (r, record { machine = m; ip_counter = s.ip_counter; puts = s.puts })

abbrev pub on_machine : {A : Type 0} → Step A → Exec Vms A
on_machine step s = with_machine s (step s.machine)

abbrev tap_address : ℕ → ℕ → Text
tap_address base host = bytes "172.16." ++ (decimal base ++ (bytes "." ++ decimal host))

-- allocateTapIP: the addresses of the VM and of its gateway
unfoldable pub allocate_tap_ip : Exec Vms (Text × Text)
allocate_tap_ip s =
    let base = s.ip_counter + 4 in
    (
      ok (tap_address base 2, tap_address base 1),
      record { machine = s.machine; ip_counter = base; puts = s.puts },
    )

-- Is a status below 300?
abbrev pub accepted : Result ℕ → Bool
accepted (err e) = false
accepted (ok status) = ltb status 300

abbrev put_result : Text → Result ℕ → Result (Unit {0})
put_result url (err e) = err e
put_result url (ok status) =
    if ltb status 300
    then ok tt
    else err (driver (bytes "fc API " ++ (url ++ (bytes ": HTTP " ++ decimal status))))

abbrev pub vm_of : SpawnConfig → Text → Text → Text → ℕ → FirecrackerVm
vm_of cfg socket tap vm_ip pid = record {
  job_id = cfg.job_id;
  id = cfg.job_id;
  socket_path = socket;
  tap_name = tap;
  vm_ip = vm_ip;
  pid = pid;
}

-- What one turn of the loop of waitForSocket leaves to do
pub data Wait : Type 0 where
  appeared timed_out out_of_fuel : Wait

module _ (os : Os) (vmm : Vmm) where
  unfoldable pub fc_put : Text → Text → Body → Exec Vms (Unit {0})
  fc_put socket url body s =
      let answer = vmm.put socket url body s.machine in
      (
        put_result url answer,
        record {
          machine = s.machine;
          ip_counter = s.ip_counter;
          puts = record { url = url; body = body; answer = answer } ∷ s.puts;
        },
      )

  -- The loop: the deadline is an absolute time.
  unfoldable pub wait_loop : ℕ → Text → ℕ → Machine → Wait × Machine
  wait_loop zero path deadline m = (out_of_fuel, m)
  wait_loop (suc n) path deadline m =
      let (r, m') = sleep os 50 m in
      let rest = wait_loop n path deadline m' in
      if ltb m.clock deadline
      then (if has_file path m then (appeared, m) else rest)
      else (timed_out, m)

  abbrev wait_result : Text → Wait × Machine → Result (Unit {0}) × Machine
  wait_result path (appeared, m) = (ok tt, m)
  wait_result path (timed_out, m) =
      (err (driver (bytes "socket " ++ (path ++ bytes " did not appear within 3s"))), m)
  wait_result path (out_of_fuel, m) = (err (driver (bytes "out of fuel")), m)

  -- waitForSocket with the timeout of its only caller
  unfoldable pub wait_for_socket : Text → Step (Unit {0})
  unfolding wait_loop
  wait_for_socket path m = wait_result path (wait_loop 61 path (m.clock + 3000) m)

  -- setupTap
  unfoldable pub run_all : List (List Text) → Step (Unit {0})
  run_all [] = pure tt
  run_all (args ∷ rest) = combined os args >> run_all rest

  unfoldable pub setup_tap : Text → Text → Step (Unit {0})
  unfolding run_all
  setup_tap name gw_ip = run_all (
      (argv "ip tuntap add" ++ (name ∷ bytes "mode" ∷ bytes "tap" ∷ []))
      ∷ (argv "ip addr add" ++ ((gw_ip ++ bytes "/30") ∷ bytes "dev" ∷ name ∷ []))
      ∷ (argv "ip link set" ++ (name ∷ bytes "up" ∷ []))
      ∷ [])

  unfoldable pub configure : FirecrackerVm → SpawnConfig → Exec Vms (Unit {0})
  unfolding fc_put
  configure v cfg = do
    fc_put v.socket_path (bytes "http://localhost/boot-source") (
        boot_source (bytes "/opt/dcp/kernels/vmlinux")
          (bytes "console=ttyS0 reboot=k panic=1 pci=off"))
    fc_put v.socket_path (bytes "http://localhost/drives/rootfs")
        (drive (bytes "rootfs") cfg.image_path true false)
    fc_put v.socket_path (bytes "http://localhost/machine-config")
        (machine_config cfg.cpu_cores cfg.memory_mb)
    fc_put v.socket_path (bytes "http://localhost/network-interfaces/eth0")
        (network_interface (bytes "eth0") (bytes "AA:FC:00:00:00:01") v.tap_name)
    fc_put v.socket_path (bytes "http://localhost/actions") (action (bytes "InstanceStart"))

  abbrev start_result : List Text → Machine → Result ℕ → Result ℕ × Machine
  start_result args m (ok pid) = (ok pid, note (started pid args) m)
  start_result args m (err e) = (err e, m)

  -- cmd.Start()
  unfoldable pub start : List Text → Step ℕ
  start args m = start_result args m (vmm.start args m)

  -- `cmd.Process.Kill()` before an error is returned
  abbrev or_kill : {A : Type 0} → ℕ → Result A × Vms → Result A × Vms
  or_kill pid (ok a, s) = (ok a, s)
  or_kill pid (err e, s) = (
    err e,
    record { machine = note (killed pid) s.machine; ip_counter = s.ip_counter; puts = s.puts },
  )

  abbrev jailer_args : Text → Text → List Text
  jailer_args id socket =
      bytes "/usr/local/bin/jailer"
      ∷ bytes "--id"
      ∷ id
      ∷ (argv "--exec-file /usr/local/bin/firecracker --uid 1000 --gid 1000 -- --api-sock"
          ++ (socket ∷ []))

  -- from the start of the jailer on
  unfoldable pub boot : SpawnConfig → Text → Text → Text → Exec Vms FirecrackerVm
  unfolding start wait_for_socket configure
  boot cfg socket tap vm_ip = do
    pid ← wrapping (bytes "jailer start") (on_machine (start (jailer_args cfg.job_id socket)))
    let vm = vm_of cfg socket tap vm_ip pid
    λ s. or_kill pid (on_machine (wait_for_socket socket) s)
    λ s. or_kill pid (wrapping (bytes "fc configure") (configure vm cfg) s)
    pure vm

  spawn_as : SpawnConfig → Text → Option Text → Exec Vms (Option FirecrackerVm)
  unfolding boot setup_tap allocate_tap_ip
  spawn_as cfg vm_dir none = pure none
  spawn_as cfg vm_dir (some short) = do
    let tap = bytes "tap-" ++ short
    ips ← allocate_tap_ip
    wrapping (bytes "tap setup") (on_machine (setup_tap tap ips.1))
    vm ← boot cfg (vmm.join vm_dir (bytes "api.sock")) tap ips.0
    pure (some vm)

  unfoldable pub spawn : SpawnConfig → Exec Vms (Option FirecrackerVm)
  unfolding spawn_as slice_to
  spawn cfg = do
    let vm_dir = vmm.join (bytes "/srv/dcp/vms") cfg.job_id
    on_machine (mkdir_all os vm_dir)
    spawn_as cfg vm_dir (slice_to 8 cfg.job_id)

  -- Kill
  unfoldable pub kill : FirecrackerVm → Step (Unit {0})
  kill v m =
      let m' = if ltb 0 v.pid then note (killed v.pid) m else m in
      run os (argv "ip link del" ++ (v.tap_name ∷ [])) m'
