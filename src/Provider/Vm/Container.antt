-- ===== src/Provider/Vm/Container.antt =====
-- dcp-provider/internal/vm/container.go, over the parameter `Os`. A step that returns none stands
-- for the panic of a slice that is out of range.
pub mod Removed
use provider_engine.Base.{
  ℕ, zero, suc, Text, bytes, ◌==◌, List, [], ◌∷◌, ◌++◌, Bool, true, false, Option, none, some, ℤ,
  decimal_ℤ, if◌then◌else◌,
}
use provider_engine.Errors.{Error, driver}
use provider_engine.Exec.{Result, ok, err, Exec, pure, raise, wrapping, ◌>>=◌, ◌>>◌}
use provider_engine.Strings.{trim_space}
use provider_engine.Machine.{Machine, Os, Step, argv, run, run_output}

pub record ContainerVm : Type 0 where
  pub job_id : Text
  pub container_id : Text
  pub ip : Text

pub record ContainerConfig : Type 0 where
  pub job_id : Text
  pub image_ref : Text
  pub cpu_cores : ℤ
  pub memory_mb : ℤ
  pub ssh_pub_key : Text

-- s[:n], none if s is shorter
unfoldable pub slice_to : ℕ → Text → Option Text
slice_to zero s = some []
slice_to (suc n) [] = none
slice_to (suc n) (c ∷ s) = elim (slice_to n s) [ some t ↦ some (c ∷ t) | none ↦ none ]

abbrev pub run_args : ContainerConfig → List Text
run_args cfg =
    argv "docker run -d --name"
    ++ ((bytes "dcp-" ++ cfg.job_id)
        ∷ bytes "--cpus"
        ∷ decimal_ℤ cfg.cpu_cores
        ∷ bytes "--memory"
        ∷ (decimal_ℤ cfg.memory_mb ++ bytes "m")
        ∷ bytes "--label"
        ∷ (bytes "dcp.job=" ++ cfg.job_id)
        ∷ bytes "--env"
        ∷ (bytes "DCP_SSH_PUBKEY=" ++ cfg.ssh_pub_key)
        ∷ cfg.image_ref
        ∷ [])

abbrev pub inspect_args : Text → List Text
inspect_args id =
    argv "docker inspect -f"
    ++ (bytes "{{range .NetworkSettings.Networks}}{{.IPAddress}}{{end}}" ∷ id ∷ [])

abbrev pub remove_args : Text → List Text
remove_args id = argv "docker rm -f" ++ (id ∷ [])

-- fmt.Errorf("container %s has no IP", id[:12])
abbrev pub no_ip : Option Text → Step (Option Text)
no_ip none = pure none
no_ip (some short) = raise (driver (bytes "container " ++ (short ++ bytes " has no IP")))

-- the log line has id[:12], then the container is returned
abbrev pub started_as : ContainerConfig → Text → Text → Option Text → Option ContainerVm
started_as cfg id ip none = none
started_as cfg id ip (some short) =
    some (record { job_id = cfg.job_id; container_id = id; ip = ip })

abbrev pub with_ip : ContainerConfig → Text → Option Text → Option ContainerVm
with_ip cfg id none = none
with_ip cfg id (some ip) = started_as cfg id ip (slice_to 12 id)

module _ (os : Os) where
  unfoldable pub container_ip : Text → Step (Option Text)
  unfolding slice_to
  container_ip id = do
    out ← wrapping (bytes "docker inspect") (run_output os (inspect_args id))
    let ip = trim_space out
    if ip == [] then no_ip (slice_to 12 id) else pure (some ip)

  -- the container is removed if its address cannot be had
  abbrev pub or_remove : Text → Result (Option Text) × Machine → Result (Option Text) × Machine
  or_remove id (ok ip, m) = (ok ip, m)
  or_remove id (err e, m) = let (r, m') = run os (remove_args id) m in (err e, m')

  unfoldable pub spawn_container : ContainerConfig → Step (Option ContainerVm)
  unfolding container_ip
  spawn_container cfg = do
    out ← wrapping (bytes "docker run") (run_output os (run_args cfg))
    let id = trim_space out
    ip ← λ m. or_remove id (container_ip id m)
    pure (with_ip cfg id ip)

  -- Kill
  unfoldable pub kill_container : ContainerVm → Step (Unit {0})
  kill_container vm = run os (remove_args vm.container_id)
