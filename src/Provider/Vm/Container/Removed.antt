-- ===== src/Provider/Vm/Container/Removed.antt =====
-- dcp-provider/internal/vm/container.go: what SpawnContainer leaves.
use provider_engine.Base.{
  Text, bytes, ◌==◌, ==_refl, List, [], ◌∷◌, Bool, true, false, Option, none, some, ◌≡◌, ◌≢◌, refl,
  ◌⊎◌, inl, inr, ap, sym, ◌∙◌, if◌then◌else◌,
}
use mathlib.Core.Bool.{true≢false}
use provider_engine.Exec.{Result, ok, err, pure, wrapping, continue, ◌>>=◌}
use provider_engine.Strings.{trim_space}
use provider_engine.Machine.{
  Machine, Os, Action, command, answered, run, run_output, run_output_stdin,
}
use provider_engine.Provider.Vm.Container.{
  ContainerVm, ContainerConfig, slice_to, run_args, inspect_args, remove_args, no_ip, with_ip,
  started_as, container_ip, or_remove, spawn_container,
}

-- What containerIP answers: an address, an error, or a panic for an id that is too short
IsAddress : Text → Result (Option Text) × Machine → Type 0
IsAddress id (ok (some ip), m) = ip ≢ []
IsAddress id (ok none, m) = slice_to 12 id ≡ none
IsAddress id (err e, m) = Unit {0}

no_ip-IsAddress :
    (id : Text) (m : Machine) (o : Option Text) → slice_to 12 id ≡ o → IsAddress id (no_ip o m)
unfolding IsAddress
no_ip-IsAddress id m none h = h
no_ip-IsAddress id m (some short) h = tt

tested-IsAddress :
    (id ip : Text) (m : Machine) (b : Bool)
    → (ip == []) ≡ b
    → IsAddress id ((if b then no_ip (slice_to 12 id) else pure (some ip)) m)
unfolding IsAddress
tested-IsAddress id ip m true h = no_ip-IsAddress id m (slice_to 12 id) refl
tested-IsAddress id ip m false h =
    λ e. true≢false (sym (==_refl []) ∙ ap (λ s. s == []) (sym e) ∙ h)

module _ (os : Os) where
  inspected-IsAddress :
      (id : Text) (m : Machine) (failure : Option Text) (stdout : Text)
      → IsAddress id (
          continue
            (λ out.
              let ip = trim_space out in
              if ip == [] then no_ip (slice_to 12 id) else pure (some ip))
            (wrapping (bytes "docker inspect") (λ s. (answered failure stdout, s)) m))
  unfolding IsAddress
  inspected-IsAddress id m none stdout =
      tested-IsAddress id (trim_space stdout) m (trim_space stdout == []) refl
  inspected-IsAddress id m (some e) stdout = tt

  container_ip-IsAddress : (id : Text) (m : Machine) → IsAddress id (container_ip os id m)
  unfolding container_ip run_output run_output_stdin
  container_ip-IsAddress id m =
      let out = os.exec (inspect_args id) [] m in inspected-IsAddress id _ out.failure out.stdout

-- What SpawnContainer leaves, from the machine m it was called on: a container with an address; a
-- panic, for an id of less than twelve characters; or an error, and then either `docker run` failed
-- and nothing else was run, or it worked and `docker rm -f` of the id that it printed was run last.
abbrev pub IsLeft : Os → ContainerConfig → Machine → Result (Option ContainerVm) × Machine → Type 0
IsLeft os cfg m (ok (some vm), m') = vm.ip ≢ []
IsLeft os cfg m (ok none, m') = slice_to 12 (trim_space (os.exec (run_args cfg) [] m).stdout) ≡ none
IsLeft os cfg m (err e, m') =
    (((os.exec (run_args cfg) [] m).failure ≢ none) × (m'.log ≡ command (run_args cfg) ∷ m.log))
    ⊎ ((l : List Action) × ((os.exec (run_args cfg) [] m).failure ≡ none)
        × (m'.log ≡ command (remove_args (trim_space (os.exec (run_args cfg) [] m).stdout)) ∷ l))

module _ (os : Os) (cfg : ContainerConfig) (m : Machine) where
  named-IsLeft :
      (ip : Text) (m' : Machine) (o : Option Text)
      → ip ≢ []
      → slice_to 12 (trim_space (os.exec (run_args cfg) [] m).stdout) ≡ o
      → IsLeft os cfg m
          (ok (started_as cfg (trim_space (os.exec (run_args cfg) [] m).stdout) ip o), m')
  named-IsLeft ip m' none h i = i
  named-IsLeft ip m' (some short) h i = h

  addressed-IsLeft :
      (r : Result (Option Text) × Machine)
      → (os.exec (run_args cfg) [] m).failure ≡ none
      → IsAddress (trim_space (os.exec (run_args cfg) [] m).stdout) r
      → IsLeft os cfg m (
          let id = trim_space (os.exec (run_args cfg) [] m).stdout in
          continue (λ ip. pure (with_ip cfg id ip)) (or_remove os id r))
  unfolding IsAddress run
  addressed-IsLeft (ok none, m') worked h = h
  addressed-IsLeft (ok (some ip), m') worked h = named-IsLeft ip m' _ h refl
  addressed-IsLeft (err e, m') worked h = inr (m'.log, worked, refl)

  run-IsLeft :
      (failure : Option Text) (m' : Machine)
      → (os.exec (run_args cfg) [] m).failure ≡ failure
      → m'.log ≡ command (run_args cfg) ∷ m.log
      → IsLeft os cfg m (
          let out = os.exec (run_args cfg) [] m in
          continue
            (λ stdout.
              let id = trim_space stdout in
              (λ n. or_remove os id (container_ip os id n)) >>= λ ip. pure (with_ip cfg id ip))
            (wrapping (bytes "docker run") (λ s. (answered failure out.stdout, s)) m'))
  run-IsLeft none m' e h =
      addressed-IsLeft _ e
        (container_ip-IsAddress os (trim_space (os.exec (run_args cfg) [] m).stdout) m')
  run-IsLeft (some t) m' e h = inl ((λ worked. cc (e, worked)), h)

-- If SpawnContainer returns a container, it has an address; it panics only if the id that docker
-- printed has less than twelve characters; and if it fails, then either `docker run` failed, and
-- that was all that was run, or `docker run` worked and `docker rm -f` of the id that it printed was
-- the last command that was run, whose own failure is ignored.
pub spawn_container-IsLeft :
    (os : Os) (cfg : ContainerConfig) (m : Machine) → IsLeft os cfg m (spawn_container os cfg m)
unfolding spawn_container run_output run_output_stdin
spawn_container-IsLeft os cfg m =
    let out = os.exec (run_args cfg) [] m in run-IsLeft os cfg m out.failure _ refl refl
