-- ===== src/Provider/Vm/Firecracker/Processes.antt =====
-- dcp-provider/internal/vm/firecracker.go: the processes that Spawn starts and kills.
use provider_engine.Base.{
  ℕ, ◌∷◌, eqb, true, Text, List, Option, none, some, ◌≡◌, refl, ◌∙◌, ap, arith,
}
use provider_engine.Errors.{Error}
use provider_engine.Exec.{Result, ok, err, Exec, pure, rewrap, map_error, continue, ◌>>=◌}
use provider_engine.Exec.Fixed.{Fixes, Fixes-map_error}
use provider_engine.Machine.{Os}
use provider_engine.Provider.Vm.Firecracker.{
  Vms, Vmm, FirecrackerVm, SpawnConfig, on_machine, with_machine, start_result, start, or_kill,
  boot, spawn_as, spawn, vm_of,
}
use provider_engine.Provider.Vm.Firecracker.Live.{
  live_of, on_machine-Fixes, allocate_tap_ip-Fixes, mkdir_all-Fixes, setup_tap-Fixes,
  configure-Fixes, wait_for_socket-Fixes,
}

-- Of the live processes, of which k were there before: one more, with this id, or none after an error
abbrev Balanced : {A : Type 0} → ℕ → List ℕ → Result A × Vms → Type 0
Balanced pid k (ok a, s) = live_of s ≡ pid ∷ k
Balanced pid k (err e, s) = live_of s ≡ k

-- the same, for the id that is returned
abbrev Started : List ℕ → Result ℕ × Vms → Type 0
Started k (ok pid, s) = live_of s ≡ pid ∷ k
Started k (err e, s) = live_of s ≡ k

-- and for that of the VM that is returned
abbrev Booted : List ℕ → Result FirecrackerVm × Vms → Type 0
Booted k (ok vm, s) = live_of s ≡ vm.pid ∷ k
Booted k (err e, s) = live_of s ≡ k

-- A step that starts a process where k are live, steps after that start, and a whole boot
record Starts (k : List ℕ) (x : Exec Vms ℕ) : Type 0 where
  pub at : (s : Vms) → live_of s ≡ k → Started k (x s)

record Guarded {A : Type 0} (pid : ℕ) (k : List ℕ) (x : Exec Vms A) : Type 0 where
  pub at : (s : Vms) → live_of s ≡ pid ∷ k → Balanced pid k (x s)

record Completes (pid : ℕ) (k : List ℕ) (x : Exec Vms FirecrackerVm) : Type 0 where
  pub at : (s : Vms) → live_of s ≡ pid ∷ k → Booted k (x s)

record Boots (k : List ℕ) (x : Exec Vms FirecrackerVm) : Type 0 where
  pub at : (s : Vms) → live_of s ≡ k → Booted k (x s)

-- What Spawn leaves: a VM and its process, or a panic or an error and no process more than before
abbrev pub IsBalanced : List ℕ → Result (Option FirecrackerVm) × Vms → Type 0
IsBalanced k (ok (some vm), s) = live_of s ≡ vm.pid ∷ k
IsBalanced k (ok none, s) = live_of s ≡ k
IsBalanced k (err e, s) = live_of s ≡ k

record Spawns (k : List ℕ) (x : Exec Vms (Option FirecrackerVm)) : Type 0 where
  pub at : (s : Vms) → live_of s ≡ k → IsBalanced k (x s)

module _ {k : List ℕ} where
  continue-Booted :
      {A : Type 0} (pid : ℕ) (r : Result A × Vms) (f : A → Exec Vms FirecrackerVm)
      → Balanced pid k r
      → ((a : A) → Completes pid k (f a))
      → Booted k (continue f r)
  continue-Booted pid (ok a, s) f h g = (g a).at s h
  continue-Booted pid (err e, s) f h g = h

  Completes-bind :
      {A : Type 0} (pid : ℕ) (x : Exec Vms A) (f : A → Exec Vms FirecrackerVm)
      → Guarded pid k x
      → ((a : A) → Completes pid k (f a))
      → Completes pid k (x >>= f)
  Completes-bind pid x f g l = record { at = λ s h. continue-Booted pid (x s) f (g.at s h) l }

  Completes-pure : (vm : FirecrackerVm) → Completes vm.pid k (pure vm)
  Completes-pure vm = record { at = λ s h. h }

  Started-Booted :
      (r : Result ℕ × Vms) (f : ℕ → Exec Vms FirecrackerVm)
      → Started k r
      → ((pid : ℕ) → Completes pid k (f pid))
      → Booted k (continue f r)
  Started-Booted (ok pid, s) f h g = (g pid).at s h
  Started-Booted (err e, s) f h g = h

  Boots-bind :
      (x : Exec Vms ℕ) (f : ℕ → Exec Vms FirecrackerVm)
      → Starts k x
      → ((pid : ℕ) → Completes pid k (f pid))
      → Boots k (x >>= f)
  Boots-bind x f g l = record { at = λ s h. Started-Booted (x s) f (g.at s h) l }

module _ {A : Type 0} {k : List ℕ} where
  continue-IsBalanced :
      (r : Result A × Vms) (f : A → Exec Vms (Option FirecrackerVm))
      → live_of r.1 ≡ k
      → ((a : A) → Spawns k (f a))
      → IsBalanced k (continue f r)
  continue-IsBalanced (ok a, s) f h g = (g a).at s h
  continue-IsBalanced (err e, s) f h g = h

  Spawns-bind :
      (x : Exec Vms A) (f : A → Exec Vms (Option FirecrackerVm))
      → Fixes live_of x
      → ((a : A) → Spawns k (f a))
      → Spawns k (x >>= f)
  Spawns-bind x f g l = record { at = λ s h. continue-IsBalanced (x s) f (g.at s ∙ h) l }

Booted-IsBalanced :
    (k : List ℕ) (r : Result FirecrackerVm × Vms)
    → Booted k r
    → IsBalanced k (continue (λ vm. pure (some vm)) r)
Booted-IsBalanced k (ok vm, s) h = h
Booted-IsBalanced k (err e, s) h = h

Spawns-booted :
    {k : List ℕ} (x : Exec Vms FirecrackerVm) → Boots k x → Spawns k (x >>= λ vm. pure (some vm))
Spawns-booted {k} x g = record { at = λ s h. Booted-IsBalanced k (x s) (g.at s h) }

eqb_refl : (n : ℕ) → eqb n n ≡ true
eqb_refl n = ground arith

module _ (os : Os) (vmm : Vmm) {k : List ℕ} where
  or_kill-Balanced :
      {A : Type 0} (pid : ℕ) (r : Result A × Vms)
      → live_of r.1 ≡ pid ∷ k
      → Balanced pid k (or_kill os vmm pid r)
  or_kill-Balanced pid (ok a, s) h = h
  or_kill-Balanced pid (err e, s) h = rw (h, eqb_refl pid) refl

  Guarded-or_kill :
      {A : Type 0} (pid : ℕ) (x : Exec Vms A)
      → Fixes live_of x
      → Guarded pid k (λ s. or_kill os vmm pid (x s))
  Guarded-or_kill pid x g = record { at = λ s h. or_kill-Balanced pid (x s) (g.at s ∙ h) }

  start_result-Started :
      (args : List Text) (g : Error → Error) (r : Result ℕ) (s : Vms)
      → live_of s ≡ k
      → Started k (rewrap g (with_machine s (start_result os vmm args s.machine r)))
  start_result-Started args g (ok pid) s h = ap (λ l. pid ∷ l) h
  start_result-Started args g (err e) s h = h

  start-Starts :
      (args : List Text) (g : Error → Error)
      → Starts k (map_error g (on_machine (start os vmm args)))
  unfolding start
  start-Starts args g = record {
    at = λ s. start_result-Started args g (vmm.start args s.machine) s;
  }

  boot-Boots :
      (cfg : SpawnConfig) (socket tap vm_ip : Text) → Boots k (boot os vmm cfg socket tap vm_ip)
  unfolding boot
  boot-Boots cfg socket tap vm_ip = Boots-bind _ _ (start-Starts _ _) λ pid.
      Completes-bind pid _ _
        (Guarded-or_kill pid _ (on_machine-Fixes _ (wait_for_socket-Fixes os vmm socket)))
        λ _.
          Completes-bind pid _ _
            (Guarded-or_kill pid _
              (Fixes-map_error _ _ (configure-Fixes os vmm (vm_of cfg socket tap vm_ip pid) cfg)))
            λ _. Completes-pure (vm_of cfg socket tap vm_ip pid)

  spawn_as-Spawns :
      (cfg : SpawnConfig) (dir : Text) (o : Option Text) → Spawns k (spawn_as os vmm cfg dir o)
  unfolding spawn_as
  spawn_as-Spawns cfg dir none = record { at = λ s h. h }
  spawn_as-Spawns cfg dir (some short) =
      search
        (
          Spawns-bind,
          Spawns-booted,
          boot-Boots,
          allocate_tap_ip-Fixes,
          Fixes-map_error,
          on_machine-Fixes,
          setup_tap-Fixes os vmm,
        )
        depth 14

-- A call of Spawn that returns a VM has started one process that it has not called Kill on, whose
-- id the VM has; one that fails, at whatever step, or panics has called Kill on every process that
-- it started, whether or not Kill worked. All other processes are left alone.
pub spawn-IsBalanced :
    (os : Os) (vmm : Vmm) (cfg : SpawnConfig) (s : Vms)
    → IsBalanced (live_of s) (spawn os vmm cfg s)
unfolding spawn
spawn-IsBalanced os vmm cfg s =
    let spawns : Spawns (live_of s) (spawn os vmm cfg) =
      search (Spawns-bind, spawn_as-Spawns, on_machine-Fixes, mkdir_all-Fixes os vmm) depth 14 in
    spawns.at s refl
