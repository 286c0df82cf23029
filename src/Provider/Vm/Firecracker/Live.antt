-- ===== src/Provider/Vm/Firecracker/Live.antt =====
-- dcp-provider/internal/vm/firecracker.go: the processes that are started and not killed, and the
-- steps of Spawn that start and kill none.
use provider_engine.Base.{
  ℕ, zero, suc, ◌+◌, eqb, ltb, Text, List, [], ◌∷◌, Bool, true, false, ◌≡◌, refl, ◌∙◌, ap,
  if◌then◌else◌,
}
use provider_engine.Exec.Fixed.{Fixes, fixes_rules, Fixes-pure, Fixes-bind}
use provider_engine.Machine.{
  Machine, Os, Step, Action, command, started, killed, wrote, has_file, mkdir_all, combined, sleep,
}
use provider_engine.Provider.Vm.Firecracker.{
  Vms, Vmm, FirecrackerVm, SpawnConfig, Body, on_machine, allocate_tap_ip, fc_put, configure, Wait,
  appeared, timed_out, out_of_fuel, wait_loop, wait_result, wait_for_socket, run_all, setup_tap,
}

-- all but the first process with this id
abbrev pub without : ℕ → List ℕ → List ℕ
without pid [] = []
without pid (p ∷ ps) = if eqb p pid then ps else p ∷ without pid ps

-- the ids of the started processes on which Kill was not called, the latest first
abbrev pub live : List Action → List ℕ
live [] = []
live (command args ∷ l) = live l
live (started pid args ∷ l) = pid ∷ live l
live (killed pid ∷ l) = without pid (live l)
live (wrote path text ∷ l) = live l

abbrev pub live_on : Machine → List ℕ
live_on m = live m.log

abbrev pub live_of : Vms → List ℕ
live_of s = live s.machine.log

pub on_machine-Fixes :
    {A : Type 0} (step : Step A) → Fixes live_on step → Fixes live_of (on_machine step)
on_machine-Fixes step k = record { at = λ s. k.at s.machine }

pub allocate_tap_ip-Fixes : Fixes live_of allocate_tap_ip
unfolding allocate_tap_ip
allocate_tap_ip-Fixes = record { at = λ s. refl }

module _ (os : Os) (vmm : Vmm) where
  pub mkdir_all-Fixes : (d : Text) → Fixes live_on (mkdir_all os d)
  unfolding mkdir_all
  mkdir_all-Fixes d = record { at = λ m. refl }

  combined-Fixes : (args : List Text) → Fixes live_on (combined os args)
  unfolding combined
  combined-Fixes args = record { at = λ m. refl }

  run_all-Fixes : (cmds : List (List Text)) → Fixes live_on (run_all os vmm cmds)
  unfolding run_all
  run_all-Fixes [] = Fixes-pure tt
  run_all-Fixes (args ∷ rest) = Fixes-bind _ _ (combined-Fixes args) λ _. run_all-Fixes rest

  pub setup_tap-Fixes : (name gw : Text) → Fixes live_on (setup_tap os vmm name gw)
  unfolding setup_tap run_all
  setup_tap-Fixes name gw = search (fixes_rules, combined-Fixes) depth 14

  fc_put-Fixes : (socket url : Text) (body : Body) → Fixes live_of (fc_put os vmm socket url body)
  unfolding fc_put
  fc_put-Fixes socket url body = record { at = λ s. refl }

  pub configure-Fixes :
      (v : FirecrackerVm) (cfg : SpawnConfig) → Fixes live_of (configure os vmm v cfg)
  unfolding configure
  configure-Fixes v cfg = search (fixes_rules, fc_put-Fixes) depth 14

  turn-live :
      (m : Machine) (rest : Wait × Machine) (in_time there : Bool)
      → live_on rest.1 ≡ live_on m
      → live_on (if in_time then (if there then (appeared, m) else rest) else (timed_out, m)).1
        ≡ live_on m
  turn-live m rest false there h = refl
  turn-live m rest true true h = refl
  turn-live m rest true false h = h

  wait_loop-live :
      (n : ℕ) (path : Text) (deadline : ℕ) (m : Machine)
      → live_on (wait_loop os vmm n path deadline m).1 ≡ live_on m
  unfolding wait_loop sleep
  wait_loop-live zero path deadline m = refl
  wait_loop-live (suc n) path deadline m =
      let (r, m') = sleep os 50 m in
      turn-live m (wait_loop os vmm n path deadline m') (ltb m.clock deadline) (has_file path m)
        (wait_loop-live n path deadline m')

  wait_result-state : (path : Text) (w : Wait × Machine) → (wait_result os vmm path w).1 ≡ w.1
  wait_result-state path (appeared, m) = refl
  wait_result-state path (timed_out, m) = refl
  wait_result-state path (out_of_fuel, m) = refl

  pub wait_for_socket-Fixes : (path : Text) → Fixes live_on (wait_for_socket os vmm path)
  unfolding wait_for_socket
  wait_for_socket-Fixes path = record {
    at = λ m.
        ap live_on (wait_result-state path (wait_loop os vmm 61 path (m.clock + 3000) m))
        ∙ wait_loop-live 61 path (m.clock + 3000) m;
  }
