-- ===== src/Provider/Agent/Clean.antt =====
-- The processes that the handling of a job leaves.
use provider_engine.Base.{ℕ, ◌∷◌, List, Option, none, some, ◌≡◌}
use provider_engine.Machine.{Machine}
use provider_engine.Provider.Client.{Client}
use provider_engine.Provider.Keys.{File}
use provider_engine.Provider.Vm.Firecracker.{Vms}
use provider_engine.Provider.Vm.Firecracker.Live.{live_of}
use provider_engine.Provider.Agent.{Mode, firecracker, Agent, Spawned, started}

-- What the switch leaves of the processes, of which k were there before: a VM has one more.
abbrev Left : Mode → List ℕ → Spawned × File × Vms → Type 0
Left firecracker k (started ip port, f, s) = (pid : ℕ) × (live_of s ≡ pid ∷ k)
Left mode k (out, f, s) = live_of s ≡ k

-- After the whole of handleJob the same, unless the program has ended
abbrev pub Leaves : Mode → List ℕ → Spawned → Option Agent → Type 0
Leaves mode k out none = Unit {0}
Leaves firecracker k (started ip port) (some a) = (pid : ℕ) × (live_of a.vms ≡ pid ∷ k)
Leaves mode k out (some a) = live_of a.vms ≡ k
