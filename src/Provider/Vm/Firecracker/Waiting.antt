-- ===== src/Provider/Vm/Firecracker/Waiting.antt =====
-- dcp-provider/internal/vm/firecracker.go: the loop of waitForSocket.
use provider_engine.Base.{
  ℕ, zero, suc, ◌+◌, ◌*◌, ◌≤◌, ltb, Text, bytes, ◌++◌, Bool, true, false, ltb→lt, ◌≡◌, refl, arith,
  if◌then◌else◌,
}
use provider_engine.Errors.{driver}
use provider_engine.Exec.{Result, ok, err}
use provider_engine.Machine.{Machine, Os, has_file, sleep}
use provider_engine.Provider.Vm.Firecracker.{
  Vmm, Wait, appeared, timed_out, out_of_fuel, wait_loop, wait_result, wait_for_socket,
}

-- How a wait ends: something is under the path, or the deadline has passed
abbrev IsEnded : Text → ℕ → Wait × Machine → Type 0
IsEnded path deadline (appeared, m) = has_file path m ≡ true
IsEnded path deadline (timed_out, m) = deadline ≤ m.clock
IsEnded path deadline (out_of_fuel, m) = ⊥

module _ (os : Os) (vmm : Vmm) (path : Text) where
  turn :
      (deadline : ℕ) (m : Machine) (rest : Wait × Machine) (in_time there : Bool)
      → ltb m.clock deadline ≡ in_time
      → has_file path m ≡ there
      → (in_time ≡ true → IsEnded path deadline rest)
      → IsEnded path deadline
          (if in_time then (if there then (appeared, m) else rest) else (timed_out, m))
  turn deadline m rest false there e f h = ground arith
  turn deadline m rest true true e f h = f
  turn deadline m rest true false e f h = h refl

  wait_loop-IsEnded :
      (n : ℕ) (deadline : ℕ) (m : Machine)
      → deadline ≤ m.clock + 50 * n
      → IsEnded path deadline (wait_loop os vmm (suc n) path deadline m)
  unfolding wait_loop sleep
  wait_loop-IsEnded zero deadline m h =
      turn deadline m _ _ _ refl refl λ e. let lt = ltb→lt m.clock deadline e in omega arith
  wait_loop-IsEnded (suc n) deadline m h =
      turn deadline m _ _ _ refl refl
        λ e. let (r, m') = sleep os 50 m in wait_loop-IsEnded n deadline m' (omega arith)

-- what the caller of waitForSocket gets
abbrev pub IsAwaited : Text → ℕ → Result (Unit {0}) × Machine → Type 0
IsAwaited path deadline (ok _, m) = has_file path m ≡ true
IsAwaited path deadline (err e, m) =
    (deadline ≤ m.clock)
    × (e ≡ driver (bytes "socket " ++ (path ++ bytes " did not appear within 3s")))

of_ended :
    (os : Os) (vmm : Vmm) (path : Text) (deadline : ℕ) (w : Wait × Machine)
    → IsEnded path deadline w
    → IsAwaited path deadline (wait_result os vmm path w)
of_ended os vmm path deadline (appeared, m) h = h
of_ended os vmm path deadline (timed_out, m) h = (h, refl)
of_ended os vmm path deadline (out_of_fuel, m) h = elim h [ ]

-- waitForSocket always comes back: either the socket is there, or the error says that it did not
-- appear, and then at least three seconds have passed.
pub wait_for_socket-IsAwaited :
    (os : Os) (vmm : Vmm) (path : Text) (m : Machine)
    → IsAwaited path (m.clock + 3000) (wait_for_socket os vmm path m)
unfolding wait_for_socket
wait_for_socket-IsAwaited os vmm path m =
    of_ended os vmm path (m.clock + 3000) (wait_loop os vmm 61 path (m.clock + 3000) m)
      (wait_loop-IsEnded os vmm path 60 (m.clock + 3000) m (omega arith))
