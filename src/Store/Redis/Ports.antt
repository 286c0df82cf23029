-- ===== src/Store/Redis/Ports.antt =====
-- The ports that AllocPort of dcp-control-plane/pkg/store/redis.go hands out over many calls.
use provider_engine.Base.{
  ℕ, zero, suc, ◌+◌, ◌%◌, ◌≤◌, ◌<◌, ℤ, pos, ◌≤ℤ◌, List, [], ◌∷◌, ◌≡◌, ◌≢◌, ◌↔◌, refl, inl, inr, All,
  arith, sym, ◌∙◌,
}
use provider_engine.Exec.{Result, ok, err}
use provider_engine.Store.Redis.{Redis, port_counter_key, port_of, alloc_port}
use provider_engine.Store.Redis.Laws.{IsRedis}
use provider_engine.Store.Redis.Alloc.{port_of-pos, port_of_window}
use provider_engine.Store.Redis.Counter.{draw-ok, draw-either}

abbrev with_port : Result ℤ → List ℤ → List ℤ
with_port (ok p) ps = p ∷ ps
with_port (err e) ps = ps

abbrev pub AllApart : List ℤ → Type 0
AllApart [] = Unit
AllApart (p ∷ ps) = All (λ q. q ≢ p) ps × AllApart ps

-- a port from 40000 to 49999
abbrev pub IsRelayPort : ℤ → Type 0
IsRelayPort p = (pos 40000 ≤ℤ p) × (p ≤ℤ pos 49999)

-- the port of one of the n values of the counter that follow c
abbrev IsNext : ℕ → ℕ → ℤ → Type 0
IsNext c n p = (k : ℕ) × (c < k) × (k ≤ c + n) × (p ≡ pos (k % 10000 + 40000))

IsNext-earlier :
    (c c' n n' : ℕ) (ps : List ℤ)
    → c ≤ c'
    → c' + n ≤ c + n'
    → All (IsNext c' n) ps
    → All (IsNext c n') ps
IsNext-earlier c c' n n' [] lo hi h = tt
IsNext-earlier c c' n n' (p ∷ ps) lo hi ((k, a, b, e), h) =
    ((k, omega arith, omega arith, e), IsNext-earlier c c' n n' ps lo hi h)

IsNext-IsRelayPort : (c n : ℕ) (ps : List ℤ) → All (IsNext c n) ps → All IsRelayPort ps
IsNext-IsRelayPort c n [] h = tt
IsNext-IsRelayPort c n (p ∷ ps) ((k, a, b, e), h) =
    (rw e (omega arith, omega arith), IsNext-IsRelayPort c n ps h)

-- The value before fewer than 10000 others has another port than they have.
IsNext-apart :
    (c n : ℕ) (ps : List ℤ)
    → n < 10000
    → All (IsNext (suc c) n) ps
    → All (λ q. q ≢ pos (suc c % 10000 + 40000)) ps
IsNext-apart c n [] few h = tt
IsNext-apart c n (p ∷ ps) few ((k, a, b, e), h) = (
  (λ same.
      let pair : pos (k % 10000 + 40000) ≡ pos (suc c % 10000 + 40000) = sym e ∙ same in
      ground arith),
  IsNext-apart c n ps few h,
)

module _ (r : Redis) where
  -- the ports that n calls of AllocPort return, those that fail left out
  abbrev pub ports : ℕ → r.Data → List ℤ
  ports zero s = []
  ports (suc n) s = with_port (alloc_port r s).0 (ports n (alloc_port r s).1)

  module _ (ax : IsRedis r) where
    module _ (n c : ℕ) (s : r.Data) (e : r.counter s port_counter_key ≡ pos c) (ps : List ℤ)
        (few : suc n ≤ 10000)
        (rest : (c' : ℕ)
          → r.counter (alloc_port r s).1 port_counter_key ≡ pos c'
          → All (IsNext c' n) ps × AllApart ps) where
      drawn-IsNext :
          (out : Result ℤ)
          → (alloc_port r s).0 ≡ out
          → All (IsNext c (suc n)) (with_port out ps) × AllApart (with_port out ps)
      unfolding alloc_port
      drawn-IsNext (ok p) h =
          let (form, now) = draw-ok r ax port_counter_key port_of s c p e h in
          let value = form ∙ port_of-pos (suc c) in
          let (next, apart) = rest (suc c) now in
          (
            (
              (suc c, omega arith, omega arith, value),
              IsNext-earlier c (suc c) n (suc n) ps (omega arith) (omega arith) next,
            ),
            (rw value (IsNext-apart c n ps (omega arith) next), apart),
          )
      drawn-IsNext (err _) h = elim (draw-either r ax port_counter_key port_of s c e) [
        | inl same ↦
            let (next, apart) = rest c same in
            (IsNext-earlier c c n (suc n) ps (omega arith) (omega arith) next, apart)
        | inr moved ↦
            let (next, apart) = rest (suc c) moved in
            (IsNext-earlier c (suc c) n (suc n) ps (omega arith) (omega arith) next, apart)
      ]

    ports-IsNext :
        (n c : ℕ) (s : r.Data)
        → r.counter s port_counter_key ≡ pos c
        → n ≤ 10000
        → All (IsNext c n) (ports n s) × AllApart (ports n s)
    ports-IsNext zero c s e few = (tt, tt)
    ports-IsNext (suc n) c s e few =
        drawn-IsNext n c s e (ports n (alloc_port r s).1) few
          (λ c' now. ports-IsNext n c' (alloc_port r s).1 now (omega arith)) (alloc_port r s).0 refl

    -- The ports that up to 10000 calls of AllocPort in a row return, whichever fail, lie in 40000 to
    -- 49999 and are distinct. It assumes that the counter is a natural number and that Redis does
    -- what the code relies on.
    pub ports-AllApart :
        (n c : ℕ) (s : r.Data)
        → r.counter s port_counter_key ≡ pos c
        → n ≤ 10000
        → All IsRelayPort (ports n s) × AllApart (ports n s)
    ports-AllApart n c s e few =
        let (next, apart) = ports-IsNext n c s e few in
        (IsNext-IsRelayPort c n (ports n s) next, apart)

    -- Two calls of AllocPort that return ports return the same one exactly if the values of the
    -- counter that they find differ by a multiple of 10000. It assumes that the first value is a
    -- natural number, that the second is no smaller, and that Redis does what the code relies on.
    pub alloc_port-same_iff :
        (c d : ℕ) (s s' : r.Data) (p q : ℤ)
        → r.counter s port_counter_key ≡ pos c
        → r.counter s' port_counter_key ≡ pos (c + d)
        → (alloc_port r s).0 ≡ ok p
        → (alloc_port r s').0 ≡ ok q
        → (p ≡ q) ↔ (d % 10000 ≡ 0)
    unfolding alloc_port
    alloc_port-same_iff c d s s' p q e e' got got' =
        let (first, _) = draw-ok r ax port_counter_key port_of s c p e got in
        let (second, _) = draw-ok r ax port_counter_key port_of s' (c + d) q e' got' in
        let (low, high, same) = port_of_window (suc c) (suc (c + d)) in
        rw (first, second) ((λ h. let mods = same.0 h in omega arith), (λ h. same.1 (omega arith)))
