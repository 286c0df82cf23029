-- ===== src/Store/Redis/Alloc.antt =====
-- The addresses and ports that redis.go hands out.
use provider_engine.Base.{
  ℕ, ◌+◌, ◌-◌, ◌/◌, ◌%◌, ◌≤◌, pos, Text, bytes, ◌≡◌, ◌≢◌, ◌↔◌, ◌∷◌, ◌++◌, [], arith, decimal,
  decimal-injective, decimal_ℤ-pos, ◌≤ℤ◌, decimal-IsDigit, IsDigit, All, sym, ◌∙◌,
}
use provider_engine.Store.Redis.{port_of, wg_ip_of, third_octet, fourth_octet}

-- A field of digits ends at the dot.
digits_end :
    (s t u v : Text) → All IsDigit s → All IsDigit t → s ++ 46 ∷ u ≡ t ++ 46 ∷ v → (s ≡ t) × (u ≡ v)
digits_end [] [] u v p q e = ground arith
digits_end [] (d ∷ t) u v p q e = ground arith
digits_end (c ∷ s) [] u v p q e = ground arith
digits_end (c ∷ s) (d ∷ t) u v (p, ps) (q, qs) e = ground (arith, digits_end s t u v ps qs)

-- 10.99.a.b
abbrev dotted : ℕ → ℕ → Text
dotted a b = bytes "10.99." ++ (decimal a ++ (bytes "." ++ decimal b))

strip : (s t : Text) → bytes "10.99." ++ s ≡ bytes "10.99." ++ t → s ≡ t
strip s t e = cc

dotted-injective : (a b c d : ℕ) → dotted a b ≡ dotted c d → (a ≡ c) × (b ≡ d)
dotted-injective a b c d e =
    let (same, rest) =
      digits_end (decimal a) (decimal c) (decimal b) (decimal d) (decimal-IsDigit a)
        (decimal-IsDigit c) (strip _ _ e) in
    (decimal-injective a c same, decimal-injective b d rest)

third_octet-pos : (n : ℕ) → 1 ≤ n → third_octet (pos n) ≡ pos ((n - 1) / 254 + 1)
third_octet-pos n h = ground arith

fourth_octet-pos : (n : ℕ) → 1 ≤ n → fourth_octet (pos n) ≡ pos ((n - 1) % 254 + 1)
fourth_octet-pos n h = ground arith

wg_ip_of-dotted :
    (n : ℕ) → 1 ≤ n → wg_ip_of (pos n) ≡ dotted ((n - 1) / 254 + 1) ((n - 1) % 254 + 1)
unfolding wg_ip_of
wg_ip_of-dotted n h = rw (third_octet-pos n h, fourth_octet-pos n h) (simp decimal_ℤ-pos)

-- Two different values of the counter, from 1 on, never give the same address.
pub wg_ip_of-injective : (m n : ℕ) → 1 ≤ m → 1 ≤ n → wg_ip_of (pos m) ≡ wg_ip_of (pos n) → m ≡ n
wg_ip_of-injective m n h k e =
    let (third, fourth) =
      dotted-injective _ _ _ _ (sym (wg_ip_of-dotted m h) ∙ e ∙ wg_ip_of-dotted n k) in
    omega arith

-- An address 10.99.a.b with both octets from 1 to 254.
abbrev pub IsProviderAddress : Text → Type 0
IsProviderAddress t =
    (a : ℕ) × (b : ℕ) × (1 ≤ a) × (a ≤ 254) × (1 ≤ b) × (b ≤ 254) × (t ≡ dotted a b)

-- A value of the counter, from 1 on, gives an address 10.99.a.b with a and b from 1 to 254 exactly
-- if it is at most 64516.
pub wg_ip_of-IsProviderAddress_iff :
    (n : ℕ) → 1 ≤ n → IsProviderAddress (wg_ip_of (pos n)) ↔ (n ≤ 64516)
wg_ip_of-IsProviderAddress_iff n h = (
  λ (a, b, _, top, _, _, e).
      let (third, _) = dotted-injective _ _ _ _ (sym (wg_ip_of-dotted n h) ∙ e) in omega arith,
  λ k. (
    (n - 1) / 254 + 1,
    (n - 1) % 254 + 1,
    omega arith,
    omega arith,
    omega arith,
    omega arith,
    wg_ip_of-dotted n h,
  ),
)

-- No value of the counter, from 1 on, gives an address 10.99.0.b, where the control plane is.
wg_ip_of_apart : (n b : ℕ) → 1 ≤ n → wg_ip_of (pos n) ≢ dotted 0 b
wg_ip_of_apart n b h e =
    let (third, _) = dotted-injective _ _ _ _ (sym (wg_ip_of-dotted n h) ∙ e) in omega arith

pub port_of-pos : (n : ℕ) → port_of (pos n) ≡ pos (n % 10000 + 40000)
unfolding port_of
port_of-pos n = ground arith

-- The ports of values of the counter lie in 40000 to 49999, and two values of the counter share one exactly if they agree
-- modulo 10000.
pub port_of_window :
    (m n : ℕ)
    → (pos 40000 ≤ℤ port_of (pos m))
      × (port_of (pos m) ≤ℤ pos 49999)
      × ((port_of (pos m) ≡ port_of (pos n)) ↔ (m % 10000 ≡ n % 10000))
port_of_window m n = rw (port_of-pos m, port_of-pos n) (omega arith, omega arith, ground arith)
