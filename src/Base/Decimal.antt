-- ===== src/Base/Decimal.antt =====
-- The verb `%d` of package fmt: decimal digits, with a minus sign before a negative number.
use Prim.Native.Nat.{ℕ, zero, suc, ◌+◌, ◌-◌, ◌*◌, ◌/◌, ◌%◌, ◌≤◌, ◌<◌}
use mathlib.Core.Path.{◌≡◌, refl, sym, ap, ◌∙◌}
use mathlib.Core.List.{[], ◌∷◌, ◌++◌}
use native.Mathlib.Omega.{arith}
use provider_engine.Base.Tests.{ltb, if◌then◌else◌, Bool-cases, ltb→lt}
use provider_engine.Base.Lists.{All, All-append}
use provider_engine.Base.Int.{ℤ, pos, negsuc}
use provider_engine.Base.Bytes.{Text}
use mathlib.Core.Logic.{inl, inr, ◌≢◌}

-- Each round of the recursion divides by ten, so `n + 1` rounds are enough.
decimal_from : ℕ → ℕ → Text
decimal_from zero n = []
decimal_from (suc f) n =
    let rest = decimal_from f (n / 10) in
    if ltb n 10 then (48 + n) ∷ [] else rest ++ (48 + n % 10) ∷ []

unfoldable pub decimal : ℕ → Text
unfolding decimal_from
decimal n = decimal_from (suc n) n

unfoldable pub decimal_ℤ : ℤ → Text
unfolding decimal
decimal_ℤ (pos n) = decimal n
decimal_ℤ (negsuc n) = 45 ∷ decimal (suc n)

abbrev pub IsDigit : ℕ → Type 0
IsDigit c = (48 ≤ c) × (c ≤ 57)

decimal_from-IsDigit : (f n : ℕ) → All IsDigit (decimal_from f n)
unfolding decimal_from
decimal_from-IsDigit zero n = tt
decimal_from-IsDigit (suc f) n = elim (Bool-cases (ltb n 10)) [
  | inl small ↦ rw small (omega (arith, ltb→lt n 10))
  | inr large ↦ rw large (
      All-append IsDigit (decimal_from f (n / 10)) _ (decimal_from-IsDigit f (n / 10))
        (omega arith))
]

-- The number that a run of digits stands for, after the digits already read.
unfoldable pub value_from : ℕ → Text → ℕ
value_from acc [] = acc
value_from acc (c ∷ s) = value_from (acc * 10 + (c - 48)) s

value_from-append :
    (acc : ℕ) (s : Text) (c : ℕ) → value_from acc (s ++ c ∷ []) ≡ value_from acc s * 10 + (c - 48)
unfolding value_from
value_from-append acc [] c = omega arith
value_from-append acc (d ∷ s) c = value_from-append (acc * 10 + (d - 48)) s c

value_from-decimal_from : (f n : ℕ) → n < f → value_from 0 (decimal_from f n) ≡ n
unfolding decimal_from value_from
value_from-decimal_from zero n h = absurd (omega arith)
value_from-decimal_from (suc f) n h = ground (
  arith,
  value_from-append 0 (decimal_from f (n / 10)) (48 + n % 10),
  value_from-decimal_from f (n / 10),
)

pub decimal-IsDigit : (n : ℕ) → All IsDigit (decimal n)
unfolding decimal
decimal-IsDigit n = decimal_from-IsDigit (suc n) n

pub value-decimal : (n : ℕ) → value_from 0 (decimal n) ≡ n
unfolding decimal
value-decimal n = value_from-decimal_from (suc n) n (omega arith)

pub decimal-injective : (m n : ℕ) → decimal m ≡ decimal n → m ≡ n
decimal-injective m n e = sym (value-decimal m) ∙ ap (value_from 0) e ∙ value-decimal n

pub decimal_ℤ-pos : (n : ℕ) → decimal_ℤ (pos n) ≡ decimal n
unfolding decimal_ℤ
decimal_ℤ-pos n = refl

append_full : (s : Text) (c : ℕ) → s ++ c ∷ [] ≢ []
append_full [] c e = cc e
append_full (d ∷ s) c e = cc e

pub decimal-full : (n : ℕ) → decimal n ≢ []
unfolding decimal decimal_from
decimal-full n e = elim (Bool-cases (ltb n 10)) [
  | inl small ↦ cc (rw small at e)
  | inr large ↦ append_full _ _ (rw large at e)
]
