-- ===== src/Base.antt =====
-- The names that the other modules share: the libraries', passed on, and those of the children.
mod Tests
mod Lists
mod Int
mod Bytes
mod Decimal
pub use Tests.*
pub use Lists.*
pub use Int.*
unfoldable pub use Bytes.{◌==◌}
pub use Bytes.{Text, bytes, ==_refl, ==_sound, ==_iff}
unfoldable pub use Decimal.{decimal, decimal_ℤ, value_from}
pub use Decimal.{
  IsDigit, decimal-IsDigit, decimal-injective, value-decimal, decimal-full, decimal_ℤ-pos,
}
pub use Prim.Native.Nat.{ℕ, zero, suc, ◌+◌, ◌-◌, ◌*◌, ◌/◌, ◌%◌, ◌≤◌, ◌<◌}
pub use mathlib.Core.Path.{◌≡◌, refl, sym, ap, ◌∙◌, fun_ext}
pub use mathlib.Core.Logic.{◌≢◌, ◌↔◌, ◌⊎◌, inl, inr}
pub use mathlib.Core.Bool.{Bool, true, false, not, ◌&&◌, ◌||◌}
pub use mathlib.Core.Option.{Option, none, some}
pub use mathlib.Core.List.{List, [], ◌∷◌, ◌++◌, map}
pub use native.Mathlib.Omega.{arith}
