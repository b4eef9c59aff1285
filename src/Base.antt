-- ===== src/Base.antt =====
-- What the modules share: library names passed on, the Boolean tests of C, lists indexed by
-- native numbers, and the laws of the bit operations.
mod Tests
mod Lists
mod Memory
mod Text
pub mod Bits
pub mod Int
pub mod Lines
pub mod Decimal
pub mod Filtered
pub use Tests.*
unfoldable pub use Text.*
unfoldable pub use Memory.*
pub use Lists.*
pub use Prim.Native.Nat.{
  ℕ, zero, suc, ◌+◌, ◌-◌, ◌*◌, ◌/◌, ◌%◌, ◌^◌, ◌≤◌, ◌<◌, bit_and, bit_or, bit_xor,
}
pub use mathlib.Core.Path.{◌≡◌, refl, sym, ap, ◌∙◌, subst}
pub use mathlib.Core.Logic.{◌≢◌, ◌↔◌, ◌⊎◌, inl, inr}
pub use mathlib.Core.Bool.{Bool, true, false, not, ◌&&◌, ◌||◌}
pub use mathlib.Core.Option.{Option, none, some}
pub use mathlib.Core.List.{List, [], ◌∷◌, ◌++◌, append-nil, append_assoc}
pub use native.Mathlib.Omega.{arith}
