-- ===== src/Base/Int.antt =====
-- The values of an `int` that the program writes out and reads back.
use Prim.Native.Nat.{ℕ}

-- `negsuc n` is -(n + 1).
pub data ℤ : Type 0 where
  pos : ℕ → ℤ
  negsuc : ℕ → ℤ
