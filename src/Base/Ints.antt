-- ===== src/Base/Ints.antt =====
-- Go's int.
use Prim.Native.Nat.{ℕ}

-- A Go int over the native numbers: `negsuc n` is -(n + 1).
pub data ℤ : Type 0 where
  pos : ℕ → ℤ
  negsuc : ℕ → ℤ
