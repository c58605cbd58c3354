-- ===== src/Base/Int.antt =====
-- The `int` results of the C functions: 0 and above, and the negative error codes.
use Prim.Native.Nat.{ℕ}

-- `negsuc n` is -(n + 1).
pub data ℤ : Type 0 where
  pos : ℕ → ℤ
  negsuc : ℕ → ℤ
