-- ===== src/Prelude/Ints.antt =====
-- Signed integers, as far as Go's `int` is compared with numbers here.
use Prim.Native.Nat.{ℕ}

-- `negsuc n` is -(n + 1).
pub data ℤ : Type 0 where
  pos : ℕ → ℤ
  negsuc : ℕ → ℤ
