-- ===== src/Base/Ints.antt =====
-- The integers of signed types.
use Prim.Native.Nat.{ℕ}

pub data ℤ : Type 0 where
  pos : ℕ → ℤ
  negsuc : ℕ → ℤ
