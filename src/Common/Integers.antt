-- ===== src/Common/Integers.antt =====
-- Signed integers over the native ℕ, as far as the source's checks of their sign need them.
use Prim.Native.Nat.{ℕ}

-- `negsuc n` is -(n + 1).
pub data ℤ : Type 0 where
  pos : ℕ → ℤ
  negsuc : ℕ → ℤ
