-- ===== src/Json/Int.antt =====
-- Signed integers over the native numbers.
use rawrz.Prelude.{ℕ}

-- `negsuc n` is -(n + 1).
pub data ℤ : Type 0 where
  pos : ℕ → ℤ
  negsuc : ℕ → ℤ
