-- ===== src/Base/Int.antt =====
-- Python's signed integers over the native numbers, under the library's names: only what the
-- arguments of the stores' operations need.
use Prim.Native.Nat.{ℕ}

-- `negsuc n` is -(n + 1).
pub data ℤ : Type 0 where
  pos : ℕ → ℤ
  negsuc : ℕ → ℤ
