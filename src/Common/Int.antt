-- ===== src/Common/Int.antt =====
-- Go's signed integers, over the native numbers.
use Prim.Native.Nat.{ℕ, ◌+◌, ◌-◌, ◌%◌, ◌^◌}

pub data ℤ : Type 0 where
  pos negsuc : ℕ → ℤ

-- The conversion `uint64(i)`.
unfoldable pub uint64 : ℤ → ℕ
uint64 (pos n) = n % 2 ^ 64
uint64 (negsuc n) = 2 ^ 64 - (n % 2 ^ 64 + 1)
