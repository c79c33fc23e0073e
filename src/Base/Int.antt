-- ===== src/Base/Int.antt =====
-- The signed integers of the source: `int`, `int64` and `int8` fields.
use Prim.Native.Nat.{ℕ, ◌-◌, ◌%◌, ◌^◌}
use mathlib.Core.Bool.{Bool, true, false}
use trunker.Base.Tests.{ltb, leb, ◌==◌, if◌then◌else◌}

-- `negsuc n` is -(n + 1).
pub data ℤ : Type 0 where
  pos : ℕ → ℤ
  negsuc : ℕ → ℤ

-- `int64(u)` of a `uint64`, and `int(u)` on a 64-bit platform.
unfoldable pub signed64 : ℕ → ℤ
signed64 w = if ltb w (2 ^ 63) then pos w else negsuc (2 ^ 64 - w - 1)

-- `uint64(i)`, `uint32(i)` and `uint16(i)`: the low w bits.
unfoldable pub wrap : ℕ → ℤ → ℕ
wrap w (pos n) = n % 2 ^ w
wrap w (negsuc n) = 2 ^ w - 1 - n % 2 ^ w

-- `i <= n`, `i < n` and `i == n` for a non-negative n.
unfoldable pub le_ℕ : ℤ → ℕ → Bool
le_ℕ (pos m) n = leb m n
le_ℕ (negsuc m) n = true

unfoldable pub lt_ℕ : ℤ → ℕ → Bool
lt_ℕ (pos m) n = ltb m n
lt_ℕ (negsuc m) n = true

unfoldable pub eq_ℕ : ℤ → ℕ → Bool
eq_ℕ (pos m) n = m == n
eq_ℕ (negsuc m) n = false

-- `i >= 0`.
unfoldable pub is_nonneg : ℤ → Bool
is_nonneg (pos n) = true
is_nonneg (negsuc n) = false
