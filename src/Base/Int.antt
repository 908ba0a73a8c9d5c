-- ===== src/Base/Int.antt =====
-- Signed integers over the native numbers, and the reading of a bit pattern as one.
use bbq.Base.Tests.{ltb, if◌then◌else◌}
use Prim.Native.Nat.{ℕ, ◌-◌, ◌^◌}

-- `negsuc n` is -(n + 1).
pub data ℤ : Type 0 where
  pos : ℕ → ℤ
  negsuc : ℕ → ℤ

-- The intN_t that a pattern of `w` bits is, in two's complement.
abbrev pub to_signed : ℕ → ℕ → ℤ
to_signed w v = if ltb v (2 ^ (w - 1)) then pos v else negsuc (2 ^ w - v - 1)

-- The pattern of an intN_t.
abbrev pub to_pattern : ℕ → ℤ → ℕ
to_pattern w (pos n) = n
to_pattern w (negsuc n) = 2 ^ w - 1 - n
