-- ===== src/Base/Words.antt =====
-- Machine words and `Duration`. A word is a native number below its bound.
use Prim.Native.Nat.{ℕ, ◌+◌, ◌-◌, ◌*◌, min}
use walastack_rs.Base.Tests.{ltb, if◌then◌else◌}

-- u32::MAX.
abbrev pub u32_max : ℕ
u32_max = 4294967295

-- u64::MAX.
abbrev pub u64_max : ℕ
u64_max = 18446744073709551615

-- `u32::saturating_add(1)`.
abbrev pub u32_saturating_suc : ℕ → ℕ
u32_saturating_suc n = min (n + 1) u32_max

-- A `Duration` is its number of nanoseconds; `Duration::MAX` is u64::MAX seconds and 999999999 ns.
abbrev pub duration_max : ℕ
duration_max = 18446744073709551615999999999

-- `Duration::saturating_add`.
abbrev pub saturating_add : ℕ → ℕ → ℕ
saturating_add a b = min (a + b) duration_max

-- `Duration::saturating_mul`.
abbrev pub saturating_mul : ℕ → ℕ → ℕ
saturating_mul a n = min (a * n) duration_max

-- Signed words; `negsuc n` is -(n + 1).
pub data ℤ : Type 0 where
  pos : ℕ → ℤ
  negsuc : ℕ → ℤ

-- `x as i32` for a u32 `x`.
abbrev pub as_i32 : ℕ → ℤ
as_i32 n = if ltb n 2147483648 then pos n else negsuc (4294967295 - n)
