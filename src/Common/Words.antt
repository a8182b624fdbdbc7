-- ===== src/Common/Words.antt =====
-- Go's `int32` as its bit pattern, a number below 2 ^ 32: the sign bit is the top half.
use Prim.Native.Nat.{ℕ, ◌+◌, ◌-◌, ◌%◌}
use mathlib.Core.Bool.{Bool}
use docker.Common.Tests.{ltb, if◌then◌else◌}

abbrev pub u32_mod : ℕ
u32_mod = 4294967296

abbrev pub i32_sign : ℕ
i32_sign = 2147483648

abbrev pub add32 : ℕ → ℕ → ℕ
add32 a b = (a + b) % u32_mod

abbrev pub sub32 : ℕ → ℕ → ℕ
sub32 a b = (a + (u32_mod - b)) % u32_mod

abbrev pub is_negative : ℕ → Bool
is_negative a = if ltb a i32_sign then Bool.false else Bool.true

-- `a % m` on `int32` for a positive `m`: the result has the sign of `a`.
abbrev pub rem32 : ℕ → ℕ → ℕ
rem32 a m = if ltb a i32_sign then a % m else (u32_mod - (u32_mod - a) % m) % u32_mod
