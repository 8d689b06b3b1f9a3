-- ===== src/Common/Words.antt =====
-- A C `int` is its 32-bit pattern, a number below 2 ^ 32; from 2 ^ 31 on the pattern is negative.
use Prim.Native.Nat.{ℕ, ◌+◌, ◌-◌, ◌%◌, ◌^◌}
use mathlib.Core.Bool.{Bool}
use user_thread_scheduler.Common.Tests.{ltb, leb}

-- `x + 1` and `x - 1`
abbrev pub inc32 : ℕ → ℕ
inc32 x = (x + 1) % 2 ^ 32

abbrev pub dec32 : ℕ → ℕ
dec32 x = (x + 2 ^ 32 - 1) % 2 ^ 32

-- -1
abbrev pub minus_one : ℕ
minus_one = 2 ^ 32 - 1

-- `a < b` for `int`
abbrev pub slt : ℕ → ℕ → Bool
slt a b = ltb ((a + 2 ^ 31) % 2 ^ 32) ((b + 2 ^ 31) % 2 ^ 32)

-- `a <= b` for `int`
abbrev pub sle : ℕ → ℕ → Bool
sle a b = leb ((a + 2 ^ 31) % 2 ^ 32) ((b + 2 ^ 31) % 2 ^ 32)
