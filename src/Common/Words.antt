-- ===== src/Common/Words.antt =====
-- Unsigned words of C: __u16, __u32, and the 64-bit __u64, unsigned long and unsigned long long.
-- A value is a plain number below 2 ^ w; every operation wraps as the C one does.
use Prim.Native.Nat.{ℕ, ◌+◌, ◌-◌, ◌%◌, ◌^◌, ◌<◌, bit_and}
use mathlib.Core.Path.{◌≡◌}
use mathlib.Core.Bool.{Bool, not}
use native.Mathlib.Omega.{arith}
use blktrace.Common.Tests.{◌==◌}

-- a + b on unsigned long long
abbrev pub add64 : ℕ → ℕ → ℕ
add64 a b = (a + b) % 2 ^ 64

-- a - b on unsigned long long, for operands below 2 ^ 64
abbrev pub sub64 : ℕ → ℕ → ℕ
sub64 a b = (a + 2 ^ 64 - b) % 2 ^ 64

abbrev pub add32 : ℕ → ℕ → ℕ
add32 a b = (a + b) % 2 ^ 32

abbrev pub sub32 : ℕ → ℕ → ℕ
sub32 a b = (a + 2 ^ 32 - b) % 2 ^ 32

-- -1ULL
abbrev pub max64 : ℕ
max64 = 2 ^ 64 - 1

-- (x & m) != 0
abbrev pub has_bits : ℕ → ℕ → Bool
has_bits x m = not (bit_and x m == 0)

pub sub64-add64 : (a b : ℕ) → a < 2 ^ 64 → b < 2 ^ 64 → sub64 (add64 a b) b ≡ a
sub64-add64 a b ha hb = omega arith

pub add64-lt : (a b : ℕ) → add64 a b < 2 ^ 64
add64-lt a b = omega arith
