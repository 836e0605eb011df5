-- ===== src/Base/Words.antt =====
-- 32-bit words: `uint` arithmetic wraps, and an `int` is its bit pattern.
use Prim.Native.Nat.{ℕ, ◌+◌, ◌-◌, ◌%◌, ◌^◌, ◌<◌}
use mathlib.Core.Path.{◌≡◌}
use mathlib.Core.Bool.{Bool}
use native.Mathlib.Omega.{arith}
use os_fcfs_prirority.Base.Tests.{ltb}

abbrev pub u32 : ℕ → ℕ
u32 n = n % 2 ^ 32

-- `a - b` on `uint`.
abbrev pub sub32 : ℕ → ℕ → ℕ
sub32 a b = u32 (a + 2 ^ 32 - b)

-- `a < b` on two `int`s given by their patterns: the sign bit is flipped before the comparison.
abbrev pub signed_ltb : ℕ → ℕ → Bool
signed_ltb a b = ltb (u32 (a + 2 ^ 31)) (u32 (b + 2 ^ 31))

pub signed_ltb-ltb : (a b : ℕ) → a < 2 ^ 31 → b < 2 ^ 31 → signed_ltb a b ≡ ltb a b
signed_ltb-ltb a b ha hb = ground arith
