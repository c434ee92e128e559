-- ===== src/Prelude/Words.antt =====
-- The 32-bit `int` and `unsigned int` of the target: a value is its bit pattern, below 2 ^ 32.
-- Sums and differences wrap; signed comparisons read the pattern as two's complement.
use Prim.Native.Nat.{ℕ, ◌+◌, ◌-◌, ◌%◌, ◌^◌, ◌≤◌, ◌<◌}
use mathlib.Core.Path.{◌≡◌}
use mathlib.Core.Bool.{Bool}
use native.Mathlib.Omega.{arith}
use tmsxx_tc.Prelude.Tests.{ltb, leb}

unfoldable pub add32 : ℕ → ℕ → ℕ
add32 a b = (a + b) % 2 ^ 32

-- The subtrahend is a pattern, so the sum does not stop at 0.
unfoldable pub sub32 : ℕ → ℕ → ℕ
sub32 a b = (a + 2 ^ 32 - b) % 2 ^ 32

-- `a < b` on `int`.
unfoldable pub slt : ℕ → ℕ → Bool
slt a b = ltb ((a + 2 ^ 31) % 2 ^ 32) ((b + 2 ^ 31) % 2 ^ 32)

-- `a <= b` on `int`.
unfoldable pub sle : ℕ → ℕ → Bool
sle a b = leb ((a + 2 ^ 31) % 2 ^ 32) ((b + 2 ^ 31) % 2 ^ 32)

pub add32_small : (a b : ℕ) → a + b < 2 ^ 32 → add32 a b ≡ a + b
unfolding add32
add32_small a b h = omega arith

pub sub32_small : (a b : ℕ) → b ≤ a → a < 2 ^ 32 → sub32 a b ≡ a - b
unfolding sub32
sub32_small a b h k = omega arith

pub sub32_negative : (a b : ℕ) → a < b → b ≤ 2 ^ 32 → sub32 a b ≡ 2 ^ 32 + a - b
unfolding sub32
sub32_negative a b h k = omega arith

pub slt_small : (a b : ℕ) → a < 2 ^ 31 → b < 2 ^ 31 → slt a b ≡ ltb a b
unfolding slt
slt_small a b h k = ground arith

pub sle_small : (a b : ℕ) → a < 2 ^ 31 → b < 2 ^ 31 → sle a b ≡ leb a b
unfolding sle
sle_small a b h k = ground arith

pub add32_lt : (a b : ℕ) → add32 a b < 2 ^ 32
unfolding add32
add32_lt a b = omega arith

pub sub32_lt : (a b : ℕ) → sub32 a b < 2 ^ 32
unfolding sub32
sub32_lt a b = omega arith

-- The sign of a difference of two non-negative values is their order.
pub slt-sub32 : (a b : ℕ) → a < 2 ^ 31 → b < 2 ^ 31 → slt 0 (sub32 a b) ≡ ltb b a
unfolding slt sub32
slt-sub32 a b h k = ground arith
