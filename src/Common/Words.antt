-- ===== src/Common/Words.antt =====
-- Machine words as native numbers: `size_t` sums and differences, and the passage through `int`.
use reyao.Common.Tests.{ltb, if◌then◌else◌}
use Prim.Native.Nat.{ℕ, ◌+◌, ◌-◌, ◌%◌, ◌^◌, ◌≤◌, ◌<◌}
use mathlib.Core.Bool.{Bool, not}
use mathlib.Core.Path.{◌≡◌}
use native.Mathlib.Omega.{arith}

-- size_t a + b and a - b.
abbrev pub add64 : ℕ → ℕ → ℕ
add64 a b = (a + b) % 2 ^ 64

abbrev pub sub64 : ℕ → ℕ → ℕ
sub64 a b = (a + 2 ^ 64 - b) % 2 ^ 64

-- An `int` is its bit pattern below 2 ^ 32; this is the `size_t` that it converts to.
abbrev pub sign_extend : ℕ → ℕ
sign_extend w = if ltb w (2 ^ 31) then w else w + (2 ^ 64 - 2 ^ 32)

-- A `size_t` passed as an `int` and used as a `size_t` again.
abbrev pub through_int : ℕ → ℕ
through_int n = sign_extend (n % 2 ^ 32)

abbrev pub is_negative32 : ℕ → Bool
is_negative32 w = not (ltb w (2 ^ 31))

pub through_int_small : (n : ℕ) → n < 2 ^ 31 → through_int n ≡ n
through_int_small n h = ground arith

pub add64_small : (a b : ℕ) → a + b < 2 ^ 64 → add64 a b ≡ a + b
add64_small a b h = omega arith

pub sub64_small : (a b : ℕ) → b ≤ a → a < 2 ^ 64 → sub64 a b ≡ a - b
sub64_small a b h k = omega arith
