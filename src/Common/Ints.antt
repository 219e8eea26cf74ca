-- ===== src/Common/Ints.antt =====
-- Comparisons of a size with an int, as the tables of epoller.cc and fdmanager.cc make them.
use reyao.Common.{ℕ, ◌%◌, ◌^◌, ◌<◌, ◌≡◌, arith, Bool, false, ◌||◌, leb}

-- `(int)size <= fd`, for a size_t and an int that is not negative: the low 32 bits of the size are
-- taken, and are negative from 2^31 on.
unfoldable pub int_leb : ℕ → ℕ → Bool
int_leb size fd = leb (2 ^ 31) (size % 2 ^ 32) || leb (size % 2 ^ 32) fd

-- A size that is an int is compared as it is.
pub int_leb_small : (size fd : ℕ) → size < 2 ^ 31 → int_leb size fd ≡ leb size fd
unfolding int_leb
int_leb_small size fd h = ground arith

-- What is below the size as an int is below it.
pub int_leb_inside : (size fd : ℕ) → int_leb size fd ≡ false → fd < size
unfolding int_leb
int_leb_inside size fd h = ground arith
