-- ===== src/Endian.antt =====
-- reyao/endian.h: byte swaps, and the byte order of the host.
-- `byte_order` is the host's BYTE_ORDER; an integer in memory is the list of its bytes.
pub mod Wire
use reyao.Common.{ℕ, ◌≡◌, ◌⊎◌, ◌==◌, if◌then◌else◌}
use reyao.Common.Bytes.{Bytes, to_le, from_le, to_be, from_be}

abbrev pub little_endian : ℕ
little_endian = 1234

abbrev pub big_endian : ℕ
big_endian = 4321

abbrev pub IsByteOrder : ℕ → Type 0
IsByteOrder o = (o ≡ little_endian) ⊎ (o ≡ big_endian)

-- `bswap_16`, `bswap_32` and `bswap_64` of the C library, by the size of the integer.
unfoldable pub byte_swap : ℕ → ℕ → ℕ
byte_swap size v = from_le (to_be size v)

-- BIG_ORDER is not defined anywhere, so the `#else` half is what every host compiles.
unfoldable pub byte_swap_on_little_endian : ℕ → ℕ → ℕ
unfolding byte_swap
byte_swap_on_little_endian size v = byte_swap size v

unfoldable pub byte_swap_on_big_endian : ℕ → ℕ → ℕ
byte_swap_on_big_endian size v = v

-- The bytes of an integer of `size` bytes in the host's memory, and back.
abbrev pub to_memory : ℕ → ℕ → ℕ → Bytes
to_memory byte_order size v = if byte_order == little_endian then to_le size v else to_be size v

abbrev pub from_memory : ℕ → Bytes → ℕ
from_memory byte_order bytes = if byte_order == little_endian then from_le bytes else from_be bytes
