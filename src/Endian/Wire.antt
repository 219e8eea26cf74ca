-- ===== src/Endian/Wire.antt =====
-- A swap when the wished byte order is not the host's gives bytes that do not depend on the host.
use reyao.Common.{
  ℕ, ◌^◌, ◌<◌, ◌≡◌, sym, ap, ◌∙◌, inl, inr, arith, ◌==◌, if◌then◌else◌, reverse, reverse-reverse,
  length,
}
use reyao.Common.Bytes.{
  Bytes, to_le, from_le, to_be, from_be, length-to_be, length-to_le, to_le-from_le, from_le-to_le,
  to_le-IsByte, All-reverse, IsByte,
}
use reyao.Endian.{IsByteOrder, big_endian, byte_swap, to_memory, from_memory}

to_le-byte_swap : (size v : ℕ) → to_le size (byte_swap size v) ≡ to_be size v
unfolding byte_swap
to_le-byte_swap size v =
    ap (λ n. to_le n (from_le (to_be size v))) (sym (length-to_be size v))
    ∙ to_le-from_le (to_be size v) (All-reverse IsByte (to_le size v) (to_le-IsByte size v))

to_be-byte_swap : (size v : ℕ) → to_be size (byte_swap size v) ≡ to_le size v
to_be-byte_swap size v = ap reverse (to_le-byte_swap size v) ∙ reverse-reverse (to_le size v)

-- The bytes of an integer in a given order.
abbrev pub wire : ℕ → ℕ → ℕ → Bytes
wire endian size v = if endian == big_endian then to_be size v else to_le size v

pub length-wire : (endian size v : ℕ) → length (wire endian size v) ≡ size
length-wire endian size v = ground (arith, length-to_be size v, length-to_le size v)

-- What `ByteArray` does before it writes an integer, and after it has read one.
abbrev pub to_order : ℕ → ℕ → ℕ → ℕ → ℕ
to_order byte_order endian size v = if endian == byte_order then v else byte_swap size v

pub to_memory-to_order :
    (byte_order endian size v : ℕ)
    → IsByteOrder byte_order
    → IsByteOrder endian
    → to_memory byte_order size (to_order byte_order endian size v) ≡ wire endian size v
to_memory-to_order o e size v (inl ho) (inl he) = rw (ho, he)
to_memory-to_order o e size v (inl ho) (inr he) = rw (ho, he) (to_le-byte_swap size v)
to_memory-to_order o e size v (inr ho) (inl he) = rw (ho, he) (to_be-byte_swap size v)
to_memory-to_order o e size v (inr ho) (inr he) = rw (ho, he)

from_be-to_be : (size v : ℕ) → v < 256 ^ size → from_be (to_be size v) ≡ v
from_be-to_be size v h = ap from_le (reverse-reverse (to_le size v)) ∙ from_le-to_le size v h

byte_swap_twice : (size v : ℕ) → v < 256 ^ size → byte_swap size (byte_swap size v) ≡ v
unfolding byte_swap
byte_swap_twice size v h = ap from_le (to_be-byte_swap size v) ∙ from_le-to_le size v h

pub from_memory-wire :
    (byte_order endian size v : ℕ)
    → IsByteOrder byte_order
    → IsByteOrder endian
    → v < 256 ^ size
    → to_order byte_order endian size (from_memory byte_order (wire endian size v)) ≡ v
unfolding byte_swap
from_memory-wire o e size v (inl ho) (inl he) h = rw (ho, he) (from_le-to_le size v h)
from_memory-wire o e size v (inl ho) (inr he) h = rw (ho, he) (byte_swap_twice size v h)
from_memory-wire o e size v (inr ho) (inl he) h = rw (ho, he) (byte_swap_twice size v h)
from_memory-wire o e size v (inr ho) (inr he) h = rw (ho, he) (from_be-to_be size v h)
