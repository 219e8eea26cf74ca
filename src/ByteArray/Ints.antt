-- ===== src/ByteArray/Ints.antt =====
-- The integers, strings and floats of ByteArray, over the byte order of the host.
-- A signed integer is its bit pattern, and a float is the pattern that `memcpy` takes from it.
pub mod RoundTrip
use reyao.Common.{ℕ, ◌%◌, ◌^◌, ◌==◌, if◌then◌else◌, [], ◌∷◌, length, Outcome, ok, ◌>>=◌}
use reyao.Common.Bytes.{Bytes}
use reyao.Endian.{byte_swap, to_memory, from_memory}
use reyao.ByteArray.{ByteArray, write, read}

pub write_int8 : ByteArray → ℕ → Outcome ByteArray
write_int8 ba v = write ba (v ∷ [])

pub write_uint8 : ByteArray → ℕ → Outcome ByteArray
write_uint8 ba v = write ba (v ∷ [])

abbrev pub head_byte : Bytes → ℕ
head_byte [] = 0
head_byte (b ∷ bs) = b

unfoldable pub read_int8 : ByteArray → Outcome (ℕ × ByteArray)
read_int8 ba = do (bytes, rest) ← read ba 1; ok (head_byte bytes, rest)

pub read_uint8 : ByteArray → Outcome (ℕ × ByteArray)
read_uint8 ba = do (bytes, rest) ← read ba 1; ok (head_byte bytes, rest)

module _ (byte_order : ℕ) where
  -- The common body of the writers: a swap unless `endian_` is the host's order, then `memcpy`.
  unfoldable pub write_swapped : ℕ → ByteArray → ℕ → Outcome ByteArray
  write_swapped size ba v =
      write ba (to_memory byte_order size (if ba.endian == byte_order then v else byte_swap size v))

  -- The common body of the readers.
  unfoldable pub read_swapped : ℕ → ByteArray → Outcome (ℕ × ByteArray)
  read_swapped size ba = do
    (bytes, rest) ← read ba size
    let v = from_memory byte_order bytes
    ok (if ba.endian == byte_order then v else byte_swap size v, rest)

  pub write_int16 : ByteArray → ℕ → Outcome ByteArray
  unfolding write_swapped
  write_int16 = write_swapped 2

  pub read_int16 : ByteArray → Outcome (ℕ × ByteArray)
  unfolding read_swapped
  read_int16 = read_swapped 2

  pub write_uint16 : ByteArray → ℕ → Outcome ByteArray
  unfolding write_swapped
  write_uint16 = write_swapped 2

  pub read_uint16 : ByteArray → Outcome (ℕ × ByteArray)
  unfolding read_swapped
  read_uint16 = read_swapped 2

  unfoldable pub write_int32 : ByteArray → ℕ → Outcome ByteArray
  unfolding write_swapped
  write_int32 = write_swapped 4

  unfoldable pub read_int32 : ByteArray → Outcome (ℕ × ByteArray)
  unfolding read_swapped
  read_int32 = read_swapped 4

  pub write_uint32 : ByteArray → ℕ → Outcome ByteArray
  unfolding write_swapped
  write_uint32 = write_swapped 4

  pub read_uint32 : ByteArray → Outcome (ℕ × ByteArray)
  unfolding read_swapped
  read_uint32 = read_swapped 4

  pub write_int64 : ByteArray → ℕ → Outcome ByteArray
  unfolding write_swapped
  write_int64 = write_swapped 8

  pub read_int64 : ByteArray → Outcome (ℕ × ByteArray)
  unfolding read_swapped
  read_int64 = read_swapped 8

  pub write_uint64 : ByteArray → ℕ → Outcome ByteArray
  unfolding write_swapped
  write_uint64 = write_swapped 8

  pub read_uint64 : ByteArray → Outcome (ℕ × ByteArray)
  unfolding read_swapped
  read_uint64 = read_swapped 8

  pub write_float : ByteArray → ℕ → Outcome ByteArray
  unfolding write_int32
  write_float = write_int32

  pub write_double : ByteArray → ℕ → Outcome ByteArray
  unfolding write_int64
  write_double = write_int64

  pub read_float : ByteArray → Outcome (ℕ × ByteArray)
  unfolding read_uint32
  read_float = read_uint32

  pub read_double : ByteArray → Outcome (ℕ × ByteArray)
  unfolding read_uint64
  read_double = read_uint64

  pub write_string16 : ByteArray → Bytes → Outcome ByteArray
  unfolding write_uint16
  write_string16 ba value = do ba' ← write_uint16 ba (length value % 2 ^ 16); write ba' value

  pub read_string16 : ByteArray → Outcome (Bytes × ByteArray)
  unfolding read_uint16
  read_string16 ba = do (len, rest) ← read_uint16 ba; read rest len

  pub write_string32 : ByteArray → Bytes → Outcome ByteArray
  unfolding write_uint32
  write_string32 ba value = do ba' ← write_uint32 ba (length value % 2 ^ 32); write ba' value

  pub read_string32 : ByteArray → Outcome (Bytes × ByteArray)
  unfolding read_uint32
  read_string32 ba = do (len, rest) ← read_uint32 ba; read rest len

  pub write_string64 : ByteArray → Bytes → Outcome ByteArray
  unfolding write_uint64
  write_string64 ba value = do ba' ← write_uint64 ba (length value % 2 ^ 64); write ba' value

  pub read_string64 : ByteArray → Outcome (Bytes × ByteArray)
  unfolding read_uint64
  read_string64 ba = do (len, rest) ← read_uint64 ba; read rest len

pub write_string : ByteArray → Bytes → Outcome ByteArray
write_string ba value = write ba value
