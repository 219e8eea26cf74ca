-- ===== src/ByteArray.antt =====
-- reyao/bytearray.h and reyao/bytearray.cc: a growing byte buffer with a read and a write position.
-- Pointers into the buffer are positions, and a pointed-to range is the list of its bytes.
pub mod Contents
pub mod Reading
pub mod Search
pub mod Reset
pub mod Ints
mod Examples
use mathlib.Core.Option
use reyao.Common.{
  ℕ, suc, ◌+◌, ◌-◌, ◌%◌, ◌^◌, Bool, true, false, ◌&&◌, Option, none, some, List, [], ◌∷◌, ◌++◌, ltb,
  leb, ◌==◌, if◌then◌else◌, length, take, drop, replicate, Outcome, ok, err, out_of_range,
  assertion, fault, guard, ◌>>=◌, ◌>>◌,
}
use reyao.Common.Bytes.{Bytes}
use reyao.Endian.{big_endian}
use reyao.Common.Words.{add64, sub64, through_int}

-- `endian` holds BIG_ENDIAN (4321) or LITTLE_ENDIAN (1234).
pub record ByteArray : Type 0 where
  pub endian : ℕ
  pub write_pos : ℕ
  pub read_pos : ℕ
  pub buf : Bytes

abbrev pub init_size : ℕ
init_size = 1024

abbrev pub cheap_prepend : ℕ
cheap_prepend = 8

unfoldable pub create : ℕ → ByteArray
create size = record {
  endian = big_endian;
  write_pos = cheap_prepend;
  read_pos = cheap_prepend;
  buf = replicate (cheap_prepend + size) 0;
}

unfoldable pub get_read_size : ByteArray → ℕ
get_read_size ba = sub64 ba.write_pos ba.read_pos

unfoldable pub get_write_size : ByteArray → ℕ
get_write_size ba = sub64 (length ba.buf) ba.write_pos

abbrev pub set_read_pos : ℕ → ByteArray → ByteArray
set_read_pos pos ba = record ba { read_pos = pos }

abbrev pub set_write_pos : ℕ → ByteArray → ByteArray
set_write_pos pos ba = record ba { write_pos = pos }

-- `std::vector::resize`: new bytes are 0.
unfoldable pub resize : ℕ → Bytes → Bytes
resize n buf = take n buf ++ replicate (n - length buf) 0

-- A read of `n` bytes at `pos`, and a write; `fault` outside the vector.
unfoldable pub copy_out : Bytes → ℕ → ℕ → Outcome Bytes
copy_out buf pos n = if leb (pos + n) (length buf) then ok (take n (drop pos buf)) else err fault

unfoldable pub copy_in : Bytes → ℕ → Bytes → Outcome Bytes
copy_in buf pos xs =
    if leb (pos + length xs) (length buf)
    then ok (take pos buf ++ (xs ++ drop (pos + length xs) buf))
    else err fault

-- The branch of `addCapacity` that moves the readable bytes to the front.
unfoldable pub slide : ByteArray → Outcome ByteArray
slide ba = do
  guard (leb cheap_prepend ba.read_pos) assertion
  bytes ← copy_out ba.buf ba.read_pos (get_read_size ba)
  moved ← copy_in ba.buf cheap_prepend bytes
  ok (record ba {
    buf = moved;
    read_pos = cheap_prepend;
    write_pos = add64 cheap_prepend (get_read_size ba);
  })

-- The parameter is an `int`, the callers pass a `size_t`.
unfoldable pub add_capacity : ByteArray → ℕ → Outcome ByteArray
add_capacity ba n =
    let size = through_int n in
    if ltb (add64 (get_write_size ba) ba.read_pos) (add64 size cheap_prepend)
    then ok (record ba { buf = resize (add64 ba.write_pos size) ba.buf })
    else slide ba

-- `memcpy` to the write position, and the step behind it.
unfoldable pub fill : ByteArray → Bytes → Outcome ByteArray
fill ba xs = do
  buf ← copy_in ba.buf ba.write_pos xs
  ok (record ba { buf = buf; write_pos = add64 ba.write_pos (length xs) })

unfoldable pub write : ByteArray → Bytes → Outcome ByteArray
write ba xs =
    if length xs == 0 then ok ba else (do roomy ← add_capacity ba (length xs); fill roomy xs)

unfoldable pub read : ByteArray → ℕ → Outcome (Bytes × ByteArray)
read ba n = if ltb (get_read_size ba) n then err out_of_range else (do
  bytes ← copy_out ba.buf ba.read_pos n
  ok (bytes, record ba { read_pos = add64 ba.read_pos n }))

-- The pointer is `write_pos` of the result; the caller has `n` bytes from there.
unfoldable pub get_write_area : ByteArray → ℕ → Outcome ByteArray
get_write_area ba n = add_capacity ba n

-- The bytes from `readPos_` on, at most `n` of them.
unfoldable pub get_read_area : ByteArray → ℕ → Outcome Bytes
get_read_area ba n =
    copy_out ba.buf ba.read_pos (if ltb (get_read_size ba) n then get_read_size ba else n)

unfoldable pub write_prepend : ByteArray → Bytes → Outcome ByteArray
write_prepend ba xs = do
  guard (leb (length xs) ba.read_pos) assertion
  buf ← copy_in ba.buf (ba.read_pos - length xs) xs
  ok (record ba { read_pos = ba.read_pos - length xs; buf = buf })

unfoldable pub reset : ByteArray → ByteArray
reset ba = record ba { read_pos = 0; write_pos = 0; buf = resize init_size ba.buf }

-- The bytes that `peek()` points at, up to the write position.
unfoldable pub peek : ByteArray → Outcome Bytes
peek ba = copy_out ba.buf ba.read_pos (get_read_size ba)

abbrev starts_with : ℕ → Bytes → Bool
starts_with c [] = false
starts_with c (x ∷ xs) = x == c

-- `std::search` for "\r\n": the distance from the start, if there is one.
unfoldable pub search_crlf : Bytes → Option ℕ
search_crlf [] = none
search_crlf (x ∷ xs) =
    if x == 13 && starts_with 10 xs then some 0 else Option.map suc (search_crlf xs)

-- The result is the distance from `peek()`; `none` is the null pointer.
unfoldable pub find_crlf : ByteArray → Outcome (Option ℕ)
find_crlf ba = do bytes ← peek ba; ok (search_crlf bytes)

unfoldable pub to_string : ByteArray → Outcome (Bytes × ByteArray)
to_string ba = if get_read_size ba == 0 then ok ([], ba) else read ba (get_read_size ba)
