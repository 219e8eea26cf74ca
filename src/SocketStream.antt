-- ===== src/SocketStream.antt =====
-- reyao/socket_stream.cc: reads and writes of a connected socket into and out of a ByteArray.
-- The kernel's answer to a `recv` or a `send` is an argument.
use reyao.Common.{
  ℕ, ◌+◌, ◌^◌, ◌≤◌, ◌<◌, ◌≡◌, Option, none, some, length, [], take, Outcome, ok, ◌>>=◌,
}
use reyao.Common.Bytes.{Bytes}
use reyao.Common.Words.{add64}
use reyao.ByteArray.{ByteArray, get_write_area, fill, get_read_area, set_read_pos}
use reyao.ByteArray.Contents.{IsValid, HasPrepend, Wrote, add_capacity_lem, fill_lem}

-- What `recv` can answer. `received` has at least one byte; `closed` is the result 0.
pub data Recv : Type 0 where
  not_connected closed failed : Recv
  received : Bytes → Recv

-- `none` is the result -1.
unfoldable pub read : ByteArray → ℕ → Recv → Outcome (Option ℕ × ByteArray)
read ba size not_connected = ok (none, ba)
read ba size closed = do roomy ← get_write_area ba size; ok (some 0, roomy)
read ba size failed = do roomy ← get_write_area ba size; ok (none, roomy)
read ba size (received xs) = do
  roomy ← get_write_area ba size
  filled ← fill roomy xs
  ok (some (length xs), filled)

-- What `send` has put on the wire: as many of the bytes as the kernel took, and none if the result is
-- -1.
unfoldable pub on_wire : Option ℕ → Bytes → Bytes
on_wire none bytes = []
on_wire (some sent) bytes = take sent bytes

-- `sent` is the result of `send`: the count of bytes that the kernel took, or -1.
unfoldable pub write : ByteArray → ℕ → Option ℕ → Outcome (Option ℕ × ByteArray)
write ba size none = do bytes ← get_read_area ba size; ok (none, ba)
write ba size (some sent) = do
  bytes ← get_read_area ba size
  ok (some sent, set_read_pos (add64 ba.read_pos sent) ba)

-- On a valid ByteArray whose prepend area is whole, for a size below 2^31 that ends below 2^62:
-- when the kernel delivers at most that many bytes, `SocketStream::read` returns their count and
-- appends exactly these bytes to the contents, and the ByteArray is valid afterwards.
pub read-received :
    (ba : ByteArray) (size : ℕ) (xs : Bytes)
    → IsValid ba
    → HasPrepend ba
    → size < 2 ^ 31
    → ba.write_pos + size < 2 ^ 62
    → length xs ≤ size
    → (ba' : ByteArray) × (read ba size (received xs) ≡ ok (some (length xs), ba'))
      × Wrote ba' xs ba
unfolding read get_write_area
read-received ba size xs valid prepend small reach fits =
    let (roomy, grown, r) = add_capacity_lem ba size valid prepend small reach in
    let (ba', filled, wrote) = fill_lem roomy ba size xs r fits in (ba', rw (grown, filled), wrote)
