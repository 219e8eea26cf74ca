-- ===== src/Rpc/Codec.antt =====
-- reyao/rpc/codec.h and codec.cc, ProtobufCodec. The protobuf library is the interface Messages.
-- An int32_t is its bit pattern.
pub mod Serialize
pub mod Receive
use reyao.Common.{
  ℕ, ◌+◌, ◌-◌, ◌%◌, ◌^◌, ◌*◌, Bool, true, false, not, ◌||◌, Option, none, some, List, [], ◌∷◌, ltb,
  leb, ◌==◌, if◌then◌else◌, length, Outcome, ok, err, assertion, guard, ◌>>=◌, ◌>>◌,
}
use reyao.Common.Bytes.{Bytes}
use reyao.Common.Words.{add64, is_negative32}
use reyao.Endian.{to_memory, byte_swap_on_little_endian}
use reyao.ByteArray.{
  ByteArray, create, write, fill, get_write_area, write_prepend, get_read_size, copy_out,
  set_read_pos,
}
use reyao.ByteArray.Ints.{write_int32, read_int32, read_int8}
use reyao.SocketStream.{Recv}
use reyao.SocketStream

-- `GetTypeName`, `SerializeWithCachedSizesToArray` (of `ByteSizeLong` bytes), whether the factory has
-- a prototype of this name, and `ParseFromArray` into a new message of this name with its result.
pub record Messages (M : Type 0) : Type 0 where
  pub type_name : M → Bytes
  pub serialize : M → Bytes
  pub known : Bytes → Bool
  pub parse_from : Bytes → Bytes → Bool × M

pub data ErrorCode : Type 0 where
  no_error invalid_length invalid_name_length unknown_message_type parse_error server_closed :
      ErrorCode

abbrev pub header_len : ℕ
header_len = 4

abbrev pub min_message_len : ℕ
min_message_len = header_len + 2

abbrev pub max_message_len : ℕ
max_message_len = 64 * 1024 * 1024

-- The code of the ErrMsg and the message pointer.
abbrev pub Answer : Type 0 → Type 0
Answer M = ErrorCode × Option M

-- How `receive` comes to an end: it returns, or it stays suspended in `read`.
pub data Received (M : Type 0) : Type 0 where
  answered : Answer M → Received M
  waiting : ByteArray → Received M

abbrev is_positive : Option ℕ → Bool
is_positive none = false
is_positive (some n) = ltb 0 n

module _ {M : Type 0} (messages : Messages M) (byte_order : ℕ) where
  open messages use {type_name, serialize, known, parse_from}

  unfoldable pub serialize_to_byte_array : ByteArray → M → Outcome ByteArray
  unfolding write_int32 write fill get_write_area write_prepend
  serialize_to_byte_array ba msg = do
    let name_len = (length (type_name msg) + 1) % 2 ^ 32
    let byte_size = length (serialize msg)
    sized ← write_int32 byte_order ba name_len
    named ← write sized (type_name msg)
    ended ← write named (0 ∷ [])
    roomy ← get_write_area ended byte_size
    filled ← fill roomy (serialize msg)
    guard (get_read_size filled == 4 + name_len + byte_size) assertion
    let len = byte_swap_on_little_endian 4 (get_read_size filled % 2 ^ 32)
    write_prepend filled (to_memory byte_order 4 len)

  -- The part of `Parse` behind the name.
  unfoldable pub parse_payload : ByteArray → ℕ → Bytes → Outcome (Answer M)
  unfolding copy_out
  parse_payload ba payload_len name =
      if known name
      then (do
        payload ← copy_out ba.buf ba.read_pos payload_len
        let parsed = parse_from name payload
        ok (if parsed.0 then no_error else parse_error, some parsed.1))
      else ok (unknown_message_type, none)

  unfoldable pub parse : ByteArray → ℕ → Outcome (Answer M)
  unfolding read_int32 read_int8 parse_payload
  parse ba len = do
    (name_len, rest) ← read_int32 byte_order ba
    if is_negative32 name_len || ltb name_len 2 || ltb (len - header_len) name_len
        then ok (invalid_name_length, none)
        else (do
          name ← copy_out rest.buf rest.read_pos (name_len - 1)
          (zero_byte, behind) ← read_int8 (set_read_pos (add64 rest.read_pos (name_len - 1)) rest)
          if zero_byte == 0
              then parse_payload behind (len - header_len - name_len) name
              else ok (parse_error, none))

  -- The loop of `receive` over the answers of the kernel.
  unfoldable pub receive_from : List Recv → ByteArray → Outcome (Received M)
  unfolding read_int32 parse
  receive_from [] ba = ok (waiting ba)
  receive_from (r ∷ rs) ba = do
    (count, filled) ← SocketStream.read ba 4096 r
    if not (is_positive count)
        then ok (answered (server_closed, none))
        else if ltb (header_len + min_message_len) (get_read_size filled)
        then (do
          (len, rest) ← read_int32 byte_order filled
          if is_negative32 len || ltb max_message_len len || ltb len min_message_len
              then ok (answered (invalid_length, none))
              else if leb len (get_read_size rest)
              then (do answer ← parse rest len; ok (answered answer))
              else receive_from rs rest)
        else receive_from rs filled

  unfoldable pub receive : List Recv → Outcome (Received M)
  unfolding create receive_from
  receive rs = receive_from rs (create 1024)
