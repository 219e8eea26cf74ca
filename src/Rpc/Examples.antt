-- ===== src/Rpc/Examples.antt =====
-- The theorems on the codec, with messages that are a name and a payload.
use reyao.Common.{◌++◌, ◌≡◌, refl, arith, true, [], ◌∷◌, some, ok}
use reyao.Common.Bytes.{Bytes}
use reyao.Util.{codes}
use reyao.Endian.{little_endian, big_endian}
use reyao.ByteArray.{ByteArray}
use reyao.ByteArray.Contents.{IsValid, contents}
use reyao.SocketStream.{received, closed, on_wire}
use reyao.Rpc.Codec.{Messages, serialize_to_byte_array, receive, answered, no_error}
use reyao.Rpc.Codec.Serialize.{frame, serialize_to_byte_array_lem}
use reyao.Rpc.Codec.Receive.{receive-frame}
use reyao.Rpc.Server.{handle_client, register_rpc_handler, responded}
use reyao.Rpc.Server.Handling.{handle_client-frame}

abbrev pairs : Messages (Bytes × Bytes)
pairs = record {
  type_name = λ m. m.0;
  serialize = λ m. m.1;
  known = λ name. true;
  parse_from = λ name payload. (true, (name, payload));
}

abbrev echo : Bytes
echo = codes "Echo"

abbrev hello : Bytes
hello = codes "hello"

abbrev fresh : ByteArray
fresh = record {
  endian = 4321;
  write_pos = 8;
  read_pos = 8;
  buf = 0 ∷ 0 ∷ 0 ∷ 0 ∷ 0 ∷ 0 ∷ 0 ∷ 0 ∷ 0 ∷ 0 ∷ [];
}

serialize_to_byte_array_lem_example :
    (ba' : ByteArray) × (serialize_to_byte_array pairs little_endian fresh (echo, hello) ≡ ok ba')
    × IsValid ba'
    × (contents ba' ≡ frame echo hello)
    × (ba'.endian ≡ big_endian)
serialize_to_byte_array_lem_example =
    serialize_to_byte_array_lem pairs (echo, hello) fresh
      (record { ordered = omega arith; inside = omega arith; addressable = omega arith })
      (omega arith) refl refl (omega arith) (omega arith) (omega arith)

receive-frame_example :
    receive pairs little_endian (received (frame echo hello) ∷ closed ∷ [])
    ≡ ok (answered (no_error, some (echo, hello)))
receive-frame_example =
    receive-frame pairs echo hello (echo, hello) (closed ∷ []) (omega arith) (omega arith)
      (omega arith) refl refl

-- The server answers with the payload doubled.
abbrev doubles : Bytes × Bytes → Bytes × Bytes
doubles m = (m.0, m.1 ++ m.1)

-- The kernel takes ten bytes of the response.
handle_client-frame_example :
    handle_client pairs little_endian
      (register_rpc_handler echo doubles [])
      (some 10)
      (received (frame echo hello) ∷ closed ∷ [])
    ≡ ok (responded (on_wire (some 10) (frame echo (hello ++ hello))))
handle_client-frame_example =
    handle_client-frame pairs [] doubles echo hello (echo, hello) (closed ∷ []) (some 10)
      (omega arith) (omega arith) (omega arith) refl refl refl (omega arith) (omega arith)
