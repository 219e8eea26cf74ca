-- ===== src/Rpc/Server.antt =====
-- reyao/rpc/rpc_server.h and rpc_server.cc: the table of handlers, and how a client is served. The
-- descriptor of a message is its type name; protobuf is the interface Messages.
pub mod Handling
use reyao.Common.{
  ℕ, Bool, true, false, Option, none, some, List, [], ◌∷◌, ◌++◌, if◌then◌else◌, Outcome, ok, ◌>>=◌,
}
use reyao.Common.Bytes.{Bytes}
use reyao.Util.{bytes_eq}
use reyao.ByteArray.{ByteArray, create, get_read_area, get_read_size}
use reyao.SocketStream.{Recv, write, on_wire}
use reyao.Rpc.Codec.{
  Messages, ErrorCode, no_error, invalid_length, invalid_name_length, unknown_message_type,
  parse_error, server_closed, Answer, Received, answered, waiting, receive, serialize_to_byte_array,
}

abbrev pub Handlers : Type 0 → Type 0
Handlers M = List (Bytes × (M → M))

unfoldable pub handler_of : {M : Type 0} → Bytes → Handlers M → Option (M → M)
handler_of name [] = none
handler_of name ((n, h) ∷ rest) =
    let other = handler_of name rest in if bytes_eq n name then some h else other

-- `handlers_[descriptor] = cb`.
unfoldable pub register_rpc_handler : {M : Type 0} → Bytes → (M → M) → Handlers M → Handlers M
register_rpc_handler name h [] = (name, h) ∷ []
register_rpc_handler name h ((n, k) ∷ rest) =
    let others = register_rpc_handler name h rest in
    if bytes_eq n name then (n, h) ∷ rest else (n, k) ∷ others

-- A client is closed without or with a response, of which some bytes have gone onto the wire, or its
-- message has not arrived yet.
pub data Served : Type 0 where
  closed : Served
  responded : Bytes → Served
  pending : Served

abbrev pub is_no_error : ErrorCode → Bool
is_no_error no_error = true
is_no_error invalid_length = false
is_no_error invalid_name_length = false
is_no_error unknown_message_type = false
is_no_error parse_error = false
is_no_error server_closed = false

module _ {M : Type 0} (messages : Messages M) (byte_order : ℕ) (handlers : Handlers M) where
  open messages use {type_name}

  -- `send`: one write of the readable bytes of the ByteArray that the message is put into. `taken` is
  -- the result of the call of ::send, which nobody looks at; what goes onto the wire is returned.
  unfoldable pub send : Option ℕ → M → Outcome Bytes
  unfolding write on_wire
  send taken msg = do
    ba ← serialize_to_byte_array messages byte_order (create 1024) msg
    bytes ← get_read_area ba (get_read_size ba)
    (result, ba') ← write ba (get_read_size ba) taken
    ok (on_wire result bytes)

  unfoldable pub serve_message : Option ℕ → M → Option (M → M) → Outcome Served
  serve_message taken msg none = ok closed
  serve_message taken msg (some h) = do text ← send taken (h msg); ok (responded text)

  unfoldable pub serve : Option ℕ → Received M → Outcome Served
  serve taken (waiting ba) = ok pending
  serve taken (answered (code, none)) = ok closed
  serve taken (answered (code, some msg)) =
      if is_no_error code
      then serve_message taken msg (handler_of (type_name msg) handlers)
      else ok closed

  unfoldable pub handle_client : Option ℕ → List Recv → Outcome Served
  handle_client taken rs = do r ← receive messages byte_order rs; serve taken r
