-- ===== src/Rpc/Server/Handling.antt =====
-- Rpc/Server.antt: what a request that has a handler is answered with.
use reyao.Common.{
  ℕ, ltb, false, Option, none, ◌+◌, ◌-◌, ◌^◌, ◌<◌, ◌≤◌, ◌≡◌, refl, ap, ◌∙◌, arith, true, inl, inr,
  Bool-cases, some, List, [], ◌∷◌, length, Outcome, ok, ◌>>=◌,
}
use reyao.Common.Bytes.{Bytes}
use reyao.Common.Words.{add64}
use reyao.Util.{bytes_eq}
use reyao.Endian.{little_endian, big_endian}
use reyao.ByteArray.{ByteArray, create, copy_out, get_read_area, get_read_size, set_read_pos}
use reyao.ByteArray.Contents.{IsValid, HasPrepend, contents, copy_out_ok, get_read_size-eq}
use reyao.SocketStream.{Recv, received, write, on_wire}
use reyao.Http.Servlet.Dispatch.{bytes_eq_refl}
use reyao.Rpc.Codec.{Messages, Received}
use reyao.Rpc.Codec.Serialize.{frame, serialize_to_byte_array_lem}
use reyao.Rpc.Codec.Receive.{receive-frame, new-IsValid}
use reyao.Rpc.Server.{
  Handlers, handler_of, register_rpc_handler, responded, send, serve, serve_message, handle_client,
}

-- What is registered last under a name is found.
handler_of-register :
    {M : Type 0} (name : Bytes) (h : M → M) (hs : Handlers M)
    → handler_of name (register_rpc_handler name h hs) ≡ some h
unfolding handler_of register_rpc_handler
handler_of-register name h [] = simp (bytes_eq_refl name) refl
handler_of-register name h ((n, k) ∷ rest) = elim (Bool-cases (bytes_eq n name)) [
  | inl e ↦ simp e refl
  | inr e ↦ simp e (handler_of-register name h rest)
]

read_out : (ba : ByteArray) → IsValid ba → get_read_area ba (get_read_size ba) ≡ ok (contents ba)
unfolding get_read_area
read_out ba v =
    let size = get_read_size-eq v in
    let whole : ltb (get_read_size ba) (get_read_size ba) ≡ false = ground arith in
    simp whole (
      ap (copy_out ba.buf ba.read_pos) size
      ∙ copy_out_ok ba.buf ba.read_pos (ba.write_pos - ba.read_pos)
          (omega (arith, v.ordered, v.inside)))

-- The result of a write is that of ::send.
write_result :
    (ba : ByteArray) (taken : Option ℕ)
    → IsValid ba
    → (ba' : ByteArray) × (write ba (get_read_size ba) taken ≡ ok (taken, ba'))
unfolding write
write_result ba none v = (ba, simp (read_out ba v) refl)
write_result ba (some sent) v =
    (set_read_pos (add64 ba.read_pos sent) ba, simp (read_out ba v) refl)

module _ {M : Type 0} (messages : Messages M) where
  open messages use {type_name, serialize, known, parse_from}

  new_order : (create 1024).endian ≡ big_endian
  unfolding create
  new_order = refl

  new_reach : (create 1024).write_pos < 2 ^ 61
  unfolding create
  new_reach = omega arith

  new_front : HasPrepend (create 1024)
  unfolding create
  new_front = omega arith

  new_contents : contents (create 1024) ≡ []
  unfolding create
  new_contents = refl

  send-frame :
      (handlers : Handlers M) (taken : Option ℕ) (msg : M)
      → length (type_name msg) < 2 ^ 30
      → length (serialize msg) < 2 ^ 30
      → send messages little_endian handlers taken msg
        ≡ ok (on_wire taken (frame (type_name msg) (serialize msg)))
  unfolding send
  send-frame handlers taken msg n k =
      let (ba, e, v, c, order) =
        serialize_to_byte_array_lem messages msg (create 1024) (new-IsValid messages) new_front
          new_order new_contents n k new_reach in
      let (ba', written) = write_result ba taken v in
      ap
        (λ (o : Outcome ByteArray). o >>= λ ba. get_read_area ba (get_read_size ba) >>= λ bytes.
          write ba (get_read_size ba) taken >>= λ (result, ba'). ok (on_wire result bytes))
        e
      ∙ simp (read_out ba v, written) refl
      ∙ ap (λ bytes. ok (on_wire taken bytes)) c

  -- On a little-endian host, a client of the RPC server whose request arrives in one read, as a
  -- frame of at most 4096 bytes with a name of at least one byte and name and payload of at least
  -- two together, which the factory knows and parses to a message of that name, is sent the frame
  -- of what the handler registered last for the name makes of it, if name and payload of the
  -- response are shorter than 2^30 bytes. There is one call of ::send for it: what comes onto the
  -- wire are as many of the first bytes of this frame as that call takes, and then the client is
  -- closed.
  pub handle_client-frame :
      (handlers : Handlers M) (h : M → M) (name payload : Bytes) (msg : M) (rs : List Recv)
      (taken : Option ℕ)
      → 1 ≤ length name
      → 2 ≤ length name + length payload
      → length (frame name payload) ≤ 4096
      → known name ≡ true
      → parse_from name payload ≡ (true, msg)
      → type_name msg ≡ name
      → length (type_name (h msg)) < 2 ^ 30
      → length (serialize (h msg)) < 2 ^ 30
      → handle_client messages little_endian
          (register_rpc_handler name h handlers)
          taken
          (received (frame name payload) ∷ rs)
        ≡ ok (responded (on_wire taken (frame (type_name (h msg)) (serialize (h msg)))))
  unfolding handle_client serve serve_message
  handle_client-frame handlers h name payload msg rs taken named enough fits is_known parses same n
        k =
      let hs = register_rpc_handler name h handlers in
      ap (λ (o : Outcome (Received M)). o >>= serve messages little_endian hs taken)
        (receive-frame messages name payload msg rs named enough fits is_known parses)
      ∙ ap (λ t. serve_message messages little_endian hs taken msg (handler_of t hs)) same
      ∙ ap (serve_message messages little_endian hs taken msg) (handler_of-register name h handlers)
      ∙ ap (λ (o : Outcome Bytes). o >>= λ text. ok (responded text))
          (send-frame hs taken (h msg) n k)
