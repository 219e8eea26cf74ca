-- ===== src/Rpc/Codec/Receive.antt =====
-- What `receive` makes of a frame that arrives in one read.
use reyao.Common.{
  ℕ, ◌+◌, ◌-◌, ◌%◌, ◌^◌, ◌≤◌, ◌<◌, ◌≡◌, refl, sym, ap, subst, ◌∙◌, arith, true, false, not, ◌||◌,
  inl, inr, some, List, [], ◌∷◌, ◌++◌, ltb, leb, length, take, drop, length-replicate,
  length-append, append_assoc, append-nil, take_front, drop_front, take-take, ok, ◌>>=◌,
}
use reyao.Common.Bytes.{Bytes, to_be, length-to_be}
use reyao.Common.Words.{add64, add64_small, is_negative32}
use reyao.Endian.{little_endian, big_endian}
use reyao.Endian.Wire.{wire}
use reyao.ByteArray.{ByteArray, create, read, copy_out, set_read_pos, get_read_size}
use reyao.ByteArray.Contents.{IsValid, contents, get_read_size-eq, length-contents, copy_out_ok}
use reyao.ByteArray.Reading.{read_lem, contents-skip, skip-IsValid}
use reyao.ByteArray.Ints.{read_int32, read_int8, head_byte}
use reyao.ByteArray.Ints.RoundTrip.{read_swapped_lem}
use reyao.SocketStream.{Recv, received, read-received}
use reyao.SocketStream
use reyao.Rpc.Codec.{
  Messages, Answer, no_error, answered, is_positive, parse, parse_payload, receive, receive_from,
  header_len, min_message_len, max_message_len,
}
use reyao.Rpc.Codec.Serialize.{body, frame, length-body}

-- A ByteArray in the middle of being read: what is left in it.
record Left (ba : ByteArray) (xs : Bytes) : Type 0 where
  valid : IsValid ba
  left : contents ba ≡ xs
  order : ba.endian ≡ big_endian

Left-size : (ba : ByteArray) (xs : Bytes) → Left ba xs → get_read_size ba ≡ length xs
Left-size ba xs l = get_read_size-eq l.valid ∙ sym (length-contents ba l.valid) ∙ ap length l.left

Left-int :
    (v : ℕ) (ba : ByteArray) (xs : Bytes)
    → v < 2 ^ 32
    → Left ba (to_be 4 v ++ xs)
    → (ba' : ByteArray) × (read_int32 little_endian ba ≡ ok (v, ba')) × Left ba' xs
unfolding read_int32
Left-int v ba xs small l =
    let front : contents ba ≡ wire ba.endian 4 v ++ xs =
      l.left ∙ ap (λ o. wire o 4 v ++ xs) (sym l.order) in
    let (ba', e, valid, rest, same) =
      read_swapped_lem little_endian (inl refl) 4 ba v xs (inr l.order) l.valid small front in
    (ba', e, record { valid = valid; left = rest; order = same ∙ l.order })

Left-copy :
    (xs ys : Bytes) (ba : ByteArray)
    → Left ba (xs ++ ys)
    → copy_out ba.buf ba.read_pos (length xs) ≡ ok xs
Left-copy xs ys ba l =
    let size = ba.write_pos - ba.read_pos in
    let count : length xs ≤ size =
      omega (arith, length-contents ba l.valid, ap length l.left, length-append xs ys) in
    let inside : ba.read_pos + length xs ≤ length ba.buf =
      omega (arith, l.valid.inside, l.valid.ordered) in
    copy_out_ok ba.buf ba.read_pos (length xs) inside
    ∙ ap ok (
        sym (take-take (length xs) size (drop ba.read_pos ba.buf) count)
        ∙ ap (take (length xs)) l.left
        ∙ take_front xs ys (length xs) refl)

Left-skip :
    (xs ys : Bytes) (ba : ByteArray)
    → Left ba (xs ++ ys)
    → Left (set_read_pos (add64 ba.read_pos (length xs)) ba) ys
Left-skip xs ys ba l =
    let count : length xs ≤ length (contents ba) =
      omega (arith, ap length l.left, length-append xs ys) in
    let plain : add64 ba.read_pos (length xs) ≡ ba.read_pos + length xs =
      add64_small ba.read_pos (length xs) (
        omega (
          arith,
          length-contents ba l.valid,
          l.valid.ordered,
          l.valid.inside,
          l.valid.addressable,
        )) in
    subst (λ n. Left (set_read_pos n ba) ys) (sym plain)
      (record {
        valid = skip-IsValid ba (length xs) l.valid count;
        left =
            contents-skip ba (length xs) l.valid count
            ∙ ap (drop (length xs)) l.left
            ∙ drop_front xs ys (length xs) refl;
        order = l.order;
      })

Left-byte :
    (c : ℕ) (ys : Bytes) (ba : ByteArray)
    → Left ba ((c ∷ []) ++ ys)
    → (ba' : ByteArray) × (read_int8 ba ≡ ok (c, ba')) × Left ba' ys
unfolding read_int8
Left-byte c ys ba l =
    let some_there : 1 ≤ length (contents ba) = omega (arith, ap length l.left) in
    let (ba', e, t) = read_lem ba 1 l.valid some_there in
    let first : take 1 (contents ba) ≡ c ∷ [] = ap (take 1) l.left in
    let got : read ba 1 ≡ ok (c ∷ [], ba') = e ∙ ap (λ x. ok (x, ba')) first in
    (
      ba',
      ap (λ o. o >>= λ r. ok (head_byte r.0, r.1)) got,
      record { valid = t.valid; left = t.rest ∙ ap (drop 1) l.left; order = t.endian ∙ l.order },
    )

module _ {M : Type 0} (messages : Messages M) where
  open messages use {known, parse_from}

  in_parse :
      (len v : ℕ) (name payload : Bytes) (msg : M) (ba rest behind : ByteArray)
      → read_int32 little_endian ba ≡ ok (v, rest)
      → (is_negative32 v || ltb v 2 || ltb (len - header_len) v) ≡ false
      → copy_out rest.buf rest.read_pos (v - 1) ≡ ok name
      → read_int8 (set_read_pos (add64 rest.read_pos (v - 1)) rest) ≡ ok (0, behind)
      → known name ≡ true
      → copy_out behind.buf behind.read_pos (len - header_len - v) ≡ ok payload
      → parse_from name payload ≡ (true, msg)
      → parse messages little_endian ba len ≡ ok (no_error, some msg)
  unfolding parse parse_payload
  in_parse len v name payload msg ba rest behind a b c d e f g = simp (a, b, c, d, e, f, g)

  parse_lem :
      (name payload : Bytes) (msg : M) (ba : ByteArray)
      → Left ba (body name payload)
      → 1 ≤ length name
      → length (body name payload) < 2 ^ 31
      → known name ≡ true
      → parse_from name payload ≡ (true, msg)
      → parse messages little_endian ba (length (body name payload)) ≡ ok (no_error, some msg)
  parse_lem name payload msg ba l named small is_known parses =
      let n = length name in
      let len = length (body name payload) in
      let long : len ≡ 4 + (n + 1) + length payload = length-body name payload in
      let exact : (n + 1) % 2 ^ 32 ≡ n + 1 = omega (arith, long) in
      let tail = (0 ∷ []) ++ payload in
      let regroup : body name payload ≡ to_be 4 (n + 1) ++ (name ++ tail) =
        ap (λ v. wire big_endian 4 v ++ name ++ (0 ∷ []) ++ payload) exact
        ∙ append_assoc (to_be 4 (n + 1) ++ name) (0 ∷ []) payload
        ∙ append_assoc (to_be 4 (n + 1)) name tail in
      let (rest, a, l1) =
        Left-int (n + 1) ba (name ++ tail) (omega (arith, long)) (subst (Left ba) regroup l) in
      let less : n ≡ n + 1 - 1 = omega arith in
      let c =
        subst (λ k. copy_out rest.buf rest.read_pos k ≡ ok name) less
          (Left-copy name tail rest l1) in
      let l2 =
        subst (λ k. Left (set_read_pos (add64 rest.read_pos k) rest) tail) less
          (Left-skip name tail rest l1) in
      let (behind, d, l3) =
        Left-byte 0 payload (set_read_pos (add64 rest.read_pos (n + 1 - 1)) rest) l2 in
      let left_len : length payload ≡ len - header_len - (n + 1) = omega (arith, long) in
      let whole = subst (Left behind) (sym (append-nil payload)) l3 in
      let f =
        subst (λ k. copy_out behind.buf behind.read_pos k ≡ ok payload) left_len
          (Left-copy payload [] behind whole) in
      let in_range : (is_negative32 (n + 1) || ltb (n + 1) 2 || ltb (len - header_len) (n + 1))
          ≡ false =
        ground (arith, long) in
      in_parse len (n + 1) name payload msg ba rest behind a in_range c d is_known f parses

  in_receive :
      (xs : Bytes) (rs : List Recv) (len : ℕ) (answer : Answer M) (ba filled rest : ByteArray)
      → SocketStream.read ba 4096 (received xs) ≡ ok (some (length xs), filled)
      → not (is_positive (some (length xs))) ≡ false
      → ltb (header_len + min_message_len) (get_read_size filled) ≡ true
      → read_int32 little_endian filled ≡ ok (len, rest)
      → (is_negative32 len || ltb max_message_len len || ltb len min_message_len) ≡ false
      → leb len (get_read_size rest) ≡ true
      → parse messages little_endian rest len ≡ ok answer
      → receive_from messages little_endian (received xs ∷ rs) ba ≡ ok (answered answer)
  unfolding receive_from
  in_receive xs rs len answer ba filled rest a b c d e f g = simp (a, b, c, d, e, f, g)

  pub new-IsValid : IsValid (create 1024)
  unfolding create
  new-IsValid = record {
    ordered = omega arith;
    inside = omega (arith, length-replicate {A = ℕ} 1032 0);
    addressable = omega (arith, length-replicate {A = ℕ} 1032 0);
  }

  -- On a little-endian host, when a frame (the length, the length of the name with its NUL, the
  -- name, the NUL and the payload) of at most 4096 bytes, with a name of at least one byte and
  -- name and payload of at least two bytes together, arrives in one read: if the factory knows
  -- the name and parses the payload to a message, `receive` returns that message without an
  -- error.
  pub receive-frame :
      (name payload : Bytes) (msg : M) (rs : List Recv)
      → 1 ≤ length name
      → 2 ≤ length name + length payload
      → length (frame name payload) ≤ 4096
      → known name ≡ true
      → parse_from name payload ≡ (true, msg)
      → receive messages little_endian (received (frame name payload) ∷ rs)
        ≡ ok (answered (no_error, some msg))
  unfolding receive create
  receive-frame name payload msg rs named enough fits is_known parses =
      let xs = frame name payload in
      let len = length (body name payload) in
      let long : len ≡ 4 + (length name + 1) + length payload = length-body name payload in
      let total : length xs ≡ 4 + len =
        omega (arith, length-append (to_be 4 len) (body name payload), length-to_be 4 len) in
      let (filled, a, w) =
        read-received (create 1024) 4096 xs new-IsValid (omega arith) (omega arith) (omega arith)
          fits in
      let l : Left filled xs = record { valid = w.valid; left = w.appended; order = w.endian } in
      let (rest, d, l1) = Left-int len filled (body name payload) (omega (arith, total)) l in
      let size = Left-size filled xs l in
      let size1 = Left-size rest (body name payload) l1 in
      let b : not (is_positive (some (length xs))) ≡ false = ground (arith, total) in
      let c : ltb (header_len + min_message_len) (get_read_size filled) ≡ true =
        ground (arith, size, total, long) in
      let e : (is_negative32 len || ltb max_message_len len || ltb len min_message_len) ≡ false =
        ground (arith, total, long) in
      let f : leb len (get_read_size rest) ≡ true = ground (arith, size1) in
      in_receive xs rs len (no_error, some msg) (create 1024) filled rest a b c d e f
        (parse_lem name payload msg rest l1 named (omega (arith, total)) is_known parses)
