-- ===== src/Rpc/Codec/Serialize.antt =====
-- What `serializeToByteArray` puts into the ByteArray.
use reyao.Common.{
  ℕ, ◌+◌, ◌%◌, ◌^◌, ◌≤◌, ◌<◌, ◌≡◌, refl, sym, ap, subst, ◌∙◌, arith, true, inl, inr, [], ◌∷◌, ◌++◌,
  ◌==◌, length, length-append, ok,
}
use reyao.Common.Bytes.{Bytes, to_be, length-to_be}
use reyao.Endian.{little_endian, big_endian, to_memory, byte_swap_on_little_endian, byte_swap}
use reyao.Endian.Wire.{wire, length-wire, to_memory-to_order}
use reyao.ByteArray.{ByteArray, write, fill, get_write_area, write_prepend, get_read_size}
use reyao.ByteArray.Contents.{
  IsValid, HasPrepend, Wrote, contents, write_lem, add_capacity_lem, fill_lem, get_read_size-eq,
  length-contents,
}
use reyao.ByteArray.Reading.{write_prepend_lem}
use reyao.ByteArray.Ints.{write_int32}
use reyao.ByteArray.Ints.RoundTrip.{write_swapped_lem}
use reyao.Rpc.Codec.{Messages, serialize_to_byte_array}

-- The length of the name with its NUL, the name, the NUL and the payload.
abbrev pub body : Bytes → Bytes → Bytes
body name payload = wire big_endian 4 ((length name + 1) % 2 ^ 32) ++ name ++ (0 ∷ []) ++ payload

abbrev pub frame : Bytes → Bytes → Bytes
frame name payload = to_be 4 (length (body name payload)) ++ body name payload

pub length-body :
    (name payload : Bytes) → length (body name payload) ≡ 4 + (length name + 1) + length payload
length-body name payload =
    let w = wire big_endian 4 ((length name + 1) % 2 ^ 32) in
    let a = length-append (w ++ name ++ (0 ∷ [])) payload in
    let b = length-append (w ++ name) (0 ∷ []) in
    let c = length-append w name in
    let d = length-wire big_endian 4 ((length name + 1) % 2 ^ 32) in omega (arith, a, b, c, d)

-- A ByteArray in the middle of being written: what it holds, and how far it reaches.
record Holds (ba : ByteArray) (xs : Bytes) (reach : ℕ) : Type 0 where
  valid : IsValid ba
  prepend : HasPrepend ba
  holds : contents ba ≡ xs
  reached : ba.write_pos ≤ reach
  order : ba.endian ≡ big_endian

Holds-Wrote :
    (ba ba' : ByteArray) (xs ys : Bytes) (reach reach' : ℕ)
    → Holds ba xs reach
    → Wrote ba' ys ba
    → reach + length ys ≤ reach'
    → Holds ba' (xs ++ ys) reach'
Holds-Wrote ba ba' xs ys reach reach' h w fits = record {
  valid = w.valid;
  prepend = w.prepend;
  holds = w.appended ∙ ap (λ t. t ++ ys) h.holds;
  reached = omega (arith, w.reach, h.reached);
  order = w.endian ∙ h.order;
}

hold_int :
    (v : ℕ) (ba : ByteArray) (xs : Bytes) (reach : ℕ)
    → Holds ba xs reach
    → reach + 4 < 2 ^ 62
    → (ba' : ByteArray) × (write_int32 little_endian ba v ≡ ok ba')
      × Holds ba' (xs ++ wire big_endian 4 v) (reach + 4)
unfolding write_int32
hold_int v ba xs reach h fits =
    let (ba', e, w) =
      write_swapped_lem little_endian (inl refl) 4 ba v (inr h.order) h.valid h.prepend
        (omega arith) (omega (arith, h.reached)) in
    let w' = subst (λ o. Wrote ba' (wire o 4 v) ba) h.order w in
    (
      ba',
      e,
      Holds-Wrote ba ba' xs (wire big_endian 4 v) reach (reach + 4) h w'
          (omega (arith, length-wire big_endian 4 v)),
    )

hold_bytes :
    (ys : Bytes) (ba : ByteArray) (xs : Bytes) (reach : ℕ)
    → Holds ba xs reach
    → length ys < 2 ^ 31
    → reach + length ys < 2 ^ 62
    → (ba' : ByteArray) × (write ba ys ≡ ok ba') × Holds ba' (xs ++ ys) (reach + length ys)
hold_bytes ys ba xs reach h small fits =
    let (ba', e, w) = write_lem ba ys h.valid h.prepend small (omega (arith, h.reached)) in
    (ba', e, Holds-Wrote ba ba' xs ys reach (reach + length ys) h w (omega arith))

hold_area :
    (ys : Bytes) (ba : ByteArray) (xs : Bytes) (reach : ℕ)
    → Holds ba xs reach
    → length ys < 2 ^ 31
    → reach + length ys < 2 ^ 62
    → (roomy filled : ByteArray) × (get_write_area ba (length ys) ≡ ok roomy)
      × (fill roomy ys ≡ ok filled)
      × Holds filled (xs ++ ys) (reach + length ys)
unfolding get_write_area
hold_area ys ba xs reach h small fits =
    let (roomy, d, r) =
      add_capacity_lem ba (length ys) h.valid h.prepend small (omega (arith, h.reached)) in
    let (filled, e, w) = fill_lem roomy ba (length ys) ys r (omega arith) in
    (roomy, filled, d, e, Holds-Wrote ba filled xs ys reach (reach + length ys) h w (omega arith))

hold_size :
    (ba : ByteArray) (xs : Bytes) (reach : ℕ) → Holds ba xs reach → get_read_size ba ≡ length xs
hold_size ba xs reach h =
    get_read_size-eq h.valid ∙ sym (length-contents ba h.valid) ∙ ap length h.holds

-- The length in front of the rest.
hold_length :
    (ba : ByteArray) (xs : Bytes) (reach : ℕ)
    → Holds ba xs reach
    → length xs < 2 ^ 32
    → (ba' : ByteArray) × (write_prepend ba
          (to_memory little_endian 4 (byte_swap_on_little_endian 4 (get_read_size ba % 2 ^ 32)))
        ≡ ok ba')
      × IsValid ba'
      × (contents ba' ≡ to_be 4 (length xs) ++ xs)
      × (ba'.endian ≡ big_endian)
unfolding byte_swap_on_little_endian
hold_length ba xs reach h small =
    let size : get_read_size ba % 2 ^ 32 ≡ length xs = omega (arith, hold_size ba xs reach h) in
    let front : to_memory little_endian 4 (byte_swap 4 (get_read_size ba % 2 ^ 32))
        ≡ to_be 4 (length xs) =
      to_memory-to_order little_endian big_endian 4 (get_read_size ba % 2 ^ 32) (inl refl)
        (inr refl)
      ∙ ap (to_be 4) size in
    let (ba', e, v, c, _, o) =
      write_prepend_lem ba (to_be 4 (length xs)) h.valid
        (omega (arith, h.prepend, length-to_be 4 (length xs))) in
    (
      ba',
      ap (write_prepend ba) front ∙ e,
      v,
      c ∙ ap (λ t. to_be 4 (length xs) ++ t) h.holds,
      o ∙ h.order,
    )

module _ {M : Type 0} (messages : Messages M) where
  open messages use {type_name, serialize}

  in_steps :
      (msg : M) (ba sized named ended roomy filled ba' : ByteArray)
      → write_int32 little_endian ba ((length (type_name msg) + 1) % 2 ^ 32) ≡ ok sized
      → write sized (type_name msg) ≡ ok named
      → write named (0 ∷ []) ≡ ok ended
      → get_write_area ended (length (serialize msg)) ≡ ok roomy
      → fill roomy (serialize msg) ≡ ok filled
      → (get_read_size filled == 4 + (length (type_name msg) + 1) % 2 ^ 32 + length (serialize msg))
        ≡ true
      → write_prepend filled
          (to_memory little_endian 4 (byte_swap_on_little_endian 4 (get_read_size filled % 2 ^ 32)))
        ≡ ok ba'
      → serialize_to_byte_array messages little_endian ba msg ≡ ok ba'
  unfolding serialize_to_byte_array
  in_steps msg ba sized named ended roomy filled ba' a b c d e f g = simp (a, b, c, d, e, f, g)

  -- On a little-endian host and an empty valid ByteArray in the network's byte order, with the
  -- prepend area whole and the write position below 2^61: for a message whose name and payload
  -- are shorter than 2^30 bytes, `serializeToByteArray` succeeds, fails no assertion, and leaves
  -- exactly the message's frame in a valid ByteArray of the same byte order.
  pub serialize_to_byte_array_lem :
      (msg : M) (ba : ByteArray)
      → IsValid ba
      → HasPrepend ba
      → ba.endian ≡ big_endian
      → contents ba ≡ []
      → length (type_name msg) < 2 ^ 30
      → length (serialize msg) < 2 ^ 30
      → ba.write_pos < 2 ^ 61
      → (ba' : ByteArray) × (serialize_to_byte_array messages little_endian ba msg ≡ ok ba')
        × IsValid ba'
        × (contents ba' ≡ frame (type_name msg) (serialize msg))
        × (ba'.endian ≡ big_endian)
  serialize_to_byte_array_lem msg ba v p order nothing n k reach =
      let name = type_name msg in
      let payload = serialize msg in
      let name_len = (length name + 1) % 2 ^ 32 in
      let start : Holds ba [] ba.write_pos = record {
        valid = v;
        prepend = p;
        holds = nothing;
        reached = omega arith;
        order = order;
      } in
      let (sized, a, h1) = hold_int name_len ba [] ba.write_pos start (omega arith) in
      let (named, b, h2) =
        hold_bytes name sized ([] ++ wire big_endian 4 name_len) (ba.write_pos + 4) h1 (omega arith)
          (omega arith) in
      let (ended, c, h3) =
        hold_bytes (0 ∷ []) named ([] ++ wire big_endian 4 name_len ++ name)
          (ba.write_pos + 4 + length name) h2 (omega arith) (omega arith) in
      let (roomy, filled, d, e, h4) =
        hold_area payload ended ([] ++ wire big_endian 4 name_len ++ name ++ (0 ∷ []))
          (ba.write_pos + 4 + length name + 1) h3 (omega arith) (omega arith) in
      let whole = body name payload in
      let size = hold_size filled whole (ba.write_pos + 4 + length name + 1 + length payload) h4 in
      let exact : (get_read_size filled == 4 + name_len + length payload) ≡ true =
        ground (arith, size, length-body name payload) in
      let (ba', g, w, holds, o) =
        hold_length filled whole (ba.write_pos + 4 + length name + 1 + length payload) h4
          (omega (arith, length-body name payload)) in
      (ba', in_steps msg ba sized named ended roomy filled ba' a b c d e exact g, w, holds, o)
