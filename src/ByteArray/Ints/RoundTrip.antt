-- ===== src/ByteArray/Ints/RoundTrip.antt =====
-- What the writers put on the wire, and that the readers take it off again.
use reyao.Common.{
  ℕ, map, ◌+◌, ◌^◌, ◌≤◌, ◌<◌, ◌≡◌, refl, ap, sym, ◌∙◌, arith, [], ◌∷◌, ◌++◌, List, length, take,
  drop, take_front, drop_front, append_assoc, append-nil, length-append, All, ok, Outcome, ◌>>=◌,
}
use reyao.Common.Bytes.{Bytes}
use reyao.Endian.{IsByteOrder}
use reyao.Endian.Wire.{wire, length-wire, to_memory-to_order, from_memory-wire}
use reyao.ByteArray.{ByteArray}
use reyao.ByteArray.Contents.{IsValid, HasPrepend, contents, Wrote, write_lem}
use reyao.ByteArray.Reading.{read_lem}
use reyao.ByteArray.Ints.{write_swapped, read_swapped}

abbrev pub total_size : List (ℕ × ℕ) → ℕ
total_size [] = 0
total_size ((size, _) ∷ fields) = size + total_size fields

abbrev pub encoding : ℕ → List (ℕ × ℕ) → Bytes
encoding endian [] = []
encoding endian ((size, v) ∷ fields) = wire endian size v ++ encoding endian fields

abbrev pub Fits : ℕ × ℕ → Type 0
Fits field = (field.0 < 2 ^ 31) × (field.1 < 256 ^ field.0)

module _ (byte_order : ℕ) where
  -- A record of integers, each with its size in bytes, written one after the other and read back.
  pub write_fields : List (ℕ × ℕ) → ByteArray → Outcome ByteArray
  write_fields [] ba = ok ba
  write_fields ((size, v) ∷ fields) ba = do
    ba' ← write_swapped byte_order size ba v
    write_fields fields ba'

  pub read_fields : List (ℕ × ℕ) → ByteArray → Outcome (List ℕ × ByteArray)
  read_fields [] ba = ok ([], ba)
  read_fields ((size, _) ∷ fields) ba = do
    (v, ba') ← read_swapped byte_order size ba
    (vs, ba'') ← read_fields fields ba'
    ok (v ∷ vs, ba'')

module _ (byte_order : ℕ) (host : IsByteOrder byte_order) where
  -- A writer appends the bytes of its integer in the order of `endian_`, on every host.
  pub write_swapped_lem :
      (size : ℕ) (ba : ByteArray) (v : ℕ)
      → IsByteOrder ba.endian
      → IsValid ba
      → HasPrepend ba
      → size < 2 ^ 31
      → ba.write_pos + size < 2 ^ 62
      → (ba' : ByteArray) × (write_swapped byte_order size ba v ≡ ok ba')
        × Wrote ba' (wire ba.endian size v) ba
  unfolding write_swapped
  write_swapped_lem size ba v order valid prepend small reach =
      let long = length-wire ba.endian size v in
      rw (to_memory-to_order byte_order ba.endian size v host order) (
        write_lem ba (wire ba.endian size v) valid prepend (omega (arith, long))
          (omega (arith, long)))

  -- A reader takes the integer off the front.
  pub read_swapped_lem :
      (size : ℕ) (ba : ByteArray) (v : ℕ) (rest : Bytes)
      → IsByteOrder ba.endian
      → IsValid ba
      → v < 256 ^ size
      → contents ba ≡ wire ba.endian size v ++ rest
      → (ba' : ByteArray) × (read_swapped byte_order size ba ≡ ok (v, ba'))
        × IsValid ba'
        × (contents ba' ≡ rest)
        × (ba'.endian ≡ ba.endian)
  unfolding read_swapped
  read_swapped_lem size ba v rest order valid fits front =
      let w = wire ba.endian size v in
      let long : length w ≡ size = length-wire ba.endian size v in
      let there : size ≤ length (contents ba) =
        omega (arith, ap length front, length-append w rest, long) in
      let (ba', got, took) = read_lem ba size valid there in
      let bytes : take size (contents ba) ≡ w =
        ap (take size) front ∙ take_front w rest size long in
      (
        ba',
        rw (got, bytes, from_memory-wire byte_order ba.endian size v host order fits),
        took.valid,
        took.rest ∙ ap (drop size) front ∙ drop_front w rest size long,
        took.endian,
      )

  write_fields_lem :
      (fields : List (ℕ × ℕ)) (ba : ByteArray)
      → IsByteOrder ba.endian
      → IsValid ba
      → HasPrepend ba
      → All Fits fields
      → ba.write_pos + total_size fields < 2 ^ 62
      → (ba' : ByteArray) × (write_fields byte_order fields ba ≡ ok ba')
        × Wrote ba' (encoding ba.endian fields) ba
  unfolding write_fields
  write_fields_lem [] ba order valid prepend fits reach = (
    ba,
    refl,
    record {
      valid = valid;
      prepend = prepend;
      appended = sym (append-nil (contents ba));
      reach = omega arith;
      endian = refl;
    },
  )
  write_fields_lem ((size, v) ∷ fields) ba order valid prepend (fit, fits) reach =
      let w = wire ba.endian size v in
      let (mid, first, wrote) =
        write_swapped_lem size ba v order valid prepend fit.0 (omega arith) in
      let order' : IsByteOrder mid.endian = rw wrote.endian order in
      let near : mid.write_pos + total_size fields < 2 ^ 62 =
        omega (arith, wrote.reach, length-wire ba.endian size v) in
      let (ba', later, more) =
        write_fields_lem fields mid order' wrote.valid wrote.prepend fits near in
      (
        ba',
        rw first later,
        record {
          valid = more.valid;
          prepend = more.prepend;
          appended =
              more.appended
              ∙ ap (λ e. contents mid ++ encoding e fields) wrote.endian
              ∙ ap (λ c. c ++ encoding ba.endian fields) wrote.appended
              ∙ append_assoc (contents ba) w (encoding ba.endian fields);
          reach = omega (
            arith,
            more.reach,
            wrote.reach,
            length-append w (encoding ba.endian fields),
            ap (λ e. length (encoding e fields)) wrote.endian,
          );
          endian = more.endian ∙ wrote.endian;
        },
      )

  read_fields_lem :
      (fields : List (ℕ × ℕ)) (ba : ByteArray) (rest : Bytes)
      → IsByteOrder ba.endian
      → IsValid ba
      → All Fits fields
      → contents ba ≡ encoding ba.endian fields ++ rest
      → (ba' : ByteArray) × (read_fields byte_order fields ba ≡ ok (map (λ f. f.1) fields, ba'))
        × (contents ba' ≡ rest)
  unfolding read_fields
  read_fields_lem [] ba rest order valid fits front = (ba, refl, front)
  read_fields_lem ((size, v) ∷ fields) ba rest order valid (fit, fits) front =
      let (mid, first, valid', left, same) =
        read_swapped_lem size ba v (encoding ba.endian fields ++ rest) order valid fit.1
          (front ∙ append_assoc (wire ba.endian size v) (encoding ba.endian fields) rest) in
      let (ba', later, done) =
        read_fields_lem fields mid rest (rw same order) valid' fits
          (left ∙ ap (λ e. encoding e fields ++ rest) (sym same)) in
      (ba', rw (first, later), done)

  -- On a little- or big-endian host, for an empty valid ByteArray of either byte order whose
  -- prepend area is whole, and any sequence of fields (size and value below 256^size, sizes below
  -- 2^31) that end below 2^62: writing all fields succeeds, reading fields of the same sizes
  -- gives the values back in order, and nothing is left in the ByteArray.
  pub read_fields-write_fields :
      (fields : List (ℕ × ℕ)) (ba : ByteArray)
      → IsByteOrder ba.endian
      → IsValid ba
      → HasPrepend ba
      → contents ba ≡ []
      → All Fits fields
      → ba.write_pos + total_size fields < 2 ^ 62
      → (full empty : ByteArray) × (write_fields byte_order fields ba ≡ ok full)
        × (read_fields byte_order fields full ≡ ok (map (λ f. f.1) fields, empty))
        × (contents empty ≡ [])
  read_fields-write_fields fields ba order valid prepend nothing fits reach =
      let (full, wrote, w) = write_fields_lem fields ba order valid prepend fits reach in
      let holds : contents full ≡ encoding full.endian fields ++ [] =
        w.appended
        ∙ ap (λ c. c ++ encoding ba.endian fields) nothing
        ∙ ap (λ e. encoding e fields) (sym w.endian)
        ∙ sym (append-nil (encoding full.endian fields)) in
      let (empty, got, none_left) =
        read_fields_lem fields full [] (rw w.endian order) w.valid fits holds in
      (full, empty, wrote, got, none_left)
