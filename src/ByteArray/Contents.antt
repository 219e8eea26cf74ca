-- ===== src/ByteArray/Contents.antt =====
-- The abstract view of the buffer: the bytes between the two positions, as a queue.
use reyao.Common.{
  ℕ, ◌+◌, ◌-◌, ◌^◌, ◌≤◌, ◌<◌, ◌≡◌, refl, ap, sym, ◌∙◌, arith, [], ◌++◌, length, take, drop,
  replicate, length-append, length-take, length-drop, length-replicate, take_le, take_front,
  drop_front, take-take, drop_le, ◌==◌, append-nil, ◌∷◌, append_assoc, Bool, false, inl, inr,
  Bool-cases, ltb, le→leb, ok, drop-take,
}
use reyao.Common.Bytes.{Bytes}
use reyao.Common.Words.{through_int_small, add64, add64_small}
use reyao.ByteArray.{
  ByteArray, get_read_size, get_write_size, copy_out, copy_in, slide, resize, add_capacity, fill,
  write, cheap_prepend,
}

-- The positions are in order and inside the vector, whose size is far from the end of `size_t`.
pub record IsValid (ba : ByteArray) : Type 0 where
  pub ordered : ba.read_pos ≤ ba.write_pos
  pub inside : ba.write_pos ≤ length ba.buf
  pub addressable : length ba.buf < 2 ^ 62

-- The prepend area is whole, which `addCapacity` asserts.
abbrev pub HasPrepend : ByteArray → Type 0
HasPrepend ba = 8 ≤ ba.read_pos

abbrev pub contents : ByteArray → Bytes
contents ba = take (ba.write_pos - ba.read_pos) (drop ba.read_pos ba.buf)

pub get_read_size-eq : {ba : ByteArray} → IsValid ba → get_read_size ba ≡ ba.write_pos - ba.read_pos
unfolding get_read_size
get_read_size-eq v = omega arith

pub get_write_size-eq :
    {ba : ByteArray} → IsValid ba → get_write_size ba ≡ length ba.buf - ba.write_pos
unfolding get_write_size
get_write_size-eq v = omega arith

pub length-contents :
    (ba : ByteArray) → IsValid ba → length (contents ba) ≡ ba.write_pos - ba.read_pos
length-contents ba v = omega (
  arith,
  length-take (ba.write_pos - ba.read_pos) (drop ba.read_pos ba.buf),
  length-drop ba.read_pos ba.buf,
)

pub copy_out_ok :
    (buf : Bytes) (pos n : ℕ)
    → pos + n ≤ length buf
    → copy_out buf pos n ≡ ok (take n (drop pos buf))
unfolding copy_out
copy_out_ok buf pos n h = rw (le→leb _ _ h)

pub copy_in_ok :
    (buf : Bytes) (pos : ℕ) (xs : Bytes)
    → pos + length xs ≤ length buf
    → copy_in buf pos xs ≡ ok (take pos buf ++ (xs ++ drop (pos + length xs) buf))
unfolding copy_in
copy_in_ok buf pos xs h = rw (le→leb _ _ h)

pub length-copy_in :
    (buf : Bytes) (pos : ℕ) (xs : Bytes)
    → pos + length xs ≤ length buf
    → length (take pos buf ++ (xs ++ drop (pos + length xs) buf)) ≡ length buf
length-copy_in buf pos xs h = omega (
  arith,
  length-append (take pos buf) (xs ++ drop (pos + length xs) buf),
  length-append xs (drop (pos + length xs) buf),
  length-take pos buf,
  length-drop (pos + length xs) buf,
)

-- What was written at `pos` stands there.
pub slice-copy_in :
    (buf : Bytes) (pos n : ℕ) (xs : Bytes)
    → n ≡ length xs
    → pos + length xs ≤ length buf
    → take n (drop pos (take pos buf ++ (xs ++ drop (pos + length xs) buf))) ≡ xs
slice-copy_in buf pos n xs e h =
    let front : length (take pos buf) ≡ pos = omega (arith, length-take pos buf) in
    rw (drop_front (take pos buf) (xs ++ drop (pos + length xs) buf) pos front)
      (take_front xs (drop (pos + length xs) buf) n (sym e))

-- A slice that ends at `pos` is extended by what is written there.
pub extend-copy_in :
    (buf : Bytes) (r pos k : ℕ) (xs : Bytes)
    → r ≤ pos
    → pos + length xs ≤ length buf
    → k ≡ pos + length xs - r
    → take k (drop r (take pos buf ++ (xs ++ drop (pos + length xs) buf)))
      ≡ take (pos - r) (drop r buf) ++ xs
extend-copy_in buf r pos k xs hr h e =
    let rest = drop (pos + length xs) buf in
    let kept = take (pos - r) (drop r buf) in
    rw
      (
        drop_le r (take pos buf) (xs ++ rest) (omega (arith, length-take pos buf)),
        drop-take r pos (pos - r) buf (omega arith),
        ← append_assoc kept xs rest,
      )
      (take_front (kept ++ xs) rest k (
        omega
          (arith, length-append kept xs, length-take (pos - r) (drop r buf), length-drop r buf)))

pub length-resize : (n : ℕ) (buf : Bytes) → length (resize n buf) ≡ n
unfolding resize
length-resize n buf = omega (
  arith,
  length-append (take n buf) (replicate (n - length buf) 0),
  length-take n buf,
  length-replicate {A = ℕ} (n - length buf) 0,
)

-- A resize that reaches the write position keeps what is readable.
contents-resize :
    (ba : ByteArray) (n : ℕ)
    → IsValid ba
    → ba.write_pos ≤ n
    → contents (record ba { buf = resize n ba.buf }) ≡ contents ba
unfolding resize
contents-resize ba n v h =
    let r = ba.read_pos in
    let k = ba.write_pos - ba.read_pos in
    let zeros : Bytes = replicate (n - length ba.buf) 0 in
    let long : r ≤ length (take n ba.buf) =
      omega (arith, v.ordered, v.inside, length-take n ba.buf) in
    let room : k ≤ length (take (n - r) (drop r ba.buf)) =
      omega
        (arith, v.ordered, v.inside, length-take (n - r) (drop r ba.buf), length-drop r ba.buf) in
    let gap : r + (n - r) ≡ n = omega (arith, v.ordered) in
    rw
      (
        drop_le r (take n ba.buf) zeros long,
        drop-take r n (n - r) ba.buf gap,
        take_le k (take (n - r) (drop r ba.buf)) zeros room,
      )
      (take-take k (n - r) (drop r ba.buf) (omega (arith, h)))

-- What `addCapacity` and the writers leave: a valid buffer whose prepend area is whole, with the
-- given contents, `n` bytes of room behind the write position, which has not moved up.
pub record Roomy (ba : ByteArray) (n : ℕ) (old : ByteArray) : Type 0 where
  pub valid : IsValid ba
  pub prepend : HasPrepend ba
  pub room : ba.write_pos + n ≤ length ba.buf
  pub same : contents ba ≡ contents old
  pub back : ba.write_pos ≤ old.write_pos
  pub endian : ba.endian ≡ old.endian

slide_lem :
    (ba : ByteArray) (n : ℕ)
    → IsValid ba
    → HasPrepend ba
    → n + 8 ≤ (length ba.buf - ba.write_pos) + ba.read_pos
    → (ba' : ByteArray) × (slide ba ≡ ok ba') × Roomy ba' n ba
unfolding slide
slide_lem ba n v p enough =
    let size = ba.write_pos - ba.read_pos in
    let readable : length (contents ba) ≡ size = length-contents ba v in
    let fits : 8 + length (contents ba) ≤ length ba.buf = omega (arith, v.ordered, v.inside) in
    let moved = take 8 ba.buf ++ (contents ba ++ drop (8 + length (contents ba)) ba.buf) in
    let kept : length moved ≡ length ba.buf = length-copy_in ba.buf 8 (contents ba) fits in
    let inner : ba.read_pos + size ≤ length ba.buf = omega (arith, v.ordered, v.inside) in
    let ba' : ByteArray = record ba { buf = moved; read_pos = 8; write_pos = 8 + size } in
    (
      ba',
      rw (
        le→leb 8 ba.read_pos p,
        get_read_size-eq v,
        copy_out_ok ba.buf ba.read_pos size inner,
        copy_in_ok ba.buf 8 (contents ba) fits,
        add64_small 8 size (omega (arith, v.inside, v.addressable)),
      ),
      record {
        valid = record {
          ordered = omega arith;
          inside = omega (arith, v.ordered, v.inside);
          addressable = omega (arith, v.addressable);
        };
        prepend = omega arith;
        room = omega (arith, v.ordered, v.inside);
        same = slice-copy_in ba.buf 8 (8 + size - 8) (contents ba) (omega (arith, readable)) fits;
        back = omega (arith, v.ordered);
        endian = refl;
      },
    )

-- `addCapacity` always succeeds here, and makes room without touching the contents.
pub add_capacity_lem :
    (ba : ByteArray) (n : ℕ)
    → IsValid ba
    → HasPrepend ba
    → n < 2 ^ 31
    → ba.write_pos + n < 2 ^ 62
    → (ba' : ByteArray) × (add_capacity ba n ≡ ok ba') × Roomy ba' n ba
unfolding add_capacity
add_capacity_lem ba n v p small reach = elim (Bool-cases grows) [
  | inl grow ↦ (
    record ba { buf = resize (ba.write_pos + n) ba.buf },
    rw (through_int_small n small, grow, add64_small ba.write_pos n (omega arith)),
    record {
      valid = record {
        ordered = v.ordered;
        inside = omega (arith, length-resize (ba.write_pos + n) ba.buf);
        addressable = omega (arith, length-resize (ba.write_pos + n) ba.buf);
      };
      prepend = p;
      room = omega (arith, length-resize (ba.write_pos + n) ba.buf);
      same = contents-resize ba (ba.write_pos + n) v (omega arith);
      back = omega arith;
      endian = refl;
    },
  )
  | inr enough ↦ rw (through_int_small n small, enough) (slide_lem ba n v p (spare enough))
]
  where
    grows : Bool
    grows = ltb (add64 (get_write_size ba) ba.read_pos) (add64 n cheap_prepend)

    spare : grows ≡ false → n + 8 ≤ (length ba.buf - ba.write_pos) + ba.read_pos
    spare enough = ground (arith, get_write_size-eq v)

-- What a successful write of `xs` to `old` leaves.
pub record Wrote (ba : ByteArray) (xs : Bytes) (old : ByteArray) : Type 0 where
  pub valid : IsValid ba
  pub prepend : HasPrepend ba
  pub appended : contents ba ≡ contents old ++ xs
  pub reach : ba.write_pos ≤ old.write_pos + length xs
  pub endian : ba.endian ≡ old.endian

-- `memcpy` of at most as many bytes as there is room for.
pub fill_lem :
    (ba old : ByteArray) (n : ℕ) (xs : Bytes)
    → Roomy ba n old
    → length xs ≤ n
    → (ba' : ByteArray) × (fill ba xs ≡ ok ba') × Wrote ba' xs old
unfolding fill
fill_lem ba old n xs r h =
    let v = r.valid in
    let fits : ba.write_pos + length xs ≤ length ba.buf = omega (arith, r.room) in
    let buf = take ba.write_pos ba.buf ++ (xs ++ drop (ba.write_pos + length xs) ba.buf) in
    let same : length buf ≡ length ba.buf = length-copy_in ba.buf ba.write_pos xs fits in
    let end : ℕ = ba.write_pos + length xs in
    let ba' : ByteArray = record ba { buf = buf; write_pos = end } in
    (
      ba',
      rw (
        copy_in_ok ba.buf ba.write_pos xs fits,
        add64_small ba.write_pos (length xs) (omega (arith, v.addressable)),
      ),
      record {
        valid = record {
          ordered = omega (arith, v.ordered);
          inside = omega (arith, same);
          addressable = omega (arith, same, v.addressable);
        };
        prepend = r.prepend;
        appended =
            extend-copy_in ba.buf ba.read_pos ba.write_pos (end - ba.read_pos) xs v.ordered fits
              refl
            ∙ ap (λ c. c ++ xs) r.same;
        reach = omega (arith, r.back);
        endian = r.endian;
      },
    )

-- On a valid ByteArray whose prepend area is whole, `write` of fewer than 2^31 bytes that end below
-- 2^62 succeeds: the contents are the old contents followed by the bytes, the ByteArray is valid,
-- its prepend area is whole, its byte order is the same, and the write position moves up by at most
-- the count of the bytes.
pub write_lem :
    (ba : ByteArray) (xs : Bytes)
    → IsValid ba
    → HasPrepend ba
    → length xs < 2 ^ 31
    → ba.write_pos + length xs < 2 ^ 62
    → (ba' : ByteArray) × (write ba xs ≡ ok ba') × Wrote ba' xs ba
unfolding write
write_lem ba [] v p small reach = (
  ba,
  refl,
  record {
    valid = v;
    prepend = p;
    appended = sym (append-nil (contents ba));
    reach = omega arith;
    endian = refl;
  },
)
write_lem ba (x ∷ xs) v p small reach =
    let (roomy, grown, r) = add_capacity_lem ba (length (x ∷ xs)) v p small reach in
    let nonempty : (length (x ∷ xs) == 0) ≡ false = ground arith in
    rw (nonempty, grown) (fill_lem roomy ba (length (x ∷ xs)) (x ∷ xs) r (omega arith))
