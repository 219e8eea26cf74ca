-- ===== src/ByteArray/Reading.antt =====
-- Taking bytes out of the buffer, and putting a header in front of them.
use reyao.Common.{
  ℕ, ◌+◌, ◌-◌, ◌≤◌, ◌<◌, ◌≡◌, refl, ap, sym, arith, ◌++◌, length, take, drop, length-take,
  take-take, take-add, drop-drop, drop-take, take_front, drop_front, le→leb, leb-eq-false,
  ltb-eq-false, ok, err, assertion,
}
use reyao.Common.Bytes.{Bytes}
use reyao.Common.Words.{add64_small}
use reyao.ByteArray.{ByteArray, read, peek, write_prepend, set_read_pos}
use reyao.ByteArray.Contents.{
  IsValid, contents, get_read_size-eq, length-contents, copy_out_ok, copy_in_ok, length-copy_in,
}

-- Moving the read position up by `n` drops `n` bytes.
pub contents-skip :
    (ba : ByteArray) (n : ℕ)
    → IsValid ba
    → n ≤ length (contents ba)
    → contents (set_read_pos (ba.read_pos + n) ba) ≡ drop n (contents ba)
contents-skip ba n v h =
    let size = ba.write_pos - ba.read_pos in
    let left : n + (size - n) ≡ size = omega (arith, length-contents ba v) in
    let rest : ba.write_pos - (ba.read_pos + n) ≡ size - n = omega arith in
    rw (rest, drop-take n size (size - n) (drop ba.read_pos ba.buf) left)
      (ap (take (size - n)) (sym (drop-drop ba.read_pos n (ba.read_pos + n) ba.buf refl)))

pub skip-IsValid :
    (ba : ByteArray) (n : ℕ)
    → IsValid ba
    → n ≤ length (contents ba)
    → IsValid (set_read_pos (ba.read_pos + n) ba)
skip-IsValid ba n v h = record {
  ordered = omega (arith, length-contents ba v, v.ordered);
  inside = v.inside;
  addressable = v.addressable;
}

-- What a read of `n` bytes leaves.
pub record Took (ba : ByteArray) (n : ℕ) (old : ByteArray) : Type 0 where
  pub valid : IsValid ba
  pub rest : contents ba ≡ drop n (contents old)
  pub read_pos : ba.read_pos ≡ old.read_pos + n
  pub write_pos : ba.write_pos ≡ old.write_pos
  pub endian : ba.endian ≡ old.endian

-- On a valid ByteArray `read` of at most as many bytes as it holds gives the first bytes of the
-- contents and leaves a valid ByteArray with the rest; the write position and the byte order are
-- unchanged.
pub read_lem :
    (ba : ByteArray) (n : ℕ)
    → IsValid ba
    → n ≤ length (contents ba)
    → (ba' : ByteArray) × (read ba n ≡ ok (take n (contents ba), ba')) × Took ba' n ba
unfolding read
read_lem ba n v h =
    let size = ba.write_pos - ba.read_pos in
    let len : length (contents ba) ≡ size = length-contents ba v in
    (
      set_read_pos (ba.read_pos + n) ba,
      rw (
        get_read_size-eq v,
        ltb-eq-false size n (omega arith),
        copy_out_ok ba.buf ba.read_pos n (omega (arith, v.ordered, v.inside)),
        add64_small ba.read_pos n (omega (arith, v.inside, v.addressable)),
        take-take n size (drop ba.read_pos ba.buf) (omega arith),
      ),
      record {
        valid = skip-IsValid ba n v h;
        rest = contents-skip ba n v h;
        read_pos = refl;
        write_pos = refl;
        endian = refl;
      },
    )

pub peek_lem : (ba : ByteArray) → IsValid ba → peek ba ≡ ok (contents ba)
unfolding peek
peek_lem ba v = rw (
  get_read_size-eq v,
  copy_out_ok ba.buf ba.read_pos (ba.write_pos - ba.read_pos) (omega (arith, v.ordered, v.inside)),
)

-- On a valid ByteArray `writePrepend` of no more bytes than there are in front of the read position
-- succeeds: the contents are the bytes followed by the old contents, the read position moves back
-- by their count, and the ByteArray is valid with the same byte order.
pub write_prepend_lem :
    (ba : ByteArray) (xs : Bytes)
    → IsValid ba
    → length xs ≤ ba.read_pos
    → (ba' : ByteArray) × (write_prepend ba xs ≡ ok ba')
      × IsValid ba'
      × (contents ba' ≡ xs ++ contents ba)
      × (ba'.read_pos ≡ ba.read_pos - length xs)
      × (ba'.endian ≡ ba.endian)
unfolding write_prepend
write_prepend_lem ba xs v h =
    let start : ℕ = ba.read_pos - length xs in
    let fits : start + length xs ≤ length ba.buf = omega (arith, v.ordered, v.inside) in
    let buf = take start ba.buf ++ (xs ++ drop (start + length xs) ba.buf) in
    let same : length buf ≡ length ba.buf = length-copy_in ba.buf start xs fits in
    let front : length (take start ba.buf) ≡ start = omega (arith, length-take start ba.buf) in
    let count : length xs + (ba.write_pos - ba.read_pos) ≡ ba.write_pos - start =
      omega (arith, v.ordered) in
    let meet : start + length xs ≡ ba.read_pos = omega arith in
    (
      record ba { buf = buf; read_pos = start },
      rw (le→leb (length xs) ba.read_pos h, copy_in_ok ba.buf start xs fits),
      record {
        ordered = omega (arith, v.ordered);
        inside = omega (arith, same, v.inside);
        addressable = omega (arith, same, v.addressable);
      },
      rw (
        drop_front (take start ba.buf) (xs ++ drop (start + length xs) ba.buf) start front,
        take-add (length xs) (ba.write_pos - ba.read_pos) (ba.write_pos - start)
            (xs ++ drop (start + length xs) ba.buf) count,
        take_front xs (drop (start + length xs) ba.buf) (length xs) refl,
        drop_front xs (drop (start + length xs) ba.buf) (length xs) refl,
        meet,
      ),
      refl,
      refl,
    )

-- With the assertion compiled in, a header longer than the room in front aborts.
pub write_prepend_long :
    (ba : ByteArray) (xs : Bytes) → ba.read_pos < length xs → write_prepend ba xs ≡ err assertion
unfolding write_prepend
write_prepend_long ba xs h = rw (leb-eq-false (length xs) ba.read_pos h)
