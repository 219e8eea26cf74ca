-- ===== src/FixedBuffer.antt =====
-- reyao/fixedbuffer.h: the buffer of the asynchronous log, of `SIZE` bytes.
use reyao.Common.{
  ℕ, ◌+◌, ◌-◌, ◌≤◌, ◌<◌, ◌^◌, ◌≡◌, refl, ap, ◌∙◌, arith, inl, inr, ◌++◌, length, take, drop, leb,
  if◌then◌else◌, Bool-cases, Outcome, ok, ◌>>=◌,
}
use reyao.Common.Bytes.{Bytes}
use reyao.Common.Words.{add64, sub64, add64_small, sub64_small}
use reyao.ByteArray.{copy_in}
use reyao.ByteArray.Contents.{copy_in_ok, length-copy_in, extend-copy_in}

pub record FixedBuffer : Type 0 where
  pub bytes : Bytes
  pub pos : ℕ

unfoldable pub avail : FixedBuffer → ℕ
avail b = sub64 (length b.bytes) b.pos

abbrev pub size : FixedBuffer → ℕ
size b = b.pos

unfoldable pub append : FixedBuffer → Bytes → Outcome FixedBuffer
unfolding avail copy_in
append b xs =
    if leb (length xs) (avail b)
    then (do
      filled ← copy_in b.bytes b.pos xs
      ok (record { bytes = filled; pos = add64 b.pos (length xs) }))
    else ok b

abbrev pub reset : FixedBuffer → FixedBuffer
reset b = record b { pos = 0 }

pub record IsValid (b : FixedBuffer) : Type 0 where
  pub inside : b.pos ≤ length b.bytes
  pub addressable : length b.bytes < 2 ^ 62

abbrev pub written : FixedBuffer → Bytes
written b = take b.pos b.bytes

-- On a buffer whose position is inside it and whose size is below 2^62, `append` writes inside the
-- buffer: text that fits is added behind what was written, text that does not fit is dropped whole,
-- and the size of the buffer and its validity are kept.
pub append_lem :
    (b : FixedBuffer) (xs : Bytes)
    → IsValid b
    → (b' : FixedBuffer) × (append b xs ≡ ok b')
      × IsValid b'
      × (length b'.bytes ≡ length b.bytes)
      × (written b'
          ≡ (if leb (length xs) (length b.bytes - b.pos) then written b ++ xs else written b))
unfolding append avail
append_lem b xs v =
    let room = sub64_small (length b.bytes) b.pos v.inside (omega (arith, v.addressable)) in
    elim (Bool-cases (leb (length xs) (length b.bytes - b.pos))) [
      | inl fits ↦
          let inside : b.pos + length xs ≤ length b.bytes = ground (arith, v.inside) in
          let filled = take b.pos b.bytes ++ (xs ++ drop (b.pos + length xs) b.bytes) in
          let start : b.pos - 0 ≡ b.pos = omega arith in
          let same = length-copy_in b.bytes b.pos xs inside in
          (
            record { bytes = filled; pos = b.pos + length xs },
            simp (
              room,
              fits,
              copy_in_ok b.bytes b.pos xs inside,
              add64_small b.pos (length xs) (omega (arith, v.addressable)),
            ),
            record {
              inside = omega (arith, same);
              addressable = omega (arith, same, v.addressable);
            },
            same,
            simp fits (
                extend-copy_in b.bytes 0 b.pos (b.pos + length xs) xs (omega arith) inside
                  (omega arith)
                ∙ ap (λ n. take n b.bytes ++ xs) start),
          )
      | inr full ↦ (b, simp (room, full), v, refl, simp full)
    ]
