-- ===== src/ByteArray/Reset.antt =====
-- What `reset` leaves: no room in front, so that `addCapacity` does not get past its assertion.
use reyao.Common.{ℕ, ◌≤◌, ◌≡◌, arith, length, ltb, err, assertion, ◌==◌, false}
use reyao.Common.Bytes.{Bytes}
use reyao.Common.Words.{add64, through_int_small}
use reyao.ByteArray.{ByteArray, get_write_size, add_capacity, slide, write, reset, cheap_prepend}
use reyao.ByteArray.Contents.{length-resize}

no_growth :
    (ba : ByteArray) (n : ℕ)
    → n ≤ 1016
    → ltb (add64 (get_write_size (reset ba)) 0) (add64 n cheap_prepend) ≡ false
unfolding get_write_size reset
no_growth ba n h = rw (length-resize 1024 ba.buf) (ground arith)

reset-asserts : (ba : ByteArray) (n : ℕ) → n ≤ 1016 → add_capacity (reset ba) n ≡ err assertion
unfolding add_capacity slide reset
reset-asserts ba n h = rw (through_int_small n (omega arith), no_growth ba n h)

-- After `reset`, a `write` of 1 to 1016 bytes fails the assertion of `addCapacity` on the prepend
-- area.
pub write-reset :
    (ba : ByteArray) (xs : Bytes)
    → 1 ≤ length xs
    → length xs ≤ 1016
    → write (reset ba) xs ≡ err assertion
unfolding write
write-reset ba xs some_bytes few =
    let nonempty : (length xs == 0) ≡ false = ground arith in
    rw (nonempty, reset-asserts ba (length xs) few)
