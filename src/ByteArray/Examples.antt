-- ===== src/ByteArray/Examples.antt =====
-- The theorems on ByteArray at concrete buffers.
use reyao.Common.{
  ℕ, ◌-◌, ◌≤◌, ◌≡◌, refl, arith, inl, inr, some, List, [], ◌∷◌, ◌++◌, length, take, map, ok, err,
  assertion,
}
use reyao.Common.Bytes.{Bytes}
use reyao.ByteArray.{ByteArray, write, read, write_prepend, reset, search_crlf, find_crlf}
use reyao.ByteArray.Contents.{IsValid, Wrote, contents, write_lem}
use reyao.ByteArray.Reading.{Took, read_lem, write_prepend_lem}
use reyao.ByteArray.Search.{search_crlf_found, search_crlf_complete, IsFirst, find_crlf_lem}
use reyao.ByteArray.Reset.{write-reset}
use reyao.ByteArray.Ints.RoundTrip.{read_fields-write_fields, write_fields, read_fields}
use reyao.SocketStream.{received, read-received}
use reyao.SocketStream

-- Two bytes of contents behind the prepend area, and room for two more.
abbrev two_bytes : ByteArray
two_bytes = record {
  endian = 4321;
  write_pos = 10;
  read_pos = 8;
  buf = 0 ∷ 0 ∷ 0 ∷ 0 ∷ 0 ∷ 0 ∷ 0 ∷ 0 ∷ 71 ∷ 69 ∷ 0 ∷ 0 ∷ [];
}

abbrev nothing : ByteArray
nothing = record {
  endian = 4321;
  write_pos = 8;
  read_pos = 8;
  buf = 0 ∷ 0 ∷ 0 ∷ 0 ∷ 0 ∷ 0 ∷ 0 ∷ 0 ∷ 0 ∷ 0 ∷ [];
}

abbrev three : Bytes
three = 84 ∷ 13 ∷ 10 ∷ []

abbrev two : Bytes
two = 71 ∷ 69 ∷ []

two_bytes-IsValid : IsValid two_bytes
two_bytes-IsValid = record {
  ordered = omega arith;
  inside = omega arith;
  addressable = omega arith;
}

nothing-IsValid : IsValid nothing
nothing-IsValid = record { ordered = omega arith; inside = omega arith; addressable = omega arith }

write_lem_example : (ba' : ByteArray) × (write two_bytes three ≡ ok ba') × Wrote ba' three two_bytes
write_lem_example =
    write_lem two_bytes three two_bytes-IsValid (omega arith) (omega arith) (omega arith)

read_lem_example :
    (ba' : ByteArray) × (read two_bytes 1 ≡ ok (take 1 (contents two_bytes), ba'))
    × Took ba' 1 two_bytes
read_lem_example = read_lem two_bytes 1 two_bytes-IsValid (omega arith)

write_prepend_lem_example :
    (ba' : ByteArray) × (write_prepend two_bytes three ≡ ok ba')
    × IsValid ba'
    × (contents ba' ≡ three ++ contents two_bytes)
    × (ba'.read_pos ≡ two_bytes.read_pos - length three)
    × (ba'.endian ≡ two_bytes.endian)
write_prepend_lem_example = write_prepend_lem two_bytes three two_bytes-IsValid (omega arith)

search_crlf_found_example : IsFirst three 1
search_crlf_found_example = search_crlf_found three 1 (unfold search_crlf in refl)

search_crlf_complete_example :
    (n : ℕ) × (search_crlf (two ++ 13 ∷ 10 ∷ three) ≡ some n) × (n ≤ length two)
search_crlf_complete_example = search_crlf_complete two three

find_crlf_lem_example : find_crlf two_bytes ≡ ok (search_crlf (contents two_bytes))
find_crlf_lem_example = find_crlf_lem two_bytes two_bytes-IsValid

write-reset_example : write (reset two_bytes) three ≡ err assertion
write-reset_example = write-reset two_bytes three (omega arith) (omega arith)

-- A byte, a 16-bit and a 32-bit number.
abbrev fields : List (ℕ × ℕ)
fields = (1, 7) ∷ (2, 513) ∷ (4, 70000) ∷ []

read_fields-write_fields_example :
    (full empty : ByteArray) × (write_fields 1234 fields nothing ≡ ok full)
    × (read_fields 1234 fields full ≡ ok (map (λ f. f.1) fields, empty))
    × (contents empty ≡ [])
read_fields-write_fields_example =
    read_fields-write_fields 1234 (inl refl) fields nothing (inr refl) nothing-IsValid (omega arith)
      refl
      ((omega arith, omega arith), ((omega arith, omega arith), ((omega arith, omega arith), tt)))
      (omega arith)

read-received_example :
    (ba' : ByteArray) × (SocketStream.read two_bytes 4096 (received three) ≡ ok (some 3, ba'))
    × Wrote ba' three two_bytes
read-received_example =
    read-received two_bytes 4096 three two_bytes-IsValid (omega arith) (omega arith) (omega arith)
      (omega arith)
