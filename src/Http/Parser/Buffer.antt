-- ===== src/Http/Parser/Buffer.antt =====
-- The parser over the program's ByteArray does what it does over the plain list of the readable bytes.
use reyao.Common.{
  ℕ, ◌+◌, ◌-◌, ◌^◌, ◌≡◌, ◌≤◌, ◌<◌, refl, sym, ap, ◌∙◌, arith, inl, inr, Option, none, some, List,
  ◌++◌, leb, le→leb, leb-eq-false, length, take, drop, take-take, Bool-cases, Option-cases, All,
  Outcome, ok, err, ◌>>=◌,
}
use reyao.Common.Bytes.{Bytes}
use reyao.Common.Words.{add64, add64_small}
use reyao.Common.Sim.{Sim, Sim-at}
use reyao.ByteArray.{ByteArray, search_crlf, set_read_pos, get_write_area}
use reyao.ByteArray.Contents.{
  IsValid, HasPrepend, contents, length-contents, get_read_size-eq, copy_out_ok, add_capacity_lem,
}
use reyao.ByteArray.Reading.{contents-skip, skip-IsValid, peek_lem}
use reyao.ByteArray.Search.{find_crlf_lem, search_crlf_found}
use reyao.SocketStream.{Recv, not_connected, closed, failed, received, read-received}
use reyao.SocketStream
use reyao.Http.Parser.{Parser, Hooks, Parsed, returned, waiting, parse}
use reyao.Http.Parser.Sources.{next_line, take_if, buffer, plain}
use reyao.Http.Parser.Simulation.{
  IsView, SeenPart, SeenRead, SeenParsed, seen, Fits, room, parse-Sim,
}

-- The ByteArray is in order, and has room for `n` more bytes below 2^62.
abbrev pub HasRoom : ℕ → ByteArray → Type 0
HasRoom n ba = IsValid ba × HasPrepend ba × (ba.write_pos + n < 2 ^ 62)

-- The ByteArray behind its first `n` bytes.
skip_HasRoom :
    (n k : ℕ) (ba : ByteArray)
    → HasRoom n ba
    → k ≤ length (contents ba)
    → (contents (set_read_pos (ba.read_pos + k) ba) ≡ drop k (contents ba))
      × HasRoom n (set_read_pos (ba.read_pos + k) ba)
skip_HasRoom n k ba (v, p, r) h = (contents-skip ba k v h, (skip-IsValid ba k v h, omega arith, r))

next_line_found :
    (ba : ByteArray) (k : ℕ)
    → IsValid ba
    → search_crlf (contents ba) ≡ some k
    → next_line ba ≡ ok (some (take k (contents ba), set_read_pos (ba.read_pos + (k + 2)) ba))
unfolding next_line
next_line_found ba k v s =
    let first = search_crlf_found (contents ba) k s in
    let step : add64 (add64 ba.read_pos k) 2 ≡ ba.read_pos + (k + 2) =
      omega (arith, first.inside, length-contents ba v, v.inside, v.addressable) in
    simp (s, peek_lem ba v, step)

next_line_missing :
    (ba : ByteArray) → IsValid ba → search_crlf (contents ba) ≡ none → next_line ba ≡ ok none
unfolding next_line
next_line_missing ba v s = simp (find_crlf_lem ba v, s)

next_line-Sim :
    (n : ℕ) (ba : ByteArray)
    → HasRoom n ba
    → Sim (SeenPart contents (HasRoom n)) (next_line ba) (plain.next_line (contents ba))
next_line-Sim n ba h = elim (Option-cases (search_crlf (contents ba))) [
  | inl s ↦
      Sim-at (SeenPart contents (HasRoom n)) (next_line ba) (ok none)
        (plain.next_line (contents ba)) (ok none) (next_line_missing ba (h.0) s) (simp s) tt
  | inr (k, s) ↦
      let xs = contents ba in
      let first = search_crlf_found xs k s in
      let (rest, room) = skip_HasRoom n (k + 2) ba h first.inside in
      Sim-at (SeenPart contents (HasRoom n)) (next_line ba)
        (ok (some (take k xs, set_read_pos (ba.read_pos + (k + 2)) ba))) (plain.next_line xs)
        (ok (some (take k xs, drop (k + 2) xs))) (next_line_found ba k (h.0) s) (simp s)
        (refl, rest, room)
]

take_if_there :
    (k : ℕ) (ba : ByteArray)
    → IsValid ba
    → k ≤ length (contents ba)
    → take_if k ba ≡ ok (some (take k (contents ba), set_read_pos (ba.read_pos + k) ba))
unfolding take_if
take_if_there k ba v h =
    let size = ba.write_pos - ba.read_pos in
    let len : length (contents ba) ≡ size = length-contents ba v in
    rw (
      get_read_size-eq v,
      le→leb k size (omega arith),
      copy_out_ok ba.buf ba.read_pos k (omega (arith, v.ordered, v.inside)),
      add64_small ba.read_pos k (omega (arith, v.inside, v.addressable)),
      take-take k size (drop ba.read_pos ba.buf) (omega arith),
    )

take_if_short :
    (k : ℕ) (ba : ByteArray) → IsValid ba → length (contents ba) < k → take_if k ba ≡ ok none
unfolding take_if
take_if_short k ba v h = rw (
  get_read_size-eq v,
  leb-eq-false k (ba.write_pos - ba.read_pos) (omega (arith, length-contents ba v)),
)

take_if-Sim :
    (n k : ℕ) (ba : ByteArray)
    → HasRoom n ba
    → Sim (SeenPart contents (HasRoom n)) (take_if k ba) (plain.take_if k (contents ba))
take_if-Sim n k ba h = elim (Bool-cases (leb k (length (contents ba)))) [
  | inl e ↦
      let xs = contents ba in
      let fits : k ≤ length xs = ground arith in
      let (rest, room) = skip_HasRoom n k ba h fits in
      Sim-at (SeenPart contents (HasRoom n)) (take_if k ba)
        (ok (some (take k xs, set_read_pos (ba.read_pos + k) ba))) (plain.take_if k xs)
        (ok (some (take k xs, drop k xs))) (take_if_there k ba (h.0) fits) (simp e)
        (refl, rest, room)
  | inr e ↦
      let short : length (contents ba) < k = ground arith in
      Sim-at (SeenPart contents (HasRoom n)) (take_if k ba) (ok none)
        (plain.take_if k (contents ba)) (ok none) (take_if_short k ba (h.0) short) (simp e) tt
]

-- A read that brings nothing may still have made room.
read_nothing :
    (n max : ℕ) (ba : ByteArray) (a : Option ℕ)
    → HasRoom (max + n) ba
    → max < 2 ^ 31
    → Sim
        (SeenRead contents (HasRoom n))
        (do roomy ← get_write_area ba max; ok (a, roomy))
        (ok (a, contents ba))
unfolding get_write_area
read_nothing n max ba a (v, p, r) small =
    let (ba', e, roomy) = add_capacity_lem ba max v p small (omega arith) in
    Sim-at (SeenRead contents (HasRoom n)) (do roomy ← get_write_area ba max; ok (a, roomy))
      (ok (a, ba')) (ok (a, contents ba)) (ok (a, contents ba)) (ap (λ o. o >>= λ x. ok (a, x)) e)
      refl (refl, roomy.same, (roomy.valid, roomy.prepend, omega (arith, roomy.back)))

receive-Sim :
    (n max : ℕ) (ba : ByteArray) (r : Recv)
    → HasRoom (max + n) ba
    → max < 2 ^ 31
    → Fits max r
    → Sim
        (SeenRead contents (HasRoom n))
        (SocketStream.read ba max r)
        (plain.receive (contents ba) max r)
unfolding SocketStream.read
receive-Sim n max ba not_connected (v, p, r) small fits = (refl, refl, (v, p, omega arith))
receive-Sim n max ba closed h small fits = read_nothing n max ba (some 0) h small
receive-Sim n max ba failed h small fits = read_nothing n max ba none h small
receive-Sim n max ba (received xs) (v, p, r) small fits =
    let (ba', e, w) = read-received ba max xs v p small (omega arith) fits in
    Sim-at (SeenRead contents (HasRoom n)) (SocketStream.read ba max (received xs))
      (ok (some (length xs), ba')) (ok (some (length xs), contents ba ++ xs))
      (ok (some (length xs), contents ba ++ xs)) e refl
      (refl, w.appended, (w.valid, w.prepend, omega (arith, w.reach)))

buffer-IsView : IsView buffer plain contents HasRoom
buffer-IsView = record {
  next_line = next_line-Sim;
  take_if = take_if-Sim;
  receive = receive-Sim;
  remaining = λ n ba h. get_read_size-eq (h.0) ∙ sym (length-contents ba (h.0));
}

-- The ends of a parser over ByteArrays, with the readable bytes in place of the ByteArray.
abbrev pub seen_end : {M : Type 0} → Outcome (Parsed ByteArray M) → Outcome (Parsed Bytes M)
seen_end (ok (returned b p)) = ok (returned b (seen contents p))
seen_end (ok (waiting p)) = ok (waiting (seen contents p))
seen_end (err e) = err e

module _ {M : Type 0} (hooks : Hooks M) where
  Sim-seen_end :
      (o : Outcome (Parsed ByteArray M)) (o' : Outcome (Parsed Bytes M))
      → Sim (SeenParsed contents) o o'
      → seen_end o ≡ o'
  Sim-seen_end (ok (returned a p)) (ok (returned b q)) (e, s) = cc (e, s)
  Sim-seen_end (ok (waiting p)) (ok (waiting q)) s = ap (λ x. ok (waiting x)) s
  Sim-seen_end (ok (returned a p)) (ok (waiting q)) s = elim s [ ]
  Sim-seen_end (ok (waiting p)) (ok (returned b q)) s = elim s [ ]
  Sim-seen_end (ok (returned a p)) (err e) s = elim s [ ]
  Sim-seen_end (ok (waiting p)) (err e) s = elim s [ ]
  Sim-seen_end (err e) (ok (returned b q)) s = elim s [ ]
  Sim-seen_end (err e) (ok (waiting q)) s = elim s [ ]
  Sim-seen_end (err e) (err e') s = ap err s

  -- The parser over the program's ByteArray does what it does over a plain list of the readable
  -- bytes, for any hooks: if the ByteArray is valid with its prepend area whole, a read asks for
  -- less than 2^31 bytes, no answer of the kernel is longer than was asked for, and the write
  -- position with room for all reads is below 2^62, then `parse` ends in the same way (the
  -- exceptions included), with the same parser but for the ByteArray, whose contents are the
  -- bytes left.
  pub parse-buffer :
      (max : ℕ) (rs : List Recv) (p : Parser ByteArray M)
      → IsValid p.ba
      → HasPrepend p.ba
      → max < 2 ^ 31
      → p.ba.write_pos + room max rs < 2 ^ 62
      → All (Fits max) rs
      → seen_end (parse hooks buffer max rs p) ≡ parse hooks plain max rs (seen contents p)
  parse-buffer max rs p v front small reach fits =
      Sim-seen_end (parse hooks buffer max rs p) (parse hooks plain max rs (seen contents p)) (
        parse-Sim buffer plain contents HasRoom buffer-IsView hooks max rs p (seen contents p) small
          fits (refl, (v, front, reach)))
