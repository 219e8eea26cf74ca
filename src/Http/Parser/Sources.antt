-- ===== src/Http/Parser/Sources.antt =====
-- Where the parser's bytes come from: the ByteArray of the program, and a plain list, which is what
-- a client of the parser thinks of.
use reyao.Common.{
  ℕ, ◌+◌, Option, none, some, ◌++◌, leb, if◌then◌else◌, length, take, drop, Outcome, ok, ◌>>=◌,
}
use reyao.Common.Bytes.{Bytes}
use reyao.Common.Words.{add64}
use reyao.ByteArray.{ByteArray, find_crlf, search_crlf, peek, copy_out, get_read_size, set_read_pos}
use reyao.SocketStream.{Recv, not_connected, closed, failed, received}
use reyao.SocketStream
use reyao.Http.Parser.{Source}

-- `setReadPos(getReadPos() + end - start + 2)` behind `findCRLF`.
unfoldable pub next_line : ByteArray → Outcome (Option (Bytes × ByteArray))
unfolding find_crlf peek
next_line ba = do
  found ← find_crlf ba
  elim found [
    | none ↦ ok none
    | some n ↦ (do
      bytes ← peek ba
      ok (some (take n bytes, set_read_pos (add64 (add64 ba.read_pos n) 2) ba)))
  ]

unfoldable pub take_if : ℕ → ByteArray → Outcome (Option (Bytes × ByteArray))
unfolding copy_out get_read_size
take_if n ba =
    if leb n (get_read_size ba)
    then (do
      bytes ← copy_out ba.buf ba.read_pos n
      ok (some (bytes, set_read_pos (add64 ba.read_pos n) ba)))
    else ok none

abbrev pub buffer : Source ByteArray
buffer = record {
  next_line = next_line;
  take_if = take_if;
  remaining = get_read_size;
  receive = SocketStream.read;
}

-- The line that ends at `found`, and what is behind its line end.
abbrev pub line_at : Bytes → Option ℕ → Option (Bytes × Bytes)
line_at xs none = none
line_at xs (some n) = some (take n xs, drop (n + 2) xs)

abbrev pub deliver : Bytes → Recv → Option ℕ × Bytes
deliver xs not_connected = (none, xs)
deliver xs closed = (some 0, xs)
deliver xs failed = (none, xs)
deliver xs (received ys) = (some (length ys), xs ++ ys)

abbrev pub plain : Source Bytes
plain = record {
  next_line = λ xs. ok (line_at xs (search_crlf xs));
  take_if = λ n xs. ok (if leb n (length xs) then some (take n xs, drop n xs) else none);
  remaining = length;
  receive = λ xs max r. ok (deliver xs r);
}
