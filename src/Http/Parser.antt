-- ===== src/Http/Parser.antt =====
-- reyao/http/http_parser.h and http_parser.cc: the state of the incremental parser and its loops.
-- HttpRequestParser and HttpResponseParser have the same loops over the same buffer; here they are
-- one family over the message and the source of the bytes.
pub mod Sources
pub mod Chunks
pub mod Bodies
pub mod Resume
pub mod Segments
pub mod Termination
pub mod Simulation
pub mod Buffer
use reyao.Common.{
  ℕ, suc, ◌+◌, ◌-◌, ◌%◌, ◌^◌, ◌≡◌, refl, Bool, true, false, not, ◌&&◌, ◌||◌, Option, none, some,
  List, [], ◌∷◌, ◌++◌, leb, ltb, ◌==◌, if◌then◌else◌, length, take, drop, Outcome, ok, err,
  length_error, ◌>>=◌, unfinished,
}
use reyao.Common.Bytes.{Bytes}
use reyao.Common.Words.{add64, sign_extend}
use reyao.Common.Loop.{Round, again, stop, run}
use reyao.SocketStream.{Recv}
use reyao.Util.{codes, case_eq, find_char, stoi, hex_to_dec}

pub data ParseState : Type 0 where
  first_line header in_body : ParseState

pub data ChunkState : Type 0 where
  chunk_size chunk_content : ChunkState

-- What the parser does with `ba_`.
-- `next_line`: `peek`, `findCRLF`, and the read position behind the line end; `none` is a null pointer.
-- `take_if n`: if `n <= getReadSize()`, the next `n` bytes and the read position behind them.
-- `remaining`: `getReadSize`. `receive`: `stream_->read(&ba_, n)`.
pub record Source (B : Type 0) : Type 0 where
  pub next_line : B → Outcome (Option (Bytes × B))
  pub take_if : ℕ → B → Outcome (Option (Bytes × B))
  pub remaining : B → ℕ
  pub receive : B → ℕ → Recv → Outcome (Option ℕ × B)

-- What the parser does with its message. `first_line` returns the flag `error_` and the message.
pub record Hooks (M : Type 0) : Type 0 where
  pub first_line : Bytes → M → Outcome (Bool × M)
  pub add_header : Bytes → Bytes → M → M
  pub set_body : Bytes → M → M

pub record Parser (B M : Type 0) : Type 0 where
  pub ba : B
  pub read_size : ℕ
  pub parse_state : ParseState
  pub error : Bool
  pub finish : Bool
  pub body : Bytes
  pub content_len : ℕ
  pub chunked : Bool
  pub size : ℕ
  pub chunk_state : ChunkState
  pub message : M

unfoldable pub create : {B M : Type 0} → B → M → Parser B M
create ba message = record {
  ba = ba;
  read_size = 0;
  parse_state = first_line;
  error = false;
  finish = false;
  body = [];
  content_len = 0;
  chunked = false;
  size = 0;
  chunk_state = chunk_size;
  message = message;
}

-- `*begin`, which is the '\r' of the line end if the line is empty.
abbrev pub first_byte : Bytes → ℕ
first_byte [] = 13
first_byte (c ∷ cs) = c

-- `std::string(temp + 2, end - temp - 2)`: with the colon last in the line the length wraps around.
unfoldable pub header_value : ℕ → Bytes → Outcome Bytes
header_value i line = if leb (i + 2) (length line) then ok (drop (i + 2) line) else err length_error

-- The start of a loop over the bytes that are there, as `error_` or a null pointer ends it.
abbrev pub is_done : {B M : Type 0} → Parser B M → Bool
is_done p = p.finish || p.error

module _ {M : Type 0} (hooks : Hooks M) {B : Type 0} where
  unfoldable pub parse_first_line : Bytes → Parser B M → Outcome (Parser B M)
  parse_first_line line p = do
    (error, message) ← hooks.first_line line p.message
    ok (record p {
      error = error;
      message = message;
      parse_state = if error then p.parse_state else header;
    })

  -- The part behind the tests on the colon.
  unfoldable pub accept_header : Bytes → Bytes → Parser B M → Outcome (Parser B M)
  accept_header title value p =
      let chunked =
        p.chunked
        || (case_eq title (codes "transfer-encoding") && case_eq value (codes "chunked")) in
      let message = hooks.add_header title value p.message in
      if not chunked && case_eq title (codes "content-length")
      then (do len ← stoi value; ok (record p { content_len = sign_extend len; message = message }))
      else ok (record p { chunked = chunked; message = message })

  unfoldable pub parse_header : Bytes → Parser B M → Outcome (Parser B M)
  unfolding accept_header
  parse_header line p =
      if first_byte line == 13
      then ok (record p { parse_state = in_body })
      else elim (find_char b':' line) [
        | none ↦ ok (record p { error = true })
        | some i ↦
            if i + 2 == length line
            then ok (record p { error = true })
            else (do value ← header_value i line; accept_header (take i line) value p)
      ]

-- How `parseRequest` comes to an end: it returns, or the kernel has no answer yet and the coroutine
-- stays suspended in `read`.
pub data Parsed (B M : Type 0) : Type 0 where
  returned : Bool → Parser B M → Parsed B M
  waiting : Parser B M → Parsed B M

abbrev is_positive : Option ℕ → Bool
is_positive none = false
is_positive (some n) = ltb 0 n

module _ {M : Type 0} (hooks : Hooks M) {B : Type 0} (source : Source B) where
  open hooks use {set_body}
  open source use {next_line, take_if, remaining, receive}

  -- The size line of a chunk.
  unfoldable pub chunk_start : Bytes → Parser B M → Round (Parser B M)
  chunk_start line p =
      let size = sign_extend (hex_to_dec line) in
      if size == 2 ^ 64 - 1
      then stop (record p { size = size; error = true })
      else if size == 0
      then stop (record p { size = 0; message = set_body p.body p.message; finish = true })
      else again (record p { size = size; chunk_state = chunk_content })

  -- The bytes of a chunk with the line end behind them.
  unfoldable pub chunk_end : Bytes → Parser B M → Round (Parser B M)
  chunk_end bytes p =
      again (record p { body = p.body ++ bytes; size = 0; chunk_state = chunk_size })

  -- The chunk branch that neither test takes changes nothing, so the loop would not end.
  unfoldable pub content_round : ChunkState → Parser B M → Outcome (Round (Parser B M))
  unfolding chunk_end
  content_round chunk_size p = err unfinished
  content_round chunk_content p = do
    next ← take_if (add64 p.size 2) p.ba
    ok (elim next [ none ↦ stop p | some (bytes, ba) ↦ chunk_end bytes (record p { ba = ba }) ])

  -- One round of the loop of `parseChunkedBody`.
  unfoldable pub chunk_round : Parser B M → Outcome (Round (Parser B M))
  unfolding chunk_start content_round
  chunk_round p =
      if p.error
      then ok (stop p)
      else if p.size == 0
      then (do
        next ← next_line p.ba
        ok (elim next [
          | none ↦ stop p
          | some (line, ba) ↦ chunk_start line (record p { ba = ba })
        ]))
      else content_round p.chunk_state p

  -- Each round takes a size line, or ends a chunk.
  abbrev pub chunk_measure : Parser B M → ℕ
  chunk_measure p = remaining p.ba + (if p.size == 0 then 0 else 1)

  unfoldable pub parse_chunked_body : Parser B M → Outcome (Parser B M)
  unfolding chunk_round
  parse_chunked_body = run chunk_round chunk_measure

  unfoldable pub parse_fixed_body : Parser B M → Outcome (Parser B M)
  parse_fixed_body p = if p.content_len == 0 then ok (record p { finish = true }) else (do
    next ← take_if p.content_len p.ba
    ok (elim next [
      | none ↦ p
      | some (bytes, ba) ↦ record p { ba = ba; message = set_body bytes p.message; finish = true }
    ]))

  -- A message without a body is finished.
  unfoldable pub settle : Parser B M → Parser B M
  settle p = if not p.chunked && p.content_len == 0 then record p { finish = true } else p

  unfoldable pub parse_body : Bool → Parser B M → Outcome (Parser B M)
  unfolding parse_chunked_body parse_fixed_body
  parse_body true p = parse_chunked_body p
  parse_body false p = parse_fixed_body p

  -- The branch of the inner loop for PARSE_BODY.
  unfoldable pub body_round : Parser B M → Outcome (Parser B M)
  unfolding settle parse_body
  body_round p = parse_body p.chunked (settle p)

  -- A branch that wants a line.
  unfoldable pub line_round :
      (Bytes → Parser B M → Outcome (Parser B M)) → Parser B M → Outcome (Round (Parser B M))
  line_round parse p = do
    next ← next_line p.ba
    elim next [
      | none ↦ ok (stop p)
      | some (line, ba) ↦ (do p' ← parse line (record p { ba = ba }); ok (again p'))
    ]

  unfoldable pub state_round : ParseState → Parser B M → Outcome (Round (Parser B M))
  unfolding line_round body_round parse_first_line parse_header
  state_round first_line p = line_round (parse_first_line hooks) p
  state_round header p = line_round (parse_header hooks) p
  state_round in_body p = do p' ← body_round p; ok (stop p')

  -- One round of the inner loop of `parseRequest` and `parseResponse`.
  unfoldable pub parse_round : Parser B M → Outcome (Round (Parser B M))
  unfolding state_round
  parse_round p = if p.error then ok (stop p) else state_round p.parse_state p

  -- The inner loop: all that can be parsed of the bytes that are there.
  unfoldable pub drain : Parser B M → Outcome (Parser B M)
  unfolding parse_round
  drain = run parse_round (λ p. remaining p.ba)

  -- The outer loop over the answers of the kernel, with at most `max` bytes to a read. `readSize_`
  -- is compared to `max` and never changed.
  unfoldable pub parse : ℕ → List Recv → Parser B M → Outcome (Parsed B M)
  unfolding drain
  parse max [] p = ok (
      if is_done p
      then returned (not p.error) p
      else if p.read_size == max
      then returned false p
      else waiting p)
  parse max (r ∷ rs) p =
      if is_done p
      then ok (returned (not p.error) p)
      else if p.read_size == max
      then ok (returned false p)
      else (do
        (len, ba) ← receive p.ba max r
        let p' = record p { ba = ba }
        if is_positive len then (do p'' ← drain p'; parse max rs p'') else ok (returned false p'))
