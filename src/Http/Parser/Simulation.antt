-- ===== src/Http/Parser/Simulation.antt =====
-- The parser over two sources of bytes, one of which is a view of the other.
use reyao.Common.{
  ℕ, ◌+◌, ◌-◌, ◌^◌, ◌≡◌, ◌≤◌, ◌<◌, refl, ap, subst, Bool, true, false, not, ◌&&◌, ◌||◌, inl, inr,
  Option, none, some, List, [], ◌∷◌, ◌==◌, if◌then◌else◌, length, take, Bool-cases, All, Outcome,
  ok, ◌>>=◌,
}
use reyao.Common.Bytes.{Bytes}
use reyao.Common.Words.{add64, sign_extend}
use reyao.Common.Sim.{Sim, Sim-bind, Sim-if, Sim-same, Sim-option, SimRound, Sim-run}
use reyao.SocketStream.{Recv, not_connected, closed, failed, received}
use reyao.Util.{hex_to_dec, find_char, case_eq, codes, stoi}
use reyao.Http.Parser.{
  Parser, Hooks, Source, first_byte, ParseState, first_line, header, in_body, ChunkState,
  chunk_size, chunk_content, Parsed, returned, waiting, is_done, is_positive, parse_first_line,
  parse_header, accept_header, header_value, chunk_start, chunk_end, content_round, chunk_round,
  chunk_measure, parse_chunked_body, parse_fixed_body, settle, parse_body, body_round, line_round,
  state_round, parse_round, drain, parse,
}

module _ {B C : Type 0} (view : B → C) where
  -- The same fields over the view of the bytes.
  abbrev pub seen : {M : Type 0} → Parser B M → Parser C M
  seen p = record {
    ba = view p.ba;
    read_size = p.read_size;
    parse_state = p.parse_state;
    error = p.error;
    finish = p.finish;
    body = p.body;
    content_len = p.content_len;
    chunked = p.chunked;
    size = p.size;
    chunk_state = p.chunk_state;
    message = p.message;
  }

  module _ (Inv : B → Type 0) where
    abbrev pub Seen : {M : Type 0} → Parser B M → Parser C M → Type 0
    Seen p q = (seen p ≡ q) × Inv p.ba

    abbrev pub SeenRead : Option ℕ × B → Option ℕ × C → Type 0
    SeenRead x y = (x.0 ≡ y.0) × (view x.1 ≡ y.1) × Inv x.1

    abbrev pub SeenPart : Option (Bytes × B) → Option (Bytes × C) → Type 0
    SeenPart none none = Unit
    SeenPart none (some y) = ⊥
    SeenPart (some x) none = ⊥
    SeenPart (some x) (some y) = (x.0 ≡ y.0) × (view x.1 ≡ y.1) × Inv x.1

-- What the kernel delivers is not more than was asked for.
abbrev pub Fits : ℕ → Recv → Type 0
Fits max not_connected = Unit
Fits max closed = Unit
Fits max failed = Unit
Fits max (received xs) = length xs ≤ max

-- What makes the second source a view of the first. `Inv n` leaves room for `n` more bytes.
pub record IsView {B C : Type 0} (source : Source B) (plain : Source C) (view : B → C)
    (Inv : ℕ → B → Type 0) : Type 0 where
  pub next_line :
      (n : ℕ) (b : B)
      → Inv n b
      → Sim (SeenPart view (Inv n)) (source.next_line b) (plain.next_line (view b))
  pub take_if :
      (n k : ℕ) (b : B)
      → Inv n b
      → Sim (SeenPart view (Inv n)) (source.take_if k b) (plain.take_if k (view b))
  pub receive :
      (n max : ℕ) (b : B) (r : Recv)
      → Inv (max + n) b
      → max < 2 ^ 31
      → Fits max r
      → Sim (SeenRead view (Inv n)) (source.receive b max r) (plain.receive (view b) max r)
  pub remaining : (n : ℕ) (b : B) → Inv n b → source.remaining b ≡ plain.remaining (view b)

module _ {B C M : Type 0} (source : Source B) (plain : Source C) (view : B → C)
    (Inv : ℕ → B → Type 0) (is_view : IsView source plain view Inv) (hooks : Hooks M) (n : ℕ) where
  abbrev R : Parser B M → Parser C M → Type 0
  R = Seen view (Inv n)

  -- A part of the input that has been asked for, and what is made of it.
  part-Sim :
      {X Y : Type 0} (R' : X → Y → Type 0) (f : Option (Bytes × B) → Outcome X)
      (g : Option (Bytes × C) → Outcome Y) (o : Outcome (Option (Bytes × B)))
      (o' : Outcome (Option (Bytes × C)))
      → Sim (SeenPart view (Inv n)) o o'
      → Sim R' (f none) (g none)
      → ((xs : Bytes) (b : B) → Inv n b → Sim R' (f (some (xs, b))) (g (some (xs, view b))))
      → Sim R' (o >>= f) (o' >>= g)
  part-Sim R' f g o o' h missing there = Sim-bind (SeenPart view (Inv n)) R' f g o o' h by_part
    where
      by_part :
          (x : Option (Bytes × B)) (y : Option (Bytes × C))
          → SeenPart view (Inv n) x y
          → Sim R' (f x) (g y)
      by_part none none s = missing
      by_part none (some y) s = elim s [ ]
      by_part (some x) none s = elim s [ ]
      by_part (some (xs, b)) (some (ys, c)) (e, v, inv) =
          subst (λ t. Sim R' (f (some (xs, b))) (g (some (t, c)))) e
            (subst (λ t. Sim R' (f (some (xs, b))) (g (some (xs, t)))) v (there xs b inv))

  chunk_start-Sim :
      (line : Bytes) (p : Parser B M)
      → Inv n p.ba
      → SimRound R (chunk_start hooks source line p) (chunk_start hooks plain line (seen view p))
  unfolding chunk_start
  chunk_start-Sim line p inv =
      let size = sign_extend (hex_to_dec line) in
      elim (Bool-cases (size == 2 ^ 64 - 1)) [
        | inl bad ↦ simp bad (refl, inv)
        | inr good ↦ elim (Bool-cases (size == 0)) [
          | inl last ↦ simp (good, last) (refl, inv)
          | inr long ↦ simp (good, long) (refl, inv)
        ]
      ]

  content-Sim :
      (state : ChunkState) (p : Parser B M)
      → Inv n p.ba
      → Sim
          (SimRound R)
          (content_round hooks source state p)
          (content_round hooks plain state (seen view p))
  unfolding content_round chunk_end
  content-Sim chunk_size p inv = refl
  content-Sim chunk_content p inv =
      part-Sim (SimRound R) _ _ _ _ (is_view.take_if n (add64 p.size 2) p.ba inv) (refl, inv)
        (λ xs b i. (refl, i))

  chunk_round-Sim :
      (p : Parser B M) (q : Parser C M)
      → R p q
      → Sim (SimRound R) (chunk_round hooks source p) (chunk_round hooks plain q)
  unfolding chunk_round
  chunk_round-Sim p q (same, inv) =
      subst (λ q. Sim (SimRound R) (chunk_round hooks source p) (chunk_round hooks plain q)) same
        (Sim-if (SimRound R) p.error _ _ _ _ (refl, inv)
          (Sim-if (SimRound R) (p.size == 0) _ _ _ _
            (part-Sim (SimRound R) _ _ _ _ (is_view.next_line n p.ba inv) (refl, inv)
              (λ xs b i. chunk_start-Sim xs (record p { ba = b }) i))
            (content-Sim p.chunk_state p inv)))

  parse_chunked_body-Sim :
      (p : Parser B M)
      → Inv n p.ba
      → Sim R (parse_chunked_body hooks source p) (parse_chunked_body hooks plain (seen view p))
  unfolding parse_chunked_body
  parse_chunked_body-Sim p inv =
      Sim-run R (chunk_round hooks source) (chunk_round hooks plain) chunk_round-Sim
        (chunk_measure hooks source) (chunk_measure hooks plain) p (seen view p)
        (ap (λ k. k + (if p.size == 0 then 0 else 1)) (is_view.remaining n p.ba inv)) (refl, inv)

  parse_fixed_body-Sim :
      (p : Parser B M)
      → Inv n p.ba
      → Sim R (parse_fixed_body hooks source p) (parse_fixed_body hooks plain (seen view p))
  unfolding parse_fixed_body
  parse_fixed_body-Sim p inv =
      Sim-if R (p.content_len == 0) _ _ _ _ (refl, inv)
        (part-Sim R _ _ _ _ (is_view.take_if n p.content_len p.ba inv) (refl, inv)
          (λ xs b i. (refl, i)))

  parse_body-Sim :
      (b : Bool) (p : Parser B M)
      → Inv n p.ba
      → Sim R (parse_body hooks source b p) (parse_body hooks plain b (seen view p))
  unfolding parse_body
  parse_body-Sim true p inv = parse_chunked_body-Sim p inv
  parse_body-Sim false p inv = parse_fixed_body-Sim p inv

  body_round-Sim :
      (p : Parser B M)
      → Inv n p.ba
      → Sim R (body_round hooks source p) (body_round hooks plain (seen view p))
  unfolding body_round settle
  body_round-Sim p inv = elim (Bool-cases (not p.chunked && p.content_len == 0)) [
    | inl z ↦ simp z (parse_body-Sim p.chunked (record p { finish = true }) inv)
    | inr z ↦ simp z (parse_body-Sim p.chunked p inv)
  ]

  parse_first_line-Sim :
      (line : Bytes) (p : Parser B M)
      → Inv n p.ba
      → Sim R (parse_first_line hooks line p) (parse_first_line hooks line (seen view p))
  unfolding parse_first_line
  parse_first_line-Sim line p inv =
      Sim-same R (hooks.first_line line p.message) _ _ (λ r. (refl, inv))

  accept_header-Sim :
      (title value : Bytes) (p : Parser B M)
      → Inv n p.ba
      → Sim R (accept_header hooks title value p) (accept_header hooks title value (seen view p))
  unfolding accept_header
  accept_header-Sim title value p inv =
      let chunked =
        p.chunked
        || (case_eq title (codes "transfer-encoding") && case_eq value (codes "chunked")) in
      Sim-if R (not chunked && case_eq title (codes "content-length")) _ _ _ _
        (Sim-same R (stoi value) _ _ (λ len. (refl, inv))) (refl, inv)

  parse_header-Sim :
      (line : Bytes) (p : Parser B M)
      → Inv n p.ba
      → Sim R (parse_header hooks line p) (parse_header hooks line (seen view p))
  unfolding parse_header
  parse_header-Sim line p inv =
      Sim-if R (first_byte line == 13) _ _ _ _ (refl, inv)
        (Sim-option R (find_char b':' line) _ _ _ _ (refl, inv)
          (λ i.
            Sim-if R (i + 2 == length line) _ _ _ _ (refl, inv)
              (Sim-same R (header_value i line) _ _
                (λ value. accept_header-Sim (take i line) value p inv))))

  line_round-Sim :
      (f : Bytes → Parser B M → Outcome (Parser B M))
      (g : Bytes → Parser C M → Outcome (Parser C M))
      → ((line : Bytes) (p : Parser B M) → Inv n p.ba → Sim R (f line p) (g line (seen view p)))
      → (p : Parser B M) → Inv n p.ba
      → Sim (SimRound R) (line_round hooks source f p) (line_round hooks plain g (seen view p))
  unfolding line_round
  line_round-Sim f g h p inv =
      part-Sim (SimRound R) _ _ _ _ (is_view.next_line n p.ba inv) (refl, inv)
        (λ xs b i. Sim-bind R (SimRound R) _ _ _ _ (h xs (record p { ba = b }) i) (λ x y r. r))

  state_round-Sim :
      (state : ParseState) (p : Parser B M)
      → Inv n p.ba
      → Sim
          (SimRound R)
          (state_round hooks source state p)
          (state_round hooks plain state (seen view p))
  unfolding state_round
  state_round-Sim first_line p inv =
      line_round-Sim (parse_first_line hooks) (parse_first_line hooks) parse_first_line-Sim p inv
  state_round-Sim header p inv =
      line_round-Sim (parse_header hooks) (parse_header hooks) parse_header-Sim p inv
  state_round-Sim in_body p inv =
      Sim-bind R (SimRound R) _ _ _ _ (body_round-Sim p inv) (λ x y r. r)

  parse_round-Sim :
      (p : Parser B M) (q : Parser C M)
      → R p q
      → Sim (SimRound R) (parse_round hooks source p) (parse_round hooks plain q)
  unfolding parse_round
  parse_round-Sim p q (same, inv) =
      subst (λ q. Sim (SimRound R) (parse_round hooks source p) (parse_round hooks plain q)) same
        (Sim-if (SimRound R) p.error _ _ _ _ (refl, inv) (state_round-Sim p.parse_state p inv))

  pub drain-Sim :
      (p : Parser B M) → Inv n p.ba → Sim R (drain hooks source p) (drain hooks plain (seen view p))
  unfolding drain
  drain-Sim p inv =
      Sim-run R (parse_round hooks source) (parse_round hooks plain) parse_round-Sim
        (λ p. source.remaining p.ba) (λ p. plain.remaining p.ba) p (seen view p)
        (is_view.remaining n p.ba inv) (refl, inv)

-- Room for all that the kernel may deliver.
abbrev pub room : ℕ → List Recv → ℕ
room max [] = 0
room max (r ∷ rs) = max + room max rs

abbrev pub SeenParsed : {B C M : Type 0} → (B → C) → Parsed B M → Parsed C M → Type 0
SeenParsed view (returned a p) (returned b q) = (a ≡ b) × (seen view p ≡ q)
SeenParsed view (waiting p) (waiting q) = seen view p ≡ q
SeenParsed view (returned a p) (waiting q) = ⊥
SeenParsed view (waiting p) (returned b q) = ⊥

module _ {B C M : Type 0} (source : Source B) (plain : Source C) (view : B → C)
    (Inv : ℕ → B → Type 0) (is_view : IsView source plain view Inv) (hooks : Hooks M) where
  pub parse-Sim :
      (max : ℕ) (rs : List Recv) (p : Parser B M) (q : Parser C M)
      → max < 2 ^ 31
      → All (Fits max) rs
      → Seen view (Inv (room max rs)) p q
      → Sim (SeenParsed view) (parse hooks source max rs p) (parse hooks plain max rs q)
  unfolding parse
  parse-Sim max [] p q small fits (same, inv) =
      subst (λ q. Sim (SeenParsed view) (parse hooks source max [] p) (parse hooks plain max [] q))
        same (at_end (is_done p) (p.read_size == max))
    where
      at_end :
          (b full : Bool)
          → Sim
              (SeenParsed view)
              (ok (
                if b
                then returned (not p.error) p
                else if full
                then returned false p
                else waiting p))
              (ok (
                if b
                then returned (not p.error) (seen view p)
                else if full
                then returned false (seen view p)
                else waiting (seen view p)))
      at_end true full = (refl, refl)
      at_end false true = (refl, refl)
      at_end false false = refl
  parse-Sim max (r ∷ rs) p q small fits (same, inv) =
      subst
        (λ q.
          Sim (SeenParsed view) (parse hooks source max (r ∷ rs) p)
            (parse hooks plain max (r ∷ rs) q))
        same
        (Sim-if (SeenParsed view) (is_done p) _ _ _ _ (refl, refl)
          (Sim-if (SeenParsed view) (p.read_size == max) _ _ _ _ (refl, refl)
            (Sim-bind (SeenRead view (Inv (room max rs))) (SeenParsed view) _ _ _ _
              (is_view.receive (room max rs) max p.ba r inv small (fits.0))
              (λ x y s.
                let after : Option ℕ × B → Outcome (Parsed B M) = λ x.
                  if is_positive x.0
                  then drain hooks source (record p { ba = x.1 }) >>= parse hooks source max rs
                  else ok (returned false (record p { ba = x.1 })) in
                let after_plain : Option ℕ × C → Outcome (Parsed C M) = λ y.
                  if is_positive y.0
                  then drain hooks plain (record (seen view p) { ba = y.1 })
                    >>= parse hooks plain max rs
                  else ok (returned false (record (seen view p) { ba = y.1 })) in
                subst (λ l. Sim (SeenParsed view) (after x) (after_plain (l, y.1))) s.0
                  (subst (λ c. Sim (SeenParsed view) (after x) (after_plain (x.0, c))) s.1
                    (Sim-if (SeenParsed view) (is_positive x.0) _ _ _ _
                      (Sim-bind (Seen view (Inv (room max rs))) (SeenParsed view) _ _ _ _
                        (drain-Sim source plain view Inv is_view hooks (room max rs)
                          (record p { ba = x.1 }) s.2)
                        (λ p' q' t. parse-Sim max rs p' q' small (fits.1) t))
                      (refl, refl)))))))
