-- ===== src/Http/Parser/Segments.antt =====
-- `parseRequest` and `parseResponse` over the segments in which the bytes arrive.
use reyao.Common.{
  ℕ, ◌≡◌, refl, sym, ap, ◌∙◌, arith, true, false, not, inl, inr, List, [], ◌∷◌, ◌++◌, ◌==◌,
  Bool-cases, Outcome, ok, err, ◌>>=◌, Error, append_assoc, append-nil, All, ltb, length,
  if◌then◌else◌,
}
use reyao.Common.Bytes.{Bytes}
use reyao.SocketStream.{Recv, received}
use reyao.Http.Parser.{Parser, Hooks, Parsed, returned, waiting, is_done, drain, parse}
use reyao.Http.Parser.Sources.{plain}
use reyao.Http.Parser.Chunks.{more}
use reyao.Http.Parser.Resume.{drain-resumes, drain-read_size}

abbrev pub join : List Bytes → Bytes
join [] = []
join (xs ∷ xss) = xs ++ join xss

abbrev pub arrivals : List Bytes → List Recv
arrivals [] = []
arrivals (xs ∷ xss) = received xs ∷ arrivals xss

-- The parser without its buffer.
abbrev pub forget : {M : Type 0} → Parser Bytes M → Parser Bytes M
forget p = record p { ba = [] }

abbrev pub verdict : {M : Type 0} → Outcome (Parsed Bytes M) → Outcome (Parsed Bytes M)
verdict (ok (returned b p)) = ok (returned b (forget p))
verdict (ok (waiting p)) = ok (waiting (forget p))
verdict (err e) = err e

abbrev pub judge : {M : Type 0} → Outcome (Parser Bytes M) → Outcome (Parsed Bytes M)
judge (ok p) = ok (if is_done p then returned (not p.error) (forget p) else waiting (forget p))
judge (err e) = err e

abbrev pub NotEmpty : Bytes → Type 0
NotEmpty xs = ltb 0 (length xs) ≡ true

module _ {M : Type 0} (hooks : Hooks M) (max : ℕ) where
  -- One read that brings bytes.
  parse_arrival :
      (xs : Bytes) (rs : List Recv) (p : Parser Bytes M)
      → is_done p ≡ false
      → (p.read_size == max) ≡ false
      → NotEmpty xs
      → parse hooks plain max (received xs ∷ rs) p
        ≡ (do p' ← drain hooks plain (more xs p); parse hooks plain max rs p')
  unfolding parse
  parse_arrival xs rs p d r n = simp (d, r, n)

  arrival_err :
      (xs : Bytes) (rs : List Recv) (p : Parser Bytes M) (x : Error)
      → is_done p ≡ false
      → (p.read_size == max) ≡ false
      → NotEmpty xs
      → drain hooks plain (more xs p) ≡ err x
      → parse hooks plain max (received xs ∷ rs) p ≡ err x
  arrival_err xs rs p x d r n e = parse_arrival xs rs p d r n ∙ simp e

  arrival_ok :
      (xs : Bytes) (rs : List Recv) (p q : Parser Bytes M)
      → is_done p ≡ false
      → (p.read_size == max) ≡ false
      → NotEmpty xs
      → drain hooks plain (more xs p) ≡ ok q
      → parse hooks plain max (received xs ∷ rs) p ≡ parse hooks plain max rs q
  arrival_ok xs rs p q d r n e = parse_arrival xs rs p d r n ∙ simp e

  parse_done :
      (rs : List Recv) (p : Parser Bytes M)
      → is_done p ≡ true
      → parse hooks plain max rs p ≡ ok (returned (not p.error) p)
  unfolding parse
  parse_done [] p d = simp d
  parse_done (r ∷ rs) p d = simp d

  parse_nothing :
      (p : Parser Bytes M)
      → (p.read_size == max) ≡ false
      → verdict (parse hooks plain max [] p) ≡ judge (ok p)
  unfolding parse
  parse_nothing p r = elim (Bool-cases (is_done p)) [ inl d ↦ simp d | inr d ↦ simp (d, r) ]

  joined :
      (xs : Bytes) (xss : List Bytes) (p : Parser Bytes M)
      → drain hooks plain (more (join (xs ∷ xss)) p)
        ≡ drain hooks plain (more (join xss) (more xs p))
  joined xs xss p =
      ap (λ b. drain hooks plain (record p { ba = b })) (sym (append_assoc p.ba xs (join xss)))

  judge_done :
      (p : Parser Bytes M) (ys : Bytes) → is_done p ≡ true → judge (ok p) ≡ judge (ok (more ys p))
  judge_done p ys d = simp d

  returned_done :
      (p : Parser Bytes M)
      → is_done p ≡ true
      → verdict (ok (returned (not p.error) p)) ≡ judge (ok p)
  returned_done p d = simp d

  -- The first segment, where `later` says it of the others.
  first_segment :
      (xs : Bytes) (xss : List Bytes) (p : Parser Bytes M) (o : Outcome (Parser Bytes M))
      → is_done p ≡ false
      → (p.read_size == max) ≡ false
      → NotEmpty xs
      → ((q : Parser Bytes M)
          → drain hooks plain (more xs p) ≡ ok q
          → is_done q ≡ false
          → verdict (parse hooks plain max (arrivals xss) q)
            ≡ judge (drain hooks plain (more (join xss) (more xs p))))
      → drain hooks plain (more xs p) ≡ o
      → verdict (parse hooks plain max (arrivals (xs ∷ xss)) p)
        ≡ judge (drain hooks plain (more (join (xs ∷ xss)) p))
  first_segment xs xss p (err x) d r n later e =
      let (_, _, fails) = drain-resumes hooks (join xss) (more xs p) (ground arith) in
      ap verdict (arrival_err xs (arrivals xss) p x d r n e)
      ∙ sym (ap judge (joined xs xss p ∙ fails x e))
  first_segment xs xss p (ok q) d r n later e =
      let (ends, _, _) = drain-resumes hooks (join xss) (more xs p) (ground arith) in
      ap verdict (arrival_ok xs (arrivals xss) p q d r n e) ∙ elim (Bool-cases (is_done q)) [
        | inl h ↦
            ap verdict (parse_done (arrivals xss) q h)
            ∙ returned_done q h
            ∙ judge_done q (join xss) h
            ∙ sym (ap judge (joined xs xss p ∙ ends q e h))
        | inr h ↦ later q e h ∙ sym (ap judge (joined xs xss p))
      ]

  -- For the parser over a list of bytes, any message hooks, a parser that is neither finished nor
  -- in error and whose `readSize_` is not the maximum, and one or more non-empty segments:
  -- parsing the segments one read after another gives, up to the bytes left in the buffer, the
  -- return value, the parser state and the message (or the exception) that one drain of all the
  -- bytes together gives.
  pub parse-segments :
      (xs : Bytes) (xss : List Bytes) (p : Parser Bytes M)
      → is_done p ≡ false
      → (p.read_size == max) ≡ false
      → All NotEmpty (xs ∷ xss)
      → verdict (parse hooks plain max (arrivals (xs ∷ xss)) p)
        ≡ judge (drain hooks plain (more (join (xs ∷ xss)) p))
  parse-segments xs [] p d r ns =
      first_segment xs [] p (drain hooks plain (more xs p)) d r (ns.0)
        (λ q e h.
          parse_nothing q (ap (λ n. n == max) (drain-read_size hooks (more xs p) q e) ∙ r)
          ∙ sym (
              ap judge
                (ap (λ b. drain hooks plain (record p { ba = b })) (append-nil (p.ba ++ xs)) ∙ e)))
        refl
  parse-segments xs (ys ∷ yss) p d r ns =
      first_segment xs (ys ∷ yss) p (drain hooks plain (more xs p)) d r (ns.0)
        (λ q e h.
          let size = drain-read_size hooks (more xs p) q e in
          let (_, waits, _) = drain-resumes hooks (join (ys ∷ yss)) (more xs p) (ground arith) in
          parse-segments ys yss q h (rw size r) (ns.1) ∙ sym (ap judge (waits q e h)))
        refl
