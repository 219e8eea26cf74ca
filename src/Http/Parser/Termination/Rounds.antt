-- ===== src/Http/Parser/Termination/Rounds.antt =====
-- Http/Parser.antt: the inner and the outer loop of the parser end.
use reyao.Common.{
  ℕ, ◌+◌, ◌^◌, ◌≡◌, ◌≢◌, refl, sym, ap, subst, ◌∙◌, arith, true, false, inl, inr, ◌⊎◌, some, List,
  [], ◌∷◌, if◌then◌else◌, length, take, drop, Bool-cases, Option-cases, Outcome, ok, err, ◌>>=◌,
  unfinished, All, ◌<◌,
}
use reyao.Common.Bytes.{Bytes}
use reyao.Common.Loop.{again, stop, run-ends, run-keeps}
use reyao.Util.{stoi-ends, find_char}
use reyao.ByteArray.{search_crlf}
use reyao.Http.Parser.{
  Parser, Hooks, ParseState, first_line, header, in_body, body_round, drain, parse, parse_round,
  state_round, line_round, parse_first_line, parse_header, accept_header, header_value,
}
use reyao.Http.Parser.Resume.{
  round_error, round_at, body_here, body_fails, parsed, line_ok, line_err, line_missing,
  first_line-IsLocal, header-IsLocal, parse_round-Advances, IsLocal,
}
use reyao.Http.Parser.Sources.{plain, deliver}
use reyao.SocketStream.{Recv}
use reyao.Http.Parser.Sources.{buffer}
use reyao.Http.Parser.Simulation.{Fits, room, seen}
use reyao.ByteArray.{ByteArray}
use reyao.ByteArray.Contents.{IsValid, HasPrepend, contents}
use reyao.Http.Parser.Buffer.{parse-buffer, seen_end}
use reyao.Http.Parser.Termination.{InChunk, body_round-ends, body_round-InChunk}

-- What is made of a call and what follows it ends, if both do.
bind-ends :
    {A B : Type 0} (o : Outcome A) (k : A → Outcome B)
    → o ≢ err unfinished
    → ((x : A) → k x ≢ err unfinished)
    → (o >>= k) ≢ err unfinished
bind-ends (ok x) k p q h = q x h
bind-ends (err r) k p q h = p (ap err (cc h))

module _ {M : Type 0} (hooks : Hooks M) where
  -- A line does not touch the chunks, and does not run for ever.
  record Quiet (f : Bytes → Parser Bytes M → Outcome (Parser Bytes M)) : Type 0 where
    ends : (line : Bytes) (p : Parser Bytes M) → f line p ≢ err unfinished
    keeps :
        (line : Bytes) (p p' : Parser Bytes M)
        → p.error ≡ false
        → InChunk p
        → f line p ≡ ok p'
        → InChunk p'

  header_value-ends : (i : ℕ) (line : Bytes) → header_value i line ≢ err unfinished
  unfolding header_value
  header_value-ends i line h = ground arith

  accept_header-ends :
      (title value : Bytes) (p : Parser Bytes M)
      → accept_header hooks title value p ≢ err unfinished
  unfolding accept_header
  accept_header-ends title value p h = ground (arith, stoi-ends value)

  accept_header-keeps :
      (title value : Bytes) (p p' : Parser Bytes M)
      → p.error ≡ false
      → InChunk p
      → accept_header hooks title value p ≡ ok p'
      → InChunk p'
  unfolding accept_header
  accept_header-keeps title value p p' e inv h = ground arith

  parse_header-ends :
      (line : Bytes) (p : Parser Bytes M) → parse_header hooks line p ≢ err unfinished
  unfolding parse_header
  parse_header-ends line p h = elim (Option-cases (find_char b':' line)) [
    | inl s ↦ ground (arith, s)
    | inr (i, s) ↦ ground (
      arith,
      s,
      bind-ends (header_value i line) (λ v. accept_header hooks (take i line) v p)
          (header_value-ends i line) (λ v. accept_header-ends (take i line) v p),
    )
  ]

  header-Quiet : Quiet (parse_header hooks)
  unfolding parse_header accept_header header_value
  header-Quiet = record { ends = parse_header-ends; keeps = λ line p p' e inv h. ground arith }

  module _ (parse : Bytes → Parser Bytes M → Outcome (Parser Bytes M)) (local : IsLocal hooks parse)
      (quiet : Quiet parse) where
    line_round-ends : (p : Parser Bytes M) → line_round hooks plain parse p ≢ err unfinished
    line_round-ends p h = elim (Option-cases (search_crlf p.ba)) [
      | inl s ↦ absurd (cc (sym (line_missing hooks parse local p s) ∙ h))
      | inr (n, s) ↦ found n s (parsed hooks parse local p n) refl
    ]
      where
        found :
            (n : ℕ)
            → search_crlf p.ba ≡ some n
            → (o : Outcome (Parser Bytes M)) → parsed hooks parse local p n ≡ o
            → ⊥
        found n s (ok q) o = cc (sym (line_ok hooks parse local p q n s o) ∙ h)
        found n s (err r) o =
            let same : r ≡ unfinished = cc (sym (line_err hooks parse local p n r s o) ∙ h) in
            quiet.ends (take n p.ba) (record p { ba = drop (n + 2) p.ba }) (o ∙ ap err same)

    line_round-InChunk :
        (p p' : Parser Bytes M)
        → p.error ≡ false
        → InChunk p
        → (line_round hooks plain parse p ≡ ok (again p'))
          ⊎ (line_round hooks plain parse p ≡ ok (stop p'))
        → InChunk p'
    line_round-InChunk p p' e inv h = elim (Option-cases (search_crlf p.ba)) [
      | inl s ↦ missing (line_missing hooks parse local p s) h
      | inr (n, s) ↦ found n s (parsed hooks parse local p n) refl h
    ]
      where
        missing :
            line_round hooks plain parse p ≡ ok (stop p)
            → (line_round hooks plain parse p ≡ ok (again p'))
              ⊎ (line_round hooks plain parse p ≡ ok (stop p'))
            → InChunk p'
        missing s (inl h) = absurd (cc (sym s ∙ h))
        missing s (inr h) = let same : p ≡ p' = cc (sym s ∙ h) in subst InChunk same inv

        found :
            (n : ℕ)
            → search_crlf p.ba ≡ some n
            → (o : Outcome (Parser Bytes M)) → parsed hooks parse local p n ≡ o
            → (line_round hooks plain parse p ≡ ok (again p'))
              ⊎ (line_round hooks plain parse p ≡ ok (stop p'))
            → InChunk p'
        found n s (ok q) o (inl h) =
            let same : q ≡ p' = cc (sym (line_ok hooks parse local p q n s o) ∙ h) in
            subst InChunk same
              (quiet.keeps (take n p.ba) (record p { ba = drop (n + 2) p.ba }) q e inv o)
        found n s (ok q) o (inr h) = absurd (cc (sym (line_ok hooks parse local p q n s o) ∙ h))
        found n s (err r) o (inl h) = absurd (cc (sym (line_err hooks parse local p n r s o) ∙ h))
        found n s (err r) o (inr h) = absurd (cc (sym (line_err hooks parse local p n r s o) ∙ h))

  module _ (first_ends : (line : Bytes) (m : M) → hooks.first_line line m ≢ err unfinished) where
    first_line-Quiet : Quiet (parse_first_line hooks)
    unfolding parse_first_line
    first_line-Quiet = record {
      ends = λ line p.
          bind-ends (hooks.first_line line p.message)
            (λ (error, message). ok (record p {
              error = error;
              message = message;
              parse_state = if error then p.parse_state else header;
            }))
            (first_ends line p.message) (λ x h. cc h);
      keeps = λ line p p' e inv h. ground arith;
    }

    state_round-ends :
        (state : ParseState) (p : Parser Bytes M)
        → InChunk p
        → state_round hooks plain state p ≢ err unfinished
    unfolding state_round
    state_round-ends first_line p inv =
        line_round-ends (parse_first_line hooks) (first_line-IsLocal hooks) first_line-Quiet p
    state_round-ends header p inv =
        line_round-ends (parse_header hooks) (header-IsLocal hooks) header-Quiet p
    state_round-ends in_body p inv = λ h. by_result h (body_round hooks plain p) refl
      where
        by_result :
            state_round hooks plain in_body p ≡ err unfinished
            → (o : Outcome (Parser Bytes M)) → body_round hooks plain p ≡ o
            → ⊥
        by_result h (ok q) o = cc (sym (body_here hooks p q o) ∙ h)
        by_result h (err r) o =
            let same : r ≡ unfinished = cc (sym (body_fails hooks p r o) ∙ h) in
            body_round-ends hooks p inv (o ∙ ap err same)

    state_round-InChunk :
        (state : ParseState) (p p' : Parser Bytes M)
        → p.error ≡ false
        → InChunk p
        → (state_round hooks plain state p ≡ ok (again p'))
          ⊎ (state_round hooks plain state p ≡ ok (stop p'))
        → InChunk p'
    unfolding state_round
    state_round-InChunk first_line p p' e inv h =
        line_round-InChunk (parse_first_line hooks) (first_line-IsLocal hooks) first_line-Quiet p p'
          e inv h
    state_round-InChunk header p p' e inv h =
        line_round-InChunk (parse_header hooks) (header-IsLocal hooks) header-Quiet p p' e inv h
    state_round-InChunk in_body p p' e inv h = by_result (body_round hooks plain p) refl h
      where
        by_result :
            (o : Outcome (Parser Bytes M))
            → body_round hooks plain p ≡ o
            → (state_round hooks plain in_body p ≡ ok (again p'))
              ⊎ (state_round hooks plain in_body p ≡ ok (stop p'))
            → InChunk p'
        by_result (ok q) o (inl h) = absurd (cc (sym (body_here hooks p q o) ∙ h))
        by_result (ok q) o (inr h) =
            let same : q ≡ p' = cc (sym (body_here hooks p q o) ∙ h) in
            subst InChunk same (body_round-InChunk hooks p q inv o)
        by_result (err r) o (inl h) = absurd (cc (sym (body_fails hooks p r o) ∙ h))
        by_result (err r) o (inr h) = absurd (cc (sym (body_fails hooks p r o) ∙ h))

    parse_round-ends : (p : Parser Bytes M) → InChunk p → parse_round hooks plain p ≢ err unfinished
    parse_round-ends p inv h = elim (Bool-cases p.error) [
      | inl e ↦ absurd (cc (sym (round_error hooks p e) ∙ h))
      | inr e ↦
          state_round-ends p.parse_state p inv (sym (round_at hooks p p.parse_state e refl) ∙ h)
    ]

    parse_round-InChunk :
        (p p' : Parser Bytes M)
        → InChunk p
        → (parse_round hooks plain p ≡ ok (again p')) ⊎ (parse_round hooks plain p ≡ ok (stop p'))
        → InChunk p'
    parse_round-InChunk p p' inv h = elim (Bool-cases p.error) [
      | inl e ↦ stays e h
      | inr e ↦ state_round-InChunk p.parse_state p p' e inv (goes e h)
    ]
      where
        stays :
            p.error ≡ true
            → (parse_round hooks plain p ≡ ok (again p'))
              ⊎ (parse_round hooks plain p ≡ ok (stop p'))
            → InChunk p'
        stays e (inl h) = absurd (cc (sym (round_error hooks p e) ∙ h))
        stays e (inr h) =
            let same : p ≡ p' = cc (sym (round_error hooks p e) ∙ h) in subst InChunk same inv

        goes :
            p.error ≡ false
            → (parse_round hooks plain p ≡ ok (again p'))
              ⊎ (parse_round hooks plain p ≡ ok (stop p'))
            → (state_round hooks plain p.parse_state p ≡ ok (again p'))
              ⊎ (state_round hooks plain p.parse_state p ≡ ok (stop p'))
        goes e (inl h) = inl (sym (round_at hooks p p.parse_state e refl) ∙ h)
        goes e (inr h) = inr (sym (round_at hooks p p.parse_state e refl) ∙ h)

    drain-ends : (p : Parser Bytes M) → InChunk p → drain hooks plain p ≢ err unfinished
    unfolding drain
    drain-ends p inv =
        run-ends (parse_round hooks plain) (λ p. length p.ba)
          (λ p p' h. (parse_round-Advances hooks p p' h).0) InChunk
          (λ p p' inv h. parse_round-InChunk p p' inv (inl h)) parse_round-ends p inv

    drain-InChunk : (p p' : Parser Bytes M) → InChunk p → drain hooks plain p ≡ ok p' → InChunk p'
    unfolding drain
    drain-InChunk p p' inv h =
        run-keeps (parse_round hooks plain) InChunk
          (λ p p' inv h. parse_round-InChunk p p' inv (inl h))
          (λ p p' inv h. parse_round-InChunk p p' inv (inr h)) (λ p. length p.ba) p p' inv h

    after-ends :
        (max : ℕ) (rs : List Recv) (p : Parser Bytes M)
        → ((q : Parser Bytes M) → InChunk q → parse hooks plain max rs q ≢ err unfinished)
        → InChunk p
        → (drain hooks plain p >>= parse hooks plain max rs) ≢ err unfinished
    after-ends max rs p rec inv h =
        elim (drain hooks plain p)
            as (λ o.
              drain hooks plain p ≡ o → (o >>= parse hooks plain max rs) ≡ err unfinished → ⊥) [
                | ok q ↦ λ o h. rec q (drain-InChunk p q inv o) h
                | err r ↦ λ o h. drain-ends p inv (o ∙ cc h)
              ]
          refl h

    parse-ends :
        (max : ℕ) (rs : List Recv) (p : Parser Bytes M)
        → InChunk p
        → parse hooks plain max rs p ≢ err unfinished
    unfolding parse
    parse-ends max [] p inv h = cc h
    parse-ends max (r ∷ rs) p inv h =
        ground
          (arith, after-ends max rs (record p { ba = (deliver p.ba r).1 }) (parse-ends max rs) inv)

    -- The loops of `parse` over the program's ByteArray end, whatever bytes come: if the hook
    -- for the first line ends, the ByteArray and the reads are as for parse-buffer, and a chunk
    -- that has been begun is being read, `parse` never is a loop that does not end.
    pub parse-buffer-ends :
        (max : ℕ) (rs : List Recv) (p : Parser ByteArray M)
        → IsValid p.ba
        → HasPrepend p.ba
        → max < 2 ^ 31
        → p.ba.write_pos + room max rs < 2 ^ 62
        → All (Fits max) rs
        → InChunk (seen contents p)
        → parse hooks buffer max rs p ≢ err unfinished
    parse-buffer-ends max rs p v front small reach fits inv h =
        parse-ends max rs (seen contents p) inv
          (sym (parse-buffer hooks max rs p v front small reach fits) ∙ ap seen_end h)
