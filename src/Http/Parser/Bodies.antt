-- ===== src/Http/Parser/Bodies.antt =====
-- `parseFixedBody`, `parseChunkedBody` and the choice between them, over a list of bytes.
use reyao.Common.{
  ◌+◌, ◌≤◌, ◌≡◌, refl, sym, ap, subst, ◌∙◌, arith, Bool, true, false, ◌⊎◌, inl, inr, ◌++◌, leb,
  ◌==◌, length, take, drop, take_le, drop_le, length-append, Bool-cases, Option-cases, Outcome, ok,
}
use reyao.Common.Bytes.{Bytes}
use reyao.Common.Loop.{Round, again, stop, run-keeps, Resumed}
use reyao.ByteArray.{search_crlf}
use reyao.Http.Parser.{
  Parser, Hooks, ChunkState, chunk_size, chunk_content, is_done, chunk_round, chunk_start,
  content_round, chunk_measure, parse_chunked_body, parse_fixed_body, body_round, settle,
  parse_body,
}
use reyao.Http.Parser.Sources.{plain}
use reyao.Http.Parser.Chunks.{
  more, chunk_line, chunk_line_missing, chunk_error, chunk_other, parse_chunked_body-resumes,
}

-- The fields that only the header decides.
abbrev pub SameFrame : {M : Type 0} → Parser Bytes M → Parser Bytes M → Type 0
SameFrame p p' =
    (p'.chunked ≡ p.chunked)
    × (p'.content_len ≡ p.content_len)
    × (p'.parse_state ≡ p.parse_state)
    × (p'.read_size ≡ p.read_size)

module _ {M : Type 0} (hooks : Hooks M) where
  chunk_start-SameFrame :
      (p : Parser Bytes M) (line rest : Bytes) (r : Round (Parser Bytes M)) (p' : Parser Bytes M)
      → chunk_start hooks plain line (record p { ba = rest }) ≡ r
      → (r ≡ again p') ⊎ (r ≡ stop p')
      → SameFrame p p'
  unfolding chunk_start
  chunk_start-SameFrame p line rest r p' e h = ground arith

  content-SameFrame :
      (state : ChunkState) (p p' : Parser Bytes M) (r : Round (Parser Bytes M))
      → content_round hooks plain state p ≡ ok r
      → (r ≡ again p') ⊎ (r ≡ stop p')
      → SameFrame p p'
  unfolding content_round
  content-SameFrame chunk_size p p' r e h = absurd (cc e)
  content-SameFrame chunk_content p p' r e h = ground arith

  chunk_round-SameFrame :
      (p p' : Parser Bytes M) (r : Round (Parser Bytes M))
      → chunk_round hooks plain p ≡ ok r
      → (r ≡ again p') ⊎ (r ≡ stop p')
      → SameFrame p p'
  chunk_round-SameFrame p p' r h w = elim (Bool-cases p.error) [
    | inl e ↦ stays (sym (chunk_error hooks p e) ∙ h)
    | inr e ↦ elim (Bool-cases (p.size == 0)) [
      | inl z ↦ elim (Option-cases (search_crlf p.ba)) [
        | inl s ↦ stays (sym (chunk_line_missing hooks p e z s) ∙ h)
        | inr (n, s) ↦
            let started : chunk_start hooks plain (take n p.ba)
                  (record p { ba = drop (n + 2) p.ba })
                ≡ r =
              cc (sym (chunk_line hooks p n e z s) ∙ h) in
            chunk_start-SameFrame p (take n p.ba) (drop (n + 2) p.ba) r p' started w
      ]
      | inr z ↦ content-SameFrame p.chunk_state p p' r (sym (chunk_other hooks p e z) ∙ h) w
    ]
  ]
    where
      stays : ◌≡◌ {A = Outcome (Round (Parser Bytes M))} (ok (stop p)) (ok r) → SameFrame p p'
      stays e = ground arith

  parse_chunked_body-SameFrame :
      (p p' : Parser Bytes M) → parse_chunked_body hooks plain p ≡ ok p' → SameFrame p p'
  unfolding parse_chunked_body
  parse_chunked_body-SameFrame p p' h =
      run-keeps (chunk_round hooks plain) (SameFrame p)
        (λ x x' f e.
          let g = chunk_round-SameFrame x x' (again x') e (inl refl) in
          (g.0 ∙ f.0, g.1 ∙ f.1, g.2 ∙ f.2, g.3 ∙ f.3))
        (λ x x' f e.
          let g = chunk_round-SameFrame x x' (stop x') e (inr refl) in
          (g.0 ∙ f.0, g.1 ∙ f.1, g.2 ∙ f.2, g.3 ∙ f.3))
        (chunk_measure hooks plain) p p' (refl, refl, refl, refl) h

  settle_chunked : (p : Parser Bytes M) → p.chunked ≡ true → settle hooks plain p ≡ p
  unfolding settle
  settle_chunked p c = ground arith

  settle_fixed : (p : Parser Bytes M) → (p.content_len == 0) ≡ false → settle hooks plain p ≡ p
  unfolding settle
  settle_fixed p z = ground arith

  settle_empty :
      (p : Parser Bytes M)
      → p.chunked ≡ false
      → (p.content_len == 0) ≡ true
      → settle hooks plain p ≡ record p { finish = true }
  unfolding settle
  settle_empty p c z = simp (c, z)

  body_round_at :
      (p q : Parser Bytes M) (b : Bool)
      → p.chunked ≡ b
      → settle hooks plain p ≡ q
      → body_round hooks plain p ≡ parse_body hooks plain b q
  body_round_at p q b c s =
      unfold body_round in
      ap (λ x. parse_body hooks plain x (settle hooks plain p)) c ∙ ap (parse_body hooks plain b) s

  -- On a chunked message the branch is the chunk loop.
  pub body_round_chunked :
      (p : Parser Bytes M)
      → p.chunked ≡ true
      → body_round hooks plain p ≡ parse_chunked_body hooks plain p
  unfolding parse_body
  body_round_chunked p c = body_round_at p p true c (settle_chunked p c)

  abbrev pub fixed_end : Parser Bytes M → Parser Bytes M
  fixed_end p = record p {
    ba = drop p.content_len p.ba;
    message = hooks.set_body (take p.content_len p.ba) p.message;
    finish = true;
  }

  pub body_round_empty :
      (p : Parser Bytes M)
      → p.chunked ≡ false
      → (p.content_len == 0) ≡ true
      → body_round hooks plain p ≡ ok (record p { finish = true })
  unfolding parse_fixed_body parse_body
  body_round_empty p c z =
      body_round_at p (record p { finish = true }) false c (settle_empty p c z) ∙ simp z

  pub body_round_there :
      (p : Parser Bytes M)
      → p.chunked ≡ false
      → (p.content_len == 0) ≡ false
      → leb p.content_len (length p.ba) ≡ true
      → body_round hooks plain p ≡ ok (fixed_end p)
  unfolding parse_fixed_body parse_body
  body_round_there p c z h = body_round_at p p false c (settle_fixed p z) ∙ simp (z, h)

  pub body_round_short :
      (p : Parser Bytes M)
      → p.chunked ≡ false
      → (p.content_len == 0) ≡ false
      → leb p.content_len (length p.ba) ≡ false
      → body_round hooks plain p ≡ ok p
  unfolding parse_fixed_body parse_body
  body_round_short p c z h = body_round_at p p false c (settle_fixed p z) ∙ simp (z, h)

  pub body_round-SameFrame :
      (p p' : Parser Bytes M) → body_round hooks plain p ≡ ok p' → SameFrame p p'
  body_round-SameFrame p p' h = elim (Bool-cases p.chunked) [
    | inl c ↦ parse_chunked_body-SameFrame p p' (sym (body_round_chunked p c) ∙ h)
    | inr c ↦ elim (Bool-cases (p.content_len == 0)) [
      | inl z ↦ same (record p { finish = true }) (body_round_empty p c z) (refl, refl, refl, refl)
      | inr z ↦ elim (Bool-cases (leb p.content_len (length p.ba))) [
        | inl there ↦ same (fixed_end p) (body_round_there p c z there) (refl, refl, refl, refl)
        | inr short ↦ same p (body_round_short p c z short) (refl, refl, refl, refl)
      ]
    ]
  ]
    where
      same : (q : Parser Bytes M) → body_round hooks plain p ≡ ok q → SameFrame p q → SameFrame p p'
      same q e f = subst (SameFrame p) (let e' : q ≡ p' = cc (sym e ∙ h) in e') f

  -- The branch for the body can be left for lack of bytes, and taken again when there are more.
  pub body_round-resumes :
      (ys : Bytes) (p : Parser Bytes M)
      → is_done p ≡ false
      → Resumed (body_round hooks plain) is_done (more ys) p
  body_round-resumes ys p u = elim (Bool-cases p.chunked) [
    | inl c ↦
        let (ends, waits, fails) = parse_chunked_body-resumes hooks ys p (ground arith) in
        let here = body_round_chunked p c in
        let there = body_round_chunked (more ys p) c in
        (
          (λ p' h d. there ∙ ends p' (sym here ∙ h) d),
          (λ p' h d.
              let frame = parse_chunked_body-SameFrame p p' (sym here ∙ h) in
              there
              ∙ waits p' (sym here ∙ h) d
              ∙ sym (body_round_chunked (more ys p') (frame.0 ∙ c))),
          (λ e h. there ∙ fails e (sym here ∙ h)),
        )
    | inr c ↦ elim (Bool-cases (p.content_len == 0)) [
      | inl z ↦
          settled p (record p { finish = true }) (body_round_empty p c z) refl
            (body_round_empty (more ys p) c z)
      | inr z ↦ elim (Bool-cases (leb p.content_len (length p.ba))) [
        | inl h ↦
            let n = p.content_len in
            let fits : n ≤ length p.ba = ground arith in
            let long : leb n (length (p.ba ++ ys)) ≡ true = ground (arith, length-append p.ba ys) in
            settled p (fixed_end p) (body_round_there p c z h) refl (
              body_round_there (more ys p) c z long
              ∙ simp (take_le n p.ba ys fits, drop_le n p.ba ys fits))
        | inr h ↦
            let here = body_round_short p c z h in
            (
              (λ p' e d.
                  let same : p ≡ p' = cc (sym here ∙ e) in absurd (cc (u, d, ap is_done same))),
              (λ p' e d.
                  let same : p ≡ p' = cc (sym here ∙ e) in
                  ap (λ q. body_round hooks plain (more ys q)) same),
              (λ r e. absurd (cc (sym here ∙ e))),
            )
      ]
    ]
  ]
    where
      settled :
          (q q' : Parser Bytes M)
          → body_round hooks plain q ≡ ok q'
          → is_done q' ≡ true
          → body_round hooks plain (more ys q) ≡ ok (more ys q')
          → Resumed (body_round hooks plain) is_done (more ys) q
      settled q q' here d there = (
        (λ p' e _. let same : q' ≡ p' = cc (sym here ∙ e) in there ∙ ap (λ x. ok (more ys x)) same),
        (λ p' e d'. let same : q' ≡ p' = cc (sym here ∙ e) in absurd (cc (d, d', ap is_done same))),
        (λ r e. absurd (cc (sym here ∙ e))),
      )
