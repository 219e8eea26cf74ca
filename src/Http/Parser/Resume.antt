-- ===== src/Http/Parser/Resume.antt =====
-- The parser may stop in the middle of anything and go on when more bytes have come: what it makes
-- of the bytes does not depend on where they were cut.
use reyao.Common.{
  ℕ, ◌+◌, ◌<◌, ◌≡◌, refl, sym, ap, ◌∙◌, arith, true, false, inl, inr, none, some, length, take,
  drop, length-drop, Bool-cases, Option-cases, Outcome, ok, err, ◌>>=◌, Error,
}
use reyao.Common.Bytes.{Bytes}
use reyao.Common.Loop.{
  again, stop, run-keeps, run-resumes, Resumes, Resumed, Resumes-again, Resumes-ends, Resumes-waits,
  Resumes-fails,
}
use reyao.ByteArray.{search_crlf}
use reyao.ByteArray.Search.{search_crlf_found}
use reyao.Http.Parser.{
  Parser, Hooks, ParseState, first_line, header, in_body, is_done, body_round, line_round,
  state_round, parse_round, drain, parse_first_line, parse_header, accept_header,
}
use reyao.Http.Parser.Sources.{plain}
use reyao.Http.Parser.Chunks.{more, Unfinished, line_at-append}
use reyao.Http.Parser.Bodies.{body_round-resumes, body_round-SameFrame}

abbrev pub map_ok {ℓ κ} : {A : Type ℓ} {B : Type κ} → (A → B) → Outcome A → Outcome B
map_ok f (ok a) = ok (f a)
map_ok f (err e) = err e

module _ {M : Type 0} (hooks : Hooks M) where
  -- What is parsed of a line does not touch the bytes behind it.
  pub record IsLocal (parse : Bytes → Parser Bytes M → Outcome (Parser Bytes M)) : Type 0 where
    pub moves :
        (line ys : Bytes) (p : Parser Bytes M)
        → parse line (more ys p) ≡ map_ok (more ys) (parse line p)
    pub keeps :
        (line : Bytes) (p p' : Parser Bytes M)
        → parse line p ≡ ok p'
        → (p'.ba ≡ p.ba) × (p'.finish ≡ p.finish) × (p'.read_size ≡ p.read_size)

  pub first_line-IsLocal : IsLocal (parse_first_line hooks)
  unfolding parse_first_line
  first_line-IsLocal = record {
    moves = λ line ys p. ground arith;
    keeps = λ line p p' h. ground arith;
  }

  accept-moves :
      (title value ys : Bytes) (p : Parser Bytes M)
      → accept_header hooks title value (more ys p)
        ≡ map_ok (more ys) (accept_header hooks title value p)
  unfolding accept_header
  accept-moves title value ys p = ground arith

  accept-keeps :
      (title value : Bytes) (p p' : Parser Bytes M)
      → accept_header hooks title value p ≡ ok p'
      → (p'.ba ≡ p.ba) × (p'.finish ≡ p.finish) × (p'.read_size ≡ p.read_size)
  unfolding accept_header
  accept-keeps title value p p' h = ground arith

  pub header-IsLocal : IsLocal (parse_header hooks)
  unfolding parse_header
  header-IsLocal = record { moves = λ line ys p. ground arith; keeps = λ line p p' h. ground arith }

  -- The branches that want a line.
  module _ (parse : Bytes → Parser Bytes M → Outcome (Parser Bytes M)) (local : IsLocal parse) where
    pub line_here :
        (p : Parser Bytes M) (n : ℕ)
        → search_crlf p.ba ≡ some n
        → line_round hooks plain parse p
          ≡ (do p' ← parse (take n p.ba) (record p { ba = drop (n + 2) p.ba }); ok (again p'))
    unfolding line_round
    line_here p n s = simp s

    pub line_missing :
        (p : Parser Bytes M)
        → search_crlf p.ba ≡ none
        → line_round hooks plain parse p ≡ ok (stop p)
    unfolding line_round
    line_missing p s = simp s

    line_more :
        (p : Parser Bytes M) (n : ℕ) (ys : Bytes)
        → search_crlf p.ba ≡ some n
        → line_round hooks plain parse (more ys p) ≡ (do
          p' ← parse (take n p.ba) (more ys (record p { ba = drop (n + 2) p.ba }))
          ok (again p'))
    unfolding line_round
    line_more p n ys s = simp (line_at-append p.ba ys n s)

    abbrev pub parsed : Parser Bytes M → ℕ → Outcome (Parser Bytes M)
    parsed p n = parse (take n p.ba) (record p { ba = drop (n + 2) p.ba })

    pub line_ok :
        (p q : Parser Bytes M) (n : ℕ)
        → search_crlf p.ba ≡ some n
        → parsed p n ≡ ok q
        → line_round hooks plain parse p ≡ ok (again q)
    line_ok p q n s o = line_here p n s ∙ simp o

    pub line_err :
        (p : Parser Bytes M) (n : ℕ) (r : Error)
        → search_crlf p.ba ≡ some n
        → parsed p n ≡ err r
        → line_round hooks plain parse p ≡ err r
    line_err p n r s o = line_here p n s ∙ simp o

    line_round-Resumes :
        (ys : Bytes) (p : Parser Bytes M)
        → is_done p ≡ false
        → parse_round hooks plain p ≡ line_round hooks plain parse p
        → parse_round hooks plain (more ys p) ≡ line_round hooks plain parse (more ys p)
        → Resumes (parse_round hooks plain) is_done (more ys) p
    line_round-Resumes ys p d e f = elim (Option-cases (search_crlf p.ba)) [
      | inl s ↦ Resumes-waits p p (e ∙ line_missing p s) d refl
      | inr (n, s) ↦
          found n s (parsed p n) refl
            (local.moves (take n p.ba) ys (record p { ba = drop (n + 2) p.ba }))
    ]
      where
        found :
            (n : ℕ)
            → search_crlf p.ba ≡ some n
            → (o : Outcome (Parser Bytes M)) → parsed p n ≡ o
            → parse (take n p.ba) (more ys (record p { ba = drop (n + 2) p.ba }))
              ≡ map_ok (more ys) (parsed p n)
            → Resumes (parse_round hooks plain) is_done (more ys) p
        found n s (ok p') o m =
            Resumes-again p p' (e ∙ line_ok p p' n s o) (f ∙ line_more p n ys s ∙ simp (m, o))
        found n s (err r) o m =
            Resumes-fails p r (e ∙ line_err p n r s o) (f ∙ line_more p n ys s ∙ simp (m, o))

    line_round-Advances :
        (p p' : Parser Bytes M)
        → line_round hooks plain parse p ≡ ok (again p')
        → (length p'.ba < length p.ba) × (p'.finish ≡ p.finish) × (p'.read_size ≡ p.read_size)
    line_round-Advances p p' h = elim (Option-cases (search_crlf p.ba)) [
      | inl s ↦ absurd (cc (sym (line_missing p s) ∙ h))
      | inr (n, s) ↦ found n s (parsed p n) refl
    ]
      where
        found :
            (n : ℕ)
            → search_crlf p.ba ≡ some n
            → (o : Outcome (Parser Bytes M)) → parsed p n ≡ o
            → (length p'.ba < length p.ba) × (p'.finish ≡ p.finish) × (p'.read_size ≡ p.read_size)
        found n s (ok q) o =
            let same : q ≡ p' = cc (sym (line_ok p q n s o) ∙ h) in
            let first = search_crlf_found p.ba n s in
            let (kept, finish, same_size) =
              local.keeps (take n p.ba) (record p { ba = drop (n + 2) p.ba }) q o in
            rw (← same) (
              omega (arith, ap length kept, length-drop (n + 2) p.ba, first.inside),
              finish,
              same_size,
            )
        found n s (err r) o = absurd (cc (sym (line_err p n r s o) ∙ h))

    line_round-stops :
        (p p' : Parser Bytes M)
        → line_round hooks plain parse p ≡ ok (stop p')
        → p'.read_size ≡ p.read_size
    line_round-stops p p' h = elim (Option-cases (search_crlf p.ba)) [
      | inl s ↦
          let same : p ≡ p' = cc (sym (line_missing p s) ∙ h) in ap (λ x. x.read_size) (sym same)
      | inr (n, s) ↦ absurd (found n s (parsed p n) refl)
    ]
      where
        found :
            (n : ℕ)
            → search_crlf p.ba ≡ some n
            → (o : Outcome (Parser Bytes M)) → parsed p n ≡ o
            → ⊥
        found n s (ok q) o = cc (sym (line_ok p q n s o) ∙ h)
        found n s (err r) o = cc (sym (line_err p n r s o) ∙ h)

  pub round_error : (p : Parser Bytes M) → p.error ≡ true → parse_round hooks plain p ≡ ok (stop p)
  unfolding parse_round
  round_error p e = simp e

  pub round_at :
      (p : Parser Bytes M) (state : ParseState)
      → p.error ≡ false
      → p.parse_state ≡ state
      → parse_round hooks plain p ≡ state_round hooks plain state p
  unfolding parse_round
  round_at p state e s = simp e (ap (λ t. state_round hooks plain t p) s)

  pub body_here :
      (p p' : Parser Bytes M)
      → body_round hooks plain p ≡ ok p'
      → state_round hooks plain in_body p ≡ ok (stop p')
  body_here p p' h = unfold state_round in simp h

  pub body_fails :
      (p : Parser Bytes M) (e : Error)
      → body_round hooks plain p ≡ err e
      → state_round hooks plain in_body p ≡ err e
  body_fails p e h = unfold state_round in simp h

  body_same :
      (p q : Parser Bytes M)
      → body_round hooks plain p ≡ body_round hooks plain q
      → state_round hooks plain in_body p ≡ state_round hooks plain in_body q
  body_same p q h =
      unfold state_round in ap (λ (o : Outcome (Parser Bytes M)). o >>= λ p'. ok (stop p')) h

  body-Resumes :
      (ys : Bytes) (p : Parser Bytes M)
      → is_done p ≡ false
      → parse_round hooks plain p ≡ state_round hooks plain in_body p
      → parse_round hooks plain (more ys p) ≡ state_round hooks plain in_body (more ys p)
      → p.parse_state ≡ in_body
      → Resumes (parse_round hooks plain) is_done (more ys) p
  body-Resumes ys p d e f s = by_result (body_round hooks plain p) refl
    where
      by_result :
          (o : Outcome (Parser Bytes M))
          → body_round hooks plain p ≡ o
          → Resumes (parse_round hooks plain) is_done (more ys) p
      by_result (ok p') o = elim (Bool-cases (is_done p')) [
        | inl d' ↦
            Resumes-ends p p' (e ∙ body_here p p' o) d'
              (f ∙ body_here (more ys p) (more ys p') ((body_round-resumes hooks ys p d).0 p' o d'))
        | inr d' ↦
            let again' : body_round hooks plain (more ys p) ≡ body_round hooks plain (more ys p') =
              (body_round-resumes hooks ys p d).1 p' o d' in
            let frame = body_round-SameFrame hooks p p' o in
            let later : parse_round hooks plain (more ys p')
                ≡ state_round hooks plain in_body (more ys p') =
              round_at (more ys p') in_body (ground arith) (frame.2 ∙ s) in
            Resumes-waits p p' (e ∙ body_here p p' o) d'
              (f ∙ body_same (more ys p) (more ys p') again' ∙ sym later)
      ]
      by_result (err r) o =
          Resumes-fails p r (e ∙ body_fails p r o)
            (f ∙ body_fails (more ys p) r ((body_round-resumes hooks ys p d).2 r o))

  state-Resumes :
      (ys : Bytes) (p : Parser Bytes M) (state : ParseState)
      → is_done p ≡ false
      → p.parse_state ≡ state
      → parse_round hooks plain p ≡ state_round hooks plain state p
      → parse_round hooks plain (more ys p) ≡ state_round hooks plain state (more ys p)
      → Resumes (parse_round hooks plain) is_done (more ys) p
  state-Resumes ys p first_line d s e f =
      unfold state_round in
      line_round-Resumes (parse_first_line hooks) first_line-IsLocal ys p d e f
  state-Resumes ys p header d s e f =
      unfold state_round in line_round-Resumes (parse_header hooks) header-IsLocal ys p d e f
  state-Resumes ys p in_body d s e f = body-Resumes ys p d e f s

  parse_round-Resumes :
      (ys : Bytes) (p : Parser Bytes M)
      → Unfinished p
      → Resumes (parse_round hooks plain) is_done (more ys) p
  parse_round-Resumes ys p u = elim (Bool-cases p.error) [
    | inl e ↦ Resumes-ends p p (round_error p e) (ground arith) (round_error (more ys p) e)
    | inr e ↦
        state-Resumes ys p p.parse_state (ground arith) refl (round_at p p.parse_state e refl)
          (round_at (more ys p) p.parse_state e refl)
  ]

  abbrev Advances : Parser Bytes M → Parser Bytes M → Type 0
  Advances p p' =
      (length p'.ba < length p.ba) × (p'.finish ≡ p.finish) × (p'.read_size ≡ p.read_size)

  state_round-Advances :
      (state : ParseState) (p p' : Parser Bytes M)
      → state_round hooks plain state p ≡ ok (again p')
      → Advances p p'
  unfolding state_round
  state_round-Advances first_line p p' h =
      line_round-Advances (parse_first_line hooks) first_line-IsLocal p p' h
  state_round-Advances header p p' h =
      line_round-Advances (parse_header hooks) header-IsLocal p p' h
  state_round-Advances in_body p p' h = by_result (body_round hooks plain p) refl
    where
      by_result : (o : Outcome (Parser Bytes M)) → body_round hooks plain p ≡ o → Advances p p'
      by_result (ok q) o = absurd (cc (sym (body_here p q o) ∙ h))
      by_result (err r) o = absurd (cc (sym (body_fails p r o) ∙ h))

  pub parse_round-Advances :
      (p p' : Parser Bytes M) → parse_round hooks plain p ≡ ok (again p') → Advances p p'
  parse_round-Advances p p' h = elim (Bool-cases p.error) [
    | inl e ↦ absurd (cc (sym (round_error p e) ∙ h))
    | inr e ↦ state_round-Advances p.parse_state p p' (sym (round_at p p.parse_state e refl) ∙ h)
  ]

  -- Draining part of the bytes and then the rest is draining all of them at once.
  pub drain-resumes :
      (ys : Bytes) (p : Parser Bytes M)
      → Unfinished p
      → Resumed (drain hooks plain) is_done (more ys) p
  unfolding drain
  drain-resumes ys =
      run-resumes (parse_round hooks plain) (λ p. length p.ba)
        (λ p p' h. (parse_round-Advances p p' h).0) is_done (more ys) Unfinished
        (λ p p' u h. (parse_round-Advances p p' h).1 ∙ u) (parse_round-Resumes ys)

  -- No round changes `readSize_`.
  state_round-read_size :
      (state : ParseState) (p p' : Parser Bytes M)
      → state_round hooks plain state p ≡ ok (stop p')
      → p'.read_size ≡ p.read_size
  unfolding state_round
  state_round-read_size first_line p p' h =
      line_round-stops (parse_first_line hooks) first_line-IsLocal p p' h
  state_round-read_size header p p' h = line_round-stops (parse_header hooks) header-IsLocal p p' h
  state_round-read_size in_body p p' h = by_result (body_round hooks plain p) refl
    where
      by_result :
          (o : Outcome (Parser Bytes M)) → body_round hooks plain p ≡ o → p'.read_size ≡ p.read_size
      by_result (ok q) o =
          let same : q ≡ p' = cc (sym (body_here p q o) ∙ h) in
          ap (λ x. x.read_size) (sym same) ∙ (body_round-SameFrame hooks p q o).3
      by_result (err r) o = absurd (cc (sym (body_fails p r o) ∙ h))

  parse_round-read_size :
      (p p' : Parser Bytes M)
      → parse_round hooks plain p ≡ ok (stop p')
      → p'.read_size ≡ p.read_size
  parse_round-read_size p p' h = elim (Bool-cases p.error) [
    | inl e ↦ let same : p ≡ p' = cc (sym (round_error p e) ∙ h) in ap (λ x. x.read_size) (sym same)
    | inr e ↦ state_round-read_size p.parse_state p p' (sym (round_at p p.parse_state e refl) ∙ h)
  ]

  pub drain-read_size :
      (p p' : Parser Bytes M) → drain hooks plain p ≡ ok p' → p'.read_size ≡ p.read_size
  unfolding drain
  drain-read_size p p' h =
      run-keeps (parse_round hooks plain) (λ x. x.read_size ≡ p.read_size)
        (λ x x' f e. (parse_round-Advances x x' e).2 ∙ f)
        (λ x x' f e. parse_round-read_size x x' e ∙ f) (λ x. length x.ba) p p' refl h
