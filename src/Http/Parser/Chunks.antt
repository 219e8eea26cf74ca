-- ===== src/Http/Parser/Chunks.antt =====
-- The loop of `parseChunkedBody` over a list of bytes: it ends, and where it stops for lack of bytes
-- it can be resumed.
use reyao.Common.{
  ℕ, ◌+◌, ◌-◌, ◌^◌, ◌≤◌, ◌<◌, ◌≡◌, refl, sym, ◌∙◌, arith, true, false, inl, inr, none, some, ◌++◌,
  leb, ◌==◌, length, take, drop, take_le, drop_le, length-append, length-drop, Bool-cases,
  Option-cases, ok, unfinished,
}
use reyao.Common.Bytes.{Bytes}
use reyao.Common.Words.{add64, sign_extend}
use reyao.Common.Loop.{
  again, stop, run-resumes, Resumes, Resumed, Resumes-again, Resumes-ends, Resumes-waits,
  Resumes-fails,
}
use reyao.Util.{hex_to_dec}
use reyao.ByteArray.{search_crlf}
use reyao.ByteArray.Search.{search_crlf-append, search_crlf_found}
use reyao.Http.Parser.{
  Parser, Hooks, ChunkState, chunk_size, chunk_content, is_done, chunk_round, chunk_start,
  content_round, chunk_measure, parse_chunked_body,
}
use reyao.Http.Parser.Sources.{plain, line_at}

abbrev pub more : {M : Type 0} → Bytes → Parser Bytes M → Parser Bytes M
more ys p = record p { ba = p.ba ++ ys }

-- A line that is there is there with more bytes behind it.
pub line_at-append :
    (xs ys : Bytes) (n : ℕ)
    → search_crlf xs ≡ some n
    → line_at (xs ++ ys) (search_crlf (xs ++ ys)) ≡ some (take n xs, drop (n + 2) xs ++ ys)
line_at-append xs ys n e =
    let first = search_crlf_found xs n e in
    rw (
      search_crlf-append xs ys n e,
      take_le n xs ys (omega (arith, first.inside)),
      drop_le (n + 2) xs ys first.inside,
    )

abbrev pub Unfinished : {M : Type 0} → Parser Bytes M → Type 0
Unfinished p = p.finish ≡ false

module _ {M : Type 0} (hooks : Hooks M) where
  -- The rounds of the chunk loop, one lemma for each way through them.
  pub chunk_line :
      (p : Parser Bytes M) (n : ℕ)
      → p.error ≡ false
      → (p.size == 0) ≡ true
      → search_crlf p.ba ≡ some n
      → chunk_round hooks plain p
        ≡ ok (chunk_start hooks plain (take n p.ba) (record p { ba = drop (n + 2) p.ba }))
  unfolding chunk_round
  chunk_line p n e z s = simp (e, z, s)

  pub chunk_line_missing :
      (p : Parser Bytes M)
      → p.error ≡ false
      → (p.size == 0) ≡ true
      → search_crlf p.ba ≡ none
      → chunk_round hooks plain p ≡ ok (stop p)
  unfolding chunk_round
  chunk_line_missing p e z s = simp (e, z, s)

  chunk_line_more :
      (p : Parser Bytes M) (n : ℕ) (ys : Bytes)
      → p.error ≡ false
      → (p.size == 0) ≡ true
      → search_crlf p.ba ≡ some n
      → chunk_round hooks plain (more ys p)
        ≡ ok (chunk_start hooks plain (take n p.ba) (record p { ba = drop (n + 2) p.ba ++ ys }))
  unfolding chunk_round
  chunk_line_more p n ys e z s = simp (e, z, line_at-append p.ba ys n s)

  pub chunk_other :
      (p : Parser Bytes M)
      → p.error ≡ false
      → (p.size == 0) ≡ false
      → chunk_round hooks plain p ≡ content_round hooks plain p.chunk_state p
  unfolding chunk_round
  chunk_other p e z = simp (e, z)

  pub chunk_error : (p : Parser Bytes M) → p.error ≡ true → chunk_round hooks plain p ≡ ok (stop p)
  unfolding chunk_round
  chunk_error p e = simp e

  -- A size line makes the same of the parser whatever is behind it, and ends the loop only by
  -- finishing or by an error.
  chunk_start-Resumes :
      (p : Parser Bytes M) (line rest ys : Bytes)
      → chunk_round hooks plain p ≡ ok (chunk_start hooks plain line (record p { ba = rest }))
      → chunk_round hooks plain (more ys p)
        ≡ ok (chunk_start hooks plain line (record p { ba = rest ++ ys }))
      → Resumes (chunk_round hooks plain) is_done (more ys) p
  unfolding chunk_start
  chunk_start-Resumes p line rest ys e f =
      let size = sign_extend (hex_to_dec line) in
      elim (Bool-cases (size == 2 ^ 64 - 1)) [
        | inl bad ↦
            Resumes-ends p (record p { ba = rest; size = size; error = true }) (e ∙ simp bad)
              (ground arith) (f ∙ simp bad)
        | inr good ↦ elim (Bool-cases (size == 0)) [
          | inl last ↦
              Resumes-ends p
                (record p {
                  ba = rest;
                  size = 0;
                  message = hooks.set_body p.body p.message;
                  finish = true;
                })
                (e ∙ simp (good, last)) refl (f ∙ simp (good, last))
          | inr long ↦
              Resumes-again p (record p { ba = rest; size = size; chunk_state = chunk_content })
                (e ∙ simp (good, long)) (f ∙ simp (good, long))
        ]
      ]

  chunk_content-Resumes :
      (p : Parser Bytes M) (ys : Bytes)
      → is_done p ≡ false
      → (state : ChunkState) → chunk_round hooks plain p ≡ content_round hooks plain state p
      → chunk_round hooks plain (more ys p) ≡ content_round hooks plain state (more ys p)
      → Resumes (chunk_round hooks plain) is_done (more ys) p
  unfolding content_round
  chunk_content-Resumes p ys d chunk_size e f = Resumes-fails p unfinished e f
  chunk_content-Resumes p ys d chunk_content e f =
      let n = add64 p.size 2 in
      elim (Bool-cases (leb n (length p.ba))) [
        | inl there ↦
            let h : n ≤ length p.ba = ground arith in
            let long : leb n (length (p.ba ++ ys)) ≡ true = ground (arith, length-append p.ba ys) in
            Resumes-again p
              (record p {
                ba = drop n p.ba;
                body = p.body ++ take n p.ba;
                size = 0;
                chunk_state = chunk_size;
              })
              (e ∙ simp there) (f ∙ simp (long, take_le n p.ba ys h, drop_le n p.ba ys h))
        | inr short ↦ Resumes-waits p p (e ∙ simp short) d refl
      ]

  chunk_round-Resumes :
      (ys : Bytes) (p : Parser Bytes M)
      → p.finish ≡ false
      → Resumes (chunk_round hooks plain) is_done (more ys) p
  chunk_round-Resumes ys p f = elim (Bool-cases p.error) [
    | inl e ↦ Resumes-ends p p (chunk_error p e) (ground arith) (chunk_error (more ys p) e)
    | inr e ↦ elim (Bool-cases (p.size == 0)) [
      | inl z ↦ elim (Option-cases (search_crlf p.ba)) [
        | inl s ↦ Resumes-waits p p (chunk_line_missing p e z s) (ground arith) refl
        | inr (n, s) ↦
            chunk_start-Resumes p (take n p.ba) (drop (n + 2) p.ba) ys (chunk_line p n e z s)
              (chunk_line_more p n ys e z s)
      ]
      | inr z ↦
          chunk_content-Resumes p ys (ground arith) p.chunk_state (chunk_other p e z)
            (chunk_other (more ys p) e z)
    ]
  ]

  -- A round after which the loop goes on has used up input or ended a chunk.
  abbrev pub Advances : Parser Bytes M → Parser Bytes M → Type 0
  Advances p p' =
      (chunk_measure hooks plain p' < chunk_measure hooks plain p) × (p'.finish ≡ p.finish)

  chunk_start-Advances :
      (p p' : Parser Bytes M) (line rest : Bytes)
      → (p.size == 0) ≡ true
      → length rest + 2 ≤ length p.ba
      → chunk_start hooks plain line (record p { ba = rest }) ≡ again p'
      → Advances p p'
  unfolding chunk_start
  chunk_start-Advances p p' line rest z short h =
      let size = sign_extend (hex_to_dec line) in
      elim (Bool-cases (size == 2 ^ 64 - 1)) [
        | inl bad ↦ absurd (cc (simp bad at h))
        | inr good ↦ elim (Bool-cases (size == 0)) [
          | inl last ↦ absurd (cc (simp (good, last) at h))
          | inr long ↦
              let q : Parser Bytes M = record p {
                ba = rest;
                size = size;
                chunk_state = chunk_content;
              } in
              let same : q ≡ p' = cc (simp (good, long) at h) in
              rw (← same) (simp (z, long) (omega arith), refl)
        ]
      ]

  content-Advances :
      (state : ChunkState) (p p' : Parser Bytes M)
      → (p.size == 0) ≡ false
      → content_round hooks plain state p ≡ ok (again p')
      → Advances p p'
  unfolding content_round
  content-Advances chunk_size p p' z h = absurd (cc h)
  content-Advances chunk_content p p' z h =
      let n = add64 p.size 2 in
      elim (Bool-cases (leb n (length p.ba))) [
        | inl there ↦
            let q : Parser Bytes M = record p {
              ba = drop n p.ba;
              body = p.body ++ take n p.ba;
              size = 0;
              chunk_state = chunk_size;
            } in
            let same : q ≡ p' = cc (simp there at h) in
            rw (← same) (simp z (omega (arith, length-drop n p.ba)), refl)
        | inr short ↦ absurd (cc (simp short at h))
      ]

  pub chunk_round-Advances :
      (p p' : Parser Bytes M) → chunk_round hooks plain p ≡ ok (again p') → Advances p p'
  chunk_round-Advances p p' h = elim (Bool-cases p.error) [
    | inl e ↦ absurd (cc (sym (chunk_error p e) ∙ h))
    | inr e ↦ elim (Bool-cases (p.size == 0)) [
      | inl z ↦ elim (Option-cases (search_crlf p.ba)) [
        | inl s ↦ absurd (cc (sym (chunk_line_missing p e z s) ∙ h))
        | inr (n, s) ↦
            let first = search_crlf_found p.ba n s in
            let started : chunk_start hooks plain (take n p.ba)
                  (record p { ba = drop (n + 2) p.ba })
                ≡ again p' =
              cc (sym (chunk_line p n e z s) ∙ h) in
            chunk_start-Advances p p' (take n p.ba) (drop (n + 2) p.ba) z
              (omega (arith, length-drop (n + 2) p.ba, first.inside)) started
      ]
      | inr z ↦ content-Advances p.chunk_state p p' z (sym (chunk_other p e z) ∙ h)
    ]
  ]

  pub parse_chunked_body-resumes :
      (ys : Bytes) (p : Parser Bytes M)
      → Unfinished p
      → Resumed (parse_chunked_body hooks plain) is_done (more ys) p
  unfolding parse_chunked_body
  parse_chunked_body-resumes ys =
      run-resumes (chunk_round hooks plain) (chunk_measure hooks plain)
        (λ p p' h. (chunk_round-Advances p p' h).0) is_done (more ys) Unfinished
        (λ p p' u h. (chunk_round-Advances p p' h).1 ∙ u) (chunk_round-Resumes ys)
