-- ===== src/Http/Parser/Termination.antt =====
-- Http/Parser.antt: what is known of a chunk that has been begun, and the end of the loops over the body.
pub mod Rounds
use reyao.Common.{
  ℕ, ◌+◌, ◌^◌, ◌-◌, ◌≡◌, ◌≢◌, refl, sym, ap, subst, ◌∙◌, arith, Bool, true, false, not, ◌&&◌, ◌||◌,
  inl, inr, ◌⊎◌, Option, none, some, List, [], ◌∷◌, ◌==◌, leb, if◌then◌else◌, length, take, drop,
  Bool-cases, Option-cases, Outcome, ok, err, ◌>>=◌, Error, unfinished,
}
use reyao.Common.Bytes.{Bytes}
use reyao.Common.Words.{add64, sign_extend}
use reyao.Common.Loop.{Round, again, stop, run, run-ends, run-keeps}
use reyao.Util.{hex_to_dec, stoi, stoi-ends, find_char}
use reyao.ByteArray.{search_crlf}
use reyao.Http.Parser.{
  Parser, Hooks, ParseState, first_line, header, in_body, ChunkState, chunk_size, chunk_content,
  chunk_round, chunk_start, chunk_end, content_round, chunk_measure, parse_chunked_body, body_round,
  drain, parse, parse_round, state_round, line_round, parse_first_line, parse_header, accept_header,
  header_value,
}
use reyao.Http.Parser.Bodies.{
  fixed_end, body_round_chunked, body_round_empty, body_round_there, body_round_short,
}
use reyao.Http.Parser.Resume.{
  round_error, round_at, body_here, body_fails, parsed, line_ok, line_err, line_missing,
  first_line-IsLocal, header-IsLocal, parse_round-Advances, IsLocal,
}
use reyao.Http.Parser.Sources.{plain, deliver}
use reyao.SocketStream.{Recv}
use reyao.Http.Parser.Chunks.{
  chunk_line, chunk_line_missing, chunk_other, chunk_error, chunk_round-Advances,
}

-- A chunk that has been begun is read on.
abbrev pub InChunk : {B M : Type 0} → Parser B M → Type 0
InChunk p = p.error ≡ false → (p.size == 0) ≡ false → p.chunk_state ≡ chunk_content

module _ {M : Type 0} (hooks : Hooks M) where
  chunk_start-InChunk :
      (line : Bytes) (p p' : Parser Bytes M)
      → (p.size == 0) ≡ true
      → (chunk_start hooks plain line p ≡ again p') ⊎ (chunk_start hooks plain line p ≡ stop p')
      → InChunk p'
  unfolding chunk_start
  chunk_start-InChunk line p p' z h = ground arith

  content-InChunk :
      (state : ChunkState) (p p' : Parser Bytes M)
      → state ≡ chunk_content
      → p.chunk_state ≡ chunk_content
      → (content_round hooks plain state p ≡ ok (again p'))
        ⊎ (content_round hooks plain state p ≡ ok (stop p'))
      → InChunk p'
  unfolding content_round
  content-InChunk chunk_size p p' e f h = absurd (cc e)
  content-InChunk chunk_content p p' e f h = ground arith

  content-ends :
      (state : ChunkState) (p : Parser Bytes M)
      → state ≡ chunk_content
      → content_round hooks plain state p ≢ err unfinished
  unfolding content_round
  content-ends chunk_size p e = absurd (cc e)
  content-ends chunk_content p e = λ h. cc h

  chunk_round-InChunk :
      (p p' : Parser Bytes M)
      → InChunk p
      → (chunk_round hooks plain p ≡ ok (again p')) ⊎ (chunk_round hooks plain p ≡ ok (stop p'))
      → InChunk p'
  chunk_round-InChunk p p' inv h = elim (Bool-cases p.error) [
    | inl e ↦ stays p (chunk_error hooks p e) inv h
    | inr e ↦ elim (Bool-cases (p.size == 0)) [
      | inl z ↦ elim (Option-cases (search_crlf p.ba)) [
        | inl s ↦ stays p (chunk_line_missing hooks p e z s) inv h
        | inr (n, s) ↦
            chunk_start-InChunk (take n p.ba) (record p { ba = drop (n + 2) p.ba }) p' z
              (ground (arith, chunk_line hooks p n e z s))
      ]
      | inr z ↦
          content-InChunk p.chunk_state p p' (inv e z) (inv e z)
            (ground (arith, chunk_other hooks p e z))
    ]
  ]
    where
      stays :
          (p : Parser Bytes M)
          → chunk_round hooks plain p ≡ ok (stop p)
          → InChunk p
          → (chunk_round hooks plain p ≡ ok (again p')) ⊎ (chunk_round hooks plain p ≡ ok (stop p'))
          → InChunk p'
      stays p e inv (inl h) = absurd (cc (sym e ∙ h))
      stays p e inv (inr h) = let same : p ≡ p' = cc (sym e ∙ h) in subst InChunk same inv

  chunk_round-ends : (p : Parser Bytes M) → InChunk p → chunk_round hooks plain p ≢ err unfinished
  chunk_round-ends p inv h = elim (Bool-cases p.error) [
    | inl e ↦ absurd (cc (sym (chunk_error hooks p e) ∙ h))
    | inr e ↦ elim (Bool-cases (p.size == 0)) [
      | inl z ↦ elim (Option-cases (search_crlf p.ba)) [
        | inl s ↦ absurd (cc (sym (chunk_line_missing hooks p e z s) ∙ h))
        | inr (n, s) ↦ absurd (cc (sym (chunk_line hooks p n e z s) ∙ h))
      ]
      | inr z ↦ content-ends p.chunk_state p (inv e z) (sym (chunk_other hooks p e z) ∙ h)
    ]
  ]

  pub parse_chunked_body-ends :
      (p : Parser Bytes M) → InChunk p → parse_chunked_body hooks plain p ≢ err unfinished
  unfolding parse_chunked_body
  parse_chunked_body-ends p inv =
      run-ends (chunk_round hooks plain) (chunk_measure hooks plain)
        (λ p p' h. (chunk_round-Advances hooks p p' h).0) InChunk
        (λ p p' inv h. chunk_round-InChunk p p' inv (inl h)) chunk_round-ends p inv

  parse_chunked_body-InChunk :
      (p p' : Parser Bytes M) → InChunk p → parse_chunked_body hooks plain p ≡ ok p' → InChunk p'
  unfolding parse_chunked_body
  parse_chunked_body-InChunk p p' inv h =
      run-keeps (chunk_round hooks plain) InChunk
        (λ p p' inv h. chunk_round-InChunk p p' inv (inl h))
        (λ p p' inv h. chunk_round-InChunk p p' inv (inr h)) (chunk_measure hooks plain) p p' inv h

  -- How the branch for the body ends.
  data BodyEnd (p : Parser Bytes M) : Type 0 where
    chunks : body_round hooks plain p ≡ parse_chunked_body hooks plain p → BodyEnd p
    fixed : (q : Parser Bytes M) → body_round hooks plain p ≡ ok q → InChunk q → BodyEnd p

  body_end : (p : Parser Bytes M) → InChunk p → BodyEnd p
  body_end p inv = elim (Bool-cases p.chunked) [
    | inl c ↦ chunks (body_round_chunked hooks p c)
    | inr c ↦ elim (Bool-cases (p.content_len == 0)) [
      | inl z ↦ fixed (record p { finish = true }) (body_round_empty hooks p c z) inv
      | inr z ↦ elim (Bool-cases (leb p.content_len (length p.ba))) [
        | inl there ↦ fixed (fixed_end hooks p) (body_round_there hooks p c z there) inv
        | inr short ↦ fixed p (body_round_short hooks p c z short) inv
      ]
    ]
  ]

  pub body_round-ends : (p : Parser Bytes M) → InChunk p → body_round hooks plain p ≢ err unfinished
  body_round-ends p inv h = elim (body_end p inv) [
    | chunks e ↦ parse_chunked_body-ends p inv (sym e ∙ h)
    | fixed q e i ↦ absurd (cc (sym e ∙ h))
  ]

  pub body_round-InChunk :
      (p p' : Parser Bytes M) → InChunk p → body_round hooks plain p ≡ ok p' → InChunk p'
  body_round-InChunk p p' inv h = elim (body_end p inv) [
    | chunks e ↦ parse_chunked_body-InChunk p p' inv (sym e ∙ h)
    | fixed q e i ↦ let same : q ≡ p' = cc (sym e ∙ h) in subst InChunk same i
  ]
