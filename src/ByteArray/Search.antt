-- ===== src/ByteArray/Search.antt =====
-- `findCRLF`: the first line end among the readable bytes.
use reyao.Common.{
  ℕ, zero, suc, ◌<◌, ◌≢◌, sym, ◌+◌, ◌≤◌, ◌≡◌, refl, ap, ◌∙◌, arith, Bool, true, false, ◌&&◌, ◌⊎◌,
  inl, inr, none, some, [], ◌∷◌, ◌++◌, length, drop, ◌==◌, ok, Option-cases, Bool-cases,
}
use reyao.Common.Bytes.{Bytes}
use reyao.ByteArray.{ByteArray, starts_with, search_crlf, find_crlf}
use reyao.ByteArray.Contents.{IsValid, contents}
use reyao.ByteArray.Reading.{peek_lem}

abbrev is_crlf : ℕ → Bytes → Bool
is_crlf x xs = x == 13 && starts_with 10 xs

-- One step of a search that found something.
search_crlf-cons :
    (x : ℕ) (xs : Bytes) (n : ℕ)
    → search_crlf (x ∷ xs) ≡ some n
    → ((is_crlf x xs ≡ true) × (n ≡ 0))
      ⊎ ((is_crlf x xs ≡ false) × (m : ℕ) × (search_crlf xs ≡ some m) × (n ≡ suc m))
unfolding search_crlf
search_crlf-cons x xs n h = elim (Bool-cases (is_crlf x xs)) [
  | inl here ↦ inl (here, ground (arith, here))
  | inr later ↦ elim (Option-cases (search_crlf xs)) [
    | inl missing ↦ absurd (cc (rw (later, missing) at h))
    | inr (m, found) ↦ inr (later, m, found, ground (arith, rw (later, found) at h))
  ]
]

is_crlf-append : (x : ℕ) (xs ys : Bytes) → is_crlf x xs ≡ true → is_crlf x (xs ++ ys) ≡ true
is_crlf-append x [] ys h = ground arith
is_crlf-append x (y ∷ xs) ys h = h

search_crlf_here : (x : ℕ) (xs : Bytes) → is_crlf x xs ≡ true → search_crlf (x ∷ xs) ≡ some 0
unfolding search_crlf
search_crlf_here x xs h = rw h

search_crlf_later :
    (x : ℕ) (xs : Bytes) (m : ℕ)
    → is_crlf x xs ≡ false
    → search_crlf xs ≡ some m
    → search_crlf (x ∷ xs) ≡ some (suc m)
unfolding search_crlf
search_crlf_later x xs m h e = rw (h, e)

is_crlf_settled :
    (x : ℕ) (xs ys : Bytes) (m : ℕ) → search_crlf xs ≡ some m → is_crlf x (xs ++ ys) ≡ is_crlf x xs
is_crlf_settled x [] ys m e = unfold search_crlf in cc e
is_crlf_settled x (y ∷ xs) ys m e = refl

-- A line end that is found stays where it is when more bytes come.
pub search_crlf-append :
    (xs ys : Bytes) (n : ℕ) → search_crlf xs ≡ some n → search_crlf (xs ++ ys) ≡ some n
search_crlf-append [] ys n h = unfold search_crlf in cc h
search_crlf-append (x ∷ xs) ys n h = elim (search_crlf-cons x xs n h) [
  | inl (here, e) ↦ rw e (search_crlf_here x (xs ++ ys) (is_crlf-append x xs ys here))
  | inr (later, m, found, e) ↦ rw e (
      search_crlf_later x (xs ++ ys) m (is_crlf_settled x xs ys m found ∙ later)
        (search_crlf-append xs ys m found))
]

-- What is found is a line end, and at no position in front of it is there another one.
pub record IsFirst (xs : Bytes) (n : ℕ) : Type 0 where
  pub inside : n + 2 ≤ length xs
  pub crlf : drop n xs ≡ 13 ∷ 10 ∷ drop (suc (suc n)) xs
  pub none_before : (j : ℕ) (rest : Bytes) → j < n → drop j xs ≢ 13 ∷ 10 ∷ rest

is_crlf-shape :
    (x : ℕ) (xs : Bytes) → is_crlf x xs ≡ true → (x ≡ 13) × (xs ≡ 10 ∷ drop 1 xs) × (1 ≤ length xs)
is_crlf-shape x [] h = ground arith
is_crlf-shape x (y ∷ xs) h = ground arith

is_crlf-text : (x : ℕ) (xs rest : Bytes) → x ∷ xs ≡ 13 ∷ 10 ∷ rest → is_crlf x xs ≡ true
is_crlf-text x [] rest h = absurd (cc h)
is_crlf-text x (y ∷ xs) rest h =
    let cr : x ≡ 13 = cc h in let lf : y ≡ 10 = cc h in simp (cr, lf) refl

-- No line end at the first position, and none in the rest.
none_before-cons :
    (x : ℕ) (xs : Bytes) (m : ℕ)
    → is_crlf x xs ≡ false
    → ((j : ℕ) (rest : Bytes) → j < m → drop j xs ≢ 13 ∷ 10 ∷ rest)
    → (j : ℕ) (rest : Bytes) → j < suc m
    → drop j (x ∷ xs) ≢ 13 ∷ 10 ∷ rest
none_before-cons x xs m here later zero rest h p = absurd (cc (sym here ∙ is_crlf-text x xs rest p))
none_before-cons x xs m here later (suc j) rest h p = later j rest (omega (arith, h)) p

-- If the search for CRLF ends at `n`, then CRLF stands at `n` with both its bytes inside the text,
-- and at no position before `n` do the bytes CR and LF stand.
pub search_crlf_found : (xs : Bytes) (n : ℕ) → search_crlf xs ≡ some n → IsFirst xs n
search_crlf_found [] n h = unfold search_crlf in absurd (cc h)
search_crlf_found (x ∷ xs) n h = elim (search_crlf-cons x xs n h) [
  | inl (here, e) ↦
      let (cr, lf, long) = is_crlf-shape x xs here in
      rw e (record {
        inside = omega (arith, long);
        crlf = rw cr (ap (◌∷◌ 13) lf);
        none_before = λ j rest h p. omega (arith, h);
      })
  | inr (later, m, found, e) ↦
      let ih = search_crlf_found xs m found in
      rw e (record {
        inside = omega (arith, ih.inside);
        crlf = ih.crlf;
        none_before = none_before-cons x xs m later ih.none_before;
      })
]

-- In a text that has a CRLF behind its first part, the search for CRLF finds one, at most as far as
-- the end of that part.
pub search_crlf_complete :
    (xs ys : Bytes) → (n : ℕ) × (search_crlf (xs ++ 13 ∷ 10 ∷ ys) ≡ some n) × (n ≤ length xs)
search_crlf_complete [] ys = (0, search_crlf_here 13 (10 ∷ ys) refl, omega arith)
search_crlf_complete (x ∷ xs) ys =
    let (m, found, h) = search_crlf_complete xs ys in
    let rest = xs ++ 13 ∷ 10 ∷ ys in
    elim (Bool-cases (is_crlf x rest)) [
      | inl here ↦ (0, search_crlf_here x rest here, omega arith)
      | inr later ↦ (suc m, search_crlf_later x rest m later found, omega arith)
    ]

search_crlf-none :
    (x : ℕ) (xs : Bytes)
    → search_crlf (x ∷ xs) ≡ none
    → (is_crlf x xs ≡ false) × (search_crlf xs ≡ none)
unfolding search_crlf
search_crlf-none x xs h = elim (Bool-cases (is_crlf x xs)) [
  | inl here ↦ absurd (cc (rw here at h))
  | inr later ↦ elim (Option-cases (search_crlf xs)) [
    | inl missing ↦ (later, missing)
    | inr (m, found) ↦ absurd (cc (rw (later, found) at h))
  ]
]

is_crlf_line :
    (x : ℕ) (line ys : Bytes) → is_crlf x (line ++ 13 ∷ 10 ∷ ys) ≡ is_crlf x (line ++ 13 ∷ [])
is_crlf_line x [] ys = refl
is_crlf_line x (y ∷ line) ys = refl

-- A line with no line end in it, also not across its last byte, is found whole.
pub search_crlf_line :
    (line ys : Bytes)
    → search_crlf (line ++ 13 ∷ []) ≡ none
    → search_crlf (line ++ 13 ∷ 10 ∷ ys) ≡ some (length line)
search_crlf_line [] ys h = search_crlf_here 13 (10 ∷ ys) refl
search_crlf_line (x ∷ line) ys h =
    let (later, rest) = search_crlf-none x (line ++ 13 ∷ []) h in
    search_crlf_later x (line ++ 13 ∷ 10 ∷ ys) (length line) (is_crlf_line x line ys ∙ later)
      (search_crlf_line line ys rest)

pub find_crlf_lem : (ba : ByteArray) → IsValid ba → find_crlf ba ≡ ok (search_crlf (contents ba))
unfolding find_crlf
find_crlf_lem ba v = rw (peek_lem ba v)
