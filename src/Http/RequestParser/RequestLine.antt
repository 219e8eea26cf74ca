-- ===== src/Http/RequestParser/RequestLine.antt =====
-- The request line that HttpRequest::dump writes is read back by HttpRequestParser::parseFirstLine.
use reyao.Common.{
  ℕ, suc, ◌+◌, ◌≡◌, ◌≢◌, refl, sym, ap, ◌∙◌, arith, true, false, Option, none, some, [], ◌∷◌, ◌++◌,
  ◌==◌, if◌then◌else◌, take, drop, length, Bool-cases, ◌⊎◌, inl, inr, take_front, append-nil,
}
use mathlib.Core.Option
use reyao.Common.Bytes.{Bytes}
use reyao.Util.{find_char, decimal, codes}
use reyao.Http.Request.{
  HttpRequest, HttpMethod, get, head, post, invalid_method, request_line, marked, method_to_string,
  string_to_method, is_empty, dump_version,
}
use reyao.Http.RequestParser.{
  parse_first_line, parse_target, parse_parts, at_method, parse_uri, cut_at, then_uri, at_space,
  at_version, at_path, set_part, version_of, UriPart, fragment_part, query_part, path_part, mark,
}

-- The text has no such character.
abbrev pub Lacks : ℕ → Bytes → Type 0
Lacks c xs = find_char c xs ≡ none

pub find_char-here :
    (c : ℕ) (xs ys : Bytes) → Lacks c xs → find_char c (xs ++ c ∷ ys) ≡ some (length xs)
unfolding find_char
find_char-here c [] ys h = let e : (c == c) ≡ true = ground arith in simp e
find_char-here c (x ∷ xs) ys h = elim (Bool-cases (x == c)) [
  | inl e ↦ absurd (cc (simp e at h))
  | inr e ↦ simp (e, find_char-here c xs ys (rest (find_char c xs) (simp e at h)))
]
  where
    rest : (o : Option ℕ) → Option.map suc o ≡ none → o ≡ none
    rest none h = refl
    rest (some n) h = absurd (cc h)

pub find_char-append : (c : ℕ) (xs ys : Bytes) → Lacks c xs → Lacks c ys → Lacks c (xs ++ ys)
unfolding find_char
find_char-append c [] ys h k = k
find_char-append c (x ∷ xs) ys h k = elim (Bool-cases (x == c)) [
  | inl e ↦ absurd (cc (simp e at h))
  | inr e ↦ simp (e, find_char-append c xs ys (rest (find_char c xs) (simp e at h)) k)
]
  where
    rest : (o : Option ℕ) → Option.map suc o ≡ none → o ≡ none
    rest none h = refl
    rest (some n) h = absurd (cc h)

-- A part that is there only if it is not empty.
abbrev pub given : Bytes → Bytes → Bytes
given new old = if is_empty new then old else new

parse_uri_none :
    (part : UriPart) (text : Bytes) (req : HttpRequest)
    → Lacks (mark part) text
    → parse_uri part text req ≡ (text, req)
unfolding parse_uri cut_at
parse_uri_none part text req h = ap (cut_at part text req) h

parse_uri_some :
    (part : UriPart) (xs ys : Bytes) (req : HttpRequest)
    → Lacks (mark part) xs
    → parse_uri part (xs ++ mark part ∷ ys) req
      ≡ (xs, set_part part (length xs) (xs ++ mark part ∷ ys) req)
unfolding parse_uri cut_at
parse_uri_some part xs ys req h =
    let text = xs ++ mark part ∷ ys in
    ap (cut_at part text req) (find_char-here (mark part) xs ys h)
    ∙ ap (λ t. (t, set_part part (length xs) text req))
        (take_front xs (mark part ∷ ys) (length xs) refl)

drop_mark : (c : ℕ) (xs ys : Bytes) → drop (length xs + 1) (xs ++ c ∷ ys) ≡ ys
drop_mark c [] ys = refl
drop_mark c (x ∷ xs) ys =
    let longer : suc (length xs) + 1 ≡ suc (length xs + 1) = omega arith in
    rw longer (drop_mark c xs ys)

-- What `parseURI` takes off behind `#` or `?`.
parse_fragment :
    (xs fragment : Bytes) (req : HttpRequest)
    → Lacks b'#' xs
    → parse_uri fragment_part (xs ++ marked b'#' fragment) req
      ≡ (xs, record req { fragment = given fragment req.fragment })
unfolding marked set_part
parse_fragment xs [] req h =
    ap (λ t. parse_uri fragment_part t req) (append-nil xs) ∙ parse_uri_none fragment_part xs req h
parse_fragment xs (c ∷ cs) req h =
    parse_uri_some fragment_part xs (c ∷ cs) req h
    ∙ ap (λ t. (xs, record req { fragment = t })) (drop_mark b'#' xs (c ∷ cs))

parse_query :
    (xs query : Bytes) (req : HttpRequest)
    → Lacks b'?' xs
    → parse_uri query_part (xs ++ marked b'?' query) req
      ≡ (xs, record req { query = given query req.query })
unfolding marked set_part
parse_query xs [] req h =
    ap (λ t. parse_uri query_part t req) (append-nil xs) ∙ parse_uri_none query_part xs req h
parse_query xs (c ∷ cs) req h =
    parse_uri_some query_part xs (c ∷ cs) req h
    ∙ ap (λ t. (xs, record req { query = t })) (drop_mark b'?' xs (c ∷ cs))

abbrev target : Bytes → Bytes → Bytes → Bytes
target path query fragment = path ++ marked b'?' query ++ marked b'#' fragment

parse_parts-target :
    (p query fragment : Bytes) (req : HttpRequest)
    → Lacks b'?' (b'/' ∷ p)
    → Lacks b'#' ((b'/' ∷ p) ++ marked b'?' query)
    → parse_parts (target (b'/' ∷ p) query fragment) req ≡ record req {
      path = b'/' ∷ p;
      query = given query req.query;
      fragment = given fragment req.fragment;
    }
unfolding parse_parts
parse_parts-target p query fragment req no_query no_fragment =
    let path = b'/' ∷ p in
    let with_fragment : HttpRequest = record req { fragment = given fragment req.fragment } in
    let first = parse_fragment (path ++ marked b'?' query) fragment req no_fragment in
    let second = parse_query path query with_fragment no_query in
    let with_query : HttpRequest = record with_fragment { query = given query req.query } in
    let third : parse_uri path_part path with_query ≡ ([], record with_query { path = path }) =
      parse_uri_some path_part [] p with_query refl in
    ap (λ r. (then_uri path_part (then_uri query_part r)).1) first
    ∙ ap (λ r. (then_uri path_part r).1) second
    ∙ ap (λ r. r.1) third

parse_target_lem :
    (p query fragment version : Bytes) (v : ℕ) (req : HttpRequest)
    → Lacks b' ' (target (b'/' ∷ p) query fragment)
    → Lacks b'?' (b'/' ∷ p)
    → Lacks b'#' ((b'/' ∷ p) ++ marked b'?' query)
    → version_of version ≡ some v
    → parse_target (target (b'/' ∷ p) query fragment ++ (b' ' ∷ version)) req ≡ (
      false,
      record req {
        version = v;
        path = b'/' ∷ p;
        query = given query req.query;
        fragment = given fragment req.fragment;
      },
    )
unfolding parse_target at_space at_version at_path
parse_target_lem p query fragment version v req no_space no_query no_fragment known =
    let text = target (b'/' ∷ p) query fragment in
    let rest = text ++ (b' ' ∷ version) in
    let slash : find_char b'/' text ≡ some 0 = refl in
    ap (at_space rest req) (find_char-here b' ' text version no_space)
    ∙ ap (λ t. at_version t req (version_of (drop (length text + 1) rest)))
        (take_front text (b' ' ∷ version) (length text) refl)
    ∙ ap (λ t. at_version text req (version_of t)) (drop_mark b' ' text version)
    ∙ ap (at_version text req) known
    ∙ ap (at_path text (record req { version = v })) slash
    ∙ ap (λ r. (false, r))
        (parse_parts-target p query fragment (record req { version = v }) no_query no_fragment)

-- A request that can stand in a request line.
abbrev pub IsSendable : HttpRequest → Bytes → Type 0
IsSendable sent p =
    (sent.path ≡ b'/' ∷ p)
    × (sent.method ≢ invalid_method)
    × ((sent.version ≡ 0x10) ⊎ (sent.version ≡ 0x11))
    × Lacks b' ' p
    × Lacks b' ' sent.query
    × Lacks b' ' sent.fragment
    × Lacks b'?' p
    × Lacks b'#' p
    × Lacks b'#' sent.query

Lacks-cons : (c x : ℕ) (xs : Bytes) → (x == c) ≡ false → Lacks c xs → Lacks c (x ∷ xs)
unfolding find_char
Lacks-cons c x xs e h = simp (e, h)

Lacks-marked : (c m : ℕ) (text : Bytes) → (m == c) ≡ false → Lacks c text → Lacks c (marked m text)
unfolding marked
Lacks-marked c m [] e h = h
Lacks-marked c m (x ∷ xs) e h = Lacks-cons c m (x ∷ xs) e h

method-reads : (m : HttpMethod) → m ≢ invalid_method → string_to_method (method_to_string m) ≡ m
unfolding string_to_method method_to_string
method-reads get n = refl
method-reads head n = refl
method-reads post n = refl
method-reads invalid_method n = absurd (n refl)

method-Lacks : (m : HttpMethod) → m ≢ invalid_method → Lacks b' ' (method_to_string m)
unfolding find_char method_to_string
method-Lacks get n = refl
method-Lacks head n = refl
method-Lacks post n = refl
method-Lacks invalid_method n = absurd (n refl)

version-reads :
    (v : ℕ) → (v ≡ 0x10) ⊎ (v ≡ 0x11) → version_of (codes "HTTP/" ++ dump_version v) ≡ some v
unfolding version_of decimal
version-reads v (inl e) = rw e refl
version-reads v (inr e) = rw e refl

-- For a request with a valid method, version 0x10 or 0x11, a path that starts with '/' and has no
-- space, '?' or '#', a query with no space or '#' and a fragment with no space: the request line
-- that `dump` writes is parsed without an error, and gives the parser's request that method,
-- version and path, and the query and the fragment where they are not empty; its other fields keep
-- their values.
pub parse_first_line-request_line :
    (sent req : HttpRequest) (p : Bytes)
    → IsSendable sent p
    → parse_first_line (request_line sent) req ≡ (
      false,
      record req {
        method = sent.method;
        version = sent.version;
        path = sent.path;
        query = given sent.query req.query;
        fragment = given sent.fragment req.fragment;
      },
    )
unfolding parse_first_line at_method request_line
parse_first_line-request_line sent req p (path, known, version, ps, qs, fs, pq, pf, qf) =
    let name = method_to_string sent.method in
    let version_text = codes "HTTP/" ++ dump_version sent.version in
    let text = target (b'/' ∷ p) sent.query sent.fragment in
    let rest = text ++ (b' ' ∷ version_text) in
    let line = name ++ (b' ' ∷ rest) in
    let with_method : HttpRequest = record req { method = sent.method } in
    let no_space : Lacks b' ' text =
      find_char-append b' ' ((b'/' ∷ p) ++ marked b'?' sent.query) (marked b'#' sent.fragment)
        (find_char-append b' ' (b'/' ∷ p) (marked b'?' sent.query) (Lacks-cons b' ' b'/' p refl ps)
          (Lacks-marked b' ' b'?' sent.query refl qs))
        (Lacks-marked b' ' b'#' sent.fragment refl fs) in
    let no_fragment : Lacks b'#' ((b'/' ∷ p) ++ marked b'?' sent.query) =
      find_char-append b'#' (b'/' ∷ p) (marked b'?' sent.query) (Lacks-cons b'#' b'/' p refl pf)
        (Lacks-marked b'#' b'?' sent.query refl qf) in
    ap (λ t. parse_first_line (request_line (record sent { path = t })) req) path
    ∙ ap (at_method line req) (find_char-here b' ' name rest (method-Lacks sent.method known))
    ∙ ap (λ t. parse_target t (record req { method = string_to_method (take (length name) line) }))
        (drop_mark b' ' name rest)
    ∙ ap (λ t. parse_target rest (record req { method = string_to_method t }))
        (take_front name (b' ' ∷ rest) (length name) refl)
    ∙ ap (λ t. parse_target rest (record req { method = t })) (method-reads sent.method known)
    ∙ parse_target_lem p sent.query sent.fragment version_text sent.version with_method no_space
        (Lacks-cons b'?' b'/' p refl pq) no_fragment (version-reads sent.version version)
    ∙ ap
        (λ t. (
          false,
          record with_method {
            version = sent.version;
            path = t;
            query = given sent.query req.query;
            fragment = given sent.fragment req.fragment;
          },
        ))
        (sym path)
