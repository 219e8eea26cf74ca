-- ===== src/Http/RequestParser.antt =====
-- reyao/http/http_parser.cc, HttpRequestParser: the request line, and where the parts of a request go.
pub mod RequestLine
use reyao.Common.{
  ℕ, ◌+◌, ◌≡◌, refl, Bool, true, false, Option, none, some, [], ◌∷◌, ◌++◌, if◌then◌else◌, take,
  drop, Outcome, ok,
}
use reyao.Common.Bytes.{Bytes}
use reyao.Util.{codes, find_char, bytes_eq}
use reyao.Http.Request.{HttpRequest, HttpMethod, get, string_to_method, create, add_header}
use reyao.Http.Parser.{Hooks}

-- What `parseURI` looks for.
pub data UriPart : Type 0 where
  fragment_part query_part path_part : UriPart

abbrev pub mark : UriPart → ℕ
mark fragment_part = b'#'
mark query_part = b'?'
mark path_part = b'/'

unfoldable pub set_part : UriPart → ℕ → Bytes → HttpRequest → HttpRequest
set_part fragment_part i text req = record req { fragment = drop (i + 1) text }
set_part query_part i text req = record req { query = drop (i + 1) text }
set_part path_part i text req = record req { path = drop i text }

unfoldable pub cut_at : UriPart → Bytes → HttpRequest → Option ℕ → Bytes × HttpRequest
unfolding set_part
cut_at part text req none = (text, req)
cut_at part text req (some i) = (take i text, set_part part i text req)

-- What is in front of the mark, and the request with what is behind it.
unfoldable pub parse_uri : UriPart → Bytes → HttpRequest → Bytes × HttpRequest
unfolding find_char cut_at
parse_uri part text req = cut_at part text req (find_char (mark part) text)

-- The next call of `parseURI`, on what the one before has left.
abbrev pub then_uri : UriPart → Bytes × HttpRequest → Bytes × HttpRequest
then_uri part (text, req) = parse_uri part text req

unfoldable pub parse_parts : Bytes → HttpRequest → HttpRequest
unfolding parse_uri
parse_parts text req =
    (then_uri path_part (then_uri query_part (parse_uri fragment_part text req))).1

unfoldable pub version_of : Bytes → Option ℕ
unfolding bytes_eq
version_of text =
    if bytes_eq text (codes "HTTP/1.0")
    then some 0x10
    else if bytes_eq text (codes "HTTP/1.1")
    then some 0x11
    else none

-- The searches of `parseFirstLine` in their order, each with what is done where it has found.
unfoldable pub at_path : Bytes → HttpRequest → Option ℕ → Bool × HttpRequest
unfolding parse_parts
at_path text req none = (true, req)
at_path text req (some k) = (false, parse_parts (drop k text) req)

unfoldable pub at_version : Bytes → HttpRequest → Option ℕ → Bool × HttpRequest
unfolding find_char at_path
at_version text req none = (true, req)
at_version text req (some version) =
    at_path text (record req { version = version }) (find_char b'/' text)

unfoldable pub at_space : Bytes → HttpRequest → Option ℕ → Bool × HttpRequest
unfolding version_of at_version
at_space rest req none = (true, req)
at_space rest req (some j) = at_version (take j rest) req (version_of (drop (j + 1) rest))

-- The part behind the method: `target version`.
unfoldable pub parse_target : Bytes → HttpRequest → Bool × HttpRequest
unfolding find_char at_space
parse_target rest req = at_space rest req (find_char b' ' rest)

unfoldable pub at_method : Bytes → HttpRequest → Option ℕ → Bool × HttpRequest
unfolding string_to_method parse_target
at_method line req none = (true, req)
at_method line req (some i) =
    parse_target (drop (i + 1) line) (record req { method = string_to_method (take i line) })

unfoldable pub parse_first_line : Bytes → HttpRequest → Bool × HttpRequest
unfolding find_char at_method
parse_first_line line req = at_method line req (find_char b' ' line)

abbrev pub request_hooks : Hooks HttpRequest
request_hooks = record {
  first_line = λ line req. ok (parse_first_line line req);
  add_header = λ title value req. add_header req title value;
  set_body = λ body req. record req { body = body };
}

parse_first_line_runs :
    parse_first_line (codes "GET http://x/a/b?q=1#top HTTP/1.1") (create 0x11 false) ≡ (
      false,
      record (create 0x11 false) {
        path = codes "//x/a/b";
        query = codes "q=1";
        fragment = codes "top";
      },
    )
unfolding parse_first_line create
parse_first_line_runs = refl
