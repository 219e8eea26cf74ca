-- ===== src/Http/ResponseParser.antt =====
-- reyao/http/http_parser.cc, HttpResponseParser: the status line, and where the parts of a response go.
use reyao.Common.{◌+◌, ◌≡◌, refl, Bool, true, false, none, some, take, drop, Outcome, ok, ◌>>=◌}
use reyao.Common.Bytes.{Bytes}
use reyao.Util.{codes, find_char, stoi}
use reyao.Http.Response.{HttpResponse, not_found, http_status, create, add_header}
use reyao.Http.Parser.{Hooks}
use reyao.Http.RequestParser.{version_of}

-- The part behind the version: `status_code reason`. The reason starts at the space in front of it.
unfoldable pub parse_status : Bytes → HttpResponse → Outcome (Bool × HttpResponse)
unfolding find_char stoi http_status
parse_status rest rsp = elim (find_char b' ' rest) [
  | none ↦ ok (true, rsp)
  | some j ↦ (do
    code ← stoi (take j rest)
    elim (http_status code) [
      | none ↦ ok (true, rsp)
      | some status ↦ ok (false, record rsp { status = status; reason = drop j rest })
    ])
]

unfoldable pub parse_first_line : Bytes → HttpResponse → Outcome (Bool × HttpResponse)
unfolding find_char version_of parse_status
parse_first_line line rsp = elim (find_char b' ' line) [
  | none ↦ ok (true, rsp)
  | some i ↦ elim (version_of (take i line)) [
    | none ↦ ok (true, rsp)
    | some version ↦ parse_status (drop (i + 1) line) (record rsp { version = version })
  ]
]

abbrev pub response_hooks : Hooks HttpResponse
response_hooks = record {
  first_line = parse_first_line;
  add_header = λ title value rsp. add_header rsp title value;
  set_body = λ body rsp. record rsp { body = body };
}

parse_first_line_runs :
    parse_first_line (codes "HTTP/1.1 404 Not Found") (create 0x11 false)
    ≡ ok (false, record (create 0x11 false) { status = not_found; reason = codes " Not Found" })
unfolding parse_first_line create
parse_first_line_runs = refl
