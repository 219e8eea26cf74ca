-- ===== src/Http/Examples.antt =====
-- The theorems on the HTTP messages, their parser and the dispatch at concrete inputs.
use reyao.Common.{
  ◌≡◌, refl, ◌≢◌, arith, err, unfinished, inr, Bool, false, some, List, [], ◌∷◌, ◌++◌,
  if◌then◌else◌,
}
use mathlib.Core.Option
use reyao.Common.Bytes.{Bytes}
use reyao.Util.{codes, bytes_eq, find_char}
use reyao.Http.Headers.{StrMap}
use reyao.Http.Request.{HttpRequest, get, request_line}
use reyao.Http.Parser.{Parser, first_line, chunk_size, parse, drain}
use reyao.Http.Parser.Sources.{plain, buffer}
use reyao.ByteArray.{ByteArray}
use reyao.ByteArray.Contents.{IsValid, contents}
use reyao.SocketStream.{Recv, received}
use reyao.Http.Parser.Simulation.{seen}
use reyao.Http.Parser.Buffer.{parse-buffer, seen_end}
use reyao.Http.Parser.Termination.Rounds.{parse-buffer-ends}
use reyao.Http.Parser.Chunks.{more}
use reyao.Http.Parser.Segments.{parse-segments, verdict, judge, arrivals, join}
use reyao.Http.RequestParser.{request_hooks, parse_first_line}
use reyao.Http.RequestParser.RequestLine.{given, parse_first_line-request_line}
use reyao.Http.Response.{not_found, status_code, http_status, http_status-status_code}
use reyao.Http.Servlet.{
  ServletDispatch, route_of, Handler, add_servlet, del_servlet, get_match_servlet,
  get_global_servlet,
}
use reyao.Http.Servlet.Dispatch.{match-add_servlet, match-del_servlet}

abbrev empty_request : HttpRequest
empty_request = record {
  method = get;
  version = 0x11;
  keep_alive = false;
  path = codes "/";
  query = [];
  fragment = [];
  body = [];
  headers = [];
  params = [];
  cookies = [];
}

abbrev new_parser : Parser Bytes HttpRequest
new_parser = record {
  ba = [];
  read_size = 0;
  parse_state = first_line;
  error = false;
  finish = false;
  body = [];
  content_len = 0;
  chunked = false;
  size = 0;
  chunk_state = chunk_size;
  message = empty_request;
}

abbrev start_of_line : Bytes
start_of_line = codes "GET / HT"

abbrev rest_of_message : List Bytes
rest_of_message = (codes "TP/1.1" ++ 13 ∷ []) ∷ (10 ∷ 13 ∷ 10 ∷ []) ∷ []

parse-segments_example :
    verdict (parse request_hooks plain 4096 (arrivals (start_of_line ∷ rest_of_message)) new_parser)
    ≡ judge (drain request_hooks plain (more (join (start_of_line ∷ rest_of_message)) new_parser))
parse-segments_example =
    parse-segments request_hooks 4096 start_of_line rest_of_message new_parser refl refl
      (refl, (refl, (refl, tt)))

abbrev sent : HttpRequest
sent = record empty_request { path = codes "/a/b"; query = codes "q=1"; fragment = codes "top" }

parse_first_line-request_line_example : parse_first_line (request_line sent) empty_request ≡ (
  false,
  record empty_request {
    method = sent.method;
    version = sent.version;
    path = sent.path;
    query = given sent.query empty_request.query;
    fragment = given sent.fragment empty_request.fragment;
  },
)
parse_first_line-request_line_example =
    parse_first_line-request_line sent empty_request (codes "a/b")
      (unfold find_char in (refl, (λ e. cc e), inr refl, refl, refl, refl, refl, refl, refl))

abbrev one_header : StrMap
one_header = (codes "Host", codes "x") ∷ []

http_status-status_code_example : http_status (status_code not_found) ≡ some not_found
http_status-status_code_example = http_status-status_code not_found

abbrev leave : Handler
leave req rsp = rsp

abbrev one_servlet : ServletDispatch
one_servlet = record { servlets = (codes "/a", leave) ∷ []; globals = []; default = leave }

-- A pattern that matches only itself.
abbrev literal : Bytes → Bytes → Bool
literal pattern text = bytes_eq pattern text

match-add_servlet_example :
    get_match_servlet literal (codes "/b") (add_servlet (codes "/b") leave one_servlet) ≡ (
      if bytes_eq (codes "/b") (codes "/b")
      then leave
      else get_match_servlet literal (codes "/b") one_servlet)
match-add_servlet_example = match-add_servlet literal (codes "/b") (codes "/b") leave one_servlet

match-del_servlet_example :
    get_match_servlet literal (codes "/a") (del_servlet (codes "/a") one_servlet) ≡ (
      if bytes_eq (codes "/a") (codes "/a")
      then Option.get_or (get_global_servlet literal (codes "/a") one_servlet) one_servlet.default
      else get_match_servlet literal (codes "/a") one_servlet)
match-del_servlet_example =
    match-del_servlet literal (codes "/a") (codes "/a") one_servlet (unfold route_of in (refl, tt))

-- The same message as the program reads it, in two reads of at most 100 bytes.
abbrev empty_array : ByteArray
empty_array = record {
  endian = 4321;
  write_pos = 8;
  read_pos = 8;
  buf = 0 ∷ 0 ∷ 0 ∷ 0 ∷ 0 ∷ 0 ∷ 0 ∷ 0 ∷ 0 ∷ 0 ∷ [];
}

abbrev reader : Parser ByteArray HttpRequest
reader = record {
  ba = empty_array;
  read_size = 0;
  parse_state = first_line;
  error = false;
  finish = false;
  body = [];
  content_len = 0;
  chunked = false;
  size = 0;
  chunk_state = chunk_size;
  message = empty_request;
}

empty_array-IsValid : IsValid empty_array
empty_array-IsValid = record {
  ordered = omega arith;
  inside = omega arith;
  addressable = omega arith;
}

abbrev reads : List Recv
reads = received (codes "GET / HT") ∷ received (codes "TP/1.1" ++ 13 ∷ 10 ∷ []) ∷ []

parse-buffer_example :
    seen_end (parse request_hooks buffer 100 reads reader)
    ≡ parse request_hooks plain 100 reads (seen contents reader)
parse-buffer_example =
    parse-buffer request_hooks 100 reads reader empty_array-IsValid (omega arith) (omega arith)
      (omega arith) (omega arith, (omega arith, tt))

parse-buffer-ends_example : parse request_hooks buffer 100 reads reader ≢ err unfinished
parse-buffer-ends_example =
    parse-buffer-ends request_hooks (λ line m h. cc h) 100 reads reader empty_array-IsValid
      (omega arith) (omega arith) (omega arith) (omega arith, (omega arith, tt))
      (λ e z. absurd (cc z))
