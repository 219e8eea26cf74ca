-- ===== src/Http/Request.antt =====
-- reyao/http/http_request.h and http_request.cc.
use reyao.Common.{ℕ, ◌/◌, ◌%◌, ◌≡◌, refl, Bool, true, false, [], ◌∷◌, ◌++◌, if◌then◌else◌, length}
use reyao.Common.Bytes.{Bytes}
use reyao.Util.{codes, c_str, bytes_eq, case_eq, decimal}
use reyao.Http.Headers.{StrMap, insert, erase, get_or_text}

pub data HttpMethod : Type 0 where
  get head post invalid_method : HttpMethod

-- The numbers of HTTP_METHOD_MAP; `INVALID_METHOD` follows the last of them.
abbrev pub method_number : HttpMethod → ℕ
method_number get = 1
method_number head = 2
method_number post = 3
method_number invalid_method = 4

unfoldable pub string_to_method : Bytes → HttpMethod
unfolding c_str bytes_eq
string_to_method str =
    let s = c_str str in
    if bytes_eq (codes "GET") s
    then get
    else if bytes_eq (codes "HEAD") s
    then head
    else if bytes_eq (codes "POST") s
    then post
    else invalid_method

-- The table has three entries, from number 1 on.
unfoldable pub method_to_string : HttpMethod → Bytes
method_to_string get = codes "GET"
method_to_string head = codes "HEAD"
method_to_string post = codes "POST"
method_to_string invalid_method = codes "<unknown>"

pub record HttpRequest : Type 0 where
  pub method : HttpMethod
  pub version : ℕ
  pub keep_alive : Bool
  pub path : Bytes
  pub query : Bytes
  pub fragment : Bytes
  pub body : Bytes
  pub headers : StrMap
  pub params : StrMap
  pub cookies : StrMap

unfoldable pub create : ℕ → Bool → HttpRequest
create version keep_alive = record {
  method = get;
  version = version;
  keep_alive = keep_alive;
  path = codes "/";
  query = [];
  fragment = [];
  body = [];
  headers = [];
  params = [];
  cookies = [];
}

unfoldable pub get_header : HttpRequest → Bytes → Bytes
unfolding get_or_text
get_header req key = get_or_text (codes "header not found") key req.headers

unfoldable pub get_param : HttpRequest → Bytes → Bytes
unfolding get_or_text
get_param req key = get_or_text (codes "param not found") key req.params

unfoldable pub get_cookie : HttpRequest → Bytes → Bytes
unfolding get_or_text
get_cookie req key = get_or_text (codes "cookie not found") key req.cookies

unfoldable pub add_header : HttpRequest → Bytes → Bytes → HttpRequest
unfolding insert
add_header req key val = record req { headers = insert key val req.headers }

pub add_param : HttpRequest → Bytes → Bytes → HttpRequest
add_param req key val = record req { params = insert key val req.params }

pub add_cookie : HttpRequest → Bytes → Bytes → HttpRequest
add_cookie req key val = record req { cookies = insert key val req.cookies }

pub del_header : HttpRequest → Bytes → HttpRequest
del_header req key = record req { headers = erase key req.headers }

pub del_param : HttpRequest → Bytes → HttpRequest
del_param req key = record req { params = erase key req.params }

pub del_cookie : HttpRequest → Bytes → HttpRequest
del_cookie req key = record req { cookies = erase key req.cookies }

abbrev pub crlf : Bytes
crlf = 13 ∷ 10 ∷ []

-- The header lines, without any "connection", which `dump` writes itself.
unfoldable pub dump_headers : StrMap → Bytes
unfolding case_eq
dump_headers [] = []
dump_headers ((k, v) ∷ m) =
    let rest = dump_headers m in
    if case_eq k (codes "connection") then rest else k ++ codes ": " ++ v ++ crlf ++ rest

abbrev pub is_empty : Bytes → Bool
is_empty [] = true
is_empty (x ∷ xs) = false

-- `version >> 4` and `version & 0x0F`.
abbrev pub dump_version : ℕ → Bytes
dump_version version = decimal (version / 16) ++ codes "." ++ decimal (version % 16)

-- An optional part behind its mark.
unfoldable pub marked : ℕ → Bytes → Bytes
marked m text = (if is_empty text then [] else m ∷ []) ++ text

-- What `dump` writes before the first line end.
unfoldable pub request_line : HttpRequest → Bytes
unfolding method_to_string marked decimal
request_line req =
    method_to_string req.method
    ++ (b' '
        ∷ ((req.path ++ marked b'?' req.query ++ marked b'#' req.fragment)
            ++ (b' ' ∷ (codes "HTTP/" ++ dump_version req.version))))

unfoldable pub dump : HttpRequest → Bytes
unfolding request_line dump_headers decimal
dump req =
    request_line req
    ++ crlf
    ++ codes "connection: "
    ++ (if req.keep_alive then codes "keep-alive" else codes "close")
    ++ crlf
    ++ dump_headers req.headers
    ++ (if is_empty req.body
        then crlf
        else codes "content-length: " ++ decimal (length req.body) ++ crlf ++ crlf ++ req.body)

dump_runs :
    dump (create 0x11 false)
    ≡ codes "GET / HTTP/1.1" ++ crlf ++ codes "connection: close" ++ crlf ++ crlf
unfolding dump create
dump_runs = refl
