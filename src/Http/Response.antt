-- ===== src/Http/Response.antt =====
-- reyao/http/http_response.h and http_response.cc.
use reyao.Common.{
  ℕ, ◌≡◌, refl, Bool, false, Option, none, some, [], ◌++◌, if◌then◌else◌, length, ◌==◌,
}
use reyao.Common.Bytes.{Bytes}
use reyao.Util.{codes, decimal}
use reyao.Http.Headers.{StrMap, insert, erase, get_or_text}
use reyao.Http.Request.{crlf, dump_headers, dump_version, is_empty}

pub data HttpStatus : Type 0 where
  ok_status moved_permanently bad_request unauthorized not_found internal_server_error : HttpStatus

-- The codes of HTTP_STATUS_MAP.
abbrev pub status_code : HttpStatus → ℕ
status_code ok_status = 200
status_code moved_permanently = 301
status_code bad_request = 400
status_code unauthorized = 401
status_code not_found = 404
status_code internal_server_error = 500

unfoldable pub status_to_string : HttpStatus → Bytes
status_to_string ok_status = codes "OK"
status_to_string moved_permanently = codes "Moved Permanently"
status_to_string bad_request = codes "Bad Request"
status_to_string unauthorized = codes "Unauthorized"
status_to_string not_found = codes "Not Found"
status_to_string internal_server_error = codes "Internal Server Error"

-- `isHttpStatus` and the cast behind it: the status with this code, if there is one.
unfoldable pub http_status : ℕ → Option HttpStatus
http_status code =
    if code == 200
    then some ok_status
    else if code == 301
    then some moved_permanently
    else if code == 400
    then some bad_request
    else if code == 401
    then some unauthorized
    else if code == 404
    then some not_found
    else if code == 500
    then some internal_server_error
    else none

pub http_status-status_code : (s : HttpStatus) → http_status (status_code s) ≡ some s
unfolding http_status
http_status-status_code ok_status = refl
http_status-status_code moved_permanently = refl
http_status-status_code bad_request = refl
http_status-status_code unauthorized = refl
http_status-status_code not_found = refl
http_status-status_code internal_server_error = refl

pub record HttpResponse : Type 0 where
  pub status : HttpStatus
  pub version : ℕ
  pub keep_alive : Bool
  pub body : Bytes
  pub reason : Bytes
  pub headers : StrMap

unfoldable pub create : ℕ → Bool → HttpResponse
create version keep_alive = record {
  status = ok_status;
  version = version;
  keep_alive = keep_alive;
  body = [];
  reason = [];
  headers = [];
}

pub get_header : HttpResponse → Bytes → Bytes
unfolding get_or_text
get_header rsp key = get_or_text (codes "header not found") key rsp.headers

unfoldable pub add_header : HttpResponse → Bytes → Bytes → HttpResponse
unfolding insert
add_header rsp key val = record rsp { headers = insert key val rsp.headers }

pub del_header : HttpResponse → Bytes → HttpResponse
del_header rsp key = record rsp { headers = erase key rsp.headers }

unfoldable pub dump : HttpResponse → Bytes
unfolding status_to_string dump_headers decimal
dump rsp =
    codes "HTTP/"
    ++ dump_version rsp.version
    ++ codes " "
    ++ decimal (status_code rsp.status)
    ++ codes " "
    ++ (if is_empty rsp.reason then status_to_string rsp.status else rsp.reason)
    ++ crlf
    ++ codes "Connection: "
    ++ (if rsp.keep_alive then codes "Keep-Alive" else codes "Close")
    ++ crlf
    ++ dump_headers rsp.headers
    ++ (if is_empty rsp.body
        then crlf
        else codes "Content-Length: " ++ decimal (length rsp.body) ++ crlf ++ crlf ++ rsp.body)

dump_runs :
    dump (create 0x11 false)
    ≡ codes "HTTP/1.1 200 OK" ++ crlf ++ codes "Connection: Close" ++ crlf ++ crlf
unfolding dump create
dump_runs = refl
