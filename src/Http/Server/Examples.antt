-- ===== src/Http/Server/Examples.antt =====
-- Requests that are received and what the loop of a session makes of them.
use reyao.Common.{ℕ, ◌≡◌, refl, Bool, true, false, List, [], ◌∷◌, ◌++◌, ok}
use reyao.Common.Bytes.{Bytes}
use reyao.Util.{codes, bytes_eq}
use reyao.ByteArray.{ByteArray}
use reyao.SocketStream.{Recv, received}
use reyao.Http.Request.{HttpRequest, get, add_header}
use reyao.Http.Request
use reyao.Http.Parser.{parse}
use reyao.Http.RequestParser.{request_hooks}
use reyao.Http.Servlet.{ServletDispatch}
use reyao.Http.Server.{recv_request, request, goes_on}

abbrev empty_array : ByteArray
empty_array = record {
  endian = 4321;
  write_pos = 8;
  read_pos = 8;
  buf = 0 ∷ 0 ∷ 0 ∷ 0 ∷ 0 ∷ 0 ∷ 0 ∷ 0 ∷ 0 ∷ 0 ∷ [];
}

abbrev line_end : Bytes
line_end = 13 ∷ 10 ∷ []

-- A request that keeps the session, in two reads, and one that does not.
abbrev first_reads : List Recv
first_reads =
    received (codes "GET / HTTP/1.1" ++ line_end)
    ∷ received (codes "Connection: Keep-Alive" ++ line_end ++ line_end)
    ∷ []

abbrev last_reads : List Recv
last_reads = received (codes "GET / HTTP/1.1" ++ line_end ++ line_end) ∷ []

abbrev plain_request : HttpRequest
plain_request = record {
  method = get;
  version = 0x11;
  keep_alive = false;
  path = codes "/";
  query = [];
  fragment = [];
  body = [];
  headers = [];
  params = [];
  cookies = [];
}

last_parsed : recv_request empty_array 100 last_reads ≡ ok (request plain_request)
unfolding recv_request parse reyao.Http.Parser.create reyao.SocketStream.read
    reyao.ByteArray.get_write_area reyao.ByteArray.add_capacity reyao.ByteArray.get_write_size
    reyao.ByteArray.fill reyao.ByteArray.copy_in reyao.ByteArray.resize reyao.Common.Loop.run
    reyao.Http.Parser.Sources.next_line reyao.ByteArray.copy_out reyao.ByteArray.get_read_size
    reyao.ByteArray.search_crlf reyao.Http.RequestParser.parse_first_line Request.create
last_parsed = refl

abbrev keeping_request : HttpRequest
keeping_request = record plain_request { headers = (codes "Connection", codes "Keep-Alive") ∷ [] }

first_parsed : recv_request empty_array 100 first_reads ≡ ok (request keeping_request)
unfolding recv_request parse reyao.Http.Parser.create reyao.SocketStream.read
    reyao.ByteArray.get_write_area reyao.ByteArray.add_capacity reyao.ByteArray.get_write_size
    reyao.ByteArray.fill reyao.ByteArray.copy_in reyao.ByteArray.resize reyao.Common.Loop.run
    reyao.Http.Parser.Sources.next_line reyao.ByteArray.copy_out reyao.ByteArray.get_read_size
    reyao.ByteArray.search_crlf reyao.Http.RequestParser.parse_first_line Request.create add_header
    reyao.ByteArray.slide reyao.Http.Parser.header_value reyao.Util.case_eq
first_parsed = refl

-- The default servlet answers with the path.
abbrev echoes : ServletDispatch
echoes = record { servlets = []; globals = []; default = λ req rsp. record rsp { body = req.path } }

first_goes_on : goes_on bytes_eq true echoes empty_array 100 keeping_request ≡ true
unfolding goes_on reyao.Util.case_eq reyao.Http.Request.get_header reyao.Util.case_less
first_goes_on = refl

last_stops : goes_on bytes_eq true echoes empty_array 100 plain_request ≡ false
unfolding goes_on reyao.Util.case_eq reyao.Http.Request.get_header reyao.Util.case_less
last_stops = refl
