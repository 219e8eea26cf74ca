-- ===== src/Http/Server.antt =====
-- reyao/http/http_server.cc and http_session.cc: how a client is served. The bytes that arrive while one
-- request is read are one script of the kernel's answers, and so is the result of the one call of
-- ::send for its response; fnmatch is a parameter.
mod Examples
use reyao.Common.{
  ℕ, ◌==◌, Bool, true, false, ◌&&◌, Option, none, some, List, [], ◌∷◌, ◌++◌, if◌then◌else◌, Outcome,
  ok, err, ◌>>=◌,
}
use reyao.Common.Bytes.{Bytes}
use reyao.Util.{codes, case_eq}
use reyao.ByteArray.{ByteArray}
use reyao.SocketStream.{Recv, on_wire}
use reyao.Http.Request.{HttpRequest, get_header}
use reyao.Http.Request
use reyao.Http.Response.{HttpResponse, dump}
use reyao.Http.Response
use reyao.Http.Parser.{Parsed, returned, waiting, parse, create}
use reyao.Http.Parser.Sources.{buffer}
use reyao.Http.RequestParser.{request_hooks}
use reyao.Http.Servlet.{ServletDispatch, handle}

-- What `recvRequest` comes to: a request, false, or no end yet.
pub data Received : Type 0 where
  request : HttpRequest → Received
  refused pending : Received

abbrev pub received_of : Parsed ByteArray HttpRequest → Received
received_of (returned true p) = request p.message
received_of (returned false p) = refused
received_of (waiting p) = pending

-- A parser of its own, with a new ByteArray, for each request.
unfoldable pub recv_request : ByteArray → ℕ → List Recv → Outcome Received
recv_request new_array max rs = do
  parsed ← parse request_hooks buffer max rs (create new_array (Request.create 0x11 false))
  ok (received_of parsed)

-- The header sets `keepAlive_` of the request.
unfoldable pub with_keep_alive : HttpRequest → HttpRequest
with_keep_alive req =
    if case_eq (get_header req (codes "Connection")) (codes "Keep-Alive")
    then record req { keep_alive = true }
    else req

module _ (fnmatch : Bytes → Bytes → Bool) (keep_alive : Bool) (dispatch : ServletDispatch)
    (new_array : ByteArray) (max : ℕ) where
  -- The text that `sendResponse` writes.
  unfoldable pub respond : HttpRequest → Bytes
  unfolding with_keep_alive
  respond req =
      let req' = with_keep_alive req in
      dump (
        handle fnmatch dispatch req' (Response.create req'.version (req'.keep_alive && keep_alive)))

  -- `sendResponse`: what comes onto the wire of the response. Its result is not looked at.
  unfoldable pub send_response : Option ℕ → HttpRequest → Bytes
  unfolding on_wire respond
  send_response taken req = on_wire taken (respond req)

  unfoldable pub goes_on : HttpRequest → Bool
  unfolding with_keep_alive
  goes_on req = keep_alive && (with_keep_alive req).keep_alive

  -- The loop of `handleClient` over the scripts of the requests, from what the next one comes to; true
  -- is that the session has been closed.
  abbrev pub serve_next :
      Received → Option ℕ → Outcome (Bool × List Bytes) → Outcome (Bool × List Bytes)
  serve_next refused taken rest = ok (true, [])
  serve_next pending taken rest = ok (false, [])
  serve_next (request req) taken rest =
      let sent = send_response taken req in
      if goes_on req
      then (do (closed, later) ← rest; ok (closed, sent ∷ later))
      else ok (true, sent ∷ [])

  unfoldable pub handle_client : List (List Recv × Option ℕ) → Outcome (Bool × List Bytes)
  unfolding recv_request send_response
  handle_client [] = ok (false, [])
  handle_client ((rs, taken) ∷ rest) =
      let others = handle_client rest in
      do received ← recv_request new_array max rs; serve_next received taken others
