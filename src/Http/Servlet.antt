-- ===== src/Http/Servlet.antt =====
-- reyao/http/http_servlet.h and http_servlet.cc. `fnmatch` is the C library's: a parameter, the test
-- that its result is 0. A handler is what it makes of the response.
pub mod Dispatch
use reyao.Common.{
  ℕ, ◌≡◌, refl, Bool, true, false, Option, none, some, List, [], ◌∷◌, ◌++◌, if◌then◌else◌, Outcome,
  ok, err, fault,
}
use reyao.Common.Bytes.{Bytes}
use reyao.Util.{codes, c_str, bytes_eq}
use mathlib.Core.Option
use reyao.Http.Request.{HttpRequest}
use reyao.Http.Response.{HttpResponse, not_found, add_header}

abbrev pub Handler : Type 0
Handler = HttpRequest → HttpResponse → HttpResponse

abbrev pub Routes : Type 0
Routes = List (Bytes × Handler)

pub record ServletDispatch : Type 0 where
  pub servlets : Routes
  pub globals : Routes
  pub default : Handler

unfoldable pub no_found_content : Bytes → Bytes
no_found_content server_name =
    codes
      "<html><head><title>404 Not Found</title></head><body><center><h1>404 Not Found</h1></center>"
    ++ codes "<hr><center>"
    ++ server_name
    ++ codes "</center></body></html>"

-- `NoFoundServlet::handle`.
unfoldable pub no_found : Bytes → Handler
unfolding add_header no_found_content
no_found server_name req rsp =
    let served = add_header (record rsp { status = not_found }) (codes "Server") (codes "Reyao") in
    let typed = add_header served (codes "Content-Type") (codes "text/html") in
    record typed { body = no_found_content server_name }

unfoldable pub create : ServletDispatch
create = record { servlets = []; globals = []; default = no_found (codes "Reyao") }

unfoldable pub route_of : Bytes → Routes → Option Handler
unfolding bytes_eq
route_of uri [] = none
route_of uri ((u, h) ∷ rs) = let rest = route_of uri rs in if bytes_eq u uri then some h else rest

-- The routes without the first one of this uri. In the unordered_map there is at most one.
unfoldable pub remove_route : Bytes → Routes → Routes
unfolding bytes_eq
remove_route uri [] = []
remove_route uri ((u, h) ∷ rs) =
    let rest = remove_route uri rs in if bytes_eq u uri then rs else (u, h) ∷ rest

unfoldable pub add_servlet : Bytes → Handler → ServletDispatch → ServletDispatch
add_servlet uri h d = record d { servlets = (uri, h) ∷ remove_route uri d.servlets }

unfoldable pub del_servlet : Bytes → ServletDispatch → ServletDispatch
del_servlet uri d = record d { servlets = remove_route uri d.servlets }

abbrev pub has_route : Bytes → Routes → Bool
has_route uri rs = elim (route_of uri rs) [ none ↦ false | some h ↦ true ]

-- The loop of `addGlobalServlet` goes on with the iterator that `erase` has made invalid.
unfoldable pub add_global_servlet : Bytes → Handler → ServletDispatch → Outcome ServletDispatch
unfolding route_of
add_global_servlet uri h d =
    if has_route uri d.globals
    then err fault
    else ok (record d { globals = d.globals ++ ((uri, h) ∷ []) })

unfoldable pub del_global_servlet : Bytes → ServletDispatch → ServletDispatch
unfolding remove_route
del_global_servlet uri d = record d { globals = remove_route uri d.globals }

abbrev pub set_default : Handler → ServletDispatch → ServletDispatch
set_default h d = record d { default = h }

unfoldable pub get_servlet : Bytes → ServletDispatch → Option Handler
unfolding route_of
get_servlet uri d = route_of uri d.servlets

module _ (fnmatch : Bytes → Bytes → Bool) where
  unfoldable pub first_match : Bytes → Routes → Option Handler
  first_match uri [] = none
  first_match uri ((u, h) ∷ rs) =
      let rest = first_match uri rs in if fnmatch (c_str u) (c_str uri) then some h else rest

  unfoldable pub get_global_servlet : Bytes → ServletDispatch → Option Handler
  unfolding first_match
  get_global_servlet uri d = first_match uri d.globals

  -- `getMatchServlet`: the servlets, then the globals in order, then the default.
  unfoldable pub get_match_servlet : Bytes → ServletDispatch → Handler
  unfolding get_servlet get_global_servlet
  get_match_servlet uri d =
      Option.get_or (get_servlet uri d) (Option.get_or (get_global_servlet uri d) d.default)

  unfoldable pub handle : ServletDispatch → HttpRequest → HttpResponse → HttpResponse
  unfolding get_match_servlet
  handle d req rsp = get_match_servlet req.path d req rsp
