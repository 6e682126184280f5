-- ===== src/Tests/Server.antt =====
-- Which handler and which file a request reaches: cppboot/net/http/server.
use altas.Prelude.{
  span_until, ◌≡◌, refl, [], Option, none, some, Bytes, codes, if◌then◌else◌, bytes_eq, lex_compare,
}
use altas.OrdMap.{find, insert}
use altas.StrUtil.{tolower, memcasecmp, equals_ignore_case, starts_with_ignore_case}
use altas.Http.Request.{Request, default_request}
use altas.Http.Response.{StatusType, stock_reply}
use altas.Http.ServeMux.{
  Func, ServeMux, new_mux, set_handler, serve_http, ends_in_slash, find_prefix,
}
use altas.Http.ServeMux.Index.{IsMux, set_handler-IsMux}
use altas.Http.ServeMux.Serving.{Serves, serve_http-Serves}
use altas.Http.FileServer
use altas.Http.FileServer.{c_str, FileServer, add_file, index_path, is_refused, found_reply}
use altas.Http.FileServer.Laws.{serve_http_inside}

-- A handler that writes its name for the content.
abbrev says : Bytes → Func
says name req resp = record resp { content = name }

abbrev get_request : Bytes → Request
get_request path = record (default_request 1 0) { path = path; subpath = path }

new_mux-IsMux : IsMux new_mux
unfolding new_mux find
new_mux-IsMux = (tt, tt, λ k e f. absurd cc)

set_handler-IsMux_example : IsMux (set_handler (codes "/a/") (says (codes "f")) new_mux)
set_handler-IsMux_example = set_handler-IsMux (codes "/a/") (says (codes "f")) new_mux new_mux-IsMux

-- The handlers of the unit test.
abbrev mux : ServeMux
mux = set_handler (codes "/a/b/") (says (codes "func1")) (
    set_handler (codes "/a/b") (says (codes "func3"))
      (set_handler (codes "/a/") (says (codes "func2")) new_mux))

mux-IsMux : IsMux mux
mux-IsMux = set_handler-IsMux _ _ _ (
    set_handler-IsMux _ _ _
      (set_handler-IsMux (codes "/a/") (says (codes "func2")) new_mux new_mux-IsMux))

serve_http-Serves_example :
    Serves mux.funcs
      (get_request (codes "/a/b/c"))
      (stock_reply StatusType.ok)
      (serve_http mux (get_request (codes "/a/b/c")) (stock_reply StatusType.ok))
serve_http-Serves_example =
    serve_http-Serves mux (get_request (codes "/a/b/c")) (stock_reply StatusType.ok) mux-IsMux

-- The same path reaches the longer of its two prefixes.
longest_prefix :
    (serve_http mux (get_request (codes "/a/b/c")) (stock_reply StatusType.ok)).1.content
    ≡ codes "func1"
unfolding serve_http set_handler new_mux find insert find_prefix lex_compare bytes_eq ends_in_slash
    starts_with_ignore_case equals_ignore_case memcasecmp tolower default_request
longest_prefix = refl

abbrev server : FileServer
server = record { root = codes "/srv"; files = [] }

abbrev one_file : Bytes → Option Bytes
one_file path = if bytes_eq path (codes "/srv/a.png") then some (codes "p") else none

abbrev two_files : Bytes → Option Bytes
two_files path = if bytes_eq path (codes "secret") then some (codes "s") else one_file path

serve_http_inside_example :
    FileServer.serve_http one_file server (get_request (codes "/a.png")) (stock_reply StatusType.ok)
    ≡ FileServer.serve_http two_files server
        (get_request (codes "/a.png"))
        (stock_reply StatusType.ok)
unfolding span_until bytes_eq c_str
serve_http_inside_example =
    serve_http_inside one_file two_files server (get_request (codes "/a.png"))
      (stock_reply StatusType.ok) (λ path h. refl)
