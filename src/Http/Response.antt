-- ===== src/Http/Response.antt =====
-- cppboot/net/http/response.h and response.cc: the reply that is sent to a client. The value of
-- `status` is one of the enumerators: the `default` branches of the two `switch`es, which answer
-- as for `internal_server_error`, are not reached.
pub mod Laws
use altas.Prelude.{
  ℕ, Bool, true, false, List, [], ◌∷◌, ◌++◌, Option, none, some, Bytes, codes, decimal, is_empty,
  length, if◌then◌else◌, bytes_eq, map,
}
use mathlib.Core.List.{flatten}
use altas.Http.Request.{Header, set_header_in, crlf}

pub data StatusType : Type 0 where
  ok created accepted no_content multiple_choices moved_permanently moved_temporarily : StatusType
  not_modified bad_request unauthorized forbidden not_found internal_server_error : StatusType
  not_implemented bad_gateway service_unavailable : StatusType

-- The numbers of the enumerators.
unfoldable pub status_number : StatusType → ℕ
status_number ok = 200
status_number created = 201
status_number accepted = 202
status_number no_content = 204
status_number multiple_choices = 300
status_number moved_permanently = 301
status_number moved_temporarily = 302
status_number not_modified = 304
status_number bad_request = 400
status_number unauthorized = 401
status_number forbidden = 403
status_number not_found = 404
status_number internal_server_error = 500
status_number not_implemented = 501
status_number bad_gateway = 502
status_number service_unavailable = 503

-- `status_strings::to_buffer`: the status line.
unfoldable pub to_buffer : StatusType → Bytes
to_buffer ok = codes "HTTP/1.0 200 OK\r\n"
to_buffer created = codes "HTTP/1.0 201 Created\r\n"
to_buffer accepted = codes "HTTP/1.0 202 Accepted\r\n"
to_buffer no_content = codes "HTTP/1.0 204 No Content\r\n"
to_buffer multiple_choices = codes "HTTP/1.0 300 Multiple Choices\r\n"
to_buffer moved_permanently = codes "HTTP/1.0 301 Moved Permanently\r\n"
to_buffer moved_temporarily = codes "HTTP/1.0 302 Moved Temporarily\r\n"
to_buffer not_modified = codes "HTTP/1.0 304 Not Modified\r\n"
to_buffer bad_request = codes "HTTP/1.0 400 Bad Request\r\n"
to_buffer unauthorized = codes "HTTP/1.0 401 Unauthorized\r\n"
to_buffer forbidden = codes "HTTP/1.0 403 Forbidden\r\n"
to_buffer not_found = codes "HTTP/1.0 404 Not Found\r\n"
to_buffer internal_server_error = codes "HTTP/1.0 500 Internal Server Error\r\n"
to_buffer not_implemented = codes "HTTP/1.0 501 Not Implemented\r\n"
to_buffer bad_gateway = codes "HTTP/1.0 502 Bad Gateway\r\n"
to_buffer service_unavailable = codes "HTTP/1.0 503 Service Unavailable\r\n"

-- `stock_replies::to_string`: the body of a stock reply.
unfoldable pub stock_content : StatusType → Bytes
stock_content ok = []
stock_content created =
    codes "<html><head><title>Created</title></head>"
    ++ codes "<body><h1>201 Created</h1></body></html>"
stock_content accepted =
    codes "<html><head><title>Accepted</title></head>"
    ++ codes "<body><h1>202 Accepted</h1></body></html>"
stock_content no_content =
    codes "<html><head><title>No Content</title></head>"
    ++ codes "<body><h1>204 Content</h1></body></html>"
stock_content multiple_choices =
    codes "<html><head><title>Multiple Choices</title></head>"
    ++ codes "<body><h1>300 Multiple Choices</h1></body></html>"
stock_content moved_permanently =
    codes "<html><head><title>Moved Permanently</title></head>"
    ++ codes "<body><h1>301 Moved Permanently</h1></body></html>"
stock_content moved_temporarily =
    codes "<html><head><title>Moved Temporarily</title></head>"
    ++ codes "<body><h1>302 Moved Temporarily</h1></body></html>"
stock_content not_modified =
    codes "<html><head><title>Not Modified</title></head>"
    ++ codes "<body><h1>304 Not Modified</h1></body></html>"
stock_content bad_request =
    codes "<html><head><title>Bad Request</title></head>"
    ++ codes "<body><h1>400 Bad Request</h1></body></html>"
stock_content unauthorized =
    codes "<html><head><title>Unauthorized</title></head>"
    ++ codes "<body><h1>401 Unauthorized</h1></body></html>"
stock_content forbidden =
    codes "<html><head><title>Forbidden</title></head>"
    ++ codes "<body><h1>403 Forbidden</h1></body></html>"
stock_content not_found =
    codes "<html><head><title>Not Found</title></head>"
    ++ codes "<body><h1>404 Not Found</h1></body></html>"
stock_content internal_server_error =
    codes "<html><head><title>Internal Server Error</title></head>"
    ++ codes "<body><h1>500 Internal Server Error</h1></body></html>"
stock_content not_implemented =
    codes "<html><head><title>Not Implemented</title></head>"
    ++ codes "<body><h1>501 Not Implemented</h1></body></html>"
stock_content bad_gateway =
    codes "<html><head><title>Bad Gateway</title></head>"
    ++ codes "<body><h1>502 Bad Gateway</h1></body></html>"
stock_content service_unavailable =
    codes "<html><head><title>Service Unavailable</title></head>"
    ++ codes "<body><h1>503 Service Unavailable</h1></body></html>"

pub record Response : Type 0 where
  pub status : StatusType
  pub headers : List Header
  pub content : Bytes

header_buffers : List Header → List Bytes
header_buffers [] = []
header_buffers (h ∷ hs) = h.name ∷ (b':' ∷ b' ' ∷ []) ∷ h.value ∷ crlf ∷ header_buffers hs

unfoldable pub to_buffers : Response → List Bytes
unfolding header_buffers
to_buffers r = to_buffer r.status ∷ (header_buffers r.headers ++ crlf ∷ r.content ∷ [])

header_in : Bytes → List Header → Bytes
header_in name [] = []
header_in name (h ∷ hs) = if bytes_eq h.name name then h.value else header_in name hs

unfoldable pub header : Bytes → Response → Bytes
unfolding header_in
header name r = header_in name r.headers

unfoldable pub set_header : Bytes → Bytes → Response → Response
set_header name value r = record r { headers = set_header_in name value r.headers }

abbrev pub content_length : Bytes
content_length = codes "Content-Length"

abbrev pub content_type : Bytes
content_type = codes "Content-Type"

-- What the three writers share: the status, the content and the two headers.
write : Bytes → StatusType → Bytes → Response → Response
write type code body r =
    set_header content_type type (
      set_header content_length (decimal (length body))
        (record r { status = code; content = body }))

unfoldable pub write_text : StatusType → Bytes → Response → Response
unfolding write
write_text code body r = write (codes "text/plain") code body r

unfoldable pub write_html : StatusType → Bytes → Response → Response
unfolding write
write_html code body r = write (codes "text/html") code body r

-- `body` is the text that `dump` of the JSON library gives.
unfoldable pub write_json : StatusType → Bytes → Response → Response
unfolding write
write_json code body r = write (codes "application/json") code body r

-- `stock_reply` of a status. The reply is built anew.
unfoldable pub stock_reply : StatusType → Response
stock_reply s =
    let rep : Response = record { status = s; headers = []; content = stock_content s } in
    set_header content_type (codes "text/html")
      (set_header content_length (decimal (length (stock_content s))) rep)
