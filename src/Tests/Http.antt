-- ===== src/Tests/Http.antt =====
-- The texts of HTTP: cppboot/net/http.
use altas.Prelude.{
  false, ◌≡◌, ◌≢◌, ◌↔◌, refl, true, List, [], ◌∷◌, ◌++◌, none, some, Bytes, codes, arith,
  lex_compare, Free,
}
use altas.Status.{ok_status}
use altas.Http.FormData
use altas.Http.FormData.{FormData, encode}
use altas.Http.FormData.RoundTrip.{parse-encode}
use altas.Http.Url.{new_url}
use altas.Http.Url.Laws.{new_url-parts, new_url-eq-none_iff, query_text}
use altas.Http.UrlDecode.{url_decode}
use altas.Http.UrlDecode.Laws.{
  Encodes, Encodes-refl, escape, kept, blank, escaped, url_decode-Encodes,
}
use altas.Http.Request.{Header, Request, default_request, to_buffers}
use altas.Http.RequestParser.{
  is_ctl, is_no_token, consume, good, method_start, method, expecting_newline_3,
}
use altas.Http.RequestParser.Run.{parse}
use altas.Http.RequestParser.Chunks.{parse-append}
use altas.Http.RequestParser.Safety.{Sound, parse-Sound, default_request-Inv}
use altas.Http.RequestParser.Wire.{wire, IsDelivered, parse-wire}
use altas.Http.ClientServer.{client_headers, parse-to_buffers}

-- "/a b" and "x=%", encoded.
abbrev raw_target : Bytes
raw_target = codes "/a+b?x=%25"

raw_target-Encodes : Encodes (codes "/a b" ++ query_text (some (codes "x=%"))) raw_target
unfolding escape
raw_target-Encodes =
    kept b'/' (λ e. absurd (omega arith)) (λ e. absurd (omega arith))
      (kept b'a' (λ e. absurd (omega arith)) (λ e. absurd (omega arith))
        (blank (
          kept b'b' (λ e. absurd (omega arith)) (λ e. absurd (omega arith))
            (kept b'?' (λ e. absurd (omega arith)) (λ e. absurd (omega arith))
              (kept b'x' (λ e. absurd (omega arith)) (λ e. absurd (omega arith))
                (kept b'=' (λ e. absurd (omega arith)) (λ e. absurd (omega arith))
                  (escaped false true b'%' (omega arith) Encodes.done)))))))

url_decode-Encodes_example :
    url_decode raw_target ≡ (true, codes "/a b" ++ query_text (some (codes "x=%")))
url_decode-Encodes_example = url_decode-Encodes raw_target-Encodes

abbrev host_header : List Header
host_header = record { name = codes "Host"; value = codes "h" } ∷ []

parse-wire_example :
    (q : Request) × (parse method_start
        (default_request 7 7)
        (wire (codes "POST") raw_target (codes "1") (codes "10") host_header (codes "body"))
      ≡ some (good, codes "body", expecting_newline_3, q))
    × IsDelivered q
        (codes "POST")
        (codes "/a b")
        (some (codes "x=%"))
        (codes "1")
        (codes "10")
        host_header
        (codes "body")
unfolding is_ctl is_no_token
parse-wire_example =
    parse-wire 7 7 (codes "POST") (codes "/a b") raw_target (codes "1") (codes "10") (codes "body")
      (some (codes "x=%")) host_header (ground arith) raw_target-Encodes (ground arith)
      (ground arith) (omega arith) (omega arith) (ground arith)

abbrev client_request : Request
client_request = record (default_request 0 0) {
  method = codes "POST";
  content = codes "hi";
  url = record {
    scheme = codes "http";
    host = codes "h";
    raw_path = codes "/p";
    raw_query = codes "k";
  };
}

parse-to_buffers_example :
    (q : Request) × (parse method_start (default_request 7 7) (to_buffers client_request)
      ≡ some (good, codes "hi", expecting_newline_3, q))
    × IsDelivered q
        (codes "POST")
        (codes "/p")
        (some (codes "k"))
        (b'1' ∷ [])
        (b'0' ∷ [])
        (client_headers client_request)
        (codes "hi")
unfolding is_ctl is_no_token
parse-to_buffers_example =
    parse-to_buffers 7 7 client_request (codes "/p") (some (codes "k")) (ground arith)
      (Encodes-refl (codes "/p?k") (ground arith) (ground arith)) (ground arith) (ground arith)
      (ground arith)

parse-Sound_example :
    Sound (parse method_start (default_request 7 7) (codes "GET / HTTP/1.0\r\nA: b\r\n"))
parse-Sound_example =
    parse-Sound (codes "GET / HTTP/1.0\r\nA: b\r\n") method_start (default_request 7 7)
      (default_request-Inv 7 7)

parse-append_example :
    (◌≡◌ {A = Bytes} [] [])
    × (parse method_start (default_request 7 7) (codes "GE" ++ codes "T / HTTP/1.0")
        ≡ parse method
            (record (default_request 7 7) { method = codes "GE" })
            (codes "T / HTTP/1.0"))
unfolding parse consume default_request is_no_token
parse-append_example =
    parse-append (codes "GE") (codes "T / HTTP/1.0") [] method_start method (default_request 7 7)
      (record (default_request 7 7) { method = codes "GE" }) refl

abbrev form : FormData
form = record { values = (codes "a", codes "1") ∷ (codes "b", codes "x=y") ∷ [] }

parse-encode_example :
    FormData.parse (encode form) (record { values = [] }) ≡ some (ok_status, form)
unfolding lex_compare
parse-encode_example = parse-encode form ((ground arith, tt), (tt, tt)) (ground arith)

new_url-parts_example :
    new_url (
      codes "http"
      ++ b':' ∷ b'/' ∷ b'/' ∷ (codes "h:80" ++ b'/' ∷ (codes "p" ++ query_text (some (codes "k")))))
    ≡ some (record {
      scheme = codes "http";
      host = codes "h:80";
      raw_path = codes "/p";
      raw_query = codes "k";
    })
new_url-parts_example =
    new_url-parts (codes "http") (codes "h:80") (codes "p") (some (codes "k")) (λ e. cc)
      (ground arith) (ground arith) (ground arith)

new_url-eq-none_iff_example :
    (new_url (codes "localhost") ≡ none)
    ↔ ((codes "localhost" ≢ []) × Free b':' (codes "localhost"))
new_url-eq-none_iff_example = new_url-eq-none_iff (codes "localhost")
