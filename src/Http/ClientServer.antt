-- ===== src/Http/ClientServer.antt =====
-- What `Request::to_buffers` of the client writes, read by the server's `RequestParser`.
use altas.Prelude.{
  ℕ, ◌≡◌, refl, List, [], ◌∷◌, ◌++◌, Option, some, Bytes, codes, decimal, decimal-IsDigits,
  IsDigits, is_empty, length, if◌then◌else◌, arith, All, append_assoc, Free,
}
use altas.Http.Url.{Url}
use altas.Http.Url.Laws.{query_text}
use altas.Http.UrlDecode.Laws.{Encodes}
use altas.Http.Request.{Header, Request, default_request, to_buffers}
use altas.Http.RequestParser.{good, method_start, expecting_newline_3, is_no_token, is_ctl}
use altas.Http.RequestParser.Run.{parse}
use altas.Http.RequestParser.Safety.{IsToken, IsText, IsHeader}
use altas.Http.RequestParser.RoundTrip.{IsUriByte}
use altas.Http.RequestParser.Wire.{IsMethod, wire, IsDelivered, parse-wire}

-- The headers that the client writes.
abbrev pub content_length_header : Bytes → List Header
content_length_header [] = []
content_length_header (c ∷ cs) =
    record { name = codes "Content-Length"; value = decimal (length (c ∷ cs)) } ∷ []

abbrev pub client_headers : Request → List Header
client_headers r =
    record { name = codes "Host"; value = r.url.host }
    ∷ record { name = codes "Accept"; value = codes "*/*" }
    ∷ (content_length_header r.content
        ++ record { name = codes "TcpConnection"; value = codes "close" } ∷ [])

-- The target that the client writes.
abbrev pub target : Url → Bytes
target u = u.raw_path ++ (if is_empty u.raw_query then [] else b'?' ∷ u.raw_query)

-- The client's text is a request of version 1.0 with these headers.
to_buffers-wire :
    (r : Request) (content : Bytes)
    → r.content ≡ content
    → to_buffers r ≡ wire r.method (target r.url) (b'1' ∷ []) (b'0' ∷ []) (client_headers r) content
unfolding to_buffers
to_buffers-wire r [] e = rw e (simp append_assoc)
to_buffers-wire r (c ∷ cs) e = rw e (simp append_assoc)

digits_are-IsText : (d : Bytes) → IsDigits d → All IsText d
unfolding is_ctl
digits_are-IsText [] h = tt
digits_are-IsText (c ∷ d) (lo, hi, h) = (ground arith, digits_are-IsText d h)

names_are_tokens :
    All IsToken (codes "Host")
    × All IsToken (codes "Accept")
    × All IsToken (codes "Content-Length")
    × All IsToken (codes "TcpConnection")
    × All IsText (codes "*/*")
    × All IsText (codes "close")
unfolding is_no_token is_ctl
names_are_tokens = ground arith

last_header : IsHeader (record { name = codes "TcpConnection"; value = codes "close" })
last_header = ((λ e. cc), names_are_tokens.3, names_are_tokens.5)

host_header :
    (host : Bytes) → All IsText host → IsHeader (record { name = codes "Host"; value = host })
host_header host h = ((λ e. cc), names_are_tokens.0, h)

accept_header : IsHeader (record { name = codes "Accept"; value = codes "*/*" })
accept_header = ((λ e. cc), names_are_tokens.1, names_are_tokens.4)

length_header : (n : ℕ) → IsHeader (record { name = codes "Content-Length"; value = decimal n })
length_header n = ((λ e. cc), names_are_tokens.2, digits_are-IsText _ (decimal-IsDigits n))

client_headers-IsHeader :
    (r : Request) (content : Bytes)
    → r.content ≡ content
    → All IsText r.url.host
    → All IsHeader (client_headers r)
client_headers-IsHeader r [] e h = rw e (host_header _ h, (accept_header, (last_header, tt)))
client_headers-IsHeader r (c ∷ cs) e h =
    rw e (host_header _ h, (accept_header, (length_header (length (c ∷ cs)), (last_header, tt))))

-- The server's parser reads what the client writes. The client's method is a token; its target is
-- an encoding of a path without '?' and perhaps a query, with no blank and no control character in
-- it; and the host holds no control character. Then the request that is handed over has the
-- client's method and content, the decoded target, version 1.0, and the headers "Host", "Accept",
-- "Content-Length" if there is content, and "TcpConnection".
pub parse-to_buffers :
    (a b : ℕ) (r : Request) (p : Bytes) (query : Option Bytes)
    → IsMethod r.method
    → Encodes (p ++ query_text query) (target r.url)
    → All IsUriByte (target r.url)
    → Free b'?' p
    → All IsText r.url.host
    → (q : Request) × (parse method_start (default_request a b) (to_buffers r)
        ≡ some (good, r.content, expecting_newline_3, q))
      × IsDelivered q r.method p query (b'1' ∷ []) (b'0' ∷ []) (client_headers r) r.content
parse-to_buffers a b r p query im en iu fr ih =
    let (q, e, d) =
      parse-wire a b r.method p (target r.url) (b'1' ∷ []) (b'0' ∷ []) r.content query
        (client_headers r) im en iu fr (omega arith) (omega arith)
        (client_headers-IsHeader r r.content refl ih) in
    (q, rw (to_buffers-wire r r.content refl) e, d)
