-- ===== src/Http/Response/Laws.antt =====
-- The headers of a response, and its text on the wire.
use altas.Prelude.{
  concat, append_assoc, append-nil, ap, sym, ◌∙◌, ◌++◌, ◌≡◌, refl, List, [], ◌∷◌, Bytes,
  if◌then◌else◌, bytes_eq, bytes_eq_iff, bytes_eq_refl, arith,
}
use altas.Http.Request.{Header, set_header_in, crlf}
use altas.Http.Response.{
  Response, header_in, header, set_header, header_buffers, to_buffers, to_buffer,
}

header_in-set :
    (n k v : Bytes) (hs : List Header)
    → header_in k (set_header_in n v hs) ≡ (if bytes_eq n k then v else header_in k hs)
unfolding header_in set_header_in
header_in-set n k v [] = refl
header_in-set n k v (h ∷ hs) = ground (
  arith,
  bytes_eq_iff h.name n,
  bytes_eq_iff h.name k,
  bytes_eq_iff n k,
  bytes_eq_refl n,
  header_in-set n k v hs,
)

-- A header reads as it was set last, and setting it leaves every other one as it was.
pub header-set_header :
    (n k v : Bytes) (r : Response)
    → header k (set_header n v r) ≡ (if bytes_eq n k then v else header k r)
unfolding header set_header
header-set_header n k v r = header_in-set n k v r.headers

-- The line of a header, without its newline.
abbrev pub line_of : Header → Bytes
line_of h = h.name ++ b':' ∷ b' ' ∷ (h.value ++ b'\r' ∷ [])

abbrev pub head_text : List Header → Bytes
head_text [] = []
head_text (h ∷ hs) = line_of h ++ b'\n' ∷ head_text hs

one_header :
    (h : Header) (more : Bytes)
    → h.name ++ (b':' ∷ b' ' ∷ (h.value ++ b'\r' ∷ b'\n' ∷ more)) ≡ line_of h ++ b'\n' ∷ more
one_header h more = simp append_assoc

headers_text :
    (hs : List Header) (tail : List Bytes)
    → concat (header_buffers hs ++ tail) ≡ head_text hs ++ concat tail
unfolding header_buffers
headers_text [] tail = refl
headers_text (h ∷ hs) tail =
    ap (λ z. h.name ++ (b':' ∷ b' ' ∷ (h.value ++ b'\r' ∷ b'\n' ∷ z))) (headers_text hs tail)
    ∙ one_header h (head_text hs ++ concat tail)
    ∙ sym (append_assoc (line_of h) (b'\n' ∷ head_text hs) (concat tail))

-- The text that the buffers make.
pub to_buffers-text :
    (r : Response)
    → concat (to_buffers r)
      ≡ to_buffer r.status ++ (head_text r.headers ++ (b'\r' ∷ b'\n' ∷ r.content))
unfolding to_buffers
to_buffers-text r =
    ap (λ z. to_buffer r.status ++ z)
      (headers_text r.headers (crlf ∷ r.content ∷ [])
        ∙ ap (λ z. head_text r.headers ++ (b'\r' ∷ b'\n' ∷ z)) (append-nil r.content))
