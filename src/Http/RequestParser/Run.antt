-- ===== src/Http/RequestParser/Run.antt =====
-- `RequestParser::parse` and `parse_uri`: a chunk of input, byte by byte.
use altas.Prelude.{◌≡◌, refl, [], ◌∷◌, Option, none, some, Bytes, span_until}
use altas.Http.FormData.{FormData}
use altas.Http.FormData.RoundTrip.{parse_total}
use altas.Http.FormData
use altas.Http.UrlDecode.{url_decode}
use altas.Http.Request.{Request}
use altas.Http.RequestParser.{ResultType, good, bad, indeterminate, State, consume}

-- `std::string::find_first_of` of one byte: the text before it and from it on.
unfoldable pub with_query : Request → Bytes × Bytes → Option Request
with_query r (path, []) = some (record r { path = r.uri })
with_query r (path, c ∷ query) = elim (FormData.parse query r.params) [
  | none ↦ none
  | some (st, params) ↦ some (record r { path = path; params = params })
]

unfoldable pub parse_uri : Request → Option Request
parse_uri r = with_query r (span_until b'?' r.uri)

-- The result, the bytes from the returned iterator on, `state_` and the request. None is a fault.
abbrev pub Parsed : Type 0
Parsed = Option (ResultType × Bytes × State × Request)

-- Behind the last byte of the header: what is left of the chunk is the content. The answer of
-- `UrlDecode` is not looked at.
unfoldable pub finish : Bytes → State → Request → Parsed
finish rest s r = elim (parse_uri (record r { content = rest; uri = (url_decode r.uri).1 })) [
  | none ↦ none
  | some q ↦ some (good, rest, s, q)
]

unfoldable pub parse : State → Request → Bytes → Parsed
parse s r [] = some (indeterminate, [], s, r)
parse s r (c ∷ cs) = elim (consume s r c) [
  | none ↦ none
  | some (good, s', r') ↦ finish cs s' r'
  | some (bad, s', r') ↦ some (bad, cs, s', r')
  | some (indeterminate, s', r') ↦ parse s' r' cs
]

with_query_total :
    (r : Request) (p : Bytes × Bytes)
    → (q : Request) × (with_query r p ≡ some q) × (q.method ≡ r.method) × (q.headers ≡ r.headers)
unfolding with_query
with_query_total r (path, []) = (record r { path = r.uri }, refl, refl, refl)
with_query_total r (path, c ∷ query) =
    let (params, e) = parse_total query r.params in
    (record r { path = path; params = params }, rw (e, with_query), refl, refl)

pub parse_uri_total :
    (r : Request)
    → (q : Request) × (parse_uri r ≡ some q) × (q.method ≡ r.method) × (q.headers ≡ r.headers)
unfolding parse_uri with_query
parse_uri_total r = with_query_total r (span_until b'?' r.uri)
