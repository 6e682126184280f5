-- ===== src/Http/RequestParser/Wire.antt =====
-- A whole request, and what the parser makes of it.
use altas.Prelude.{
  ℕ, ◌≡◌, refl, ap, ◌∙◌, true, List, [], ◌∷◌, ◌++◌, Option, none, some, Bytes, arith, All,
  append-nil, IsDigits, Free, span_until, span_until-stop, span_until-end,
}
use altas.Status.{ok_status}
use altas.Http.FormData
use altas.Http.FormData.{FormData}
use altas.Http.FormData.RoundTrip.{parse_total, parse-nil}
use altas.Http.Url.Laws.{query_text, query_value}
use altas.Http.UrlDecode.{url_decode}
use altas.Http.UrlDecode.Laws.{Encodes, url_decode-Encodes}
use altas.Http.Request.{Header, Request, default_request}
use altas.Http.RequestParser.Run.{finish, parse, parse_uri, with_query}
use altas.Http.RequestParser.Chunks.{parse-more}
use altas.Http.RequestParser.Safety.{IsToken, IsHeader}
use altas.Http.RequestParser.RoundTrip.{
  IsUriByte, add_digits, parse-method, parse-uri, consume-major, consume-minor, parse-major,
  parse-minor, parse-headers, parse-body, headers_text, digit_plain,
}
use altas.Http.RequestParser.{
  good, indeterminate, method_start, method, uri, http_version_major_start, http_version_major,
  http_version_minor_start, http_version_minor, header_line_start, expecting_newline_3, consume,
  is_digit,
}

-- Digits with at least one among them.
abbrev pub IsNumber : Bytes → Type 0
IsNumber [] = ⊥
IsNumber (c ∷ cs) = IsDigits (c ∷ cs)

abbrev pub IsMethod : Bytes → Type 0
IsMethod [] = ⊥
IsMethod (c ∷ cs) = All IsToken (c ∷ cs)

-- The text of a request: its method, its target, the digits of its version, headers and body.
abbrev pub wire : Bytes → Bytes → Bytes → Bytes → List Header → Bytes → Bytes
wire m u major minor hs body =
    m
    ++ b' '
      ∷ (u
          ++ b' '
            ∷ b'H'
            ∷ b'T'
            ∷ b'T'
            ∷ b'P'
            ∷ b'/'
            ∷ (major ++ b'.' ∷ (minor ++ b'\r' ∷ b'\n' ∷ headers_text hs (b'\r' ∷ b'\n' ∷ body))))

parse-start :
    (m rest : Bytes) (r : Request)
    → IsMethod m
    → r.method ≡ []
    → parse method_start r (m ++ b' ' ∷ rest) ≡ parse uri (record r { method = m }) rest
parse-start [] rest r h e = absurd h
parse-start (c ∷ m) rest r (t, h) e =
    parse-more method_start r c (m ++ b' ' ∷ rest) (first r c t)
    ∙ parse-method m (b' ' ∷ rest) (record r { method = r.method ++ c ∷ [] }) h
    ∙ rw e (blank (record r { method = c ∷ m }))
  where
    first :
        (r : Request) (c : ℕ)
        → IsToken c
        → consume method_start r c
          ≡ some (indeterminate, method, record r { method = r.method ++ c ∷ [] })
    first r c t = unfold consume in rw t

    blank : (q : Request) → parse method q (b' ' ∷ rest) ≡ parse uri q rest
    blank q = unfold parse consume in refl

parse-version_mark :
    (r : Request) (rest : Bytes)
    → parse uri r (b' ' ∷ b'H' ∷ b'T' ∷ b'T' ∷ b'P' ∷ b'/' ∷ rest)
      ≡ parse http_version_major_start
          (record r { http_version_major = 0; http_version_minor = 0 })
          rest
unfolding parse consume
parse-version_mark r rest = refl

module _ (r : Request) (c : ℕ) (h : is_digit c ≡ true) where
  consume-major_start : consume http_version_major_start r c ≡ consume http_version_major r c
  unfolding consume is_digit
  consume-major_start = ground arith

  consume-minor_start : consume http_version_minor_start r c ≡ consume http_version_minor r c
  unfolding consume is_digit
  consume-minor_start = ground arith

parse-version_major :
    (d rest : Bytes) (r : Request)
    → IsNumber d
    → parse http_version_major_start r (d ++ b'.' ∷ rest)
      ≡ parse http_version_minor_start
          (record r { http_version_major = add_digits r.http_version_major d })
          rest
parse-version_major [] rest r h = absurd h
parse-version_major (c ∷ d) rest r (lo, hi, h) =
    parse-more http_version_major_start r c (d ++ b'.' ∷ rest)
      (consume-major_start r c (digit_plain c lo hi).0 ∙ consume-major r c lo hi)
    ∙ parse-major d (b'.' ∷ rest) _ h
    ∙ unfold parse consume in refl

parse-version_minor :
    (d rest : Bytes) (r : Request)
    → IsNumber d
    → parse http_version_minor_start r (d ++ b'\r' ∷ b'\n' ∷ rest)
      ≡ parse header_line_start
          (record r { http_version_minor = add_digits r.http_version_minor d })
          rest
parse-version_minor [] rest r h = absurd h
parse-version_minor (c ∷ d) rest r (lo, hi, h) =
    parse-more http_version_minor_start r c (d ++ b'\r' ∷ b'\n' ∷ rest)
      (consume-minor_start r c (digit_plain c lo hi).0 ∙ consume-minor r c lo hi)
    ∙ parse-minor d (b'\r' ∷ b'\n' ∷ rest) _ h
    ∙ unfold parse consume in refl

-- The request as the parser has read it, before its target is decoded.
abbrev read_request : Request → Bytes → Bytes → Bytes → Bytes → List Header → Request
read_request r m u major minor hs = record r {
  method = m;
  uri = u;
  http_version_major = add_digits 0 major;
  http_version_minor = add_digits 0 minor;
  headers = hs;
}

parse-read :
    (m u major minor body : Bytes) (hs : List Header) (r : Request)
    → IsMethod m
    → All IsUriByte u
    → IsNumber major
    → IsNumber minor
    → All IsHeader hs
    → r.method ≡ []
    → r.uri ≡ []
    → r.headers ≡ []
    → parse method_start r (wire m u major minor hs body)
      ≡ finish body expecting_newline_3 (read_request r m u major minor hs)
parse-read m u major minor body hs r im iu ia ii ih em eu eh =
    parse-start m _ r im em
    ∙ parse-uri u _ (record r { method = m }) iu
    ∙ parse-version_mark _ _
    ∙ parse-version_major major _ _ ia
    ∙ parse-version_minor minor _ _ ii
    ∙ parse-headers hs _ _ ih
    ∙ parse-body _ body
    ∙ rw (eu, eh)

-- The request `q` that is handed over, beside what was written: the target is decoded and split
-- at its first '?', and what follows is taken for the parameters.
pub record IsDelivered (q : Request) (m p : Bytes) (query : Option Bytes) (major minor : Bytes)
    (hs : List Header) (body : Bytes) : Type 0 where
  pub method_is : q.method ≡ m
  pub uri_is : q.uri ≡ p ++ query_text query
  pub path_is : q.path ≡ p
  pub params_are :
      FormData.parse (query_value query) (record { values = [] }) ≡ some (ok_status, q.params)
  pub major_is : q.http_version_major ≡ add_digits 0 major
  pub minor_is : q.http_version_minor ≡ add_digits 0 minor
  pub headers_are : q.headers ≡ hs
  pub content_is : q.content ≡ body

split_target :
    (p : Bytes) (query : Option Bytes)
    → Free b'?' p
    → span_until b'?' (p ++ query_text query) ≡ (p, query_text query)
split_target p none h = rw append-nil (span_until-end b'?' p h)
split_target p (some q) h = span_until-stop b'?' p q h

by_query :
    (r : Request) {p t : Bytes} {g : FormData}
    → span_until b'?' r.uri ≡ (p, b'?' ∷ t)
    → FormData.parse t r.params ≡ some (ok_status, g)
    → parse_uri r ≡ some (record r { path = p; params = g })
by_query r {p} {t} e k =
    unfold parse_uri in (ap (with_query r) e ∙ unfold with_query in rw (k, with_query))

module _ (r : Request) (m p u major minor body : Bytes) (hs : List Header)
    (empty : r.params ≡ record { values = [] }) where
  abbrev decoded_request : Bytes → Request
  decoded_request t = record (read_request r m u major minor hs) { content = body; uri = t }

  deliver :
      (query : Option Bytes)
      → Free b'?' p
      → (q : Request) × (parse_uri (decoded_request (p ++ query_text query)) ≡ some q)
        × IsDelivered q m p query major minor hs body
  unfolding parse_uri with_query
  deliver none h = (
    record (decoded_request (p ++ [])) { path = p ++ [] },
    rw (split_target p none h),
    record {
      method_is = refl;
      uri_is = refl;
      path_is = append-nil p;
      params_are = rw empty (parse-nil _);
      major_is = refl;
      minor_is = refl;
      headers_are = refl;
      content_is = refl;
    },
  )
  deliver (some t) h =
      let (g, e) = parse_total t r.params in
      (
        record (decoded_request (p ++ b'?' ∷ t)) { path = p; params = g },
        by_query (decoded_request (p ++ b'?' ∷ t)) (split_target p (some t) h) e,
        record {
          method_is = refl;
          uri_is = refl;
          path_is = refl;
          params_are = rw (← empty) e;
          major_is = refl;
          minor_is = refl;
          headers_are = refl;
          content_is = refl;
        },
      )

finish-decoded :
    (body : Bytes) (r q : Request) {t : Bytes}
    → url_decode r.uri ≡ (true, t)
    → parse_uri (record r { content = body; uri = t }) ≡ some q
    → finish body expecting_newline_3 r ≡ some (good, body, expecting_newline_3, q)
unfolding finish
finish-decoded body r q d e = rw (d, finish) (rw (e, finish))

-- A request that a client writes with any method, target, version, headers and body is read back.
-- The method is a token, and so is each header's name; the target is any encoding of a path
-- without '?' and perhaps a query, and holds no blank and no control character; the version's two
-- numbers have a digit at least; no header's value holds a control character. Then the parser, in
-- its first state and on a fresh request, hands over the request, with the decoded target, and the
-- body is what comes behind the headers.
pub parse-wire :
    (a b : ℕ) (m p u major minor body : Bytes) (query : Option Bytes) (hs : List Header)
    → IsMethod m
    → Encodes (p ++ query_text query) u
    → All IsUriByte u
    → Free b'?' p
    → IsNumber major
    → IsNumber minor
    → All IsHeader hs
    → (q : Request) × (parse method_start (default_request a b) (wire m u major minor hs body)
        ≡ some (good, body, expecting_newline_3, q))
      × IsDelivered q m p query major minor hs body
unfolding default_request
parse-wire a b m p u major minor body query hs im en iu fr ia ii ih =
    let r = default_request a b in
    let (q, e, d) = deliver r m p u major minor body hs refl query fr in
    let read = parse-read m u major minor body hs r im iu ia ii ih refl refl refl in
    (
      q,
      read ∙ finish-decoded body (read_request r m u major minor hs) q (url_decode-Encodes en) e,
      d,
    )
