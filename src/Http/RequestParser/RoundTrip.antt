-- ===== src/Http/RequestParser/RoundTrip.antt =====
-- Each lemma runs the parser over one piece of a request, with any `rest` behind it.
use altas.Prelude.{
  ℕ, ◌≤◌, ◌≡◌, ◌≢◌, refl, ◌∙◌, true, false, List, [], ◌∷◌, ◌++◌, some, Bytes, arith, All,
  append-nil, append_assoc, IsDigits,
}
use altas.Http.Request.{Header, Request}
use altas.Http.RequestParser.Run.{finish, parse}
use altas.Http.RequestParser.Chunks.{parse-more}
use altas.Http.RequestParser.Safety.{IsToken, IsText, IsHeader}
use altas.Http.RequestParser.{
  indeterminate, method, uri, http_version_major, http_version_minor, header_line_start,
  header_name, header_value, expecting_newline_3, consume, is_no_token, is_ctl, is_digit, add_digit,
  push_name, push_value,
}

abbrev pub IsUriByte : ℕ → Type 0
IsUriByte c = (is_ctl c ≡ false) × (c ≢ b' ')

-- The bytes that end a method or a name are not in it.
token_plain : (c : ℕ) → IsToken c → (c ≢ b' ') × (c ≢ b'\t') × (c ≢ b':') × (c ≢ b'\r')
unfolding is_no_token
token_plain c h = ground arith

text_plain : (c : ℕ) → IsText c → (c ≢ b'\r') × (c ≢ b'\n')
unfolding is_ctl
text_plain c h = ground arith

pub digit_plain : (c : ℕ) → b'0' ≤ c → c ≤ b'9' → (is_digit c ≡ true) × (c ≢ b'.') × (c ≢ b'\r')
unfolding is_digit
digit_plain c h k = ground arith

module _ (r : Request) (c : ℕ) where
  consume-method :
      IsToken c
      → consume method r c ≡ some (indeterminate, method, record r { method = r.method ++ c ∷ [] })
  unfolding consume
  consume-method h = ground (arith, token_plain c h)

  consume-uri :
      IsUriByte c → consume uri r c ≡ some (indeterminate, uri, record r { uri = r.uri ++ c ∷ [] })
  unfolding consume
  consume-uri h = ground arith

  pub consume-major :
      b'0' ≤ c
      → c ≤ b'9'
      → consume http_version_major r c
        ≡ some (
          indeterminate,
          http_version_major,
          record r { http_version_major = add_digit r.http_version_major c },
        )
  unfolding consume
  consume-major h k = ground (arith, digit_plain c h k)

  pub consume-minor :
      b'0' ≤ c
      → c ≤ b'9'
      → consume http_version_minor r c
        ≡ some (
          indeterminate,
          http_version_minor,
          record r { http_version_minor = add_digit r.http_version_minor c },
        )
  unfolding consume
  consume-minor h k = ground (arith, digit_plain c h k)

pub parse-method :
    (m rest : Bytes) (r : Request)
    → All IsToken m
    → parse method r (m ++ rest) ≡ parse method (record r { method = r.method ++ m }) rest
parse-method [] rest r h = rw append-nil
parse-method (c ∷ m) rest r (t, h) =
    parse-more method r c (m ++ rest) (consume-method r c t)
    ∙ parse-method m rest (record r { method = r.method ++ c ∷ [] }) h
    ∙ rw append_assoc

pub parse-uri :
    (u rest : Bytes) (r : Request)
    → All IsUriByte u
    → parse uri r (u ++ rest) ≡ parse uri (record r { uri = r.uri ++ u }) rest
parse-uri [] rest r h = rw append-nil
parse-uri (c ∷ u) rest r (t, h) =
    parse-more uri r c (u ++ rest) (consume-uri r c t)
    ∙ parse-uri u rest (record r { uri = r.uri ++ c ∷ [] }) h
    ∙ rw append_assoc

-- The value of a version number behind `v`.
abbrev pub add_digits : ℕ → Bytes → ℕ
add_digits v [] = v
add_digits v (c ∷ cs) = add_digits (add_digit v c) cs

push_name-last :
    (c : ℕ) (hs : List Header) (h : Header)
    → push_name c (hs ++ h ∷ []) ≡ some (hs ++ record h { name = h.name ++ c ∷ [] } ∷ [])
unfolding push_name
push_name-last c [] h = refl
push_name-last c (g ∷ []) h = refl
push_name-last c (g ∷ i ∷ hs) h = rw (push_name-last c (i ∷ hs) h, push_name)

push_value-last :
    (c : ℕ) (hs : List Header) (h : Header)
    → push_value c (hs ++ h ∷ []) ≡ some (hs ++ record h { value = h.value ++ c ∷ [] } ∷ [])
unfolding push_value
push_value-last c [] h = refl
push_value-last c (g ∷ []) h = refl
push_value-last c (g ∷ i ∷ hs) h = rw (push_value-last c (i ∷ hs) h, push_value)

pub parse-major :
    (d rest : Bytes) (r : Request)
    → IsDigits d
    → parse http_version_major r (d ++ rest)
      ≡ parse http_version_major
          (record r { http_version_major = add_digits r.http_version_major d })
          rest
parse-major [] rest r h = refl
parse-major (c ∷ d) rest r (lo, hi, h) =
    parse-more http_version_major r c (d ++ rest) (consume-major r c lo hi)
    ∙ parse-major d rest (record r { http_version_major = add_digit r.http_version_major c }) h

pub parse-minor :
    (d rest : Bytes) (r : Request)
    → IsDigits d
    → parse http_version_minor r (d ++ rest)
      ≡ parse http_version_minor
          (record r { http_version_minor = add_digits r.http_version_minor d })
          rest
parse-minor [] rest r h = refl
parse-minor (c ∷ d) rest r (lo, hi, h) =
    parse-more http_version_minor r c (d ++ rest) (consume-minor r c lo hi)
    ∙ parse-minor d rest (record r { http_version_minor = add_digit r.http_version_minor c }) h

-- The request with the headers `hs`, and `h` behind them.
abbrev at_header : Request → List Header → Header → Request
at_header r hs h = record r { headers = hs ++ h ∷ [] }

module _ (r : Request) (hs : List Header) (h : Header) (c : ℕ) where
  consume-name :
      IsToken c
      → consume header_name (at_header r hs h) c
        ≡ some (indeterminate, header_name, at_header r hs (record h { name = h.name ++ c ∷ [] }))
  unfolding consume
  consume-name t = ground (arith, token_plain c t, push_name-last c hs h)

  consume-value :
      IsText c
      → consume header_value (at_header r hs h) c
        ≡ some
            (indeterminate, header_value, at_header r hs (record h { value = h.value ++ c ∷ [] }))
  unfolding consume
  consume-value t = ground (arith, text_plain c t, push_value-last c hs h)

consume-new :
    (r : Request) (c : ℕ)
    → IsToken c
    → consume header_line_start r c
      ≡ some
          (indeterminate, header_name, at_header r r.headers (record { name = c ∷ []; value = [] }))
unfolding consume
consume-new r c t =
    ground (arith, token_plain c t, push_name-last c r.headers (record { name = []; value = [] }))

parse-name :
    (n rest : Bytes) (r : Request) (hs : List Header) (h : Header)
    → All IsToken n
    → parse header_name (at_header r hs h) (n ++ rest)
      ≡ parse header_name (at_header r hs (record h { name = h.name ++ n })) rest
parse-name [] rest r hs h t = rw append-nil
parse-name (c ∷ n) rest r hs h (t, ts) =
    parse-more header_name (at_header r hs h) c (n ++ rest) (consume-name r hs h c t)
    ∙ parse-name n rest r hs (record h { name = h.name ++ c ∷ [] }) ts
    ∙ rw append_assoc

parse-value :
    (v rest : Bytes) (r : Request) (hs : List Header) (h : Header)
    → All IsText v
    → parse header_value (at_header r hs h) (v ++ rest)
      ≡ parse header_value (at_header r hs (record h { value = h.value ++ v })) rest
parse-value [] rest r hs h t = rw append-nil
parse-value (c ∷ v) rest r hs h (t, ts) =
    parse-more header_value (at_header r hs h) c (v ++ rest) (consume-value r hs h c t)
    ∙ parse-value v rest r hs (record h { value = h.value ++ c ∷ [] }) ts
    ∙ rw append_assoc

-- "name: value" and the end of the line.
abbrev pub header_text : Header → Bytes → Bytes
header_text h rest = h.name ++ b':' ∷ b' ' ∷ (h.value ++ b'\r' ∷ b'\n' ∷ rest)

parse-separator :
    (r : Request) (rest : Bytes)
    → parse header_name r (b':' ∷ b' ' ∷ rest) ≡ parse header_value r rest
unfolding parse consume
parse-separator r rest = refl

parse-line_end :
    (r : Request) (rest : Bytes)
    → parse header_value r (b'\r' ∷ b'\n' ∷ rest) ≡ parse header_line_start r rest
unfolding parse consume
parse-line_end r rest = refl

parse-header :
    (n v rest : Bytes) (r : Request)
    → IsHeader (record { name = n; value = v })
    → parse header_line_start r (header_text (record { name = n; value = v }) rest)
      ≡ parse header_line_start (at_header r r.headers (record { name = n; value = v })) rest
parse-header [] v rest r (n, t, x) = absurd (n refl)
parse-header (c ∷ m) v rest r (n, (t, ts), x) =
    parse-more header_line_start r c _ (consume-new r c t)
    ∙ parse-name m _ r r.headers (record { name = c ∷ []; value = [] }) ts
    ∙ parse-separator _ _
    ∙ parse-value v _ r r.headers (record { name = c ∷ m; value = [] }) x
    ∙ parse-line_end _ rest

abbrev pub headers_text : List Header → Bytes → Bytes
headers_text [] rest = rest
headers_text (h ∷ hs) rest = header_text h (headers_text hs rest)

pub parse-headers :
    (hs : List Header) (rest : Bytes) (r : Request)
    → All IsHeader hs
    → parse header_line_start r (headers_text hs rest)
      ≡ parse header_line_start (record r { headers = r.headers ++ hs }) rest
parse-headers [] rest r a = rw append-nil
parse-headers (h ∷ hs) rest r (v, a) =
    parse-header h.name h.value (headers_text hs rest) r v
    ∙ parse-headers hs rest (at_header r r.headers h) a
    ∙ rw append_assoc

pub parse-body :
    (r : Request) (body : Bytes)
    → parse header_line_start r (b'\r' ∷ b'\n' ∷ body) ≡ finish body expecting_newline_3 r
unfolding parse consume
parse-body r body = refl
