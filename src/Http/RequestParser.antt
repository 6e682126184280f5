-- ===== src/Http/RequestParser.antt =====
-- cppboot/net/http/server/request_parser.h and request_parser.cc. A `char` is signed: a byte above
-- 127 is a negative number, so it is no HTTP character and no control character.
pub mod Run
pub mod Safety
pub mod RoundTrip
pub mod Chunks
pub mod Ends
pub mod Wire
use altas.Prelude.{
  ℕ, ◌+◌, ◌-◌, ◌*◌, ◌/◌, ◌%◌, ◌≡◌, Bool, true, false, not, ◌&&◌, ◌||◌, List, [], ◌∷◌, ◌++◌, Option,
  none, some, Bytes, codes, is_empty, length, span_until, if◌then◌else◌, ◌==◌, leb, ltb,
}
use altas.Words.{u32_mod}
use altas.Http.FormData.{FormData}
use altas.Http.FormData
use altas.Http.Request.{Header, Request}

pub data ResultType : Type 0 where
  good bad indeterminate : ResultType

pub data State : Type 0 where
  method_start method uri : State
  http_version_h http_version_t_1 http_version_t_2 http_version_p http_version_slash : State
  http_version_major_start http_version_major http_version_minor_start http_version_minor : State
  expecting_newline_1 header_line_start header_lws header_name space_before_header_value : State
  header_value expecting_newline_2 expecting_newline_3 : State

unfoldable pub is_char : ℕ → Bool
is_char c = leb c 127

unfoldable pub is_ctl : ℕ → Bool
is_ctl c = leb c 31 || c == 127

unfoldable pub is_tspecial : ℕ → Bool
is_tspecial c =
    c == b'('
    || c == b')'
    || c == b'<'
    || c == b'>'
    || c == b'@'
    || c == b','
    || c == b';'
    || c == b':'
    || c == b'\\'
    || c == b'"'
    || c == b'/'
    || c == b'['
    || c == b']'
    || c == b'?'
    || c == b'='
    || c == b'{'
    || c == b'}'
    || c == b' '
    || c == b'\t'

unfoldable pub is_digit : ℕ → Bool
is_digit c = leb b'0' c && leb c b'9'

-- `!is_char(input) || is_ctl(input) || is_tspecial(input)`
unfoldable pub is_no_token : ℕ → Bool
unfolding is_char is_ctl is_tspecial
is_no_token c = not (is_char c) || is_ctl c || is_tspecial c

-- `v * 10 + input - '0'` in 32 bits.
unfoldable pub add_digit : ℕ → ℕ → ℕ
add_digit v c = (v * 10 + c - b'0') % u32_mod

-- `headers.back().name.push_back(c)`, with no `back()` in an empty vector.
unfoldable pub push_name : ℕ → List Header → Option (List Header)
push_name c [] = none
push_name c (h ∷ []) = some (record h { name = h.name ++ c ∷ [] } ∷ [])
push_name c (h ∷ i ∷ hs) = elim (push_name c (i ∷ hs)) [ none ↦ none | some l ↦ some (h ∷ l) ]

unfoldable pub push_value : ℕ → List Header → Option (List Header)
push_value c [] = none
push_value c (h ∷ []) = some (record h { value = h.value ++ c ∷ [] } ∷ [])
push_value c (h ∷ i ∷ hs) = elim (push_value c (i ∷ hs)) [ none ↦ none | some l ↦ some (h ∷ l) ]

-- What one call of `consume` gives: its result, `state_` and the request. None is a fault.
abbrev pub Outcome : Type 0
Outcome = Option (ResultType × State × Request)

abbrev more : State → Request → Outcome
more s r = some (indeterminate, s, r)

abbrev reject : State → Request → Outcome
reject s r = some (bad, s, r)

-- A state that wants one given byte.
abbrev expect : ℕ → State → State → Request → ℕ → Outcome
expect c from to r input = if input == c then more to r else reject from r

abbrev more_headers : State → Request → Option (List Header) → Outcome
more_headers s r none = none
more_headers s r (some hs) = more s (record r { headers = hs })

abbrev pub is_blank : ℕ → Bool
is_blank c = c == b' ' || c == b'\t'

unfoldable pub consume : State → Request → ℕ → Outcome
consume method_start r c =
    if is_no_token c
    then reject method_start r
    else more method (record r { method = r.method ++ c ∷ [] })
consume method r c =
    if c == b' '
    then more uri r
    else if is_no_token c
    then reject method r
    else more method (record r { method = r.method ++ c ∷ [] })
consume uri r c =
    if c == b' '
    then more http_version_h r
    else if is_ctl c
    then reject uri r
    else more uri (record r { uri = r.uri ++ c ∷ [] })
consume http_version_h r c = expect b'H' http_version_h http_version_t_1 r c
consume http_version_t_1 r c = expect b'T' http_version_t_1 http_version_t_2 r c
consume http_version_t_2 r c = expect b'T' http_version_t_2 http_version_p r c
consume http_version_p r c = expect b'P' http_version_p http_version_slash r c
consume http_version_slash r c =
    if c == b'/'
    then more http_version_major_start (record r { http_version_major = 0; http_version_minor = 0 })
    else reject http_version_slash r
consume http_version_major_start r c =
    if is_digit c
    then more http_version_major
        (record r { http_version_major = add_digit r.http_version_major c })
    else reject http_version_major_start r
consume http_version_major r c =
    if c == b'.'
    then more http_version_minor_start r
    else if is_digit c
    then more http_version_major
        (record r { http_version_major = add_digit r.http_version_major c })
    else reject http_version_major r
consume http_version_minor_start r c =
    if is_digit c
    then more http_version_minor
        (record r { http_version_minor = add_digit r.http_version_minor c })
    else reject http_version_minor_start r
consume http_version_minor r c =
    if c == b'\r'
    then more expecting_newline_1 r
    else if is_digit c
    then more http_version_minor
        (record r { http_version_minor = add_digit r.http_version_minor c })
    else reject http_version_minor r
consume expecting_newline_1 r c = expect b'\n' expecting_newline_1 header_line_start r c
consume header_line_start r c =
    if c == b'\r'
    then more expecting_newline_3 r
    else if not (is_empty r.headers) && is_blank c
    then more header_lws r
    else if is_no_token c
    then reject header_line_start r
    else more_headers header_name r
        (push_name c (r.headers ++ record { name = []; value = [] } ∷ []))
consume header_lws r c =
    if c == b'\r'
    then more expecting_newline_2 r
    else if is_blank c
    then more header_lws r
    else if is_ctl c
    then reject header_lws r
    else more_headers header_value r (push_value c r.headers)
consume header_name r c =
    if c == b':'
    then more space_before_header_value r
    else if is_no_token c
    then reject header_name r
    else more_headers header_name r (push_name c r.headers)
consume space_before_header_value r c = expect b' ' space_before_header_value header_value r c
consume header_value r c =
    if c == b'\r'
    then more expecting_newline_2 r
    else if is_ctl c
    then reject header_value r
    else more_headers header_value r (push_value c r.headers)
consume expecting_newline_2 r c = expect b'\n' expecting_newline_2 header_line_start r c
consume expecting_newline_3 r c = some (if c == b'\n' then good else bad, expecting_newline_3, r)
