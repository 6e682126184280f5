-- ===== src/Http/Url.antt =====
-- cppboot/net/http/url.h and url.cc. The text stands in a `std::string`, so a NUL follows its last
-- byte; what comes after that is not the string's, and the model answers `none` where the code
-- would read it.
pub mod Laws
use altas.Prelude.{
  span_until, drop, ℕ, zero, suc, ◌≡◌, Bool, true, false, not, List, [], ◌∷◌, ◌++◌, Option, none,
  some, Bytes, codes, is_empty, length, if◌then◌else◌, ◌==◌,
}

pub record Url : Type 0 where
  pub scheme : Bytes
  pub host : Bytes
  pub raw_path : Bytes
  pub raw_query : Bytes

abbrev pub empty_url : Url
empty_url = record { scheme = []; host = []; raw_path = []; raw_query = [] }

unfoldable pub is_valid : Url → Bool
is_valid u = not (is_empty u.scheme)

-- The bytes before `util` or the end, and those from there on.
unfoldable pub consume_util : Bytes → ℕ → Bytes × Bytes
unfolding span_until
consume_util start util = span_until util start

-- `*p == '?'` and what follows
query_of : Bytes → Bytes
query_of [] = []
query_of (c ∷ p) = if c == b'?' then p else []

-- From the host on.
after_slashes : Bytes → Bytes → Url
unfolding query_of
after_slashes scheme p =
    let (host, p1) = consume_util p b'/' in
    let (path, p2) = consume_util p1 b'?' in
    if is_empty host
    then record empty_url { scheme = scheme }
    else record { scheme = scheme; host = host; raw_path = path; raw_query = query_of p2 }

-- `p[i]`, where `memory` is the rest of the string with the NUL behind it.
unfoldable pub byte_at : Bytes → ℕ → Option ℕ
byte_at [] i = none
byte_at (c ∷ memory) zero = some c
byte_at (c ∷ memory) (suc i) = byte_at memory i

-- `p[0] != '/' || p[1] != '/' || p[2] == '/'`, read from the left as far as the answer needs it.
no_host : Bytes → Option Bool
unfolding byte_at
no_host memory = elim (byte_at memory 0) [
  | none ↦ none
  | some first ↦ elim (first == b'/') [
    | false ↦ some true
    | true ↦ elim (byte_at memory 1) [
      | none ↦ none
      | some second ↦ elim (second == b'/') [
        | false ↦ some true
        | true ↦ elim (byte_at memory 2) [ none ↦ none | some third ↦ some (third == b'/') ]
      ]
    ]
  ]
]

-- Past the colon, by the answer of the test.
from_host : Bytes → Bytes → Option Bool → Option Url
unfolding after_slashes
from_host scheme p none = none
from_host scheme p (some true) = some (record empty_url { scheme = scheme })
from_host scheme p (some false) = some (after_slashes scheme (drop 2 p))

-- `p` begins with the colon, or is empty.
past_scheme : Bytes → Bytes → Option Url
unfolding from_host no_host
past_scheme scheme p = from_host scheme (drop 1 p) (no_host (drop 1 (p ++ 0 ∷ [])))

unfoldable pub new_url : Bytes → Option Url
unfolding past_scheme
new_url raw_url =
    let (scheme, p) = consume_util raw_url b':' in
    if is_empty scheme then some empty_url else past_scheme scheme p
