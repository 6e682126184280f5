-- ===== src/Http/FormData.antt =====
-- cppboot/net/http/form_data.h and form_data.cc: the key-value pairs of a query or a form.
pub mod RoundTrip
use altas.Prelude.{
  span_until, ℕ, zero, suc, ◌≡◌, Bool, true, false, List, [], ◌∷◌, ◌++◌, Option, none, some, Bytes,
  codes, is_empty, length, if◌then◌else◌, ◌==◌,
}
use altas.OrdMap.{OrdMap, find, insert}
use altas.Status.{Status, ok_status}

pub record FormData : Type 0 where
  pub values : OrdMap Bytes

abbrev pub tail : Bytes → Bytes
tail [] = []
tail (c ∷ cs) = cs

-- `*next` is what is left of the text from it on; one past the end is nothing left too, since
-- `GetNextToken` only tests `p >= end`.
unfoldable pub get_next_token : Bytes → ℕ → Bytes × Bytes
unfolding span_until
get_next_token [] quota = ([], [])
get_next_token (c ∷ cs) quota = let (token, rest) = span_until quota (c ∷ cs) in (token, tail rest)

-- A C string is null, or its bytes.
abbrev pub CString : Type 0
CString = Option Bytes

unfoldable pub set : CString → Bytes → FormData → FormData
set none value f = f
set (some []) value f = f
set (some (c ∷ cs)) value f = record { values = insert (c ∷ cs) value f.values }

or_empty : Option Bytes → Bytes
or_empty none = []
or_empty (some v) = v

unfoldable pub get : CString → FormData → Bytes
unfolding or_empty
get none f = []
get (some []) f = []
get (some (c ∷ cs)) f = or_empty (find (c ∷ cs) f.values)

-- The entry that one token stands for: split at the first '=', or a key alone.
unfoldable pub split_param : Bytes → Bytes × Bytes
unfolding span_until
split_param param = let (key, rest) = span_until b'=' param in (key, tail rest)

-- One round of the loop of `Parse` for each unit of fuel; none when it runs out.
unfoldable pub parse_loop : ℕ → Bytes → OrdMap Bytes → Option (OrdMap Bytes)
parse_loop zero next values = none
parse_loop (suc fuel) next values =
    let (param, rest) = get_next_token next b'&' in
    let (key, value) = split_param param in
    let more = parse_loop fuel rest (insert key value values) in
    if is_empty param then some values else more

-- Every round but the last takes a byte.
unfoldable pub parse : Bytes → FormData → Option (Status × FormData)
parse query f = elim (parse_loop (suc (length query)) query f.values) [
  | none ↦ none
  | some m ↦ some (ok_status, record { values = m })
]

encode_from : Bool → OrdMap Bytes → Bytes
encode_from add_delimiter [] = []
encode_from add_delimiter ((k, v) ∷ m) =
    (if add_delimiter then codes "&" else []) ++ (k ++ (b'=' ∷ (v ++ encode_from true m)))

unfoldable pub encode : FormData → Bytes
unfolding encode_from
encode f = encode_from false f.values
