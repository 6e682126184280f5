-- ===== src/Http/UrlDecode.antt =====
-- `RequestParser::UrlDecode` of cppboot/net/http/server/request_parser.cc.
pub mod Laws
use altas.Prelude.{
  ℕ, ◌+◌, ◌-◌, ◌*◌, ◌/◌, ◌%◌, ◌≡◌, Bool, true, false, not, ◌&&◌, ◌||◌, List, [], ◌∷◌, ◌++◌, Option,
  none, some, Bytes, if◌then◌else◌, ◌==◌, leb, ltb,
}
use altas.Words.{u32_mod}

-- The standard library's reading of a number in base 16, `is >> std::hex >> value` in the "C"
-- locale: blanks are skipped, then come a sign, "0x" and digits, of which the last two may miss,
-- but not every digit. What stands behind the last digit is left. The number is a bit pattern of
-- 32 bits.
abbrev is_space : ℕ → Bool
is_space c = c == 32 || leb 9 c && leb c 13

unfoldable pub hex_digit : ℕ → Option ℕ
hex_digit c =
    if leb b'0' c && leb c b'9'
    then some (c - b'0')
    else if leb b'a' c && leb c b'f'
    then some (c - b'a' + 10)
    else if leb b'A' c && leb c b'F'
    then some (c - b'A' + 10)
    else none

hex_more : ℕ → Bytes → ℕ
hex_more v [] = v
hex_more v (c ∷ cs) = elim (hex_digit c) [ none ↦ v | some d ↦ hex_more (v * 16 + d) cs ]

hex_digits : Bytes → Option ℕ
unfolding hex_more hex_digit
hex_digits [] = none
hex_digits (c ∷ cs) = elim (hex_digit c) [ none ↦ none | some d ↦ some (hex_more d cs) ]

hex_prefix : Bytes → Option ℕ
unfolding hex_digits
hex_prefix [] = none
hex_prefix (c ∷ []) = hex_digits (c ∷ [])
hex_prefix (c ∷ d ∷ cs) =
    if c == b'0' && (d == b'x' || d == b'X') then hex_digits cs else hex_digits (c ∷ d ∷ cs)

negated : Option ℕ → Option ℕ
negated none = none
negated (some v) = some ((u32_mod - v % u32_mod) % u32_mod)

hex_sign : Bytes → Option ℕ
unfolding hex_prefix negated
hex_sign [] = none
hex_sign (c ∷ cs) =
    if c == b'-'
    then negated (hex_prefix cs)
    else if c == b'+'
    then hex_prefix cs
    else hex_prefix (c ∷ cs)

unfoldable pub scan_hex : Bytes → Option ℕ
unfolding hex_sign
scan_hex [] = none
scan_hex (c ∷ cs) = let later = scan_hex cs in if is_space c then later else hex_sign (c ∷ cs)

abbrev plain : ℕ → ℕ
plain c = if c == b'+' then b' ' else c

-- The loop from `in[i]` on; `out` is what it has written. On failure `out` stays as it is.
unfoldable pub decode_from : Bytes → Bytes → Bool × Bytes
decode_from out [] = (true, out)
decode_from out (c ∷ []) = if c == b'%' then (false, out) else (true, out ++ plain c ∷ [])
decode_from out (c ∷ d ∷ []) =
    let later = decode_from (out ++ plain c ∷ []) (d ∷ []) in
    if c == b'%' then (false, out) else later
decode_from out (c ∷ d ∷ e ∷ cs) = elim (c == b'%') [
  | true ↦ elim (scan_hex (d ∷ e ∷ [])) [
    | none ↦ (false, out)
    | some value ↦ decode_from (out ++ (value % 256) ∷ []) cs
  ]
  | false ↦ decode_from (out ++ plain c ∷ []) (d ∷ e ∷ cs)
]

unfoldable pub url_decode : Bytes → Bool × Bytes
unfolding decode_from
url_decode s = decode_from [] s
