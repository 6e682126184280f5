-- ===== src/StrUtil.antt =====
-- cppboot/base/str_util.h and str_util.cc. The searches of `std::string` and `string_view` are the
-- standard library's, written over lists of bytes; `npos` is none. `tolower` is that of the "C"
-- locale.
pub mod Trim
pub mod Split
pub mod Case
pub mod Replace
pub mod Fields
pub mod Stricmp
use altas.Prelude.{
  ℕ, zero, suc, ◌+◌, ◌-◌, ◌%◌, ◌≡◌, Bool, true, false, not, ◌&&◌, ◌||◌, List, [], ◌∷◌, ◌++◌, Option,
  none, some, Bytes, codes, is_empty, length, take, drop, get_or, span_until, if◌then◌else◌, ◌==◌,
  leb, ltb, bytes_eq,
}
use altas.Words.{u32_mod}

abbrev pub contains_byte : Bytes → ℕ → Bool
contains_byte [] c = false
contains_byte (d ∷ ds) c = d == c || contains_byte ds c

-- The index of the first byte that passes the test, where the list begins at index `i`.
unfoldable pub first_from : (ℕ → Bool) → ℕ → Bytes → Option ℕ
first_from test i [] = none
first_from test i (c ∷ cs) =
    let later = first_from test (i + 1) cs in if test c then some i else later

last_or : Option ℕ → ℕ → Bool → Option ℕ
last_or (some j) i b = some j
last_or none i true = some i
last_or none i false = none

-- The index of the last byte that passes the test.
unfoldable pub last_from : (ℕ → Bool) → ℕ → Bytes → Option ℕ
unfolding last_or
last_from test i [] = none
last_from test i (c ∷ cs) = last_or (last_from test (i + 1) cs) i (test c)

abbrev pub find_first_of : Bytes → Bytes → ℕ → Option ℕ
find_first_of set s pos = first_from (contains_byte set) pos (drop pos s)

abbrev pub find_first_not_of : Bytes → Bytes → ℕ → Option ℕ
find_first_not_of set s pos = first_from (λ c. not (contains_byte set c)) pos (drop pos s)

abbrev pub find_last_of : Bytes → Bytes → Option ℕ
find_last_of set s = last_from (contains_byte set) 0 s

abbrev pub find_last_not_of : Bytes → Bytes → Option ℕ
find_last_not_of set s = last_from (λ c. not (contains_byte set c)) 0 s

abbrev pub space_chars : Bytes
space_chars = codes " \t\r\n"

abbrev cut : Bytes → Bytes
cut cutset = if is_empty cutset then space_chars else cutset

unfoldable pub str_trim_left : Bytes → Bytes → Bytes
str_trim_left s cutset = elim (find_first_not_of (cut cutset) s 0) [
  | none ↦ s
  | some pos ↦ drop pos s
]

unfoldable pub str_trim_right : Bytes → Bytes → Bytes
str_trim_right s cutset = elim (find_last_not_of (cut cutset) s) [
  | none ↦ s
  | some pos ↦ take (pos + 1) s
]

unfoldable pub str_trim : Bytes → Bytes → Bytes
str_trim s cutset = str_trim_right (str_trim_left s cutset) cutset

unfoldable pub str_cat : Bytes → Bytes → Bytes
str_cat a b = a ++ b

unfoldable pub str_append : Bytes → Bytes → Bytes
str_append s other = s ++ other

-- What the loop has found before the piece `piece`, if more follow.
cons_piece : Bytes → Option (List Bytes) → Option (List Bytes)
cons_piece piece none = none
cons_piece piece (some pieces) = some (piece ∷ pieces)

-- One round of the loop for each unit of fuel: `rest` is the text from `new_pos` on. None is out of
-- fuel.
unfoldable pub split_loop : ℕ → ℕ → Bytes → Option (List Bytes)
unfolding cons_piece
split_loop zero delimiter rest = none
split_loop (suc fuel) delimiter rest =
    let (piece, found) = span_until delimiter rest in
    elim found [
      | [] ↦ some (piece ∷ [])
      | c ∷ next ↦ cons_piece piece (split_loop fuel delimiter next)
    ]

unfoldable pub str_split : Bytes → ℕ → Option (List Bytes)
str_split [] delimiter = some []
str_split (c ∷ text) delimiter = split_loop (suc (length (c ∷ text))) delimiter (c ∷ text)

unfoldable pub tolower : ℕ → ℕ
tolower c = if leb b'A' c && leb c b'Z' then c + 32 else c

-- The first difference of the lower-case bytes, as a bit pattern of 32 bits; 0 if there is none.
-- Behind the end of a text there is 0.
unfoldable pub memcasecmp : Bytes → Bytes → ℕ → ℕ
memcasecmp s1 s2 zero = 0
memcasecmp s1 s2 (suc len) =
    let diff = (tolower (get_or s1 0 0) + u32_mod - tolower (get_or s2 0 0)) % u32_mod in
    let later = memcasecmp (drop 1 s1) (drop 1 s2) len in if diff == 0 then later else diff

unfoldable pub equals_ignore_case : Bytes → Bytes → Bool
equals_ignore_case piece1 piece2 =
    length piece1 == length piece2 && memcasecmp piece1 piece2 (length piece1) == 0

unfoldable pub starts_with_ignore_case : Bytes → Bytes → Bool
starts_with_ignore_case text prefix =
    leb (length prefix) (length text) && equals_ignore_case (take (length prefix) text) prefix

unfoldable pub ends_with_ignore_case : Bytes → Bytes → Bool
ends_with_ignore_case text suffix =
    leb (length suffix) (length text)
    && equals_ignore_case (drop (length text - length suffix) text) suffix

unfoldable pub starts_with : Bytes → Bytes → Bool
starts_with text prefix =
    is_empty prefix
    || (leb (length prefix) (length text) && bytes_eq (take (length prefix) text) prefix)

unfoldable pub ends_with : Bytes → Bytes → Bool
ends_with text suffix =
    is_empty suffix
    || (leb (length suffix) (length text)
        && bytes_eq (drop (length text - length suffix) text) suffix)

unfoldable pub str_cat3 : Bytes → Bytes → Bytes → Bytes
str_cat3 a b c = a ++ (b ++ c)

unfoldable pub str_cat4 : Bytes → Bytes → Bytes → Bytes → Bytes
str_cat4 a b c d = a ++ (b ++ (c ++ d))

unfoldable pub begins : Bytes → Bytes → Bool
begins [] text = true
begins (c ∷ cs) [] = false
begins (c ∷ cs) (d ∷ ds) = c == d && begins cs ds

unfoldable pub str_contains : Bytes → Bytes → Bool
str_contains [] needle = is_empty needle
str_contains (c ∷ cs) needle = begins needle (c ∷ cs) || str_contains cs needle

-- `str.find`: the text before the first occurrence, and the text behind it.
unfoldable pub search : Bytes → Bytes → Option (Bytes × Bytes)
search from [] = if is_empty from then some ([], []) else none
search from (c ∷ cs) =
    let later = search from cs in
    if begins from (c ∷ cs)
    then some ([], drop (length from) (c ∷ cs))
    else elim later [ none ↦ none | some (before, after) ↦ some (c ∷ before, after) ]

-- What the loop makes of the text behind an occurrence, behind what it made before.
behind : Bytes → Option Bytes → Option Bytes
behind made none = none
behind made (some r) = some (made ++ r)

-- One round of the loop for each unit of fuel: `rest` is the text from `pos` on. None is out of
-- fuel.
unfoldable pub replace_loop : ℕ → Bytes → Bytes → Bytes → Option Bytes
unfolding behind
replace_loop zero from to rest = none
replace_loop (suc fuel) from to rest = elim (search from rest) [
  | none ↦ some rest
  | some (before, after) ↦ behind (before ++ to) (replace_loop fuel from to after)
]

unfoldable pub str_replace : Bytes → Bytes → Bytes → Option Bytes
str_replace str from to = replace_loop (suc (length str)) from to str

-- A field that is not empty is kept, in front of those that follow.
unfoldable pub push_field : Bytes → List Bytes → List Bytes
push_field cell fields = if is_empty cell then fields else cell ∷ fields

unfoldable pub last_field : Bytes → ℕ → List Bytes
last_field s start =
    if ltb start (length s) then push_field (str_trim_right (drop start s) space_chars) [] else []

more_fields : Bytes → Option (List Bytes) → Option (List Bytes)
more_fields cell none = none
more_fields cell (some fields) = some (push_field cell fields)

-- One round of the loop for each unit of fuel. None is out of fuel. From `npos` on there are no
-- fields.
unfoldable pub fields_loop : ℕ → Bytes → ℕ → Option (List Bytes)
unfolding more_fields
fields_loop zero s start = none
fields_loop (suc fuel) s start = elim (find_first_of space_chars s start) [
  | none ↦ some (last_field s start)
  | some end ↦
      more_fields (take (end - start) (drop start s)) (elim (find_first_not_of space_chars s end) [
        | none ↦ some []
        | some next ↦ fields_loop fuel s next
      ])
]

unfoldable pub str_fields : Bytes → Option (List Bytes)
str_fields s = elim (find_first_not_of space_chars s 0) [
  | none ↦ some []
  | some start ↦ fields_loop (suc (length s)) s start
]
