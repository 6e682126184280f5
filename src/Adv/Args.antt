-- ===== src/Adv/Args.antt =====
-- cppboot/adv/args.h and args.cc: the flags of a program, and the tokens of an argument line. A
-- shared pointer to a flag is the flag, which nothing changes.
pub mod Line
pub mod Laws
use altas.Prelude.{
  ℕ, ◌+◌, ◌≡◌, ◌⊎◌, inl, inr, Bool, true, false, not, ◌&&◌, ◌||◌, List, [], ◌∷◌, ◌++◌, Option, none,
  some, Bytes, codes, is_empty, length, drop, get_or, if◌then◌else◌, ltb, leb, ◌==◌,
}
use altas.OrdMap.{OrdMap, find, insert}
use altas.Status.{Status, ok_status, invalid_argument_error}
use altas.StrUtil.{str_trim}

pub data ArgType : Type 0 where
  k_bool k_long k_string : ArgType

-- `short_name` is 0 if there is none.
pub record ArgFlag : Type 0 where
  pub type : ArgType
  pub short_name : ℕ
  pub long_name : Bytes
  pub default_value : Bytes
  pub help : Bytes

unfoldable pub is_letter : ℕ → Bool
is_letter c = (leb b'a' c && leb c b'z') || (leb b'A' c && leb c b'Z')

unfoldable pub is_digit : ℕ → Bool
is_digit c = leb b'0' c && leb c b'9'

unfoldable pub is_letter_or_digit : ℕ → Bool
is_letter_or_digit c = is_letter c || is_digit c

-- A key of the map of short names is a text of one byte.
pub record Args : Type 0 where
  pub short_flags : OrdMap ArgFlag
  pub long_flags : OrdMap ArgFlag
  pub values : OrdMap Bytes

unfoldable pub add_flag : ArgFlag → Args → Args
add_flag flag a = record a {
  short_flags =
      if flag.short_name == 0
      then a.short_flags
      else insert (flag.short_name ∷ []) flag a.short_flags;
  long_flags =
      if leb 2 (length flag.long_name)
      then insert flag.long_name flag a.long_flags
      else a.long_flags;
}

unfoldable pub new_args : Args
new_args =
    add_flag
      (record {
        type = k_bool;
        short_name = b'h';
        long_name = codes "help";
        default_value = [];
        help = codes "This help text";
      })
      (record { short_flags = []; long_flags = []; values = [] })

-- A name that is no null pointer, and a help text that may be one, as the text it stands for.
unfoldable pub add_bool : ℕ → Bytes → Bytes → Args → Args
add_bool short long help a =
    if short == 0
    then a
    else add_flag
        (record {
          type = k_bool;
          short_name = short;
          long_name = long;
          default_value = [];
          help = help;
        })
        a

unfoldable pub add_string : ℕ → Bytes → Bytes → Bytes → Args → Args
add_string short long default help a =
    if short == 0
    then a
    else add_flag
        (record {
          type = k_string;
          short_name = short;
          long_name = long;
          default_value = default;
          help = help;
        })
        a

-- `default` is the text that `std::to_string` gives.
unfoldable pub add_long : ℕ → Bytes → Bytes → Bytes → Args → Args
add_long short long default help a =
    if short == 0
    then a
    else add_flag
        (record {
          type = k_long;
          short_name = short;
          long_name = long;
          default_value = default;
          help = help;
        })
        a

unfoldable pub default_of : Option ArgFlag → Bytes
default_of none = []
default_of (some flag) = flag.default_value

unfoldable pub get_value : Bytes → Args → Bytes
unfolding default_of
get_value long a = elim (find long a.values) [
  | some v ↦ v
  | none ↦ default_of (find long a.long_flags)
]

unfoldable pub get_bool : Bytes → Args → Bool
get_bool long a = not (is_empty (get_value long a))

unfoldable pub get_string : Bytes → Args → Bytes
get_string long a = get_value long a

unfoldable pub all_letters : Bytes → Bool
all_letters [] = true
all_letters (c ∷ cs) = is_letter_or_digit c && all_letters cs

-- The part of `GetFlag` for long names.
unfoldable pub get_long_flag : Bytes → Args → Option ArgFlag
get_long_flag name a =
    if leb 4 (length name) && get_or name 1 0 == b'-'
    then (if all_letters (drop 2 name) then find (drop 2 name) a.long_flags else none)
    else none

unfoldable pub get_flag : Bytes → Args → Option ArgFlag
get_flag name a =
    if length name == 2 && is_letter_or_digit (get_or name 1 0)
    then elim (find (get_or name 1 0 ∷ []) a.short_flags) [
      | some flag ↦ some flag
      | none ↦ get_long_flag name a
    ]
    else get_long_flag name a

unfoldable pub is_bool : ArgFlag → Bool
is_bool flag = elim flag.type [ k_bool ↦ true | k_long ↦ false | k_string ↦ false ]

unfoldable pub is_dashed : Bytes → Bool
is_dashed arg = get_or arg 0 0 == b'-'

abbrev pub Result : Type 0
Result = Status ⊎ OrdMap Bytes

-- The loop over the arguments. No argument is empty: the callers of `Impl::Parse` hand on none that
-- is, and the loop reads the first byte of each.
unfoldable pub parse_loop : Args → Option ArgFlag → OrdMap Bytes → List Bytes → Result
parse_loop a none result [] = inr result
parse_loop a (some flag) result [] = inl (invalid_argument_error (codes "flag no value"))
parse_loop a none result (arg ∷ rest) =
    if is_dashed arg
    then elim (get_flag arg a) [
      | none ↦ inl (invalid_argument_error (codes "flag not found"))
      | some flag ↦ elim (is_bool flag) [
        | true ↦ parse_loop a none (insert flag.long_name (codes "true") result) rest
        | false ↦ parse_loop a (some flag) result rest
      ]
    ]
    else inl (invalid_argument_error (codes "no flag"))
parse_loop a (some flag) result (arg ∷ rest) = elim (is_dashed arg) [
  | true ↦ inl (invalid_argument_error (codes "flag no value"))
  | false ↦ parse_loop a none (insert flag.long_name arg result) rest
]

-- The arguments that the loop sees: the program's name, which does not begin with a dash, is left
-- out.
unfoldable pub skip_program : List Bytes → List Bytes
skip_program [] = []
skip_program (arg ∷ rest) = if is_dashed arg then arg ∷ rest else rest

finish : Args → Result → Status × Args
finish a (inl st) = (st, record a { values = [] })
finish a (inr result) = (ok_status, record a { values = result })

-- `Impl::Parse`
unfoldable pub parse : List Bytes → Args → Status × Args
unfolding finish
parse args a = finish a (parse_loop a none [] (skip_program args))

-- The arguments of `main` without those that are blank.
unfoldable pub trim_all : List Bytes → List Bytes
trim_all [] = []
trim_all (arg ∷ rest) =
    let t = str_trim arg (codes " \r\t\n") in
    if is_empty t then trim_all rest else t ∷ trim_all rest

unfoldable pub parse_argv : List Bytes → Args → Status × Args
parse_argv argv a = parse (trim_all argv) a
