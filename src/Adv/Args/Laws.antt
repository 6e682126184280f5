-- ===== src/Adv/Args/Laws.antt =====
-- What a command line leaves in the flags.
use altas.Prelude.{
  ℕ, ◌≡◌, ◌≤◌, refl, sym, ap, is_empty, append-nil, ◌∙◌, inl, inr, true, false, List, [], ◌∷◌, ◌++◌,
  none, some, Bytes, codes, length, if◌then◌else◌, arith, Bool-cases,
}
use altas.OrdMap.{OrdMap, find, insert}
use altas.Status.{ok_status, ok}
use altas.StrUtil.{str_trim}
use altas.StrUtil.Trim.{Stays, str_trim_lem}
use altas.Adv.Args.{
  ArgFlag, Args, get_value, default_of, all_letters, get_long_flag, get_flag, is_bool, is_dashed,
  Result, parse_loop, skip_program, finish, parse, is_letter_or_digit, is_letter, is_digit,
  trim_all, parse_argv,
}

-- One flag on the command line, under its long name, and the value of one that takes a value.
pub record Setting : Type 0 where
  pub flag : ArgFlag
  pub value : Bytes

-- "--name" alone, or with the value behind it.
abbrev pub words_of : Setting → List Bytes
words_of s = (b'-' ∷ b'-' ∷ s.flag.long_name) ∷ (if is_bool s.flag then [] else s.value ∷ [])

unfoldable pub words : List Setting → List Bytes
words [] = []
words (s ∷ ss) = words_of s ++ words ss

-- What the flag is set to.
abbrev pub set_value : Setting → Bytes
set_value s = if is_bool s.flag then codes "true" else s.value

unfoldable pub values_of : OrdMap Bytes → List Setting → OrdMap Bytes
values_of m [] = m
values_of m (s ∷ ss) = values_of (insert s.flag.long_name (set_value s) m) ss

abbrev pub blanks : Bytes
blanks = codes " \r\t\n"

-- A text that is not empty and neither begins nor ends with a blank.
abbrev pub IsWord : Bytes → Type 0
IsWord s = (is_empty s ≡ false) × (str_trim s blanks ≡ s)

-- The flag is registered under a name of two letters or digits at least, and the value is a word
-- that does not begin with a dash.
abbrev pub IsSetting : Args → Setting → Type 0
IsSetting a s =
    (find s.flag.long_name a.long_flags ≡ some s.flag)
    × (2 ≤ length s.flag.long_name)
    × (all_letters s.flag.long_name ≡ true)
    × (is_dashed s.value ≡ false)
    × IsWord s.value

abbrev pub AllSettings : Args → List Setting → Type 0
AllSettings a [] = Unit {0}
AllSettings a (s ∷ ss) = IsSetting a s × AllSettings a ss

get_flag-long :
    (a : Args) (s : Setting)
    → IsSetting a s
    → get_flag (b'-' ∷ b'-' ∷ s.flag.long_name) a ≡ some s.flag
unfolding get_flag get_long_flag
get_flag-long a s (f, l, c, v, w) = ground arith

module _ (a : Args) (m : OrdMap Bytes) (arg : Bytes) (flag : ArgFlag) (rest : List Bytes)
    (d : is_dashed arg ≡ true) (f : get_flag arg a ≡ some flag) where
  parse_loop-bool :
      is_bool flag ≡ true
      → parse_loop a none m (arg ∷ rest)
        ≡ parse_loop a none (insert flag.long_name (codes "true") m) rest
  unfolding parse_loop
  parse_loop-bool b = rw (d, f, b, parse_loop)

  parse_loop-pending :
      is_bool flag ≡ false → parse_loop a none m (arg ∷ rest) ≡ parse_loop a (some flag) m rest
  unfolding parse_loop
  parse_loop-pending b = rw (d, f, b, parse_loop)

parse_loop-value :
    (a : Args) (m : OrdMap Bytes) (flag : ArgFlag) (value : Bytes) (rest : List Bytes)
    → is_dashed value ≡ false
    → parse_loop a (some flag) m (value ∷ rest)
      ≡ parse_loop a none (insert flag.long_name value m) rest
unfolding parse_loop
parse_loop-value a m flag value rest v = rw (v, parse_loop)

dashes : (name : Bytes) → is_dashed (b'-' ∷ b'-' ∷ name) ≡ true
unfolding is_dashed
dashes name = refl

parse_loop-words :
    (a : Args) (ss : List Setting) (m : OrdMap Bytes)
    → AllSettings a ss
    → parse_loop a none m (words ss) ≡ inr (values_of m ss)
unfolding words values_of
parse_loop-words a [] m h = unfold parse_loop in refl
parse_loop-words a (s ∷ ss) m (p, h) = elim (Bool-cases (is_bool s.flag)) [
  | inl b ↦ rw b (
      parse_loop-bool a m _ s.flag (words ss) (dashes _) (get_flag-long a s p) b
      ∙ parse_loop-words a ss _ h)
  | inr b ↦ rw b (
      parse_loop-pending a m _ s.flag _ (dashes _) (get_flag-long a s p) b
      ∙ parse_loop-value a m s.flag s.value (words ss) p.3
      ∙ parse_loop-words a ss _ h)
]

skip_program-words :
    (a : Args) (ss : List Setting) (program : Bytes)
    → is_dashed program ≡ false
    → skip_program (program ∷ words ss) ≡ words ss
unfolding skip_program
skip_program-words a ss program h = rw h

letter-Stays : (c : ℕ) → is_letter_or_digit c ≡ true → Stays blanks c
unfolding is_letter_or_digit is_letter is_digit
letter-Stays c h = ground arith

-- The last byte of a name with its dashes.
last_letter :
    (c : ℕ) (name : Bytes)
    → Stays blanks c
    → all_letters name ≡ true
    → (u : Bytes) × (d : ℕ) × (c ∷ name ≡ u ++ d ∷ []) × Stays blanks d
unfolding all_letters
last_letter c [] s h = ([], c, refl, s)
last_letter c (d ∷ name) s h =
    let (u, e, same, stays) = last_letter d name (letter-Stays d (ground arith)) (ground arith) in
    (c ∷ u, e, ap (◌∷◌ c) same, stays)

name-IsWord : (name : Bytes) → all_letters name ≡ true → IsWord (b'-' ∷ b'-' ∷ name)
name-IsWord name h =
    let m = b'-' ∷ b'-' ∷ name in
    let (u, d, same, stays) = last_letter b'-' name refl h in
    (
      refl,
      ap (λ z. str_trim z blanks) (sym (append-nil m))
          ∙ (str_trim_lem blanks [] m [] (b'-' ∷ name) (b'-' ∷ u) b'-' d tt tt refl
              (ap (◌∷◌ b'-') same) refl stays).0,
    )

trim_all-word : (s : Bytes) (rest : List Bytes) → IsWord s → trim_all (s ∷ rest) ≡ s ∷ trim_all rest
unfolding trim_all
trim_all-word s rest (n, w) = rw (w, n) refl

trim_all-words : (a : Args) (ss : List Setting) → AllSettings a ss → trim_all (words ss) ≡ words ss
unfolding words
trim_all-words a [] h = unfold trim_all in refl
trim_all-words a (s ∷ ss) ((f, l, c, v, w), h) = elim (Bool-cases (is_bool s.flag)) [
  | inl b ↦ rw b (
      trim_all-word _ (words ss) (name-IsWord s.flag.long_name c)
      ∙ ap (◌∷◌ (b'-' ∷ b'-' ∷ s.flag.long_name)) (trim_all-words a ss h))
  | inr b ↦ rw b (
      trim_all-word _ (s.value ∷ words ss) (name-IsWord s.flag.long_name c)
      ∙ ap (◌∷◌ (b'-' ∷ b'-' ∷ s.flag.long_name))
          (trim_all-word s.value (words ss) w ∙ ap (◌∷◌ s.value) (trim_all-words a ss h)))
]

-- A command line of a program's name, a word that does not begin with a dash, and of registered
-- flags under their long names, each of which has at least two letters or digits and, if the flag is
-- not a switch, a value behind it that is not empty, neither begins nor ends with a blank, and does
-- not begin with a dash, is parsed: the values are those of the flags in their order, the last one
-- of a name counting, and none from before.
pub parse-words :
    (a : Args) (program : Bytes) (ss : List Setting)
    → is_dashed program ≡ false
    → IsWord program
    → AllSettings a ss
    → parse_argv (program ∷ words ss) a ≡ (ok_status, record a { values = values_of [] ss })
unfolding parse finish parse_argv
parse-words a program ss d p h =
    ap (λ z. parse z a)
      (trim_all-word program (words ss) p ∙ ap (◌∷◌ program) (trim_all-words a ss h))
    ∙ rw (skip_program-words a ss program d, parse_loop-words a ss [] h, parse)

finish_fails :
    (a : Args) (r : Result) (name : Bytes)
    → ok (finish a r).0 ≡ false
    → get_value name (finish a r).1 ≡ default_of (find name a.long_flags)
unfolding finish get_value ok ok_status find
finish_fails a (inl st) name h = refl
finish_fails a (inr result) name h = cc

finish_keeps :
    (a : Args) (r : Result)
    → ((finish a r).1.long_flags ≡ a.long_flags) × ((finish a r).1.short_flags ≡ a.short_flags)
unfolding finish
finish_keeps a (inl st) = (refl, refl)
finish_keeps a (inr result) = (refl, refl)

-- Parsing never changes which flags are registered; after a parse that fails every flag reads as
-- its default value, whatever was set before.
pub parse_fails :
    (args : List Bytes) (a : Args) (name : Bytes)
    → ok (parse args a).0 ≡ false
    → (get_value name (parse args a).1 ≡ default_of (find name a.long_flags))
      × ((parse args a).1.long_flags ≡ a.long_flags)
      × ((parse args a).1.short_flags ≡ a.short_flags)
unfolding parse
parse_fails args a name h = (
  finish_fails a _ name h,
  (finish_keeps a (parse_loop a none [] (skip_program args))).0,
  (finish_keeps a (parse_loop a none [] (skip_program args))).1,
)
