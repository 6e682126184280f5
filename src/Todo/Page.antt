-- ===== src/Todo/Page.antt =====
-- examples/todo/server.cc and ui.h: the commands of the web page and the page with the list. The
-- repository is that of the file; `to_c_string` ends a text at a zero byte.
pub mod Laws
use altas.Prelude.{
  ℕ, ◌+◌, ◌-◌, ◌*◌, ◌≡◌, Bool, true, false, ◌&&◌, ◌||◌, List, [], ◌∷◌, ◌++◌, Option, none, some,
  Bytes, codes, decimal, is_empty, take, drop, span_until, if◌then◌else◌, ◌==◌, leb, ltb, bytes_eq,
}
use altas.Words.{u32_mod}
use altas.StrUtil.{find_first_of}
use altas.Status.{Status}
use altas.Html.{
  Element, new_element, add_child, new_form, new_input, new_submit_button, Document, new_document,
  dump_document,
}
use altas.Http.Response.{Response, StatusType, write_html}
use altas.Todo.{ItemList, Repository, Data, new_data, int_max, set_repository, add, delete}

-- `{}` of an `int`, which is its bit pattern.
unfoldable pub print_int : ℕ → Bytes
print_int n = if ltb int_max n then b'-' ∷ decimal (u32_mod - n) else decimal n

-- The lines of the list.
unfoldable pub list_items : ItemList → Bytes
list_items [] = []
list_items (item ∷ items) =
    (codes "<p>" ++ (print_int item.id ++ (codes "\t" ++ (item.text ++ codes "</p>"))))
    ++ list_items items

unfoldable pub to_c_string : Bytes → Bytes
to_c_string s = (span_until 0 s).0

-- `std::stoi`, where none is an exception: blanks, a sign and digits, of which the value fits.
abbrev pub is_blank : ℕ → Bool
is_blank c = c == b' ' || (leb 9 c && leb c 13)

unfoldable pub skip_blanks : Bytes → Bytes
skip_blanks [] = []
skip_blanks (c ∷ s) = let rest = skip_blanks s in if is_blank c then rest else c ∷ s

abbrev pub is_digit : ℕ → Bool
is_digit c = leb b'0' c && leb c b'9'

unfoldable pub digits_value : ℕ → Bytes → ℕ
digits_value n [] = n
digits_value n (c ∷ s) =
    let more = digits_value (n * 10 + (c - b'0')) s in if is_digit c then more else n

abbrev pub starts_with_digit : Bytes → Bool
starts_with_digit [] = false
starts_with_digit (c ∷ s) = is_digit c

unfoldable pub stoi_digits : Bool → Bytes → Option ℕ
stoi_digits minus s =
    let n = digits_value 0 s in
    if starts_with_digit s
    then (if minus
        then (if leb n (int_max + 1) then some (if n == 0 then 0 else u32_mod - n) else none)
        else (if leb n int_max then some n else none))
    else none

unfoldable pub stoi_sign : Bytes → Option ℕ
stoi_sign [] = none
stoi_sign (c ∷ s) =
    if c == b'-'
    then stoi_digits true s
    else if c == b'+'
    then stoi_digits false s
    else stoi_digits false (c ∷ s)

unfoldable pub stoi : Bytes → Option ℕ
stoi s = stoi_sign (skip_blanks s)

module _ {F : Type 0} (repository : Repository F) where
  -- A handler's data are new for each command.
  unfoldable pub do_add : ℕ → Bytes → F → Option (Status × F)
  do_add now text fs = elim (set_repository (some repository) new_data fs) [
    | none ↦ none
    | some d ↦ let (st, id, d1, after) = add (some repository) now text d fs in some (st, after)
  ]

  unfoldable pub do_delete : ℕ → F → Option F
  do_delete id fs = elim (set_repository (some repository) new_data fs) [
    | none ↦ none
    | some d ↦ some (delete (some repository) id d fs).2
  ]

  unfoldable pub do_list : F → Option Bytes
  do_list fs = elim (set_repository (some repository) new_data fs) [
    | none ↦ none
    | some d ↦ some (list_items d.items)
  ]

  unfoldable pub do_command : ℕ → Bytes → F → Option F
  do_command now cmdline fs = elim (find_first_of (codes " ") cmdline 0) [
    | none ↦ some fs
    | some sep ↦
        if bytes_eq (take sep cmdline) (codes "add")
        then elim (do_add now (to_c_string (drop sep cmdline)) fs) [
          | none ↦ none
          | some (st, after) ↦ some after
        ]
        else if bytes_eq (take sep cmdline) (codes "del")
        then elim (stoi (drop sep cmdline)) [ none ↦ none | some id ↦ do_delete id fs ]
        else some fs
  ]

-- The page with the command, if there is one, and the list.
unfoldable pub command_form : Element
command_form = add_child (new_submit_button (230 ∷ 137 ∷ 167 ∷ 232 ∷ 161 ∷ 140 ∷ [])) (
    add_child
      (new_input (codes "cmd")
        (232 ∷ 175 ∷ 183 ∷ 232 ∷ 190 ∷ 147 ∷ 229 ∷ 133 ∷ 165 ∷ 229 ∷ 145 ∷ 189 ∷ 228 ∷ 187 ∷ 164
          ∷ 239 ∷ 188 ∷ 154 ∷ [])
        [])
      (new_form (codes "/todo")))

unfoldable pub command_box : Element
command_box =
    add_child (new_element (codes "hr") []) (add_child command_form (new_element (codes "body") []))

unfoldable pub command_line : Bytes → Element → Element
command_line cmd body =
    if is_empty cmd then body else add_child (new_element (codes "p") (codes "CMD: " ++ cmd)) body

unfoldable pub page : Bytes → Bytes → Document
page cmd listing = record {
  title = codes "My TODO";
  body =
      add_child (new_element (codes "p") listing)
        (add_child (new_element (codes "p") (codes "LIST:")) (command_line cmd command_box));
}

-- The handler of "/todo", where `cmd` is the parameter of the request.
unfoldable pub handle_todo :
    {F : Type 0} → Repository F → ℕ → Bytes → Response → F → Option (Response × F)
handle_todo repository now cmd resp fs =
    elim (if is_empty cmd then some fs else do_command repository now cmd fs) [
      | none ↦ none
      | some after ↦ elim (do_list repository after) [
        | none ↦ none
        | some listing ↦
            some (write_html StatusType.ok (dump_document (page cmd listing)) resp, after)
      ]
    ]
