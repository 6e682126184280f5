-- ===== src/Html.antt =====
-- cppboot/net/html: elements, their subclasses, and documents. `Dump` writes to a stream, which is
-- the text it gives. `AddChild` gives the pointer to the child, so a child that is changed later is
-- built first here.
pub mod Tags
pub mod Spec
pub mod Pieces
pub mod Laws
use altas.Prelude.{ℕ, ◌+◌, List, [], ◌∷◌, ◌++◌, Bytes, codes, is_empty, replicate, if◌then◌else◌}
use altas.OrdMap.{OrdMap, insert}

abbrev pub Row : Type 0
Row = List Bytes

-- What a subclass adds to an element.
pub data Kind : Type 0 where
  plain : Kind
  input : (id label value : Bytes) → Kind
  table : (heads : Row) (rows : List Row) → Kind

mutual
  pub data Element : Type 0 where
    element : Kind → (name : Bytes) → OrdMap Bytes → (text : Bytes) → Children → Element

  pub data Children : Type 0 where
    nil : Children
    cons : Element → Children → Children

unfoldable pub new_element : Bytes → Bytes → Element
new_element name text = element plain name [] text nil

unfoldable pub set_attribute : Bytes → Bytes → Element → Element
set_attribute key value (element k name attr text children) =
    element k name (insert key value attr) text children

unfoldable pub push_back : Element → Children → Children
push_back e nil = cons e nil
push_back e (cons f fs) = cons f (push_back e fs)

unfoldable pub add_child : Element → Element → Element
add_child e (element k name attr text children) = element k name attr text (push_back e children)

unfoldable pub new_form : Bytes → Element
new_form action = set_attribute (codes "action") action (new_element (codes "form") [])

unfoldable pub new_input : Bytes → Bytes → Bytes → Element
new_input id label value = element (input id label value) [] [] [] nil

unfoldable pub new_submit_button : Bytes → Element
new_submit_button text =
    set_attribute (codes "value") text
      (set_attribute (codes "type") (codes "submit") (new_element (codes "input") []))

unfoldable pub new_link : Bytes → Bytes → Element
new_link text url =
    set_attribute (codes "target") (codes "_blank")
      (set_attribute (codes "href") url (new_element (codes "a") text))

unfoldable pub new_table : Row → Element
new_table heads = element (table heads []) (codes "table") [] [] nil

unfoldable pub add_row : Row → Element → Element
add_row row (element (table heads rows) name attr text children) =
    element (table heads (rows ++ row ∷ [])) name attr text children
add_row row e = e

abbrev pub tabs : ℕ → Bytes
tabs depth = replicate depth b'\t'

unfoldable pub dump_attributes : OrdMap Bytes → Bytes
dump_attributes [] = []
dump_attributes ((key, value) ∷ attr) =
    codes " " ++ (key ++ (codes "=\"" ++ (value ++ (codes "\"" ++ dump_attributes attr))))

unfoldable pub dump_input : ℕ → Bytes → Bytes → Bytes → Bytes
dump_input depth id label value =
    let prefix = tabs depth in
    prefix
    ++ (codes "<label for=\""
        ++ (id
            ++ (codes "\">"
                ++ (label
                    ++ (codes "</label>\n"
                        ++ (prefix
                            ++ (codes "<input type=\"text\" id=\""
                                ++ (id
                                    ++ (codes "\" name=\""
                                        ++ (id
                                            ++ (codes "\" value=\""
                                                ++ (value ++ codes "\"><br>\n"))))))))))))

unfoldable pub dump_heads : Bytes → Row → Bytes
dump_heads prefix [] = []
dump_heads prefix (head ∷ heads) =
    prefix ++ (codes "\t\t<th>" ++ (head ++ (codes "</th>\n" ++ dump_heads prefix heads)))

-- A row has no more cells than there are heads.
unfoldable pub dump_cells : Bytes → Row → Row → Bytes
dump_cells prefix [] row = []
dump_cells prefix (head ∷ heads) [] = []
dump_cells prefix (head ∷ heads) (cell ∷ row) =
    prefix ++ (codes "\t\t<td>" ++ (cell ++ (codes "</td>\n" ++ dump_cells prefix heads row)))

-- The cells of a row between its tags.
abbrev pub in_row : Bytes → Bytes → Bytes
in_row prefix cells = prefix ++ (codes "\t<tr>\n" ++ (cells ++ (prefix ++ codes "\t</tr>\n")))

unfoldable pub dump_rows : Bytes → Row → List Row → Bytes
dump_rows prefix heads [] = []
dump_rows prefix heads (row ∷ rows) =
    in_row prefix (dump_cells prefix heads row) ++ dump_rows prefix heads rows

unfoldable pub dump_table : ℕ → Row → List Row → Bytes
dump_table depth heads rows =
    let prefix = tabs depth in
    prefix
    ++ (codes "<table>\n"
        ++ ((if is_empty heads then [] else in_row prefix (dump_heads prefix heads))
            ++ (dump_rows prefix heads rows ++ (prefix ++ codes "</table>\n"))))

-- The start of an element, up to the end of its first tag.
unfoldable pub dump_open : ℕ → Bytes → OrdMap Bytes → Bytes
dump_open depth name attr =
    tabs depth ++ (codes "<" ++ (name ++ (dump_attributes attr ++ codes ">")))

abbrev pub dump_close : Bytes → Bytes
dump_close name = codes "</" ++ (name ++ codes ">\n")

unfoldable mutual
  pub dump : ℕ → Element → Bytes
  dump depth (element (input id label value) name attr text children) =
      dump_input depth id label value
  dump depth (element (table heads rows) name attr text children) = dump_table depth heads rows
  dump depth (element plain name attr text nil) =
      dump_open depth name attr ++ (if is_empty text then codes "\n" else text ++ dump_close name)
  dump depth (element plain name attr text (cons e es)) =
      dump_open depth name attr
      ++ (codes "\n" ++ (dump_children (depth + 1) (cons e es) ++ (tabs depth ++ dump_close name)))

  pub dump_children : ℕ → Children → Bytes
  dump_children depth nil = []
  dump_children depth (cons e es) = dump depth e ++ dump_children depth es

pub record Document : Type 0 where
  pub title : Bytes
  pub body : Element

unfoldable pub new_document : Bytes → Document
new_document title = record { title = title; body = new_element (codes "body") [] }

unfoldable pub set_title : Bytes → Document → Document
set_title s d = record d { title = s }

abbrev pub style : Bytes
style =
    codes
      "<style>\ntable, th, td {\n  border: 1px solid black;\n  border-collapse: collapse;\n}\n</style>\n"

unfoldable pub dump_document : Document → Bytes
dump_document d =
    codes "<!DOCTYPE html>\n<html>\n<head>\n<meta charset=\"UTF-8\">\n"
    ++ (style
        ++ (codes "<title>"
            ++ (d.title ++ (codes "</title>\n</head>\n" ++ (dump 0 d.body ++ codes "</html>\n")))))
