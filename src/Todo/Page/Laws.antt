-- ===== src/Todo/Page/Laws.antt =====
-- The tags of the page.
use altas.Prelude.{
  ℕ, ◌-◌, ◌≡◌, refl, ap, ◌∙◌, inl, inr, Bool-cases, List, [], ◌∷◌, ◌++◌, append-nil, lex_compare,
  Bytes, codes, decimal-IsDigits, IsDigits, is_empty, if◌then◌else◌, ltb, arith,
}
use altas.Words.{u32_mod}
use altas.OrdMap.{insert}
use altas.Html.{
  new_element, add_child, push_back, new_form, new_input, new_submit_button, set_attribute,
  dump_document,
}
use altas.Html.Tags.{outside, Reads, ◌then_reads◌, tags, next}
use altas.Html.Spec.{IsText, IsMarkup, IsElement, tags_of}
use altas.Html.Pieces.{reads_nothing, reads_text, reads_lit}
use altas.Html.Laws.{Reads-tags, Reads-IsMarkup, IsText-IsMarkup, dump_document_lem}
use altas.Todo.{ItemList, int_max}
use altas.Todo.Page.{print_int, list_items, command_form, command_box, command_line, page}

-- No text stops in the middle of a tag.
abbrev pub AreMarkup : ItemList → Type 0
AreMarkup [] = Unit {0}
AreMarkup (item ∷ items) = IsMarkup item.text × AreMarkup items

abbrev pub item_tags : ItemList → List Bytes
item_tags [] = []
item_tags (item ∷ items) =
    (codes "p" ∷ (tags outside item.text ++ codes "/p" ∷ [])) ++ item_tags items

IsDigits-IsText : (s : Bytes) → IsDigits s → IsText s
IsDigits-IsText [] h = tt
IsDigits-IsText (c ∷ s) (l, u, h) = (omega arith, IsDigits-IsText s h)

print_int-IsText : (n : ℕ) → IsText (print_int n)
unfolding print_int
print_int-IsText n = elim (Bool-cases (ltb int_max n)) [
  | inl e ↦ rw e (omega arith, IsDigits-IsText _ (decimal-IsDigits (u32_mod - n)))
  | inr e ↦ rw e (IsDigits-IsText _ (decimal-IsDigits n))
]

reads_list :
    (items : ItemList)
    → AreMarkup items
    → Reads outside (list_items items) (item_tags items) outside
unfolding tags next list_items
reads_list [] h = reads_nothing outside
reads_list (item ∷ items) (m, h) =
    (reads_lit outside (codes "<p>") (codes "p" ∷ []) outside (λ rest. refl)
      then_reads reads_text (print_int item.id) (print_int-IsText item.id)
      then_reads reads_lit outside (codes "\t") [] outside (λ rest. refl)
      then_reads m
      then_reads reads_lit outside (codes "</p>") (codes "/p" ∷ []) outside (λ rest. refl))
    then_reads reads_list items h

-- A command shows as one paragraph.
abbrev pub command_tags : Bytes → List Bytes
command_tags cmd = if is_empty cmd then [] else codes "p" ∷ codes "/p" ∷ []

-- An empty list leaves its paragraph open.
abbrev pub closed : Bytes → List Bytes → List Bytes
closed listing ts = if is_empty listing then [] else ts ++ codes "/p" ∷ []

abbrev pub form_tags : List Bytes → List Bytes
form_tags rest =
    codes "body"
    ∷ codes "form"
    ∷ codes "label"
    ∷ codes "/label"
    ∷ codes "input"
    ∷ codes "br"
    ∷ codes "input"
    ∷ codes "/form"
    ∷ codes "hr"
    ∷ rest

abbrev pub body_tags : List Bytes → List Bytes → List Bytes
body_tags command listing =
    form_tags (command ++ (codes "p" ∷ codes "/p" ∷ codes "p" ∷ (listing ++ codes "/body" ∷ [])))

tags_of-page :
    (cmd listing : Bytes) (ts : List Bytes)
    → tags outside (codes "CMD: " ++ cmd) ≡ []
    → tags outside listing ≡ ts
    → tags_of (page cmd listing).body ≡ body_tags (command_tags cmd) (closed listing ts)
unfolding page command_line command_box command_form new_element add_child push_back new_form
    new_input new_submit_button set_attribute insert tags next
tags_of-page [] listing ts c e =
    ap (body_tags []) (append-nil (closed listing (tags outside listing)))
    ∙ ap (λ z. body_tags [] (closed listing z)) e
tags_of-page (b ∷ cmd) listing ts c e =
    let shown = closed listing (tags outside listing) in
    ap
      (λ z. form_tags (
        ((codes "p" ∷ (z ++ codes "/p" ∷ []))
          ++ (codes "p" ∷ codes "/p" ∷ codes "p" ∷ (shown ++ [])))
        ++ codes "/body" ∷ []))
      c
    ∙ ap (body_tags (command_tags (b ∷ cmd))) (append-nil shown)
    ∙ ap (λ z. body_tags (command_tags (b ∷ cmd)) (closed listing z)) e

title-IsText : (cmd listing : Bytes) → IsText (page cmd listing).title
unfolding page
title-IsText cmd listing = omega arith

command-IsText : (cmd : Bytes) → IsText cmd → IsText (codes "CMD: " ++ cmd)
command-IsText cmd c = (omega arith, (omega arith, (omega arith, (omega arith, (omega arith, c)))))

nil-IsMarkup : IsMarkup []
nil-IsMarkup = IsText-IsMarkup [] tt

form-IsElement : IsElement command_form
unfolding command_form new_element add_child push_back new_form new_input new_submit_button
    set_attribute insert lex_compare
form-IsElement = (
  tt,
  omega arith,
  omega arith,
  nil-IsMarkup,
  (
    (omega arith, (tt, tt), tt, nil-IsMarkup, tt),
    ((tt, omega arith, omega arith, nil-IsMarkup, tt), tt),
  ),
)

paragraph-IsElement : (text : Bytes) → IsMarkup text → IsElement (new_element (codes "p") text)
unfolding new_element
paragraph-IsElement text m = (tt, omega arith, tt, m, tt)

rule-IsElement : IsElement (new_element (codes "hr") [])
unfolding new_element
rule-IsElement = (tt, omega arith, tt, nil-IsMarkup, tt)

list-IsElement : IsElement (new_element (codes "p") (codes "LIST:"))
list-IsElement = paragraph-IsElement (codes "LIST:") (IsText-IsMarkup (codes "LIST:") (omega arith))

page-IsElement :
    (cmd listing : Bytes) → IsText cmd → IsMarkup listing → IsElement (page cmd listing).body
unfolding page command_line command_box command_form new_element add_child push_back new_form
    new_input new_submit_button set_attribute insert
page-IsElement [] listing c m = (
  tt,
  omega arith,
  tt,
  nil-IsMarkup,
  (form-IsElement, (rule-IsElement, (list-IsElement, (paragraph-IsElement listing m, tt)))),
)
page-IsElement (b ∷ cmd) listing c m =
    let shown =
      paragraph-IsElement (codes "CMD: " ++ b ∷ cmd)
        (IsText-IsMarkup (codes "CMD: " ++ b ∷ cmd) (command-IsText (b ∷ cmd) c)) in
    (
      tt,
      omega arith,
      tt,
      nil-IsMarkup,
      (
        form-IsElement,
        (rule-IsElement, (shown, (list-IsElement, (paragraph-IsElement listing m, tt)))),
      ),
    )

-- The page shows the form, the command as one paragraph, and for each item a paragraph with the tags
-- of its text, which is markup of the page: for a command without a `<`, and texts of which no
-- markup stops in the middle of a tag.
pub dump_document-page :
    (cmd : Bytes) (items : ItemList)
    → IsText cmd
    → AreMarkup items
    → tags outside (dump_document (page cmd (list_items items)))
      ≡ (codes "!DOCTYPE"
          ∷ codes "html"
          ∷ codes "head"
          ∷ codes "meta"
          ∷ codes "style"
          ∷ codes "/style"
          ∷ codes "title"
          ∷ codes "/title"
          ∷ codes "/head"
          ∷ [])
        ++ (body_tags (command_tags cmd) (closed (list_items items) (item_tags items))
            ++ codes "/html" ∷ [])
dump_document-page cmd items c m =
    let r = reads_list items m in
    let listing = list_items items in
    dump_document_lem (page cmd listing) (title-IsText cmd listing)
      (page-IsElement cmd listing c (Reads-IsMarkup listing (item_tags items) r))
    ∙ ap
        (λ z.
          (codes "!DOCTYPE"
            ∷ codes "html"
            ∷ codes "head"
            ∷ codes "meta"
            ∷ codes "style"
            ∷ codes "/style"
            ∷ codes "title"
            ∷ codes "/title"
            ∷ codes "/head"
            ∷ [])
          ++ (z ++ codes "/html" ∷ []))
        (tags_of-page cmd listing (item_tags items)
          (Reads-tags (codes "CMD: " ++ cmd) [] (reads_text _ (command-IsText cmd c)))
          (Reads-tags listing (item_tags items) r))
