-- ===== src/Html/Laws.antt =====
-- The tags in what `Dump` writes.
use altas.Prelude.{
  ℕ, ◌+◌, ◌≡◌, refl, sym, ap, subst, ◌∙◌, List, [], ◌∷◌, ◌++◌, append-nil, Bytes, codes,
}
use altas.Html.{
  plain, input, table, Element, element, Children, nil, cons, Document, tabs, dump, dump_children,
  style, dump_document,
}
use altas.Html.Tags.{outside, next, tags, Reads, ◌then_reads◌}
use altas.Html.Spec.{IsText, IsMarkup, IsElement, IsChildren, tags_of, tags_of_children}
use altas.Html.Pieces.{
  reads_nothing, reads_text, reads_lit, reads_open, reads_close, reads_input, reads_table,
  reads_leaf, IsText-tabs,
}

-- The tags that a text is known to show.
pub Reads-tags : (s : Bytes) (ts : List Bytes) → Reads outside s ts outside → tags outside s ≡ ts
unfolding tags
Reads-tags s ts r = ap (tags outside) (sym (append-nil s)) ∙ r.on [] ∙ append-nil ts

pub Reads-IsMarkup : (s : Bytes) (ts : List Bytes) → Reads outside s ts outside → IsMarkup s
Reads-IsMarkup s ts r = subst (λ z. Reads outside s z outside) (sym (Reads-tags s ts r)) r

-- Text without a `<` shows no tags.
pub IsText-IsMarkup : (s : Bytes) → IsText s → IsMarkup s
IsText-IsMarkup s h = Reads-IsMarkup s [] (reads_text s h)

mutual
  unfolding tags next dump

  reads_element :
      (depth : ℕ) (e : Element) → IsElement e → Reads outside (dump depth e) (tags_of e) outside
  reads_element depth (element (input id label value) name attr text children) (k, n, a, t, c) =
      reads_input depth id label value k
  reads_element depth (element (table heads rows) name attr text children) (k, n, a, t, c) =
      reads_table depth heads rows k
  reads_element depth (element plain name attr text nil) (k, n, a, t, c) =
      reads_open depth name attr n a then_reads reads_leaf name text n t
  reads_element depth (element plain name attr text (cons e es)) (k, n, a, t, c) =
      reads_open depth name attr n a
      then_reads reads_lit outside (codes "\n") [] outside (λ rest. refl)
      then_reads reads_children (depth + 1) (cons e es) c
      then_reads reads_text (tabs depth) (IsText-tabs depth)
      then_reads reads_close name n

  reads_children :
      (depth : ℕ) (es : Children)
      → IsChildren es
      → Reads outside (dump_children depth es) (tags_of_children es) outside
  reads_children depth nil h = reads_nothing outside
  reads_children depth (cons e es) (h, hs) =
      reads_element depth e h then_reads reads_children depth es hs

-- The text of a document has the tags of the frame and those of its elements, in their order and
-- each with its closing tag behind what it holds, but for the elements without text and children,
-- which have none; and markup in the text of an element without children counts as tags. This is if
-- the title, the labels and the cells hold no `<`, no name, key or value holds a byte that ends it,
-- and no markup stops in the middle of a tag.
pub dump_document_lem :
    (d : Document)
    → IsText d.title
    → IsElement d.body
    → tags outside (dump_document d)
      ≡ (codes "!DOCTYPE"
          ∷ codes "html"
          ∷ codes "head"
          ∷ codes "meta"
          ∷ codes "style"
          ∷ codes "/style"
          ∷ codes "title"
          ∷ codes "/title"
          ∷ codes "/head"
          ∷ [])
        ++ (tags_of d.body ++ codes "/html" ∷ [])
unfolding tags next dump_document
dump_document_lem d t b =
    let reads =
      reads_lit outside (codes "<!DOCTYPE html>\n<html>\n<head>\n<meta charset=\"UTF-8\">\n")
        (codes "!DOCTYPE" ∷ codes "html" ∷ codes "head" ∷ codes "meta" ∷ []) outside (λ rest. refl)
      then_reads reads_lit outside style (codes "style" ∷ codes "/style" ∷ []) outside
          (λ rest. refl)
      then_reads reads_lit outside (codes "<title>") (codes "title" ∷ []) outside (λ rest. refl)
      then_reads reads_text d.title t
      then_reads reads_lit outside (codes "</title>\n</head>\n")
          (codes "/title" ∷ codes "/head" ∷ []) outside (λ rest. refl)
      then_reads reads_element 0 d.body b
      then_reads reads_lit outside (codes "</html>\n") (codes "/html" ∷ []) outside
          (λ rest. refl) in
    Reads-tags (dump_document d) _ reads
