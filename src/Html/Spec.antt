-- ===== src/Html/Spec.antt =====
-- The tags that an element stands for, and what it may hold.
use altas.Prelude.{
  List, [], ◌∷◌, ◌++◌, Bytes, codes, is_empty, length, take, if◌then◌else◌, Free, All,
}
use altas.OrdMap.{OrdMap}
use altas.Html.{Row, Kind, plain, input, table, Element, element, Children, nil, cons}
use altas.Html.Tags.{outside, tags, Reads}

abbrev pub IsText : Bytes → Type 0
IsText s = Free b'<' s

-- Markup that does not stop in the middle of a tag.
abbrev pub IsMarkup : Bytes → Type 0
IsMarkup s = Reads outside s (tags outside s) outside

abbrev pub IsName : Bytes → Type 0
IsName s = Free b'>' s × Free b' ' s

abbrev pub IsKey : Bytes → Type 0
IsKey s = Free b'>' s × Free b'"' s

abbrev pub IsValue : Bytes → Type 0
IsValue s = Free b'"' s

abbrev pub IsAttr : OrdMap Bytes → Type 0
IsAttr [] = Unit {0}
IsAttr ((key, value) ∷ attr) = IsKey key × IsValue value × IsAttr attr

abbrev pub IsKind : Kind → Type 0
IsKind plain = Unit {0}
IsKind (input id label value) = IsValue id × IsText label × IsValue value
IsKind (table heads rows) = All IsText heads × All (All IsText) rows

abbrev mutual
  pub IsElement : Element → Type 0
  IsElement (element k name attr text children) =
      IsKind k × IsName name × IsAttr attr × IsMarkup text × IsChildren children

  pub IsChildren : Children → Type 0
  IsChildren nil = Unit {0}
  IsChildren (cons e es) = IsElement e × IsChildren es

-- The tags that the elements stand for.
abbrev pub closing : Bytes → Bytes
closing name = b'/' ∷ name

abbrev pub cell_tags : Bytes → Row → List Bytes
cell_tags name [] = []
cell_tags name (cell ∷ row) = name ∷ closing name ∷ cell_tags name row

abbrev pub row_tags : List Bytes → List Bytes
row_tags cells = codes "tr" ∷ (cells ++ closing (codes "tr") ∷ [])

abbrev pub rows_tags : Row → List Row → List Bytes
rows_tags heads [] = []
rows_tags heads (row ∷ rows) =
    row_tags (cell_tags (codes "td") (take (length heads) row)) ++ rows_tags heads rows

abbrev pub head_tags : Row → List Bytes
head_tags [] = []
head_tags (head ∷ heads) = row_tags (cell_tags (codes "th") (head ∷ heads))

abbrev mutual
  pub tags_of : Element → List Bytes
  tags_of (element (input id label value) name attr text children) =
      codes "label" ∷ closing (codes "label") ∷ codes "input" ∷ codes "br" ∷ []
  tags_of (element (table heads rows) name attr text children) =
      codes "table" ∷ (head_tags heads ++ (rows_tags heads rows ++ closing (codes "table") ∷ []))
  tags_of (element plain name attr text nil) =
      name ∷ (if is_empty text then [] else tags outside text ++ closing name ∷ [])
  tags_of (element plain name attr text (cons e es)) =
      name ∷ (tags_of_children (cons e es) ++ closing name ∷ [])

  pub tags_of_children : Children → List Bytes
  tags_of_children nil = []
  tags_of_children (cons e es) = tags_of e ++ tags_of_children es
