-- ===== src/Html/Pieces.antt =====
-- The tags in the pieces that `Dump` writes.
use altas.Prelude.{
  ℕ, zero, suc, ◌≡◌, refl, sym, ap, subst, ◌∙◌, List, [], ◌∷◌, ◌++◌, append-nil, append_assoc,
  Bytes, codes, is_empty, length, take, if◌then◌else◌, All, arith,
}
use altas.OrdMap.{OrdMap}
use altas.Html.{
  Row, input, table, tabs, dump_attributes, dump_input, dump_heads, dump_cells, in_row, dump_rows,
  dump_table, dump_open, dump_close,
}
use altas.Html.Tags.{Mode, outside, named, attributes, quoted, next, tags, Reads, ◌then_reads◌}
use altas.Html.Spec.{
  IsText, IsMarkup, IsName, IsKey, IsValue, IsAttr, IsKind, closing, cell_tags, row_tags, rows_tags,
  head_tags,
}

pub reads_nothing : (m : Mode) → Reads m [] [] m
reads_nothing m = record { on = λ rest. refl }

-- One byte that ends no tag.
one_more :
    (m m' m'' : Mode) (c : ℕ) (s : Bytes)
    → next m c ≡ (m', [])
    → Reads m' s [] m''
    → Reads m (c ∷ s) [] m''
unfolding tags
one_more m m' m'' c s e p = record {
  on = λ rest. ap (λ (z : Mode × List Bytes). z.1 ++ tags z.0 (s ++ rest)) e ∙ p.on rest;
}

pub reads_text : (s : Bytes) → IsText s → Reads outside s [] outside
unfolding next
reads_text [] h = reads_nothing outside
reads_text (c ∷ s) (n, h) = one_more outside outside outside c s (ground arith) (reads_text s h)

reads_value : (name s : Bytes) → IsValue s → Reads (quoted name) s [] (quoted name)
unfolding next
reads_value name [] h = reads_nothing (quoted name)
reads_value name (c ∷ s) (n, h) =
    one_more (quoted name) (quoted name) (quoted name) c s (ground arith) (reads_value name s h)

reads_key : (name s : Bytes) → IsKey s → Reads (attributes name) s [] (attributes name)
unfolding next
reads_key name [] h = reads_nothing (attributes name)
reads_key name (c ∷ s) ((n, h), (m, k)) =
    one_more (attributes name) (attributes name) (attributes name) c s (ground arith)
      (reads_key name s (h, k))

reads_name : (got s : Bytes) → IsName s → Reads (named got) s [] (named (got ++ s))
unfolding next
reads_name got [] h =
    subst (λ z. Reads (named got) [] [] (named z)) (sym (append-nil got))
      (reads_nothing (named got))
reads_name got (c ∷ s) ((n, h), (m, k)) =
    subst (λ z. Reads (named got) (c ∷ s) [] (named z)) (append_assoc got (c ∷ []) s)
      (one_more (named got) (named (got ++ c ∷ [])) (named ((got ++ c ∷ []) ++ s)) c s
        (ground arith) (reads_name (got ++ c ∷ []) s (h, k)))

pub IsText-tabs : (depth : ℕ) → IsText (tabs depth)
IsText-tabs zero = tt
IsText-tabs (suc depth) = (omega arith, IsText-tabs depth)

abbrev pub reads_lit :
    (m : Mode) (s : Bytes) (ts : List Bytes) (m' : Mode)
    → ((rest : Bytes) → tags m (s ++ rest) ≡ ts ++ tags m' rest)
    → Reads m s ts m'
reads_lit m s ts m' h = record { on = h }

-- A key and its value, behind the blank.
reads_pair :
    (name key value more : Bytes)
    → IsKey key
    → IsValue value
    → Reads (attributes name) more [] (attributes name)
    → Reads
        (attributes name)
        (key ++ (codes "=\"" ++ (value ++ (codes "\"" ++ more))))
        []
        (attributes name)
unfolding tags next
reads_pair name key value more k v p =
    reads_key name key k
    then_reads reads_lit (attributes name) (codes "=\"") [] (quoted name) (λ rest. refl)
    then_reads reads_value name value v
    then_reads reads_lit (quoted name) (codes "\"") [] (attributes name) (λ rest. refl)
    then_reads p

reads_attributes :
    (name : Bytes) (attr : OrdMap Bytes)
    → IsAttr attr
    → Reads (attributes name) (dump_attributes attr) [] (attributes name)
unfolding tags next dump_attributes
reads_attributes name [] h = reads_nothing (attributes name)
reads_attributes name ((key, value) ∷ attr) (k, v, h) =
    reads_lit (attributes name) (codes " ") [] (attributes name) (λ rest. refl)
    then_reads reads_pair name key value (dump_attributes attr) k v (reads_attributes name attr h)

reads_rest :
    (name : Bytes) (attr : OrdMap Bytes)
    → IsAttr attr
    → Reads (named name) (dump_attributes attr ++ codes ">") (name ∷ []) outside
unfolding tags next dump_attributes
reads_rest name [] h = reads_lit (named name) (codes ">") (name ∷ []) outside (λ rest. refl)
reads_rest name ((key, value) ∷ attr) (k, v, h) =
    (reads_lit (named name) (codes " ") [] (attributes name) (λ rest. refl)
      then_reads reads_pair name key value (dump_attributes attr) k v
          (reads_attributes name attr h))
    then_reads reads_lit (attributes name) (codes ">") (name ∷ []) outside (λ rest. refl)

pub reads_open :
    (depth : ℕ) (name : Bytes) (attr : OrdMap Bytes)
    → IsName name
    → IsAttr attr
    → Reads outside (dump_open depth name attr) (name ∷ []) outside
unfolding tags next dump_open
reads_open depth name attr n h =
    reads_text (tabs depth) (IsText-tabs depth)
    then_reads reads_lit outside (codes "<") [] (named []) (λ rest. refl)
    then_reads reads_name [] name n
    then_reads reads_rest name attr h

pub reads_close :
    (name : Bytes) → IsName name → Reads outside (dump_close name) (closing name ∷ []) outside
unfolding tags next
reads_close name n =
    reads_lit outside (codes "</") [] (named (codes "/")) (λ rest. refl)
    then_reads reads_name (codes "/") name n
    then_reads reads_lit (named (closing name)) (codes ">\n") (closing name ∷ []) outside
        (λ rest. refl)

pub reads_input :
    (depth : ℕ) (id label value : Bytes)
    → IsKind (input id label value)
    → Reads outside
        (dump_input depth id label value)
        (codes "label" ∷ closing (codes "label") ∷ codes "input" ∷ codes "br" ∷ [])
        outside
unfolding tags next dump_input
reads_input depth id label value (i, l, v) =
    reads_text (tabs depth) (IsText-tabs depth)
    then_reads reads_lit outside (codes "<label for=\"") [] (quoted (codes "label")) (λ rest. refl)
    then_reads reads_value (codes "label") id i
    then_reads reads_lit (quoted (codes "label")) (codes "\">") (codes "label" ∷ []) outside
        (λ rest. refl)
    then_reads reads_text label l
    then_reads reads_lit outside (codes "</label>\n") (closing (codes "label") ∷ []) outside
        (λ rest. refl)
    then_reads reads_text (tabs depth) (IsText-tabs depth)
    then_reads reads_lit outside (codes "<input type=\"text\" id=\"") [] (quoted (codes "input"))
        (λ rest. refl)
    then_reads reads_value (codes "input") id i
    then_reads reads_lit (quoted (codes "input")) (codes "\" name=\"") [] (quoted (codes "input"))
        (λ rest. refl)
    then_reads reads_value (codes "input") id i
    then_reads reads_lit (quoted (codes "input")) (codes "\" value=\"") [] (quoted (codes "input"))
        (λ rest. refl)
    then_reads reads_value (codes "input") value v
    then_reads reads_lit (quoted (codes "input")) (codes "\"><br>\n")
        (codes "input" ∷ codes "br" ∷ []) outside (λ rest. refl)

module _ (prefix : Bytes) (blank : IsText prefix) where
  reads_heads :
      (heads : Row)
      → All IsText heads
      → Reads outside (dump_heads prefix heads) (cell_tags (codes "th") heads) outside
  unfolding tags next dump_heads
  reads_heads [] h = reads_nothing outside
  reads_heads (head ∷ heads) (h, hs) =
      reads_text prefix blank
      then_reads reads_lit outside (codes "\t\t<th>") (codes "th" ∷ []) outside (λ rest. refl)
      then_reads reads_text head h
      then_reads reads_lit outside (codes "</th>\n") (closing (codes "th") ∷ []) outside
          (λ rest. refl)
      then_reads reads_heads heads hs

  reads_cells :
      (heads row : Row)
      → All IsText row
      → Reads outside
          (dump_cells prefix heads row)
          (cell_tags (codes "td") (take (length heads) row))
          outside
  unfolding tags next dump_cells
  reads_cells [] row h = reads_nothing outside
  reads_cells (head ∷ heads) [] h = reads_nothing outside
  reads_cells (head ∷ heads) (cell ∷ row) (h, hs) =
      reads_text prefix blank
      then_reads reads_lit outside (codes "\t\t<td>") (codes "td" ∷ []) outside (λ rest. refl)
      then_reads reads_text cell h
      then_reads reads_lit outside (codes "</td>\n") (closing (codes "td") ∷ []) outside
          (λ rest. refl)
      then_reads reads_cells heads row hs

  reads_row :
      (cells : Bytes) (ts : List Bytes)
      → Reads outside cells ts outside
      → Reads outside (in_row prefix cells) (row_tags ts) outside
  unfolding tags next
  reads_row cells ts p =
      reads_text prefix blank
      then_reads reads_lit outside (codes "\t<tr>\n") (codes "tr" ∷ []) outside (λ rest. refl)
      then_reads p
      then_reads reads_text prefix blank
      then_reads reads_lit outside (codes "\t</tr>\n") (closing (codes "tr") ∷ []) outside
          (λ rest. refl)

  reads_rows :
      (heads : Row) (rows : List Row)
      → All (All IsText) rows
      → Reads outside (dump_rows prefix heads rows) (rows_tags heads rows) outside
  unfolding dump_rows
  reads_rows heads [] h = reads_nothing outside
  reads_rows heads (row ∷ rows) (h, hs) =
      reads_row (dump_cells prefix heads row) _ (reads_cells heads row h)
      then_reads reads_rows heads rows hs

  reads_head_row :
      (heads : Row)
      → All IsText heads
      → Reads outside
          (if is_empty heads then [] else in_row prefix (dump_heads prefix heads))
          (head_tags heads)
          outside
  reads_head_row [] h = reads_nothing outside
  reads_head_row (head ∷ heads) h =
      reads_row (dump_heads prefix (head ∷ heads)) _ (reads_heads (head ∷ heads) h)

pub reads_table :
    (depth : ℕ) (heads : Row) (rows : List Row)
    → IsKind (table heads rows)
    → Reads outside
        (dump_table depth heads rows)
        (codes "table"
          ∷ (head_tags heads ++ (rows_tags heads rows ++ closing (codes "table") ∷ [])))
        outside
unfolding tags next dump_table
reads_table depth heads rows (h, r) =
    let blank = IsText-tabs depth in
    reads_text (tabs depth) blank
    then_reads reads_lit outside (codes "<table>\n") (codes "table" ∷ []) outside (λ rest. refl)
    then_reads reads_head_row (tabs depth) blank heads h
    then_reads reads_rows (tabs depth) blank heads rows r
    then_reads reads_text (tabs depth) blank
    then_reads reads_lit outside (codes "</table>\n") (closing (codes "table") ∷ []) outside
        (λ rest. refl)

pub reads_leaf :
    (name text : Bytes)
    → IsName name
    → IsMarkup text
    → Reads outside
        (if is_empty text then codes "\n" else text ++ dump_close name)
        (if is_empty text then [] else tags outside text ++ closing name ∷ [])
        outside
unfolding tags next
reads_leaf name [] n h = reads_lit outside (codes "\n") [] outside (λ rest. refl)
reads_leaf name (c ∷ text) n h = h then_reads reads_close name n
