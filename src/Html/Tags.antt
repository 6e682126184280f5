-- ===== src/Html/Tags.antt =====
-- The tags in a text of HTML, by a tokenizer: a tag is read by its name, with the slash of a closing
-- tag, up to a `>` outside of quotes.
use altas.Prelude.{
  ◌≡◌, ap, ◌∙◌, sym, List, [], ◌∷◌, ◌++◌, append_assoc, Bytes, if◌then◌else◌, ◌==◌, ℕ,
}

pub data Mode : Type 0 where
  outside : Mode
  named : Bytes → Mode
  attributes : Bytes → Mode
  quoted : Bytes → Mode

-- The next mode, and the tag that the byte ends.
unfoldable pub next : Mode → ℕ → Mode × List Bytes
next outside c = if c == b'<' then (named [], []) else (outside, [])
next (named name) c =
    if c == b'>'
    then (outside, name ∷ [])
    else if c == b' '
    then (attributes name, [])
    else (named (name ++ c ∷ []), [])
next (attributes name) c =
    if c == b'>'
    then (outside, name ∷ [])
    else if c == b'"'
    then (quoted name, [])
    else (attributes name, [])
next (quoted name) c = if c == b'"' then (attributes name, []) else (quoted name, [])

unfoldable pub tags : Mode → Bytes → List Bytes
unfolding next
tags m [] = []
tags m (c ∷ s) = (next m c).1 ++ tags (next m c).0 s

-- In mode `m` a text shows these tags and leads to mode `m'`, whatever follows.
pub record Reads (m : Mode) (s : Bytes) (ts : List Bytes) (m' : Mode) : Type 0 where
  pub on : (rest : Bytes) → tags m (s ++ rest) ≡ ts ++ tags m' rest

infixr 60 ◌then_reads◌
pub ◌then_reads◌ :
    {m m' m'' : Mode} {s t : Bytes} {ts us : List Bytes}
    → Reads m s ts m'
    → Reads m' t us m''
    → Reads m (s ++ t) (ts ++ us) m''
◌then_reads◌ {m} {m'} {m''} {s} {t} {ts} {us} p q = record {
  on = λ rest.
      ap (tags m) (append_assoc s t rest)
      ∙ p.on (t ++ rest)
      ∙ ap (λ z. ts ++ z) (q.on rest)
      ∙ sym (append_assoc ts us (tags m'' rest));
}
