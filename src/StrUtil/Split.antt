-- ===== src/StrUtil/Split.antt =====
-- What `StrSplit` returns.
use altas.Prelude.{
  Bool-cases, ◌==◌, subst, ℕ, zero, suc, ◌≡◌, ◌<◌, refl, sym, ap, inl, inr, List, [], ◌∷◌, ◌++◌,
  Option, none, some, Bytes, length, span_until, Free, All, arith,
}
use altas.StrUtil.{cons_piece, split_loop, str_split}

-- The pieces with the delimiter between each two.
unfoldable pub join : ℕ → List Bytes → Bytes
join d [] = []
join d (p ∷ []) = p
join d (p ∷ (q ∷ ps)) = p ++ d ∷ join d (q ∷ ps)

-- The result is a list of pieces, one at least, none of which holds the delimiter, and which make
-- the text with the delimiter between each two.
abbrev pub IsSplit : ℕ → Bytes → Option (List Bytes) → Type 0
IsSplit d text none = ⊥
IsSplit d text (some []) = ⊥
IsSplit d text (some (p ∷ ps)) = (join d (p ∷ ps) ≡ text) × All (Free d) (p ∷ ps)

-- A span passes over a text without the byte, and ends behind the text or at the byte.
abbrev IsSpan : ℕ → Bytes → Bytes × Bytes → Type 0
IsSpan d t (p, []) = (t ≡ p) × Free d p
IsSpan d t (p, c ∷ rest) = (t ≡ p ++ d ∷ rest) × Free d p × (length rest < length t)

IsSpan-cons :
    (d c : ℕ) (t : Bytes)
    → (c ≡ d → ⊥)
    → (s : Bytes × Bytes) → IsSpan d t s
    → IsSpan d (c ∷ t) (c ∷ s.0, s.1)
IsSpan-cons d c t n (p, []) (e, f) = (ap (◌∷◌ c) e, (n, f))
IsSpan-cons d c t n (p, b ∷ rest) (e, f, l) = (ap (◌∷◌ c) e, (n, f), omega arith)

span_until-IsSpan : (d : ℕ) (t : Bytes) → IsSpan d t (span_until d t)
unfolding span_until
span_until-IsSpan d [] = (refl, tt)
span_until-IsSpan d (c ∷ t) = elim (Bool-cases (c == d)) [
  | inl e ↦ rw e (ap (λ z. z ∷ t) (ground arith), tt, omega arith)
  | inr e ↦ rw e (IsSpan-cons d c t (ground arith) (span_until d t) (span_until-IsSpan d t))
]

IsSplit-cons :
    (d : ℕ) (p rest : Bytes) (r : Option (List Bytes))
    → Free d p
    → IsSplit d rest r
    → IsSplit d (p ++ d ∷ rest) (cons_piece p r)
unfolding cons_piece join
IsSplit-cons d p rest none f h = h
IsSplit-cons d p rest (some []) f h = elim h [ ]
IsSplit-cons d p rest (some (q ∷ ps)) f (e, a) = (ap (λ z. p ++ d ∷ z) e, (f, a))

IsSplit-found :
    (d : ℕ) (rest : Bytes) (next_pieces : Bytes → Option (List Bytes)) (s : Bytes × Bytes)
    → IsSpan d rest s
    → ((next : Bytes) → length next < length rest → IsSplit d next (next_pieces next))
    → IsSplit d rest
        (elim s.1 [ [] ↦ some (s.0 ∷ []) | c ∷ next ↦ cons_piece s.0 (next_pieces next) ])
unfolding join
IsSplit-found d rest g (p, []) (e, f) h = (sym e, (f, tt))
IsSplit-found d rest g (p, c ∷ next) (e, f, l) h =
    subst (λ z. IsSplit d z (cons_piece p (g next))) (sym e) (IsSplit-cons d p next _ f (h next l))

split_loop-IsSplit :
    (fuel d : ℕ) (rest : Bytes) → length rest < fuel → IsSplit d rest (split_loop fuel d rest)
unfolding split_loop
split_loop-IsSplit zero d rest h = absurd (omega arith)
split_loop-IsSplit (suc fuel) d rest h =
    IsSplit-found d rest (split_loop fuel d) (span_until d rest) (span_until-IsSpan d rest)
      (λ next l. split_loop-IsSplit fuel d next (omega arith))

-- Splitting a text that is not empty gives pieces, without running out of fuel, that hold no
-- delimiter and that make the text with the delimiter between each two.
pub str_split-IsSplit : (c d : ℕ) (text : Bytes) → IsSplit d (c ∷ text) (str_split (c ∷ text) d)
unfolding str_split
str_split-IsSplit c d text = split_loop-IsSplit _ d (c ∷ text) (omega arith)
