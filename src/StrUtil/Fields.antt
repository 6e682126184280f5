-- ===== src/StrUtil/Fields.antt =====
-- What `StrFields` returns.
use altas.Prelude.{
  ℕ, zero, suc, ◌+◌, ◌-◌, ◌≡◌, ◌<◌, ◌⊎◌, refl, sym, ap, ◌∙◌, subst, inl, inr, Bool, Bool-cases,
  true, false, not, List, [], ◌∷◌, ◌++◌, append_assoc, append-nil, Option, none, some, Bytes,
  length, length-append, take, take-append, take_all, drop, drop-append, if◌then◌else◌, ltb, lt→ltb,
  All, All-map, arith,
}
use altas.StrUtil.{
  contains_byte, first_from, find_first_of, space_chars, str_trim_right, push_field, last_field,
  more_fields, fields_loop, str_fields,
}
use altas.StrUtil.Trim.{Fails, first_from-none, first_from-some, last_from-All}

abbrev pub is_space : ℕ → Bool
is_space c = contains_byte space_chars c

abbrev is_ink : ℕ → Bool
is_ink c = not (is_space c)

-- The words of a text, the longest parts without a space, where `cur` is the part of a word that was
-- read.
abbrev pub flush : Bytes → List Bytes → List Bytes
flush [] words = words
flush (c ∷ cur) words = (c ∷ cur) ∷ words

unfoldable pub words_from : Bytes → Bytes → List Bytes
words_from cur [] = flush cur []
words_from cur (c ∷ s) =
    let ended = flush cur (words_from [] s) in
    let longer = words_from (cur ++ c ∷ []) s in if is_space c then ended else longer

-- The first byte that passes a test, if there is one.
abbrev Splits : (ℕ → Bool) → Bytes → Type 0
Splits test t =
    Fails test t
    ⊎ ((p : Bytes) × (c : ℕ) × (r : Bytes) × (t ≡ p ++ c ∷ r) × Fails test p × (test c ≡ true))

splits : (test : ℕ → Bool) (t : Bytes) → Splits test t
splits test [] = inl tt
splits test (d ∷ t) = elim (Bool-cases (test d)) [
  | inl e ↦ inr ([], d, t, refl, tt, e)
  | inr e ↦ elim (splits test t) [
    | inl f ↦ inl (e, f)
    | inr (p, c, r, q, f, g) ↦ inr (d ∷ p, c, r, ap (◌∷◌ d) q, (e, f), g)
  ]
]

spaces : (s : Bytes) → Fails is_ink s → All (λ c. is_space c ≡ true) s
spaces s h =
    All-map s
      (λ c e. elim (Bool-cases (is_space c)) [
        | inl f ↦ f
        | inr f ↦ absurd (let g : true ≡ false = sym (ap not f) ∙ e in cc)
      ])
      h

words_from-ink : (cur t : Bytes) → Fails is_space t → words_from cur t ≡ flush (cur ++ t) []
unfolding words_from
words_from-ink cur [] h = ap (λ z. flush z []) (sym (append-nil cur))
words_from-ink cur (c ∷ t) (e, h) =
    rw e (words_from-ink (cur ++ c ∷ []) t h ∙ ap (λ z. flush z []) (append_assoc cur (c ∷ []) t))

words_from-word :
    (cur p r : Bytes) (c : ℕ)
    → Fails is_space p
    → is_space c ≡ true
    → words_from cur (p ++ c ∷ r) ≡ flush (cur ++ p) (words_from [] r)
unfolding words_from
words_from-word cur [] r c h e = rw e (ap (λ z. flush z (words_from [] r)) (sym (append-nil cur)))
words_from-word cur (d ∷ p) r c (f, h) e = rw f (
    words_from-word (cur ++ d ∷ []) p r c h e
    ∙ ap (λ z. flush z (words_from [] r)) (append_assoc cur (d ∷ []) p))

words_from-spaces :
    (q t : Bytes) → All (λ c. is_space c ≡ true) q → words_from [] (q ++ t) ≡ words_from [] t
unfolding words_from
words_from-spaces [] t h = refl
words_from-spaces (c ∷ q) t (e, h) = rw e (words_from-spaces q t h)

last-starts : (before t : Bytes) (d : ℕ) → ltb (length before) (length (before ++ d ∷ t)) ≡ true
last-starts before t d = lt→ltb _ _ (omega (arith, length-append before (d ∷ t)))

last-kept :
    (t : Bytes) (d : ℕ)
    → is_space d ≡ false
    → Fails is_space t
    → str_trim_right (d ∷ t) space_chars ≡ d ∷ t
unfolding str_trim_right
last-kept t d e h =
    rw (last_from-All is_ink 0 d t (ap not e) (All-map t (λ c e. ap not e) h), str_trim_right)
      (take_all _ (d ∷ t) (omega arith))

-- A word at the end of the text.
last_field-word :
    (before t : Bytes) (d : ℕ)
    → Fails is_space (d ∷ t)
    → last_field (before ++ d ∷ t) (length before) ≡ (d ∷ t) ∷ []
unfolding last_field push_field
last_field-word before t d (e, h) =
    rw (last-starts before t d, drop-append before (d ∷ t) (length before) refl, last-kept t d e h)
      refl

module _ (before p r : Bytes) (c : ℕ) (ink : Fails is_space p) (space : is_space c ≡ true) where
  abbrev whole : Bytes
  whole = before ++ (p ++ c ∷ r)

  finds_end : find_first_of space_chars whole (length before) ≡ some (length before + length p)
  finds_end =
      ap (first_from is_space (length before))
        (drop-append before (p ++ c ∷ r) (length before) refl)
      ∙ first_from-some is_space (length before) p r c ink space

  cell_here : take (length before + length p - length before) (drop (length before) whole) ≡ p
  cell_here =
      ap (take (length before + length p - length before))
        (drop-append before (p ++ c ∷ r) (length before) refl)
      ∙ take-append p (c ∷ r) _ (omega arith)

  rest_here : drop (length before + length p) whole ≡ c ∷ r
  rest_here =
      ap (drop (length before + length p)) (sym (append_assoc before p (c ∷ r)))
      ∙ drop-append (before ++ p) (c ∷ r) _ (omega (arith, length-append before p))

  round :
      (fuel : ℕ)
      → fields_loop (suc fuel) whole (length before)
        ≡ more_fields p (elim (first_from is_ink (length before + length p) (c ∷ r)) [
          | none ↦ some []
          | some next ↦ fields_loop fuel whole next
        ])
  unfolding fields_loop
  round fuel = rw (finds_end, fields_loop, cell_here, rest_here) refl

-- A word that is not empty, and the words behind it.
more_fields-word :
    (d : ℕ) (p : Bytes) (words : List Bytes)
    → more_fields (d ∷ p) (some words) ≡ some ((d ∷ p) ∷ words)
unfolding more_fields push_field
more_fields-word d p words = refl

words_from-space : (c : ℕ) (r : Bytes) → is_space c ≡ true → words_from [] (c ∷ r) ≡ words_from [] r
unfolding words_from
words_from-space c r e = rw e refl

words_from-blank : (s : Bytes) → Fails is_ink s → words_from [] s ≡ []
unfolding words_from
words_from-blank s h = ap (words_from []) (sym (append-nil s)) ∙ words_from-spaces s [] (spaces s h)

not_space : (c : ℕ) → is_ink c ≡ true → is_space c ≡ false
not_space c e = elim (Bool-cases (is_space c)) [
  | inl f ↦ absurd (let g : false ≡ true = sym (ap not f) ∙ e in cc)
  | inr f ↦ f
]

-- What the rounds find from the first byte of a word on.
abbrev LoopFinds : ℕ → Type 0
LoopFinds fuel =
    (s before t : Bytes) (d start : ℕ)
    → s ≡ before ++ d ∷ t
    → start ≡ length before
    → is_space d ≡ false
    → length t < fuel
    → fields_loop fuel s start ≡ some (words_from [] (d ∷ t))

-- Behind a word and a space.
rest_lem :
    (fuel : ℕ) (before p r : Bytes) (d c : ℕ)
    → is_space c ≡ true
    → length r < fuel
    → LoopFinds fuel
    → elim (first_from is_ink (length before + length (d ∷ p)) (c ∷ r))
        as (λ x. Option (List Bytes)) [
          | none ↦ some []
          | some next ↦ fields_loop fuel (before ++ ((d ∷ p) ++ c ∷ r)) next
        ]
      ≡ some (words_from [] (c ∷ r))
rest_lem fuel before p r d c g h ih = elim (splits is_ink (c ∷ r)) [
  | inl blank ↦
      rw (first_from-none is_ink (length before + length (d ∷ p)) (c ∷ r) blank)
        (ap some (sym (words_from-blank (c ∷ r) blank)))
  | inr (q, b, u, same, skipped, ink) ↦
      rw
        (ap (first_from is_ink (length before + length (d ∷ p))) same
          ∙ first_from-some is_ink (length before + length (d ∷ p)) q u b skipped ink)
        (ih _ ((before ++ d ∷ p) ++ q) u b _
            (ap (λ z. before ++ ((d ∷ p) ++ z)) same
              ∙ sym (append_assoc before (d ∷ p) (q ++ b ∷ u))
              ∙ sym (append_assoc (before ++ d ∷ p) q (b ∷ u)))
            (omega (arith, length-append (before ++ d ∷ p) q, length-append before (d ∷ p)))
            (not_space b ink) (omega (arith, ap length same, length-append q (b ∷ u)))
          ∙ ap some
              (sym (ap (words_from []) same ∙ words_from-spaces q (b ∷ u) (spaces q skipped))))
]

-- The round that ends with a space behind the word `d ∷ p`.
loop-space :
    (fuel : ℕ) (before p r : Bytes) (d c : ℕ)
    → is_space d ≡ false
    → Fails is_space p
    → is_space c ≡ true
    → length r < fuel
    → LoopFinds fuel
    → fields_loop (suc fuel) (before ++ ((d ∷ p) ++ c ∷ r)) (length before)
      ≡ some (words_from [] ((d ∷ p) ++ c ∷ r))
loop-space fuel before p r d c e f g h ih =
    round before (d ∷ p) r c (e, f) g fuel
    ∙ ap (more_fields (d ∷ p)) (rest_lem fuel before p r d c g h ih)
    ∙ more_fields-word d p _
    ∙ ap some (
        sym (
          words_from-word [] (d ∷ p) r c (e, f) g
          ∙ ap (◌∷◌ (d ∷ p)) (sym (words_from-space c r g))))

loop-last :
    (fuel : ℕ) (before t : Bytes) (d : ℕ)
    → is_space d ≡ false
    → Fails is_space t
    → fields_loop (suc fuel) (before ++ d ∷ t) (length before) ≡ some (words_from [] (d ∷ t))
unfolding fields_loop
loop-last fuel before t d e f =
    rw
      (
        ap (first_from is_space (length before)) (drop-append before (d ∷ t) (length before) refl)
            ∙ first_from-none is_space (length before) (d ∷ t) (e, f),
        fields_loop,
      )
      (ap some (last_field-word before t d (e, f) ∙ sym (words_from-ink [] (d ∷ t) (e, f))))

loop_lem : (fuel : ℕ) → LoopFinds fuel
loop_lem zero s before t d start same at e h = absurd (omega arith)
loop_lem (suc fuel) s before t d start same at e h =
    ap (λ z. fields_loop (suc fuel) z start) same
    ∙ ap (fields_loop (suc fuel) (before ++ d ∷ t)) at
    ∙ elim (splits is_space t) [
      | inl f ↦ loop-last fuel before t d e f
      | inr (p, c, r, split, f, g) ↦
          subst
            (λ z.
              fields_loop (suc fuel) (before ++ d ∷ z) (length before)
              ≡ some (words_from [] (d ∷ z)))
            (sym split)
            (loop-space fuel before p r d c e f g
              (omega (arith, ap length split, length-append p (c ∷ r))) (loop_lem fuel))
    ]

pub str_fields_lem : (s : Bytes) → str_fields s ≡ some (words_from [] s)
unfolding str_fields
str_fields_lem s = elim (splits is_ink s) [
  | inl blank ↦
      rw (first_from-none is_ink 0 s blank, str_fields) (ap some (sym (words_from-blank s blank)))
  | inr (q, d, t, same, skipped, ink) ↦
      rw (ap (first_from is_ink 0) same ∙ first_from-some is_ink 0 q t d skipped ink, str_fields)
        (loop_lem (suc (length s)) s q t d _ same (omega arith) (not_space d ink)
            (omega (arith, ap length same, length-append q (d ∷ t)))
          ∙ ap some
              (sym (ap (words_from []) same ∙ words_from-spaces q (d ∷ t) (spaces q skipped))))
]
