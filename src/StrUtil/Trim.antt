-- ===== src/StrUtil/Trim.antt =====
-- What trimming takes away.
use altas.Prelude.{
  drop-append, take-append, length-append, ℕ, ◌+◌, ◌≡◌, refl, sym, ap, ◌∙◌, Bool, true, false, not,
  [], ◌∷◌, ◌++◌, none, some, Bytes, length, take, arith, All, append_assoc,
}
use altas.StrUtil.{
  contains_byte, first_from, last_from, last_or, cut, str_trim_left, str_trim_right, str_trim,
}

module _ (test : ℕ → Bool) where
  abbrev pub Fails : Bytes → Type 0
  Fails = All (λ c. test c ≡ false)

  pub first_from-none : (i : ℕ) (s : Bytes) → Fails s → first_from test i s ≡ none
  unfolding first_from
  first_from-none i [] h = refl
  first_from-none i (c ∷ s) (p, h) = rw p (first_from-none (i + 1) s h)

  pub first_from-some :
      (i : ℕ) (l t : Bytes) (c : ℕ)
      → Fails l
      → test c ≡ true
      → first_from test i (l ++ c ∷ t) ≡ some (i + length l)
  unfolding first_from
  first_from-some i [] t c h p = rw p (ap some (omega arith))
  first_from-some i (d ∷ l) t c (q, h) p =
      rw q (first_from-some (i + 1) l t c h p ∙ ap some (omega arith))

  pub last_from-none : (i : ℕ) (s : Bytes) → Fails s → last_from test i s ≡ none
  unfolding last_from last_or
  last_from-none i [] h = refl
  last_from-none i (c ∷ s) (p, h) = rw (last_from-none (i + 1) s h, p)

  pub last_from-some :
      (i : ℕ) (t r : Bytes) (c : ℕ)
      → Fails r
      → test c ≡ true
      → last_from test i (t ++ c ∷ r) ≡ some (i + length t)
  unfolding last_from last_or
  last_from-some i [] r c h p = rw (last_from-none (i + 1) r h, p) (ap some (omega arith))
  last_from-some i (d ∷ t) r c h p = rw (last_from-some (i + 1) t r c h p) (ap some (omega arith))

-- Every byte passes, and there is one.
pub last_from-All :
    (test : ℕ → Bool) (i c : ℕ) (s : Bytes)
    → test c ≡ true
    → All (λ d. test d ≡ true) s
    → last_from test i (c ∷ s) ≡ some (i + length s)
unfolding last_from last_or
last_from-All test i c [] p h = rw p (ap some (omega arith))
last_from-All test i c (d ∷ s) p (q, h) =
    rw (last_from-All test (i + 1) d s q h) (ap some (omega arith))

-- Every byte of the text is one that is cut away; one byte is not.
abbrev pub AllCut : Bytes → Bytes → Type 0
AllCut cutset = All (λ c. not (contains_byte (cut cutset) c) ≡ false)

abbrev pub Stays : Bytes → ℕ → Type 0
Stays cutset c = not (contains_byte (cut cutset) c) ≡ true

module _ (cutset : Bytes) where
  left_kept : (s : Bytes) → AllCut cutset s → str_trim_left s cutset ≡ s
  unfolding str_trim_left
  left_kept s h = rw (first_from-none _ 0 s h, str_trim_left)

  right_kept : (s : Bytes) → AllCut cutset s → str_trim_right s cutset ≡ s
  unfolding str_trim_right
  right_kept s h = rw (last_from-none _ 0 s h, str_trim_right)

  left_cut :
      (l t : Bytes) (c : ℕ)
      → AllCut cutset l
      → Stays cutset c
      → str_trim_left (l ++ c ∷ t) cutset ≡ c ∷ t
  unfolding str_trim_left
  left_cut l t c h p =
      rw (first_from-some _ 0 l t c h p, str_trim_left) (drop-append l (c ∷ t) _ (omega arith))

  right_cut :
      (t r : Bytes) (c : ℕ)
      → AllCut cutset r
      → Stays cutset c
      → str_trim_right (t ++ c ∷ r) cutset ≡ t ++ c ∷ []
  unfolding str_trim_right
  right_cut t r c h p =
      rw (last_from-some _ 0 t r c h p, str_trim_right)
        (ap (take _) (sym (append_assoc t (c ∷ []) r))
          ∙ take-append (t ++ c ∷ []) r _ (omega (arith, length-append t (c ∷ []))))

  -- Trimming gives the part of a text between its first and its last byte that is not in the
  -- cut set (or, if that is empty, not a blank, tab or line end); a text of bytes of the cut set
  -- alone is left as it is.
  pub str_trim_lem :
      (l m r t u : Bytes) (c d : ℕ)
      → AllCut cutset l
      → AllCut cutset r
      → m ≡ c ∷ t
      → m ≡ u ++ d ∷ []
      → Stays cutset c
      → Stays cutset d
      → (str_trim (l ++ (m ++ r)) cutset ≡ m) × (str_trim l cutset ≡ l)
  unfolding str_trim
  str_trim_lem l m r t u c d hl hr e f p q = (
    ap (λ z. str_trim_right (str_trim_left (l ++ (z ++ r)) cutset) cutset) e
        ∙ ap (λ z. str_trim_right z cutset) (left_cut l (t ++ r) c hl p)
        ∙ ap (λ z. str_trim_right (z ++ r) cutset) (sym e ∙ f)
        ∙ ap (λ z. str_trim_right z cutset) (append_assoc u (d ∷ []) r)
        ∙ right_cut u r d hr q
        ∙ sym f,
    rw (left_kept l hl) (right_kept l hl),
  )
