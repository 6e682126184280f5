-- ===== src/StrUtil/Replace.antt =====
-- When `StrReplace` ends.
use altas.Prelude.{
  ℕ, zero, suc, ◌≡◌, ◌<◌, refl, sym, ap, ◌∙◌, inl, inr, Bool-cases, true, false, ◌&&◌, [], ◌∷◌,
  ◌++◌, append_assoc, Option, none, some, Bytes, length, length-append, drop, ◌==◌, arith,
}
use altas.StrUtil.{begins, search, behind, replace_loop, str_replace}

begins-drop : (from text : Bytes) → begins from text ≡ true → from ++ drop (length from) text ≡ text
unfolding begins
begins-drop [] text e = refl
begins-drop (c ∷ cs) [] e = absurd cc
begins-drop (c ∷ cs) (d ∷ ds) e = elim (Bool-cases (c == d)) [
  | inl f ↦
      let same : c ≡ d = ground arith in
      let rest : begins cs ds ≡ true = sym (ap (λ b. b && begins cs ds) f) ∙ e in
      ap (λ z. z ∷ (cs ++ drop (length cs) ds)) same ∙ ap (◌∷◌ d) (begins-drop cs ds rest)
  | inr f ↦ absurd (let g : false ≡ true = sym (ap (λ b. b && begins cs ds) f) ∙ e in cc)
]

-- An occurrence takes a text apart.
abbrev Parts : Bytes → Bytes → Option (Bytes × Bytes) → Type 0
Parts from text none = Unit {0}
Parts from text (some (before, after)) = before ++ (from ++ after) ≡ text

search-Parts : (c : ℕ) (f text : Bytes) → Parts (c ∷ f) text (search (c ∷ f) text)
unfolding search
search-Parts c f [] = tt
search-Parts c f (d ∷ text) = elim (Bool-cases (begins (c ∷ f) (d ∷ text))) [
  | inl e ↦ rw e (begins-drop (c ∷ f) (d ∷ text) e)
  | inr e ↦ rw e (Parts-cons d (search (c ∷ f) text) (search-Parts c f text))
]
  where
    Parts-cons :
        (d : ℕ) (o : Option (Bytes × Bytes))
        → Parts (c ∷ f) text o
        → Parts
            (c ∷ f)
            (d ∷ text)
            (elim o [ none ↦ none | some (before, after) ↦ some (d ∷ before, after) ])
    Parts-cons d none p = tt
    Parts-cons d (some (before, after)) p = ap (◌∷◌ d) p

abbrev Ends : ℕ → ℕ → Bytes → Bytes → Bytes → Type 0
Ends fuel c f to rest =
    ((r : Bytes) × (replace_loop fuel (c ∷ f) to rest ≡ some r))
    × (replace_loop fuel (c ∷ f) (c ∷ f) rest ≡ some rest)

Ends-round :
    (fuel c : ℕ) (f to rest : Bytes) (o : Option (Bytes × Bytes))
    → Parts (c ∷ f) rest o
    → length rest < suc fuel
    → ((after : Bytes) → length after < fuel → Ends fuel c f to after)
    → ((r : Bytes) × ((elim o [
      | none ↦ some rest
      | some (b, a) ↦ behind (b ++ to) (replace_loop fuel (c ∷ f) to a)
    ])
          ≡ some r))
      × ((elim o [
        | none ↦ some rest
        | some (b, a) ↦ behind (b ++ c ∷ f) (replace_loop fuel (c ∷ f) (c ∷ f) a)
      ])
          ≡ some rest)
unfolding behind
Ends-round fuel c f to rest none p l next = ((rest, refl), refl)
Ends-round fuel c f to rest (some (b, a)) p l next =
    let shorter : length a < fuel =
      omega (arith, ap length p, length-append b (c ∷ (f ++ a)), length-append f a) in
    let ((r, e), g) = next a shorter in
    (
      ((b ++ to) ++ r, ap (behind (b ++ to)) e),
      ap (behind (b ++ c ∷ f)) g ∙ ap some (append_assoc b (c ∷ f) a ∙ p),
    )

-- With enough fuel the loop ends, and putting a text in its own place changes nothing.
replace_loop-Ends : (fuel c : ℕ) (f to rest : Bytes) → length rest < fuel → Ends fuel c f to rest
unfolding replace_loop
replace_loop-Ends zero c f to rest l = absurd (omega arith)
replace_loop-Ends (suc fuel) c f to rest l =
    Ends-round fuel c f to rest (search (c ∷ f) rest) (search-Parts c f rest) l
      (λ after k. replace_loop-Ends fuel c f to after k)

-- With nothing to look for it never does.
replace_loop_runs : (fuel : ℕ) (to rest : Bytes) → replace_loop fuel [] to rest ≡ none
unfolding replace_loop behind search begins
replace_loop_runs zero to rest = refl
replace_loop_runs (suc fuel) to [] = ap (behind to) (replace_loop_runs fuel to [])
replace_loop_runs (suc fuel) to (c ∷ rest) = ap (behind to) (replace_loop_runs fuel to (c ∷ rest))

-- Replacing a text that is not empty ends, on every string, and changes nothing if it is replaced by
-- itself; replacing the empty text never ends.
pub str_replace_lem :
    (c fuel : ℕ) (f to str : Bytes)
    → ((r : Bytes) × (str_replace str (c ∷ f) to ≡ some r))
      × (str_replace str (c ∷ f) (c ∷ f) ≡ some str)
      × (replace_loop fuel [] to str ≡ none)
unfolding str_replace
str_replace_lem c fuel f to str =
    let (e, g) = replace_loop-Ends (suc (length str)) c f to str (omega arith) in
    (e, g, replace_loop_runs fuel to str)
