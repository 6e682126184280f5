-- ===== src/StrUtil/Case.antt =====
-- The comparisons that ignore case.
use altas.Prelude.{
  Bool-cases, inl, inr, ◌↔◌, length-map, length-append, bytes_eq_iff, bytes_eq_sound, take-append,
  take-append-drop, ℕ, zero, suc, ◌+◌, ◌-◌, ◌%◌, ◌≡◌, ◌≤◌, ◌<◌, refl, sym, ap, ◌∙◌, true, [], ◌∷◌,
  ◌++◌, map, Bytes, length, take, All, bytes_eq, ◌==◌, drop, arith,
}
use altas.Words.{u32_mod}
use altas.StrUtil.{tolower, memcasecmp, equals_ignore_case, starts_with_ignore_case}

abbrev pub IsByte : ℕ → Type 0
IsByte c = c < 256

tolower_bound : (c : ℕ) → IsByte c → tolower c < 256
unfolding tolower
tolower_bound c h = ground arith

diff_zero : (a b : ℕ) → a < 256 → b < 256 → ((a + u32_mod - b) % u32_mod == 0) ≡ (a == b)
diff_zero a b h k = ground arith

memcasecmp_eq :
    (s t : Bytes)
    → All IsByte s
    → All IsByte t
    → length s ≡ length t
    → (memcasecmp s t (length s) == 0) ≡ bytes_eq (map tolower s) (map tolower t)
unfolding memcasecmp bytes_eq
memcasecmp_eq [] [] hs ht e = refl
memcasecmp_eq [] (y ∷ t) hs ht e = absurd (omega arith)
memcasecmp_eq (x ∷ s) [] hs ht e = absurd (omega arith)
memcasecmp_eq (x ∷ s) (y ∷ t) (p, hs) (q, ht) e = ground (
  arith,
  tolower_bound x p,
  tolower_bound y q,
  memcasecmp_eq s t hs ht (omega arith),
  diff_zero (tolower x) (tolower y) (tolower_bound x p) (tolower_bound y q),
)

map-length : (a b : Bytes) → map tolower a ≡ map tolower b → length a ≡ length b
map-length a b h = sym (length-map a tolower) ∙ ap length h ∙ length-map b tolower

-- Two texts of bytes are equal but for case exactly if their lower-case forms are the same text.
pub equals_ignore_case_lem :
    (a b : Bytes)
    → All IsByte a
    → All IsByte b
    → equals_ignore_case a b ≡ bytes_eq (map tolower a) (map tolower b)
unfolding equals_ignore_case
equals_ignore_case_lem a b ha hb = elim (Bool-cases (length a == length b)) [
  | inl e ↦ ground (arith, memcasecmp_eq a b ha hb (ground arith))
  | inr e ↦ ground (
    arith,
    bytes_eq_sound (map tolower a) (map tolower b),
    (λ (h : map tolower a ≡ map tolower b). map-length a b h),
  )
]

take-All : (n : ℕ) (s : Bytes) → All IsByte s → All IsByte (take n s)
take-All zero s h = tt
take-All (suc n) [] h = tt
take-All (suc n) (c ∷ s) (p, h) = (p, take-All n s h)

map-take : (n : ℕ) (s : Bytes) → map tolower (take n s) ≡ take n (map tolower s)
map-take zero s = refl
map-take (suc n) [] = refl
map-take (suc n) (c ∷ s) = ap (◌∷◌ (tolower c)) (map-take n s)

starts_from :
    (text prefix rest : Bytes)
    → All IsByte text
    → All IsByte prefix
    → map tolower text ≡ map tolower prefix ++ rest
    → starts_with_ignore_case text prefix ≡ true
unfolding starts_with_ignore_case
starts_from text prefix rest ht hp e = ground (
  arith,
  long,
  equals_ignore_case_lem (take (length prefix) text) prefix (take-All _ text ht) hp,
  same,
  bytes_eq_iff (map tolower (take (length prefix) text)) (map tolower prefix),
)
  where
    long : length prefix ≤ length text
    long = omega (
      arith,
      ap length e,
      length-map text tolower,
      length-map prefix tolower,
      length-append (map tolower prefix) rest,
    )

    same : map tolower (take (length prefix) text) ≡ map tolower prefix
    same =
        map-take (length prefix) text
        ∙ ap (take (length prefix)) e
        ∙ take-append (map tolower prefix) rest _ (sym (length-map prefix tolower))

-- A text of bytes starts with a prefix but for case exactly if its lower-case form is that of the
-- prefix with a rest behind it.
pub starts_with_ignore_case_lem :
    (text prefix : Bytes)
    → All IsByte text
    → All IsByte prefix
    → (starts_with_ignore_case text prefix ≡ true)
      ↔ ((rest : Bytes) × (map tolower text ≡ map tolower prefix ++ rest))
unfolding starts_with_ignore_case
starts_with_ignore_case_lem text prefix ht hp = (
  λ h. (
    drop (length prefix) (map tolower text),
    sym (take-append-drop (length prefix) (map tolower text))
        ∙ ap (λ z. z ++ drop (length prefix) (map tolower text))
            (sym (map-take (length prefix) text)
              ∙ bytes_eq_sound _ _ (
                  ground (
                    arith,
                    equals_ignore_case_lem (take (length prefix) text) prefix (take-All _ text ht)
                        hp,
                  ))),
  ),
  λ (rest, e). starts_from text prefix rest ht hp e,
)
