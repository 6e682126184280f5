-- ===== src/Fs/Paths.antt =====
-- The parts of a path.
use altas.Prelude.{
  ℕ, ◌+◌, ◌≡◌, refl, sym, ap, ◌∙◌, true, false, not, [], ◌∷◌, ◌++◌, Bytes, codes, length, drop,
  take-append, drop-append, take_all, append_assoc, length-append, All, arith,
}
use altas.StrUtil.{contains_byte, first_from, str_append, str_trim, str_trim_left, str_trim_right}
use altas.StrUtil.Trim.{last_from-some, last_from-All}
use altas.Fs.{separator, path_join, dir, basename}

-- A name of a file: no separator of either kind.
abbrev pub IsName : Bytes → Type 0
IsName = All (λ c. contains_byte (codes "/\\") c ≡ false)

kept_left : (c : ℕ) (s : Bytes) → IsName (c ∷ s) → str_trim_left (c ∷ s) separator ≡ c ∷ s
unfolding str_trim_left first_from
kept_left c s (h, k) =
    let e : not (contains_byte separator c) ≡ true = ground arith in
    rw (e, str_trim_left, first_from) refl

passes : (s : Bytes) → IsName s → All (λ d. not (contains_byte separator d) ≡ true) s
passes [] h = tt
passes (c ∷ s) (h, k) = (ground arith, passes s k)

kept_right : (c : ℕ) (s : Bytes) → IsName (c ∷ s) → str_trim_right (c ∷ s) separator ≡ c ∷ s
unfolding str_trim_right
kept_right c s h =
    let (p, q) = passes (c ∷ s) h in
    rw (last_from-All (λ d. not (contains_byte separator d)) 0 c s p q, str_trim_right)
      (take_all _ (c ∷ s) (omega arith))

joined :
    (a : Bytes) (c : ℕ) (s : Bytes)
    → IsName (c ∷ s)
    → path_join a (c ∷ s) ≡ str_trim_right a separator ++ b'/' ∷ (c ∷ s)
unfolding path_join str_append str_trim
joined a c s h =
    ap (λ z. (str_trim_right a separator ++ separator) ++ str_trim_right z separator)
      (kept_left c s h)
    ∙ ap (λ z. (str_trim_right a separator ++ separator) ++ z) (kept_right c s h)
    ∙ append_assoc (str_trim_right a separator) separator (c ∷ s)

no_slash : (s : Bytes) → IsName s → All (λ d. contains_byte separator d ≡ false) s
no_slash [] h = tt
no_slash (c ∷ s) (h, k) = (ground arith, no_slash s k)

-- A name joined to a path, where the name is not empty and holds neither kind of slash: the
-- directory of the result is the path without the slashes at its end, and its base name is the
-- name.
pub dir-path_join :
    (a : Bytes) (c : ℕ) (s : Bytes)
    → IsName (c ∷ s)
    → (dir (path_join a (c ∷ s)) ≡ str_trim_right a separator)
      × (basename (path_join a (c ∷ s)) ≡ c ∷ s)
unfolding dir basename
dir-path_join a c s h =
    let d = str_trim_right a separator in
    let either = last_from-some (contains_byte (codes "/\\")) 0 d (c ∷ s) b'/' h refl in
    let slash =
      last_from-some (contains_byte separator) 0 d (c ∷ s) b'/' (no_slash (c ∷ s) h) refl in
    (
      ap dir (joined a c s h) ∙ rw (either, dir) (take-append d _ (0 + length d) (omega arith)),
      ap basename (joined a c s h)
          ∙ rw (slash, basename)
              (ap (λ z. drop (0 + length d + 1) z) (sym (append_assoc d (b'/' ∷ []) (c ∷ s)))
                ∙ drop-append (d ++ b'/' ∷ []) (c ∷ s) _
                    (omega (arith, length-append d (b'/' ∷ [])))),
    )
