-- ===== src/Net/Buffer/Slice.antt =====
-- Parts of a list of bytes.
use altas.Prelude.{
  ℕ, zero, suc, ◌+◌, ◌-◌, ◌≡◌, ◌≤◌, refl, sym, ap, ◌∙◌, [], ◌∷◌, ◌++◌, Bytes, length, take, drop,
  replicate, arith, length-append, length-take, length-drop, length-replicate, take-append,
  append_assoc,
}
use altas.Net.Buffer.{copy_to, resize}

pub drop-append_le : (n : ℕ) (xs ys : Bytes) → n ≤ length xs → drop n (xs ++ ys) ≡ drop n xs ++ ys
drop-append_le zero xs ys h = refl
drop-append_le (suc n) [] ys h = absurd (omega arith)
drop-append_le (suc n) (x ∷ xs) ys h = drop-append_le n xs ys (omega arith)

pub take-append_le : (n : ℕ) (xs ys : Bytes) → n ≤ length xs → take n (xs ++ ys) ≡ take n xs
take-append_le zero xs ys h = refl
take-append_le (suc n) [] ys h = absurd (omega arith)
take-append_le (suc n) (x ∷ xs) ys h = ap (◌∷◌ x) (take-append_le n xs ys (omega arith))

pub take_nil : (k : ℕ) → ◌≡◌ {A = Bytes} (take k []) []
take_nil zero = refl
take_nil (suc k) = refl

pub drop_nil : (k : ℕ) → ◌≡◌ {A = Bytes} (drop k []) []
drop_nil zero = refl
drop_nil (suc k) = refl

pub drop-take : (r w k : ℕ) (xs : Bytes) → r + k ≡ w → drop r (take w xs) ≡ take k (drop r xs)
drop-take zero w k xs h = ap (λ z. take z xs) (omega arith)
drop-take (suc r) zero k xs h = absurd (omega arith)
drop-take (suc r) (suc w) k [] h = sym (take_nil k)
drop-take (suc r) (suc w) k (x ∷ xs) h = drop-take r w k xs (omega arith)

pub take-take : (m n : ℕ) (xs : Bytes) → m ≤ n → take m (take n xs) ≡ take m xs
take-take zero n xs h = refl
take-take (suc m) zero xs h = absurd (omega arith)
take-take (suc m) (suc n) [] h = refl
take-take (suc m) (suc n) (x ∷ xs) h = ap (◌∷◌ x) (take-take m n xs (omega arith))

-- The bytes from `r` to `w`.
abbrev pub slice : ℕ → ℕ → Bytes → Bytes
slice r w xs = take (w - r) (drop r xs)

pub slice-copy_to :
    (r w : ℕ) (source xs : Bytes)
    → r ≤ w
    → w ≤ length xs
    → slice r (w + length source) (copy_to w source xs) ≡ slice r w xs ++ source
slice-copy_to r w source xs h k =
    ap (take (w + length source - r)) (
      drop-append_le r (take w xs) _ (omega (arith, length-take w xs))
      ∙ ap (λ z. z ++ (source ++ drop (w + length source) xs))
          (drop-take r w (w - r) xs (omega arith)))
    ∙ ap (take (w + length source - r))
        (sym (append_assoc (slice r w xs) source (drop (w + length source) xs)))
    ∙ take-append (slice r w xs ++ source) _ _ (
        omega (
          arith,
          length-append (slice r w xs) source,
          length-take (w - r) (drop r xs),
          length-drop r xs,
        ))

pub length-copy_to :
    (i : ℕ) (source xs : Bytes)
    → i + length source ≤ length xs
    → length (copy_to i source xs) ≡ length xs
length-copy_to i source xs h = omega (
  arith,
  length-append (take i xs) (source ++ drop (i + length source) xs),
  length-append source (drop (i + length source) xs),
  length-take i xs,
  length-drop (i + length source) xs,
)

pub length-resize : (n : ℕ) (xs : Bytes) → length (resize n xs) ≡ n
length-resize n xs = omega (
  arith,
  length-append (take n xs) (replicate (n - length xs) 0),
  length-take n xs,
  length-replicate {A = ℕ} (n - length xs) 0,
)

pub slice-append :
    (r w : ℕ) (xs ys : Bytes) → r ≤ w → w ≤ length xs → slice r w (xs ++ ys) ≡ slice r w xs
slice-append r w xs ys h k =
    ap (take (w - r)) (drop-append_le r xs ys (omega arith))
    ∙ take-append_le (w - r) (drop r xs) ys (omega (arith, length-drop r xs))

pub drop-drop : (m n k : ℕ) (xs : Bytes) → m + n ≡ k → drop k xs ≡ drop n (drop m xs)
drop-drop zero n k xs h = ap (λ z. drop z xs) (omega arith)
drop-drop (suc m) n zero xs h = absurd (omega arith)
drop-drop (suc m) n (suc k) [] h = sym (drop_nil n)
drop-drop (suc m) n (suc k) (x ∷ xs) h = drop-drop m n k xs (omega arith)

pub drop_all : (n : ℕ) (xs : Bytes) → length xs ≤ n → ◌≡◌ {A = Bytes} (drop n xs) []
drop_all zero [] h = refl
drop_all zero (x ∷ xs) h = absurd (omega arith)
drop_all (suc n) [] h = refl
drop_all (suc n) (x ∷ xs) h = drop_all n xs (omega arith)
