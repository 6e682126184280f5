-- ===== src/Prelude/Text.antt =====
-- Byte strings: `std::string` and `string_view` as the list of their bytes, each below 256.
use Prim.Native.Char.{code}
use Prim.Native.String.{String}
use Prim.Native.Nat.{ℕ, ◌+◌, compare, Ordering}
use mathlib.Core.Path.{◌≡◌, refl}
use mathlib.Core.Logic.{◌↔◌}
use mathlib.Core.Bool.{Bool, true, false, ◌&&◌}
use mathlib.Core.List.{List, [], ◌∷◌, ◌++◌}
use native.Mathlib.Omega.{arith}
use mathlib.Core.Logic.{◌≢◌}
use altas.Prelude.Lists.{length}
use altas.Prelude.Tests.{◌==◌, if◌then◌else◌}

abbrev pub Bytes : Type 0
Bytes = List ℕ

-- The bytes of an ASCII literal.
abbrev pub codes : String → Bytes
codes String.[] = []
codes (String.◌∷◌ c s) = code c ∷ codes s

abbrev pub is_empty {ℓ} : {A : Type ℓ} → List A → Bool
is_empty [] = true
is_empty (x ∷ xs) = false

-- `operator==` of two strings.
unfoldable pub bytes_eq : Bytes → Bytes → Bool
bytes_eq [] [] = true
bytes_eq [] (y ∷ ys) = false
bytes_eq (x ∷ xs) [] = false
bytes_eq (x ∷ xs) (y ∷ ys) = x == y && bytes_eq xs ys

pub bytes_eq_sound : (xs ys : Bytes) → bytes_eq xs ys ≡ true → xs ≡ ys
unfolding bytes_eq
bytes_eq_sound [] [] h = refl
bytes_eq_sound [] (y ∷ ys) h = cc
bytes_eq_sound (x ∷ xs) [] h = cc
bytes_eq_sound (x ∷ xs) (y ∷ ys) h = ground (arith, bytes_eq_sound xs ys)

pub bytes_eq_refl : (xs : Bytes) → bytes_eq xs xs ≡ true
unfolding bytes_eq
bytes_eq_refl [] = refl
bytes_eq_refl (x ∷ xs) = ground (arith, bytes_eq_refl xs)

pub bytes_eq_iff : (xs ys : Bytes) → (bytes_eq xs ys ≡ true) ↔ (xs ≡ ys)
bytes_eq_iff xs ys = (bytes_eq_sound xs ys, λ e. rw e (bytes_eq_refl ys))

-- The order of `std::string`: bytewise, a proper prefix first.
unfoldable pub lex_compare : Bytes → Bytes → Ordering
lex_compare [] [] = Ordering.eq
lex_compare [] (y ∷ ys) = Ordering.lt
lex_compare (x ∷ xs) [] = Ordering.gt
lex_compare (x ∷ xs) (y ∷ ys) = elim (compare x y) [
  | Ordering.lt ↦ Ordering.lt
  | Ordering.eq ↦ lex_compare xs ys
  | Ordering.gt ↦ Ordering.gt
]

pub lex_compare-eq : (xs ys : Bytes) → lex_compare xs ys ≡ Ordering.eq → xs ≡ ys
unfolding lex_compare
lex_compare-eq [] [] h = refl
lex_compare-eq [] (y ∷ ys) h = cc
lex_compare-eq (x ∷ xs) [] h = cc
lex_compare-eq (x ∷ xs) (y ∷ ys) h = ground (arith, lex_compare-eq xs ys)

pub lex_compare_refl : (xs : Bytes) → lex_compare xs xs ≡ Ordering.eq
unfolding lex_compare
lex_compare_refl [] = refl
lex_compare_refl (x ∷ xs) = ground (arith, lex_compare_refl xs)

pub lex_compare_trans :
    (xs ys zs : Bytes)
    → lex_compare xs ys ≡ Ordering.lt
    → lex_compare ys zs ≡ Ordering.lt
    → lex_compare xs zs ≡ Ordering.lt
unfolding lex_compare
lex_compare_trans [] [] zs h k = cc
lex_compare_trans [] (y ∷ ys) [] h k = cc
lex_compare_trans [] (y ∷ ys) (z ∷ zs) h k = refl
lex_compare_trans (x ∷ xs) [] zs h k = cc
lex_compare_trans (x ∷ xs) (y ∷ ys) [] h k = cc
lex_compare_trans (x ∷ xs) (y ∷ ys) (z ∷ zs) h k = ground (arith, lex_compare_trans xs ys zs)

pub lex_compare_flip :
    (xs ys : Bytes) → lex_compare xs ys ≡ Ordering.lt → lex_compare ys xs ≡ Ordering.gt
unfolding lex_compare
lex_compare_flip [] [] h = cc
lex_compare_flip [] (y ∷ ys) h = refl
lex_compare_flip (x ∷ xs) [] h = cc
lex_compare_flip (x ∷ xs) (y ∷ ys) h = ground (arith, lex_compare_flip xs ys)

pub lex_compare_gt : (k j : Bytes) → lex_compare k j ≡ Ordering.gt → lex_compare j k ≡ Ordering.lt
unfolding lex_compare
lex_compare_gt [] [] h = cc
lex_compare_gt [] (y ∷ ys) h = cc
lex_compare_gt (x ∷ xs) [] h = refl
lex_compare_gt (x ∷ xs) (y ∷ ys) h = ground (arith, lex_compare_gt xs ys)

-- `while (p != end && *p != quota) p++` over the bytes from `p` to `end`: what the loop passes
-- over, and the rest, at `quota` or at the end.
unfoldable pub span_until : ℕ → Bytes → Bytes × Bytes
span_until quota [] = ([], [])
span_until quota (c ∷ cs) =
    let (token, rest) = span_until quota cs in
    if c == quota then ([], c ∷ cs) else (c ∷ token, rest)

-- The byte does not stand in the text.
abbrev pub Free : ℕ → Bytes → Type 0
Free q [] = Unit {0}
Free q (c ∷ cs) = (c ≢ q) × Free q cs

pub span_until-stop :
    (q : ℕ) (t rest : Bytes) → Free q t → span_until q (t ++ q ∷ rest) ≡ (t, q ∷ rest)
unfolding span_until
span_until-stop q [] rest h = ground arith
span_until-stop q (c ∷ t) rest (n, h) = ground (arith, span_until-stop q t rest h)

pub span_until-end : (q : ℕ) (t : Bytes) → Free q t → span_until q t ≡ (t, [])
unfolding span_until
span_until-end q [] h = refl
span_until-end q (c ∷ t) (n, h) = ground (arith, span_until-end q t h)

pub Free-append : (q : ℕ) (s t : Bytes) → Free q s → Free q t → Free q (s ++ t)
Free-append q [] t h k = k
Free-append q (c ∷ s) t (n, h) k = (n, Free-append q s t h k)

pub span_until-length :
    (q : ℕ) (t : Bytes) → length (span_until q t).0 + length (span_until q t).1 ≡ length t
unfolding span_until
span_until-length q [] = refl
span_until-length q (c ∷ t) = ground (arith, span_until-length q t)
