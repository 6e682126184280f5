-- ===== src/Prelude/Heap.antt =====
-- Memory as a function of the pointer, and sets of pointers.
use Prim.Native.Nat.{ℕ}
use mathlib.Core.Path.{◌≡◌, refl}
use mathlib.Core.Bool.{Bool, true, false, ◌||◌}
use mathlib.Core.List.{List, [], ◌∷◌}
use native.Mathlib.Omega.{arith}
use altas.Prelude.Tests.{◌==◌, if◌then◌else◌}

unfoldable pub change {ℓ} : {A : Type ℓ} → ℕ → (A → A) → (ℕ → A) → ℕ → A
change p f heap q = if p == q then f (heap q) else heap q

-- A `std::set` of pointers, the order of which is that of the addresses.
unfoldable pub has : ℕ → List ℕ → Bool
has p [] = false
has p (q ∷ qs) = p == q || has p qs

unfoldable pub set_insert : ℕ → List ℕ → List ℕ
set_insert p qs = if has p qs then qs else p ∷ qs

unfoldable pub set_erase : ℕ → List ℕ → List ℕ
set_erase p [] = []
set_erase p (q ∷ qs) = let rest = set_erase p qs in if p == q then rest else q ∷ rest

pub has-set_insert : (p q : ℕ) (qs : List ℕ) → has q (set_insert p qs) ≡ (q == p || has q qs)
unfolding set_insert has
has-set_insert p q qs = ground arith

pub has-set_erase :
    (p q : ℕ) (qs : List ℕ) → has q (set_erase p qs) ≡ (if q == p then false else has q qs)
unfolding set_erase has
has-set_erase p q [] = ground arith
has-set_erase p q (r ∷ qs) = ground (arith, has-set_erase p q qs)

pub change_same {ℓ} :
    {A : Type ℓ} (p : ℕ) (f : A → A) (heap : ℕ → A) → change p f heap p ≡ f (heap p)
unfolding change
change_same p f heap = let e : (p == p) ≡ true = ground arith in rw e refl
