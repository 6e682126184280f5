-- ===== src/OrdMap/Laws.antt =====
-- Lookups after an update, and the key order.
use altas.Prelude.{
  Bytes, false, List, [], ◌∷◌, ◌++◌, none, some, Ordering, if◌then◌else◌, bytes_eq, ◌≡◌, refl,
  lex_compare, bytes_eq_iff, bytes_eq_refl, lex_compare-eq, lex_compare_gt, lex_compare_flip,
  lex_compare_trans, lex_compare_refl, arith, ap, append-nil, append_assoc, ◌∙◌, ◌≢◌, inl, inr,
  Bool-cases,
}
use altas.OrdMap.{OrdMap, find, insert, erase, Above, IsSorted}

bytes_eq-false : (k j : Bytes) → lex_compare k j ≢ Ordering.eq → bytes_eq k j ≡ false
bytes_eq-false k j h = elim (Bool-cases (bytes_eq k j)) [
  | inl e ↦ absurd (h (rw ((bytes_eq_iff k j).0 e) (lex_compare_refl j)))
  | inr e ↦ e
]

module _ {ℓ} {V : Type ℓ} where
  pub find-insert :
      (k j : Bytes) (v : V) (m : OrdMap V)
      → find j (insert k v m) ≡ (if bytes_eq k j then some v else find j m)
  unfolding find insert
  find-insert k j v [] = refl
  find-insert k j v ((i, w) ∷ m) = ground (
    arith,
    bytes_eq_iff k j,
    bytes_eq_iff i j,
    bytes_eq_refl j,
    lex_compare-eq k i,
    lex_compare_refl j,
    find-insert k j v m,
  )

  pub find-erase :
      (k j : Bytes) (m : OrdMap V) → find j (erase k m) ≡ (if bytes_eq k j then none else find j m)
  unfolding find erase
  find-erase k j [] = ground arith
  find-erase k j ((i, w) ∷ m) = ground (
    arith,
    bytes_eq_iff k j,
    bytes_eq_iff i j,
    bytes_eq_iff i k,
    bytes_eq_refl j,
    find-erase k j m,
  )

  Above-trans : (k j : Bytes) (m : OrdMap V) → lex_compare k j ≡ Ordering.lt → Above j m → Above k m
  Above-trans k j [] h a = tt
  Above-trans k j ((i, w) ∷ m) h (b, a) = (lex_compare_trans k j i h b, Above-trans k j m h a)

  Above-insert :
      (i k : Bytes) (v : V) (m : OrdMap V)
      → lex_compare i k ≡ Ordering.lt
      → Above i m
      → Above i (insert k v m)
  unfolding insert
  Above-insert i k v [] h a = (h, tt)
  Above-insert i k v ((j, w) ∷ m) h (b, a) = ground (arith, Above-insert i k v m h a)

  pub insert-IsSorted : (k : Bytes) (v : V) (m : OrdMap V) → IsSorted m → IsSorted (insert k v m)
  unfolding insert
  insert-IsSorted k v [] s = (tt, tt)
  insert-IsSorted k v ((j, w) ∷ m) (a, s) = ground (
    arith,
    Above-trans k j m,
    lex_compare-eq k j,
    lex_compare_gt k j,
    Above-insert j k v m,
    insert-IsSorted k v m s,
  )

  Above-erase : (i k : Bytes) (m : OrdMap V) → Above i m → Above i (erase k m)
  unfolding erase
  Above-erase i k [] a = tt
  Above-erase i k ((j, w) ∷ m) (b, a) = ground (arith, Above-erase i k m a)

  pub erase-IsSorted : (k : Bytes) (m : OrdMap V) → IsSorted m → IsSorted (erase k m)
  unfolding erase
  erase-IsSorted k [] s = tt
  erase-IsSorted k ((j, w) ∷ m) (a, s) = ground (arith, Above-erase j k m a, erase-IsSorted k m s)

  -- Insertion of entries one after the other.
  abbrev pub insert_all : OrdMap V → List (Bytes × V) → OrdMap V
  insert_all acc [] = acc
  insert_all acc ((k, v) ∷ m) = insert_all (insert k v acc) m

  Above-mid :
      (j k : Bytes) (v : V) (xs ys : OrdMap V)
      → Above j (xs ++ (k, v) ∷ ys)
      → lex_compare j k ≡ Ordering.lt
  Above-mid j k v [] ys a = a.0
  Above-mid j k v ((i, w) ∷ xs) ys a = Above-mid j k v xs ys a.1

  pub insert_last :
      (k : Bytes) (v : V) (xs ys : OrdMap V)
      → IsSorted (xs ++ (k, v) ∷ ys)
      → insert k v xs ≡ xs ++ (k, v) ∷ []
  unfolding insert
  insert_last k v [] ys s = refl
  insert_last k v ((j, w) ∷ xs) ys (a, s) =
      rw (lex_compare_flip j k (Above-mid j k v xs ys a), insert)
        (ap (◌∷◌ (j, w)) (insert_last k v xs ys s))

  -- The entries of a map, inserted in order, give the map.
  pub insert_all-append : (xs ys : OrdMap V) → IsSorted (xs ++ ys) → insert_all xs ys ≡ xs ++ ys
  insert_all-append xs [] s = rw append-nil
  insert_all-append xs ((k, v) ∷ ys) s =
      let e = append_assoc xs ((k, v) ∷ []) ys in
      rw (insert_last k v xs ys s) (insert_all-append (xs ++ (k, v) ∷ []) ys (rw e s) ∙ e)
