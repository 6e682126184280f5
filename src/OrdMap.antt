-- ===== src/OrdMap.antt =====
-- `std::map<std::string, V>` as the list of its entries in key order, which is the order of
-- iteration.
pub mod Laws
use altas.Prelude.{
  ◌≡◌, Bytes, Bool, true, false, List, [], ◌∷◌, Option, none, some, Ordering, if◌then◌else◌,
  bytes_eq, lex_compare,
}

abbrev pub OrdMap {ℓ} : Type ℓ → Type ℓ
OrdMap V = List (Bytes × V)

module _ {ℓ} {V : Type ℓ} where
  -- `find(k)`, where `none` is `end()`.
  unfoldable pub find : Bytes → OrdMap V → Option V
  find k [] = none
  find k ((j, w) ∷ m) = if bytes_eq j k then some w else find k m

  -- `m[k] = v`
  unfoldable pub insert : Bytes → V → OrdMap V → OrdMap V
  insert k v [] = (k, v) ∷ []
  insert k v ((j, w) ∷ m) = elim (lex_compare k j) [
    | Ordering.lt ↦ (k, v) ∷ (j, w) ∷ m
    | Ordering.eq ↦ (k, v) ∷ m
    | Ordering.gt ↦ (j, w) ∷ insert k v m
  ]

  -- `erase(k)`. A key stands in the map once.
  unfoldable pub erase : Bytes → OrdMap V → OrdMap V
  erase k [] = []
  erase k ((j, w) ∷ m) = if bytes_eq j k then erase k m else (j, w) ∷ erase k m

  -- Every key of the map stands after `k`.
  abbrev pub Above : Bytes → OrdMap V → Type 0
  Above k [] = Unit {0}
  Above k ((j, w) ∷ m) = (lex_compare k j ≡ Ordering.lt) × Above k m

  abbrev pub IsSorted : OrdMap V → Type 0
  IsSorted [] = Unit {0}
  IsSorted ((k, v) ∷ m) = Above k m × IsSorted m
