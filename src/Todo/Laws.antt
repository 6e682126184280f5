-- ===== src/Todo/Laws.antt =====
-- The items as a map from identities to texts.
use altas.Prelude.{
  ℕ, ◌+◌, ◌≡◌, ◌≤◌, ◌<◌, refl, inl, inr, false, Bool-cases, [], ◌∷◌, ◌++◌, Option, none, some,
  Bytes, if◌then◌else◌, ◌==◌, arith,
}
use altas.Todo.{Item, ItemList, Data, int_max, fetch_add, get_next_id, find, erase, change_text}

abbrev pub text_of : ℕ → ItemList → Option Bytes
text_of id items = elim (find id items) [ none ↦ none | some item ↦ some item.text ]

-- Every identity is positive, below `n`, and the only one of its kind.
abbrev pub IsList : ℕ → ItemList → Type 0
IsList n [] = Unit {0}
IsList n (item ∷ items) =
    (0 < item.id) × (item.id < n) × (find item.id items ≡ none) × IsList n items

-- The identity that the next item gets.
abbrev pub fresh : Data → ℕ
fresh d = if d.next_id == 0 then 1 else d.next_id

abbrev pub IsData : Data → Type 0
IsData d = IsList (fresh d) d.items

pub get_next_id_lem :
    (d : Data) → fresh d < int_max → get_next_id d ≡ (fresh d, record d { next_id = fresh d + 1 })
unfolding get_next_id fetch_add
get_next_id_lem d h = ground arith

-- A change of a map at one place.
abbrev pub put : ℕ → Option Bytes → (ℕ → Option Bytes) → ℕ → Option Bytes
put id text m j = if id == j then text else m j

-- A text in place of another.
abbrev pub replaced : Bytes → Option Bytes → Option Bytes
replaced text none = none
replaced text (some old) = some text

find-fresh : (n j : ℕ) (items : ItemList) → IsList n items → n ≤ j → find j items ≡ none
unfolding find
find-fresh n j [] h l = refl
find-fresh n j (item ∷ items) (p, b, f, h) l =
    let e : (item.id == j) ≡ false = ground arith in rw e (find-fresh n j items h l)

pub text_of-append :
    (n : ℕ) (items : ItemList) (item : Item) (j : ℕ)
    → IsList n items
    → item.id ≡ n
    → text_of j (items ++ item ∷ []) ≡ put item.id (some item.text) (λ k. text_of k items) j
unfolding find
text_of-append n [] item j h e = ground arith
text_of-append n (i ∷ items) item j (p, b, f, h) e =
    ground (arith, text_of-append n items item j h e)

pub text_of-change_text :
    (id : ℕ) (text : Bytes) (items : ItemList) (j : ℕ)
    → text_of j (change_text id text items)
      ≡ put id (replaced text (text_of id items)) (λ k. text_of k items) j
unfolding find change_text
text_of-change_text id text [] j = ground arith
text_of-change_text id text (i ∷ items) j = ground (arith, text_of-change_text id text items j)

pub text_of-erase :
    (n id : ℕ) (items : ItemList) (j : ℕ)
    → IsList n items
    → text_of j (erase id items) ≡ put id none (λ k. text_of k items) j
unfolding find erase
text_of-erase n id [] j h = ground arith
text_of-erase n id (i ∷ items) j (p, b, f, h) = ground (arith, f, text_of-erase n id items j h)

find-append_none :
    (j : ℕ) (items : ItemList) (item : Item)
    → find j items ≡ none
    → (item.id == j) ≡ false
    → find j (items ++ item ∷ []) ≡ none
unfolding find
find-append_none j [] item e f = rw f refl
find-append_none j (i ∷ items) item e f = ground (arith, find-append_none j items item)

pub IsList-append :
    (n : ℕ) (items : ItemList) (item : Item)
    → 0 < n
    → IsList n items
    → item.id ≡ n
    → IsList (n + 1) (items ++ item ∷ [])
unfolding find
IsList-append n [] item p h e = (omega arith, omega arith, refl, tt)
IsList-append n (i ∷ items) item p (q, b, f, h) e = (
  q,
  omega arith,
  find-append_none i.id items item f (ground arith),
  IsList-append n items item p h e,
)

find-change_text-none :
    (j id : ℕ) (text : Bytes) (items : ItemList)
    → find j items ≡ none
    → find j (change_text id text items) ≡ none
unfolding find change_text
find-change_text-none j id text [] e = refl
find-change_text-none j id text (i ∷ items) e =
    ground (arith, find-change_text-none j id text items)

pub IsList-change_text :
    (n id : ℕ) (text : Bytes) (items : ItemList)
    → IsList n items
    → IsList n (change_text id text items)
unfolding find change_text
IsList-change_text n id text [] h = tt
IsList-change_text n id text (i ∷ items) (p, b, f, h) = elim (Bool-cases (i.id == id)) [
  | inl e ↦ rw e (p, b, f, h)
  | inr e ↦
      rw e (p, b, find-change_text-none i.id id text items f, IsList-change_text n id text items h)
]

find-erase-none :
    (j id : ℕ) (items : ItemList) → find j items ≡ none → find j (erase id items) ≡ none
unfolding find erase
find-erase-none j id [] e = refl
find-erase-none j id (i ∷ items) e = ground (arith, find-erase-none j id items)

pub IsList-erase : (n id : ℕ) (items : ItemList) → IsList n items → IsList n (erase id items)
unfolding erase
IsList-erase n id [] h = tt
IsList-erase n id (i ∷ items) (p, b, f, h) = elim (Bool-cases (i.id == id)) [
  | inl e ↦ rw e h
  | inr e ↦ rw e (p, b, find-erase-none i.id id items f, IsList-erase n id items h)
]
