-- ===== src/Adv/Env/Laws.antt =====
-- The counts of the objects that the environment holds.
use altas.Prelude.{
  change, subst, ℕ, ◌+◌, ◌-◌, ◌≡◌, ◌<◌, refl, ap, ◌∙◌, ◌⊎◌, inl, inr, Bool, true, false, Bool-cases,
  Option-cases, [], ◌∷◌, Option, none, some, Bytes, if◌then◌else◌, ◌==◌, arith, bytes_eq,
  bytes_eq_refl, bytes_eq_iff, lex_compare_refl, lex_compare-eq,
}
use altas.OrdMap.{OrdMap, find, insert, erase, Above, IsSorted}
use altas.OrdMap.Laws.{insert-IsSorted, erase-IsSorted}
use altas.Adv.Env.{
  Name, Object, ObjectEnv, add_ref_manually, release, given, insert_named, insert_object,
  remove_found, remove_named, remove_object, get_found, get_named, get_object, release_object,
}

-- How often a pointer stands in the table.
unfoldable pub uses : ℕ → OrdMap ℕ → ℕ
uses p [] = 0
uses p ((k, q) ∷ m) = (if q == p then 1 else 0) + uses p m

uses-insert :
    (p q : ℕ) (k : Bytes) (m : OrdMap ℕ)
    → find k m ≡ none
    → uses p (insert k q m) ≡ (if q == p then 1 else 0) + uses p m
unfolding uses find insert
uses-insert p q k [] h = refl
uses-insert p q k ((j, r) ∷ m) h =
    ground (arith, uses-insert p q k m, bytes_eq_iff j k, bytes_eq_refl k, lex_compare-eq k j)

erase-Above : (k : Bytes) (m : OrdMap ℕ) → Above k m → erase k m ≡ m
unfolding erase
erase-Above k [] a = refl
erase-Above k ((j, r) ∷ m) (l, a) =
    ground (arith, erase-Above k m a, bytes_eq_iff j k, lex_compare_refl k)

uses-erase :
    (p q : ℕ) (k : Bytes) (m : OrdMap ℕ)
    → IsSorted m
    → find k m ≡ some q
    → uses p m ≡ (if q == p then 1 else 0) + uses p (erase k m)
unfolding uses find erase
uses-erase p q k [] s h = absurd cc
uses-erase p q k ((j, r) ∷ m) (a, s) h = elim (Bool-cases (bytes_eq j k)) [
  | inl e ↦ ground (arith, erase-Above k m (subst (λ z. Above z m) ((bytes_eq_iff j k).0 e) a))
  | inr e ↦ ground (arith, uses-erase p q k m s)
]

-- The object has this count, and was not deleted unless the count is 0.
abbrev pub HasCount : ℕ → Object → Type 0
HasCount n o = (o.nref ≡ n) × ((n ≡ 0) ⊎ (o.alive ≡ true))

-- Each object's count is the number of its holders and of its entries in the table, and an object
-- that is held or in the table was not deleted.
abbrev pub IsCounted : (ℕ → ℕ) → ObjectEnv → Type 0
IsCounted held env =
    IsSorted env.objs × ((p : ℕ) → HasCount (held p + uses p env.objs) (env.heap p))

abbrev one_if : Bool → ℕ
one_if b = if b then 1 else 0

added :
    (p q n k : ℕ) (heap : ℕ → Object)
    → (heap p).alive ≡ true
    → HasCount n (heap q)
    → k ≡ one_if (p == q) + n
    → HasCount k (change p add_ref_manually heap q)
unfolding change add_ref_manually
added p q n k heap l (a, b) e = elim (Bool-cases (p == q)) [
  | inl t ↦ rw t (ground arith, inr (ap (λ z. (heap z).alive) (ground arith) ∙ l))
  | inr f ↦ ground arith
]

released :
    (p q n k : ℕ) (heap : ℕ → Object)
    → HasCount n (heap q)
    → n ≡ one_if (p == q) + k
    → HasCount k (change p release heap q)
unfolding change release
released p q n k heap (a, b) e = ground arith

-- One more or one less that holds the object.
abbrev pub more : ℕ → (ℕ → ℕ) → ℕ → ℕ
more p held q = if p == q then held q + 1 else held q

abbrev pub fewer : ℕ → (ℕ → ℕ) → ℕ → ℕ
fewer p held q = if p == q then held q - 1 else held q

-- Whoever asks for an object holds it, if there is one.
abbrev pub held_after : Option ℕ → (ℕ → ℕ) → ℕ → ℕ
held_after none held = held
held_after (some p) held = more p held

module _ (held : ℕ → ℕ) where
  insert_named-IsCounted :
      (p : ℕ) (n : Option Bytes) (env : ObjectEnv)
      → (env.heap p).alive ≡ true
      → IsCounted held env
      → IsCounted held (insert_named p n env).1
  unfolding insert_named
  insert_named-IsCounted p none env l h = h
  insert_named-IsCounted p (some name) env l (s, h) = elim (Option-cases (find name env.objs)) [
    | inr (q, e) ↦ rw (e, insert_named) (s, h)
    | inl e ↦
        rw (e, insert_named)
          (
            insert-IsSorted name p env.objs s,
            λ q.
                added p q (held q + uses q env.objs) _ env.heap l (h q)
                  (omega (arith, uses-insert q p name env.objs e)),
          )
  ]

  remove_named-IsCounted :
      (n : Option Bytes) (env : ObjectEnv)
      → IsCounted held env
      → IsCounted held (remove_named n env)
  unfolding remove_named remove_found
  remove_named-IsCounted none env h = h
  remove_named-IsCounted (some name) env (s, h) = elim (Option-cases (find name env.objs)) [
    | inl e ↦ rw (e, remove_found) (s, h)
    | inr (p, e) ↦
        rw (e, remove_found)
          (
            erase-IsSorted name env.objs s,
            λ q.
                released p q (held q + uses q env.objs) _ env.heap (h q)
                  (omega (arith, uses-erase q p name env.objs s e)),
          )
  ]

uses-pos : (p : ℕ) (k : Bytes) (m : OrdMap ℕ) → find k m ≡ some p → 0 < uses p m
unfolding uses find
uses-pos p k [] h = absurd cc
uses-pos p k ((j, r) ∷ m) h = ground (arith, uses-pos p k m)

get_named-IsCounted :
    (held : ℕ → ℕ) (n : Option Bytes) (env : ObjectEnv)
    → IsCounted held env
    → IsCounted (held_after (get_named n env).1 held) (get_named n env).2
unfolding get_named get_found
get_named-IsCounted held none env h = h
get_named-IsCounted held (some name) env (s, h) = elim (Option-cases (find name env.objs)) [
  | inl e ↦ rw (e, get_found) (s, h)
  | inr (p, e) ↦
      let l : (env.heap p).alive ≡ true = ground (arith, uses-pos p name env.objs e, h p) in
      rw (e, get_found)
        (s, λ q. added p q (held q + uses q env.objs) _ env.heap l (h q) (ground arith))
]

-- Runs of the operations: an object that was not deleted is inserted, a name is removed, a name is
-- asked for, or one that holds an object releases it.
pub data Steps : (ℕ → ℕ) → ObjectEnv → (ℕ → ℕ) → ObjectEnv → Type 0 where
  stop : {held : ℕ → ℕ} {env : ObjectEnv} → Steps held env held env
  inserts :
      {held later : ℕ → ℕ} {env last : ObjectEnv} (p : ℕ)
      → (env.heap p).alive ≡ true
      → Steps held (insert_object (some p) env).1 later last
      → Steps held env later last
  removes :
      {held later : ℕ → ℕ} {env last : ObjectEnv} (name : Name)
      → Steps held (remove_object name env) later last
      → Steps held env later last
  gets :
      {held later : ℕ → ℕ} {env last : ObjectEnv} (name : Name)
      → Steps (held_after (get_object name env).1 held) (get_object name env).2 later last
      → Steps held env later last
  releases :
      {held later : ℕ → ℕ} {env last : ObjectEnv} (p : ℕ)
      → 0 < held p
      → Steps (fewer p held) (release_object p env) later last
      → Steps held env later last

release_object-IsCounted :
    (held : ℕ → ℕ) (p : ℕ) (env : ObjectEnv)
    → 0 < held p
    → IsCounted held env
    → IsCounted (fewer p held) (release_object p env)
unfolding release_object
release_object-IsCounted held p env l (s, h) = (
  s,
  λ q. released p q (held q + uses q env.objs) _ env.heap (h q) (counts q (Bool-cases (p == q))),
)
  where
    counts :
        (q : ℕ)
        → ((p == q) ≡ true) ⊎ ((p == q) ≡ false)
        → held q + uses q env.objs ≡ one_if (p == q) + (fewer p held q + uses q env.objs)
    counts q (inl t) =
        let e : 0 < held q = subst (λ z. 0 < held z) (ground arith) l in rw t (omega arith)
    counts q (inr f) = rw f (omega arith)

-- Whatever is done to the table of objects, if each object's count is the number of its holders and
-- of its entries in the table, it stays so, and if no object that is held or in the table was deleted,
-- none is.
pub Steps-IsCounted :
    (held later : ℕ → ℕ) (env last : ObjectEnv)
    → Steps held env later last
    → IsCounted held env
    → IsCounted later last
unfolding insert_object remove_object get_object
Steps-IsCounted held later env last stop h = h
Steps-IsCounted held later env last (inserts p l run) h =
    Steps-IsCounted held later _ last run (insert_named-IsCounted held p _ env l h)
Steps-IsCounted held later env last (removes name run) h =
    Steps-IsCounted held later _ last run (remove_named-IsCounted held (given name) env h)
Steps-IsCounted held later env last (gets name run) h =
    Steps-IsCounted _ later _ last run (get_named-IsCounted held (given name) env h)
Steps-IsCounted held later env last (releases p l run) h =
    Steps-IsCounted _ later _ last run (release_object-IsCounted held p env l h)
