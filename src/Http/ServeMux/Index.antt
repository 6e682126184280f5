-- ===== src/Http/ServeMux/Index.antt =====
-- The list of prefixes is an index of the table of handlers.
use altas.Prelude.{
  not, ◌&&◌, subst, ℕ, ◌≡◌, ◌≤◌, refl, sym, ap, ◌∙◌, ◌⊎◌, inl, inr, Bool, true, false, Bool-cases,
  Option-cases, List, [], ◌∷◌, Option, none, some, Bytes, is_empty, length, if◌then◌else◌, ltb,
  arith, bytes_eq, bytes_eq_iff, bytes_eq_refl,
}
use altas.OrdMap.{OrdMap, find, insert}
use altas.OrdMap.Laws.{find-insert}
use altas.Http.ServeMux.{
  Func, FuncEntry, ServeMux, insert_prefix, ends_in_slash, add_entry, set_handler,
}

pub true-false : true ≡ false → ⊥
true-false e = cc

abbrev pub is_none : {A : Type 0} → Option A → Bool
is_none none = true
is_none (some a) = false

-- Every pattern of the list has at most `n` bytes.
abbrev pub AtMost : ℕ → List FuncEntry → Type 0
AtMost n [] = Unit {0}
AtMost n (i ∷ rest) = (length i.pattern ≤ n) × AtMost n rest

-- The prefixes stand in the order of their lengths, the longest first.
abbrev pub IsDescending : List FuncEntry → Type 0
IsDescending [] = Unit {0}
IsDescending (i ∷ rest) = AtMost (length i.pattern) rest × IsDescending rest

abbrev pub Mem : FuncEntry → List FuncEntry → Type 0
Mem e [] = ⊥
Mem e (i ∷ rest) = (e ≡ i) ⊎ Mem e rest

AtMost-weaken : (m n : ℕ) (l : List FuncEntry) → m ≤ n → AtMost m l → AtMost n l
AtMost-weaken m n [] h a = tt
AtMost-weaken m n (i ∷ l) h (p, a) = (omega arith, AtMost-weaken m n l h a)

insert_prefix-AtMost :
    (n : ℕ) (e : FuncEntry) (l : List FuncEntry)
    → length e.pattern ≤ n
    → AtMost n l
    → AtMost n (insert_prefix e l)
unfolding insert_prefix
insert_prefix-AtMost n e [] h a = (h, tt)
insert_prefix-AtMost n e (i ∷ l) h (p, a) =
    elim (Bool-cases (ltb (length i.pattern) (length e.pattern))) [
      | inl q ↦ rw q (h, (p, a))
      | inr q ↦ rw q (p, insert_prefix-AtMost n e l h a)
    ]

insert_prefix-IsDescending :
    (e : FuncEntry) (l : List FuncEntry) → IsDescending l → IsDescending (insert_prefix e l)
unfolding insert_prefix
insert_prefix-IsDescending e [] d = (tt, tt)
insert_prefix-IsDescending e (i ∷ l) (a, d) =
    elim (Bool-cases (ltb (length i.pattern) (length e.pattern))) [
      | inl q ↦ rw q ((ground arith, AtMost-weaken _ _ l (ground arith) a), (a, d))
      | inr q ↦ rw q (insert_prefix-AtMost _ e l (ground arith) a, insert_prefix-IsDescending e l d)
    ]

-- Each prefix is a pattern of `funcs` that ends in a slash.
abbrev pub IsListed : OrdMap FuncEntry → List FuncEntry → Type 0
IsListed m [] = Unit {0}
IsListed m (i ∷ rest) =
    (find i.pattern m ≡ some i) × (ends_in_slash i.pattern ≡ true) × IsListed m rest

-- Each pattern of `funcs` stands under itself, and among the prefixes if it ends in a slash.
abbrev pub IsIndexed : OrdMap FuncEntry → List FuncEntry → Type 0
IsIndexed m l =
    (k : Bytes) (e : FuncEntry)
    → find k m ≡ some e
    → (e.pattern ≡ k) × (ends_in_slash k ≡ true → Mem e l)

-- What the operations keep.
abbrev pub IsMux : ServeMux → Type 0
IsMux mux =
    IsDescending mux.prefix_funcs
    × IsListed mux.funcs mux.prefix_funcs
    × IsIndexed mux.funcs mux.prefix_funcs

IsListed-insert :
    (k : Bytes) (e : FuncEntry) (m : OrdMap FuncEntry) (l : List FuncEntry)
    → find k m ≡ none
    → IsListed m l
    → IsListed (insert k e m) l
IsListed-insert k e m [] n a = tt
IsListed-insert k e m (i ∷ l) n (p, r, a) = (
  ground (arith, find-insert k i.pattern e m, bytes_eq_iff k i.pattern),
  r,
  IsListed-insert k e m l n a,
)

IsListed-insert_prefix :
    (m : OrdMap FuncEntry) (e : FuncEntry) (l : List FuncEntry)
    → find e.pattern m ≡ some e
    → ends_in_slash e.pattern ≡ true
    → IsListed m l
    → IsListed m (insert_prefix e l)
unfolding insert_prefix
IsListed-insert_prefix m e [] f s a = (f, s, tt)
IsListed-insert_prefix m e (i ∷ l) f s (p, r, a) =
    elim (Bool-cases (ltb (length i.pattern) (length e.pattern))) [
      | inl q ↦ rw q (f, s, (p, r, a))
      | inr q ↦ rw q (p, r, IsListed-insert_prefix m e l f s a)
    ]

Mem-insert_prefix :
    (d e : FuncEntry) (l : List FuncEntry) → (d ≡ e) ⊎ Mem d l → Mem d (insert_prefix e l)
unfolding insert_prefix
Mem-insert_prefix d e [] h = h
Mem-insert_prefix d e (i ∷ l) h = elim (Bool-cases (ltb (length i.pattern) (length e.pattern))) [
  | inl q ↦ rw q h
  | inr q ↦ rw q (elim h [
    | inl a ↦ inr (Mem-insert_prefix d e l (inl a))
    | inr (inl b) ↦ inl b
    | inr (inr c) ↦ inr (Mem-insert_prefix d e l (inr c))
  ])
]

-- The prefixes after a new pattern.
abbrev prefixes_after : FuncEntry → List FuncEntry → List FuncEntry
prefixes_after e l = if ends_in_slash e.pattern then insert_prefix e l else l

Mem-prefixes_after : (d e : FuncEntry) (l : List FuncEntry) → Mem d l → Mem d (prefixes_after e l)
Mem-prefixes_after d e l h = elim (Bool-cases (ends_in_slash e.pattern)) [
  | inl q ↦ rw q (Mem-insert_prefix d e l (inr h))
  | inr q ↦ rw q h
]

Mem-own :
    (e : FuncEntry) (l : List FuncEntry)
    → ends_in_slash e.pattern ≡ true
    → Mem e (prefixes_after e l)
Mem-own e l q = rw q (Mem-insert_prefix e e l (inl refl))

IsIndexed-insert :
    (e : FuncEntry) (m : OrdMap FuncEntry) (l : List FuncEntry)
    → IsIndexed m l
    → IsIndexed (insert e.pattern e m) (prefixes_after e l)
IsIndexed-insert e m l h k d f = elim (Bool-cases (bytes_eq e.pattern k)) [
  | inl q ↦
      let same : e ≡ d = ground (arith, find-insert e.pattern k e m) in
      let key : e.pattern ≡ k = (bytes_eq_iff e.pattern k).0 q in
      (
        ap (λ z. z.pattern) (sym same) ∙ key,
        λ s. subst (λ z. Mem z (prefixes_after e l)) same (Mem-own e l (ap ends_in_slash key ∙ s)),
      )
  | inr q ↦
      let old : find k m ≡ some d = ground (arith, find-insert e.pattern k e m) in
      ((h k d old).0, λ s. Mem-prefixes_after d e l ((h k d old).1 s))
]

add_entry-IsMux :
    (e : FuncEntry) (mux : ServeMux)
    → find e.pattern mux.funcs ≡ none
    → IsMux mux
    → IsMux (add_entry e mux)
unfolding add_entry
add_entry-IsMux e mux n (d, l, i) = (
  elim (Bool-cases (ends_in_slash e.pattern)) [
    | inl q ↦ rw q (insert_prefix-IsDescending e mux.prefix_funcs d)
    | inr q ↦ rw q d
  ],
  elim (Bool-cases (ends_in_slash e.pattern)) [
    | inl q ↦ rw q (
        IsListed-insert_prefix _ e mux.prefix_funcs
          (ground (arith, find-insert e.pattern e.pattern e mux.funcs, bytes_eq_refl e.pattern)) q
          (IsListed-insert e.pattern e mux.funcs mux.prefix_funcs n l))
    | inr q ↦ rw q (IsListed-insert e.pattern e mux.funcs mux.prefix_funcs n l)
  ],
  IsIndexed-insert e mux.funcs mux.prefix_funcs i,
)

-- Setting a handler keeps the prefixes in the order of their lengths, the longest first, and keeps
-- them the patterns of the map that end in a slash, each with its own handler.
pub set_handler-IsMux :
    (pattern : Bytes) (func : Func) (mux : ServeMux)
    → IsMux mux
    → IsMux (set_handler pattern func mux)
unfolding set_handler
set_handler-IsMux pattern func mux h = elim (Bool-cases (is_empty pattern)) [
  | inl q ↦ rw (q, set_handler) h
  | inr q ↦ elim (Option-cases (find pattern mux.funcs)) [
    | inr (e, f) ↦ rw (q, f, set_handler) h
    | inl n ↦ rw (q, n, set_handler) (add_entry-IsMux _ mux n h)
  ]
]

-- Setting a handler registers it under a pattern that is not empty and has none yet, and leaves
-- every other pattern as it was; an empty pattern, or one that has a handler, registers nothing.
pub find-set_handler :
    (pattern k : Bytes) (func : Func) (mux : ServeMux)
    → find k (set_handler pattern func mux).funcs ≡ (
        if bytes_eq pattern k && (not (is_empty pattern) && is_none (find pattern mux.funcs))
        then some (record { pattern = pattern; fn = func })
        else find k mux.funcs)
unfolding set_handler add_entry
find-set_handler pattern k func mux =
    ground (arith, find-insert pattern k (record { pattern = pattern; fn = func }) mux.funcs)
