-- ===== src/Adv/PluginLoader/Laws.antt =====
-- How often each shared library is open.
use altas.Prelude.{
  ℕ, ◌+◌, ◌≡◌, ◌<◌, refl, sym, ap, ◌∙◌, inl, inr, Bool-cases, Option-cases, true, List, [], ◌∷◌,
  Option, none, some, Bytes, if◌then◌else◌, ◌==◌, bytes_eq, bytes_eq_iff, lex_compare,
  lex_compare-eq, lex_compare_refl, subst, some_inj, arith,
}
use altas.OrdMap.{OrdMap, find, insert, erase, Above, IsSorted}
use altas.OrdMap.Laws.{insert-IsSorted, erase-IsSorted}
use altas.Adv.Env.{Name, given}
use altas.Adv.PluginLoader.{
  DllLoader, new_loader, get_plugin_path, Dl, opened, load_named, load, unload_named, unload,
  close_all, release,
}

-- 1 for the handle itself.
abbrev pub one : ℕ → ℕ → ℕ
one h j = if h == j then 1 else 0

abbrev pub one_of : Option ℕ → ℕ → ℕ
one_of none j = 0
one_of (some h) j = one h j

abbrev entries : ℕ → OrdMap ℕ → ℕ
entries j [] = 0
entries j ((k, h) ∷ m) = one h j + entries j m

entries-insert :
    (k : Bytes) (h j : ℕ) (m : OrdMap ℕ)
    → find k m ≡ none
    → entries j (insert k h m) ≡ one h j + entries j m
unfolding find insert
entries-insert k h j [] e = omega arith
entries-insert k h j ((i, g) ∷ m) e =
    ground (arith, lex_compare-eq k i, bytes_eq_iff i k, entries-insert k h j m)

-- A key that stands before all others is not there to erase.
erase-Above : (k : Bytes) (m : OrdMap ℕ) → Above k m → erase k m ≡ m
unfolding erase
erase-Above k [] a = refl
erase-Above k ((i, g) ∷ m) (b, a) = elim (Bool-cases (bytes_eq i k)) [
  | inl e ↦ absurd (
      let f = sym (ap (lex_compare k) ((bytes_eq_iff i k).0 e)) ∙ b in
      let g = sym (lex_compare_refl k) ∙ f in cc)
  | inr e ↦ rw e (ap (◌∷◌ (i, g)) (erase-Above k m a))
]

entries-erase :
    (k : Bytes) (h j : ℕ) (m : OrdMap ℕ)
    → IsSorted m
    → find k m ≡ some h
    → one h j + entries j (erase k m) ≡ entries j m
unfolding find erase
entries-erase k h j [] s e = absurd cc
entries-erase k h j ((i, g) ∷ m) (a, s) e = elim (Bool-cases (bytes_eq i k)) [
  | inl f ↦
      let same = (bytes_eq_iff i k).0 f in
      let here : some g ≡ some h = sym (rw (f, find) refl) ∙ e in
      let gone : erase k m ≡ m = erase-Above k m (subst (λ z. Above z m) same a) in
      rw f (
        ap (λ z. one z j + entries j (erase k m)) (sym (some_inj here))
        ∙ ap (λ z. one g j + entries j z) gone)
  | inr f ↦
      let later : find k m ≡ some h = sym (rw (f, find) refl) ∙ e in
      rw f (omega (arith, entries-erase k h j m s later))
]

-- A name that is not loaded.
abbrev pub IsNew : Option Bytes → DllLoader → Type 0
IsNew none ldr = Unit {0}
IsNew (some name) ldr = find name ldr.handles ≡ none

-- `uses` counts how often the system has a handle open: `dlopen` opens it once more, and `dlclose`
-- of an open handle succeeds and closes it once.
pub record Counts {L : Type 0} (dl : Dl L) (uses : L → ℕ → ℕ) : Type 0 where
  pub opens :
      (path : Bytes) (l : L) (j : ℕ)
      → uses (dl.dlopen path l).1 j ≡ one_of (dl.dlopen path l).0 j + uses l j
  pub closes :
      (h : ℕ) (l : L)
      → 0 < uses l h
      → ((dl.dlclose h l).0 ≡ true) × ((j : ℕ) → one h j + uses (dl.dlclose h l).1 j ≡ uses l j)

module _ {L : Type 0} (dl : Dl L) (uses : L → ℕ → ℕ) (c : Counts dl uses) (base : ℕ → ℕ) where
  -- Besides what was open before, a handle is open once for each of its entries.
  pub record IsBalanced (ldr : DllLoader) (l : L) : Type 0 where
    pub sorted : IsSorted ldr.handles
    pub counted : (j : ℕ) → uses l j ≡ base j + entries j ldr.handles

  opened-IsBalanced :
      (name : Bytes) (r : Option ℕ × L) (ldr : DllLoader)
      → IsSorted ldr.handles
      → find name ldr.handles ≡ none
      → ((j : ℕ) → uses r.1 j ≡ one_of r.0 j + (base j + entries j ldr.handles))
      → IsBalanced (opened dl name r ldr).2 (opened dl name r ldr).3
  unfolding opened
  opened-IsBalanced name (none, l) ldr s n u = record {
    sorted = s;
    counted = λ j. omega (arith, u j);
  }
  opened-IsBalanced name (some h, l) ldr s n u = elim (Option-cases (dl.dlsym h l)) [
    | inl e ↦
        let (closed, after) = c.closes h l (ground (arith, u h)) in
        rw (e, opened) (record { sorted = s; counted = λ j. omega (arith, after j, u j) })
    | inr (hdr, e) ↦
        rw (e, opened)
          (record {
            sorted = insert-IsSorted name h ldr.handles s;
            counted = λ j. omega (arith, u j, entries-insert name h j ldr.handles n);
          })
  ]

  load_named-IsBalanced :
      (name : Option Bytes) (ldr : DllLoader) (l : L)
      → IsNew name ldr
      → IsBalanced ldr l
      → IsBalanced (load_named dl name ldr l).2 (load_named dl name ldr l).3
  unfolding load_named
  load_named-IsBalanced none ldr l n v = v
  load_named-IsBalanced (some name) ldr l n v =
      opened-IsBalanced name (dl.dlopen (get_plugin_path name ldr) l) ldr v.sorted n
        (λ j. omega (arith, c.opens (get_plugin_path name ldr) l j, v.counted j))

  unload_named-IsBalanced :
      (name : Option Bytes) (ldr : DllLoader) (l : L)
      → IsBalanced ldr l
      → IsBalanced (unload_named dl name ldr l).1 (unload_named dl name ldr l).2
  unfolding unload_named
  unload_named-IsBalanced none ldr l v = v
  unload_named-IsBalanced (some name) ldr l v = elim (Option-cases (find name ldr.handles)) [
    | inl e ↦ rw (e, unload_named) v
    | inr (h, e) ↦
        let here = entries-erase name h h ldr.handles v.sorted e in
        let (closed, after) = c.closes h l (ground (arith, v.counted h, here)) in
        rw (e, unload_named)
          (rw closed (record {
            sorted = erase-IsSorted name ldr.handles v.sorted;
            counted = λ j.
                omega (arith, after j, v.counted j, entries-erase name h j ldr.handles v.sorted e);
          }))
  ]

  -- The destructor closes what is open for the entries.
  close_all-uses :
      (m : OrdMap ℕ) (l : L)
      → ((j : ℕ) → uses l j ≡ base j + entries j m)
      → (j : ℕ) → uses (close_all dl m l) j ≡ base j
  unfolding close_all
  close_all-uses [] l u j = omega (arith, u j)
  close_all-uses ((name, h) ∷ m) l u j =
      let (closed, after) = c.closes h l (ground (arith, u h)) in
      close_all-uses m (dl.dlclose h l).1 (λ i. omega (arith, after i, u i)) j

pub data Op : Type 0 where
  loads : Name → Op
  unloads : Name → Op

module _ {L : Type 0} (dl : Dl L) where
  abbrev pub after_op : Op → DllLoader × L → DllLoader × L
  after_op (loads name) (ldr, l) = ((load dl name ldr l).2, (load dl name ldr l).3)
  after_op (unloads name) (ldr, l) = ((unload dl name ldr l).1, (unload dl name ldr l).2)

  abbrev pub after_ops : List Op → DllLoader × L → DllLoader × L
  after_ops [] s = s
  after_ops (op ∷ ops) s = after_ops ops (after_op op s)

  -- No name is loaded again before it is unloaded.
  abbrev pub LoadsNew : Op → DllLoader × L → Type 0
  LoadsNew (loads name) (ldr, l) = IsNew (given name) ldr
  LoadsNew (unloads name) s = Unit {0}

  abbrev pub AllNew : List Op → DllLoader × L → Type 0
  AllNew [] s = Unit {0}
  AllNew (op ∷ ops) s = LoadsNew op s × AllNew ops (after_op op s)

  module _ (uses : L → ℕ → ℕ) (c : Counts dl uses) where
    after_ops-IsBalanced :
        (base : ℕ → ℕ) (ops : List Op) (s : DllLoader × L)
        → AllNew ops s
        → IsBalanced dl uses c base s.0 s.1
        → IsBalanced dl uses c base (after_ops ops s).0 (after_ops ops s).1
    unfolding load unload
    after_ops-IsBalanced base [] s n v = v
    after_ops-IsBalanced base (loads name ∷ ops) (ldr, l) (n, ns) v =
        after_ops-IsBalanced base ops _ ns
          (load_named-IsBalanced dl uses c base (given name) ldr l n v)
    after_ops-IsBalanced base (unloads name ∷ ops) (ldr, l) (n, ns) v =
        after_ops-IsBalanced base ops _ ns
          (unload_named-IsBalanced dl uses c base (given name) ldr l v)

    new-IsBalanced : (dir : Option Bytes) (l : L) → IsBalanced dl uses c (uses l) (new_loader dir) l
    unfolding new_loader
    new-IsBalanced none l = record { sorted = tt; counted = λ j. omega arith }
    new-IsBalanced (some dir) l = record { sorted = tt; counted = λ j. omega arith }

    -- After any loads and unloads of plugins in which no name is loaded again before it is unloaded,
    -- the destructor of the loader leaves every shared library open as often as it was before; for a
    -- system in which closing a library that is open succeeds.
    pub release-uses :
        (dir : Option Bytes) (ops : List Op) (l : L) (j : ℕ)
        → AllNew ops (new_loader dir, l)
        → let s = after_ops ops (new_loader dir, l) in uses (release dl s.0 s.1) j ≡ uses l j
    unfolding release
    release-uses dir ops l j n =
        let v = after_ops-IsBalanced (uses l) ops (new_loader dir, l) n (new-IsBalanced dir l) in
        close_all-uses dl uses c (uses l) _ _ v.counted j
