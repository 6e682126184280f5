-- ===== src/Adv/PluginManager/Invariant.antt =====
-- The table of loaded plugins and their links, and what keeps them in order.
use altas.Prelude.{
  All-map, ℕ, ◌+◌, ◌≡◌, ◌≢◌, ◌<◌, ◌≤◌, refl, sym, ap, inl, inr, ◌∙◌, subst, true, false, List, [],
  none, some, Bytes, Bool-cases, if◌then◌else◌, ◌==◌, change, has, arith, All, bytes_eq,
  bytes_eq_iff, bytes_eq_refl,
}
use altas.OrdMap.{OrdMap, find, insert, erase}
use altas.OrdMap.Laws.{find-insert, find-erase}
use altas.Adv.Env.{Name, given}
use altas.Adv.PluginManager.{CppbootPlugin, Plugin, require_list}
use altas.Adv.PluginManager.Links.{Heap, IsMutual, Grows, Leaves, Holds, names_of}

-- The names that a header asks for.
abbrev pub needs : Name → List Bytes
needs none = []
needs (some depends) = names_of (require_list depends)

-- The plugin at `p` has its name from the header, and depends on older plugins that count it.
pub record IsPlaced (mods : OrdMap ℕ) (h : Heap) (n : ℕ) (k : Bytes) (p : ℕ) : Type 0 where
  pub old : p < n
  pub named : (hdr : CppbootPlugin) × ((h p).hdr ≡ some hdr) × (given hdr.name ≡ some k)
  pub targets_old : (q : ℕ) → has q (h p).targets ≡ true → q < n
  pub linked : IsMutual h p
  pub held : (hdr : CppbootPlugin) → (h p).hdr ≡ some hdr → All (Holds mods h p) (needs hdr.depends)

-- Every plugin of the table is in its place.
abbrev pub IsTable : OrdMap ℕ → Heap → ℕ → Type 0
IsTable mods h n = (k : Bytes) (p : ℕ) → find k mods ≡ some p → IsPlaced mods h n k p

-- A plugin that is in the table is under one name.
one_name :
    (mods : OrdMap ℕ) (h : Heap) (n : ℕ)
    → IsTable mods h n
    → (j k : Bytes) (p : ℕ) → find j mods ≡ some p
    → find k mods ≡ some p
    → j ≡ k
one_name mods h n t j k p e f =
    let (x, hx, nx) = (t j p e).named in
    let (y, hy, ny) = (t k p f).named in
    let same : x ≡ y = cc in ground (arith, ap (λ z. given z.name) same)

module _ (mods : OrdMap ℕ) (h g : Heap) (n m : ℕ) (more : n ≤ m) where
  -- A plugin keeps its place if the links that it has stay.
  pub keep_place :
      (k : Bytes) (p : ℕ)
      → (g p).hdr ≡ (h p).hdr
      → (g p).targets ≡ (h p).targets
      → (IsMutual h p → IsMutual g p)
      → IsPlaced mods h n k p
      → IsPlaced mods g m k p
  keep_place k p eh et el r = record {
    old = omega (arith, r.old);
    named = rw eh r.named;
    targets_old = λ q e. omega (arith, r.targets_old q (sym (ap (has q) et) ∙ e));
    linked = el r.linked;
    held = λ hdr e.
        All-map (needs hdr.depends) (λ d (q, f, u, v). (q, f, ap (has q) et ∙ u, v))
          (r.held hdr (sym eh ∙ e));
  }

-- A new plugin at the first free pointer.
pub fresh-IsTable :
    (mods : OrdMap ℕ) (h : Heap) (n : ℕ) (new : Plugin)
    → IsTable mods h n
    → IsTable mods (change n (λ p. new) h) (n + 1)
unfolding change
fresh-IsTable mods h n new t k p e =
    let r = t k p e in
    let other : (n == p) ≡ false = ground (arith, r.old) in
    let o = r.old in
    keep_place mods h _ n (n + 1) (omega arith) k p (rw other refl) (rw other refl)
      (λ l q f.
        let u : has q (h p).targets ≡ true =
          sym (ap (λ b. has q (if b then new else h p).targets) other) ∙ f in
        let away : (n == q) ≡ false = ground (arith, r.targets_old q u) in rw away (l q u))
      r

-- The links of one that is not in the table grow.
pub Grows-IsTable :
    (mods : OrdMap ℕ) (h g : Heap) (n me : ℕ)
    → Grows me h g
    → ((k : Bytes) → find k mods ≢ some me)
    → IsTable mods h n
    → IsTable mods g n
Grows-IsTable mods h g n me r out t k p e =
    keep_place mods h g n n (omega arith) k p (r.same_hdr p)
      (r.others p (λ f. out k (e ∙ ap some f))) (r.linked p) (t k p e)

-- A plugin is put into the table under a name that was free.
pub insert-IsTable :
    (mods : OrdMap ℕ) (h : Heap) (n me : ℕ) (name : Bytes)
    → find name mods ≡ none
    → IsPlaced mods h n name me
    → IsTable mods h n
    → IsTable (insert name me mods) h n
insert-IsTable mods h n me name free r t k p e =
    let wider : (d : Bytes) (q : ℕ) → find d mods ≡ some q → find d (insert name me mods) ≡ some q =
      λ d q f. ground (arith, find-insert name d me mods, bytes_eq_iff name d) in
    let place : (k : Bytes) (p : ℕ)
        → IsPlaced mods h n k p
        → IsPlaced (insert name me mods) h n k p =
      λ k p r. record {
        old = r.old;
        named = r.named;
        targets_old = r.targets_old;
        linked = r.linked;
        held = λ hdr f.
            All-map (needs hdr.depends) (λ d (q, u, v, w). (q, wider d q u, v, w)) (r.held hdr f);
      } in
    elim (Bool-cases (bytes_eq name k)) [
      | inl b ↦
          let same : name ≡ k = (bytes_eq_iff name k).0 b in
          let it : me ≡ p = ground (arith, find-insert name k me mods) in
          subst (λ z. IsPlaced (insert name me mods) h n z p) same
            (subst (IsPlaced (insert name me mods) h n name) it (place name me r))
      | inr b ↦ place k p (t k p (ground (arith, find-insert name k me mods)))
    ]

-- A plugin that none depends on is taken out of the table.
pub erase-IsTable :
    (mods : OrdMap ℕ) (h g : Heap) (n me : ℕ) (name : Bytes)
    → find name mods ≡ some me
    → (h me).sources ≡ []
    → Leaves me h g
    → IsTable mods h n
    → IsTable (erase name mods) g n
unfolding has
erase-IsTable mods h g n me name at none_left l t k p e =
    let kept : (find k mods ≡ some p) × (bytes_eq name k ≡ false) =
      ground (arith, find-erase name k mods) in
    let r = t k p kept.0 in
    let apart : p ≢ me = λ f. absurd (
      ground (
        arith,
        bytes_eq_iff name k,
        bytes_eq_refl k,
        one_name mods h n t k name p kept.0 (at ∙ ap some (sym f)),
      )) in
    let still : (d : Bytes) (q : ℕ)
        → find d mods ≡ some q
        → has q (h p).targets ≡ true
        → find d (erase name mods) ≡ some q =
      λ d q u v.
        ground (
          arith,
          find-erase name d mods,
          bytes_eq_iff name d,
          r.linked q v,
          ap (has p) none_left,
        ) in
    record {
      old = r.old;
      named = rw (l.same_hdr p) r.named;
      targets_old = λ q u. r.targets_old q (sym (ap (has q) (l.same_targets p)) ∙ u);
      linked = λ q u. l.stays p q apart (r.linked q (sym (ap (has q) (l.same_targets p)) ∙ u));
      held = λ hdr f.
          All-map (needs hdr.depends)
            (λ d (q, u, v, w). (q, still d q u v, ap (has q) (l.same_targets p) ∙ v, w))
            (r.held hdr (sym (l.same_hdr p) ∙ f));
    }
