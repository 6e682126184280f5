-- ===== src/Adv/PluginManager/Links.antt =====
-- The links between plugins: what adding the dependencies of a plugin changes, and what leaving
-- them does.
use altas.Prelude.{
  ℕ, ◌≡◌, ◌≢◌, ◌<◌, refl, sym, inl, inr, true, false, List, [], ◌∷◌, none, some, Bytes, codes,
  Bool-cases, Option-cases, is_empty, if◌then◌else◌, ◌==◌, change, has, set_insert, has-set_insert,
  has-set_erase, arith, All, ◌∙◌, ◌||◌,
}
use altas.OrdMap.{OrdMap, find}
use altas.Status.{ok, ok_status, not_found_error, new_status}
use altas.StrUtil.{str_trim}
use altas.Adv.Env.{given}
use altas.Adv.PluginManager.{
  Plugin, add_source, add_target, erase_source, addplugin_usage, depend_loop, leave_targets,
}

abbrev pub Heap : Type 0
Heap = ℕ → Plugin

-- Each plugin that `p` depends on counts it as a source.
abbrev pub IsMutual : Heap → ℕ → Type 0
IsMutual heap p = (q : ℕ) → has q (heap p).targets ≡ true → has p (heap q).sources ≡ true

-- Only the dependencies of `me` have changed, and they have grown.
pub record Grows (me : ℕ) (h k : Heap) : Type 0 where
  pub same_hdr : (p : ℕ) → (k p).hdr ≡ (h p).hdr
  pub others : (p : ℕ) → p ≢ me → (k p).targets ≡ (h p).targets
  pub kept : (q : ℕ) → has q (h me).targets ≡ true → has q (k me).targets ≡ true
  pub linked : (p : ℕ) → IsMutual h p → IsMutual k p

pub Grows-refl : (me : ℕ) (h : Heap) → Grows me h h
Grows-refl me h = record {
  same_hdr = λ p. refl;
  others = λ p n. refl;
  kept = λ q e. e;
  linked = λ p m. m;
}

Grows-trans : (me : ℕ) (h k l : Heap) → Grows me h k → Grows me k l → Grows me h l
Grows-trans me h k l a b = record {
  same_hdr = λ p. b.same_hdr p ∙ a.same_hdr p;
  others = λ p n. b.others p n ∙ a.others p n;
  kept = λ q e. b.kept q (a.kept q e);
  linked = λ p m. b.linked p (a.linked p m);
}

usage_hdr : (me b p : ℕ) (h : Heap) → (addplugin_usage me b h p).hdr ≡ (h p).hdr
unfolding addplugin_usage change add_target add_source
usage_hdr me b p h = ground arith

usage_targets :
    (me b p : ℕ) (h : Heap)
    → (addplugin_usage me b h p).targets
      ≡ (if me == p then set_insert b (h p).targets else (h p).targets)
unfolding addplugin_usage change add_target add_source
usage_targets me b p h = ground arith

usage_sources :
    (me b p : ℕ) (h : Heap)
    → (addplugin_usage me b h p).sources
      ≡ (if b == p then set_insert me (h p).sources else (h p).sources)
unfolding addplugin_usage change add_target add_source
usage_sources me b p h = ground arith

has_target :
    (me b p q : ℕ) (h : Heap)
    → has q (addplugin_usage me b h p).targets
      ≡ (if me == p then (q == b || has q (h p).targets) else has q (h p).targets)
has_target me b p q h = ground (arith, usage_targets me b p h, has-set_insert b q (h p).targets)

has_source :
    (me b p q : ℕ) (h : Heap)
    → has q (addplugin_usage me b h p).sources
      ≡ (if b == p then (q == me || has q (h p).sources) else has q (h p).sources)
has_source me b p q h = ground (arith, usage_sources me b p h, has-set_insert me q (h p).sources)

usage-Grows : (me b : ℕ) (h : Heap) → Grows me h (addplugin_usage me b h)
usage-Grows me b h = record {
  same_hdr = λ p. usage_hdr me b p h;
  others = λ p n. ground (arith, usage_targets me b p h);
  kept = λ q e. ground (arith, has_target me b me q h);
  linked = λ p m q e. ground (arith, has_target me b p q h, has_source me b q p h, m q);
}

-- The names in a list of dependencies.
abbrev pub names_of : List Bytes → List Bytes
names_of [] = []
names_of (i ∷ pieces) =
    if is_empty (str_trim i (codes " "))
    then names_of pieces
    else str_trim i (codes " ") ∷ names_of pieces

-- `p` depends on the plugin that is loaded under the name `d`.
abbrev pub Holds : OrdMap ℕ → Heap → ℕ → Bytes → Type 0
Holds mods h p d =
    (q : ℕ) × (find d mods ≡ some q) × (has q (h p).targets ≡ true) × (given (some d) ≡ some d)

abbrev pub IsLoaded : OrdMap ℕ → Bytes → Type 0
IsLoaded mods d = (q : ℕ) × (find d mods ≡ some q)

module _ (me : ℕ) (mods : OrdMap ℕ) where
  pub depend-Grows : (pieces : List Bytes) (h : Heap) → Grows me h (depend_loop me mods pieces h).1
  unfolding depend_loop
  depend-Grows [] h = Grows-refl me h
  depend-Grows (i ∷ pieces) h = elim (Bool-cases (is_empty (str_trim i (codes " ")))) [
    | inl e ↦ rw e (depend-Grows pieces h)
    | inr e ↦ elim (Option-cases (find (str_trim i (codes " ")) mods)) [
      | inl f ↦ rw (e, f) (Grows-refl me h)
      | inr (b, f) ↦
          rw (e, f)
            (Grows-trans me h _ _ (usage-Grows me b h)
              (depend-Grows pieces (addplugin_usage me b h)))
    ]
  ]

  true-ne-false : true ≢ false
  true-ne-false e = absurd cc

  given_self : (d : Bytes) → is_empty d ≡ false → given (some d) ≡ some d
  given_self [] e = absurd cc
  given_self (c ∷ d) e = refl

  depend_skip :
      (i : Bytes) (pieces : List Bytes) (h : Heap)
      → is_empty (str_trim i (codes " ")) ≡ true
      → depend_loop me mods (i ∷ pieces) h ≡ depend_loop me mods pieces h
  unfolding depend_loop
  depend_skip i pieces h e = rw e refl

  depend_step :
      (i : Bytes) (pieces : List Bytes) (h : Heap) (b : ℕ)
      → is_empty (str_trim i (codes " ")) ≡ false
      → find (str_trim i (codes " ")) mods ≡ some b
      → depend_loop me mods (i ∷ pieces) h ≡ depend_loop me mods pieces (addplugin_usage me b h)
  unfolding depend_loop
  depend_step i pieces h b e f = rw (e, f) refl

  depend_fails :
      (i : Bytes) (pieces : List Bytes) (h : Heap)
      → is_empty (str_trim i (codes " ")) ≡ false
      → find (str_trim i (codes " ")) mods ≡ none
      → ok (depend_loop me mods (i ∷ pieces) h).0 ≡ false
  unfolding depend_loop ok not_found_error new_status
  depend_fails i pieces h e f = rw (e, f) refl

  -- After the loop has gone through, every name is held.
  pub depend-Holds :
      (pieces : List Bytes) (h : Heap)
      → ok (depend_loop me mods pieces h).0 ≡ true
      → All (Holds mods (depend_loop me mods pieces h).1 me) (names_of pieces)
  depend-Holds [] h = λ o. tt
  depend-Holds (i ∷ pieces) h = elim (Bool-cases (is_empty (str_trim i (codes " ")))) [
    | inl e ↦ rw (depend_skip i pieces h e, e) (depend-Holds pieces h)
    | inr e ↦ elim (Option-cases (find (str_trim i (codes " ")) mods)) [
      | inl f ↦ λ o. absurd (true-ne-false (sym o ∙ depend_fails i pieces h e f))
      | inr (b, f) ↦
          rw (depend_step i pieces h b e f, e)
            (λ o.
              let g = addplugin_usage me b h in
              (
                (
                  b,
                  f,
                  (depend-Grows pieces g).kept b (ground (arith, has_target me b me b h)),
                  given_self _ e,
                ),
                depend-Holds pieces g o,
              ))
    ]
  ]

  -- The loop goes through if every name is loaded.
  pub depend_ok :
      (pieces : List Bytes) (h : Heap)
      → All (IsLoaded mods) (names_of pieces)
      → ok (depend_loop me mods pieces h).0 ≡ true
  unfolding depend_loop ok ok_status
  depend_ok [] h = λ a. refl
  depend_ok (i ∷ pieces) h = elim (Bool-cases (is_empty (str_trim i (codes " ")))) [
    | inl e ↦ rw e (depend_ok pieces h)
    | inr e ↦ rw e (λ a. let ((b, f), r) = a in rw f (depend_ok pieces (addplugin_usage me b h) r))
  ]

  -- The loop adds plugins from the table only.
  pub depend_old :
      (n : ℕ) (pieces : List Bytes) (h : Heap)
      → ((k : Bytes) (p : ℕ) → find k mods ≡ some p → p < n)
      → ((q : ℕ) → has q (h me).targets ≡ true → q < n)
      → (q : ℕ) → has q ((depend_loop me mods pieces h).1 me).targets ≡ true
      → q < n
  unfolding depend_loop
  depend_old n [] h o b = b
  depend_old n (i ∷ pieces) h o b = elim (Bool-cases (is_empty (str_trim i (codes " ")))) [
    | inl e ↦ rw e (depend_old n pieces h o b)
    | inr e ↦ elim (Option-cases (find (str_trim i (codes " ")) mods)) [
      | inl f ↦ rw (e, f) b
      | inr (p, f) ↦
          rw (e, f)
            (depend_old n pieces (addplugin_usage me p h) o
              (λ q g. ground (arith, has_target me p me q h, o _ p f, b q)))
    ]
  ]

-- Only sources have changed: `me` is none any more.
pub record Leaves (me : ℕ) (h k : Heap) : Type 0 where
  pub same_hdr : (p : ℕ) → (k p).hdr ≡ (h p).hdr
  pub same_targets : (p : ℕ) → (k p).targets ≡ (h p).targets
  pub stays : (p q : ℕ) → p ≢ me → has p (h q).sources ≡ true → has p (k q).sources ≡ true

pub leave_targets-Leaves :
    (me : ℕ) (targets : List ℕ) (h : Heap) → Leaves me h (leave_targets me targets h)
unfolding leave_targets change erase_source
leave_targets-Leaves me [] h = record {
  same_hdr = λ p. refl;
  same_targets = λ p. refl;
  stays = λ p q n e. e;
}
leave_targets-Leaves me (t ∷ targets) h =
    let r = leave_targets-Leaves me targets (change t (erase_source me) h) in
    record {
      same_hdr = λ p. ground (arith, r.same_hdr p);
      same_targets = λ p. ground (arith, r.same_targets p);
      stays = λ p q n e. r.stays p q n (ground (arith, has-set_erase me p (h q).sources));
    }
