-- ===== src/Adv/PluginManager/Laws.antt =====
-- Runs of loads and unloads.
use altas.Prelude.{
  All-map, some_inj, change_same, ℕ, ◌+◌, ◌≡◌, ◌≢◌, refl, sym, ap, inl, inr, ◌∙◌, subst, true,
  false, List, [], ◌∷◌, Option, none, some, Bytes, codes, Bool-cases, Option-cases, is_empty,
  change, has, arith, All,
}
use altas.OrdMap.{find, insert}
use altas.Status.{Status, ok, cancelled_error}
use altas.Adv.Env.{Name, given, or_blank}
use altas.Adv.PluginManager.{
  CppbootPlugin, Plugin, PluginManager, verify_dependence, init_pulgin, header_name, register,
  load_header, load_named, load, unload_found, unload_named, unload,
}
use altas.Adv.PluginManager.Links.{Heap, IsMutual, Grows, Holds, IsLoaded, leave_targets-Leaves}
use altas.Adv.PluginManager.Invariant.{
  needs, IsPlaced, IsTable, fresh-IsTable, keep_place, Grows-IsTable, insert-IsTable, erase-IsTable,
}
use altas.Adv.PluginManager.Start.{
  IsManager, verify_old, verify-Holds, IsInited, init_pulgin-IsInited, init_heap, no_header,
}

-- The answer of the loader is a plugin with the name that was asked for, if any.
abbrev pub Fits : Option Bytes → Option CppbootPlugin → Type 0
Fits name none = Unit {0}
Fits name (some hdr) = given hdr.name ≡ name

abbrev pub blank : Option CppbootPlugin → Plugin
blank hdr = record { hdr = hdr; param = []; sources = []; targets = [] }

-- The state in which a new plugin is started.
abbrev pub with_new : Option CppbootPlugin → PluginManager → PluginManager
with_new hdr m = record m { heap = change m.next (λ p. blank hdr) m.heap; next = m.next + 1 }

set_param-Grows :
    (me : ℕ) (param : Bytes) (h : Heap) → Grows me h (change me (λ p. record p { param = param }) h)
unfolding change
set_param-Grows me param h = record {
  same_hdr = λ p. ground arith;
  others = λ p n. ground arith;
  kept = λ q e. ground arith;
  linked = λ p l q e. ground (arith, l q);
}

module _ (m : PluginManager) (t : IsManager m) (hdr : Option CppbootPlugin) (param : Bytes) where
  done : PluginManager
  done = (init_pulgin m.next hdr param (with_new hdr m)).1

  started : IsInited m.next (with_new hdr m) done
  unfolding done
  started = init_pulgin-IsInited m.next hdr param (with_new hdr m)

  not_in_table : (k : Bytes) → find k m.mods ≢ some m.next
  not_in_table k e = omega (arith, (t k m.next e).old)

  start-IsTable : IsTable m.mods done.heap (m.next + 1)
  unfolding done
  start-IsTable =
      Grows-IsTable m.mods (with_new hdr m).heap _ (m.next + 1) m.next started.2 not_in_table
        (fresh-IsTable m.mods m.heap m.next (blank hdr) t)

no_targets :
    (m : PluginManager) (hdr : Option CppbootPlugin) (q : ℕ)
    → has q ((with_new hdr m).heap m.next).targets ≡ false
unfolding has change
no_targets m hdr q = ground arith

pub new-IsMutual :
    (m : PluginManager) (hdr : Option CppbootPlugin) → IsMutual (with_new hdr m).heap m.next
new-IsMutual m hdr q e = absurd (ground (arith, no_targets m hdr q))

-- A plugin that was started without an error has its place.
module _ (m : PluginManager) (t : IsManager m) (x : CppbootPlugin) (param k : Bytes)
    (named : given x.name ≡ some k)
    (o : ok (init_pulgin m.next (some x) param (with_new (some x) m)).0 ≡ true) where
  new_hdr : ((done m t (some x) param).heap m.next).hdr ≡ some x
  new_hdr =
      (started m t (some x) param).2.same_hdr m.next
      ∙ ap (λ p. p.hdr) (change_same m.next (λ p. blank (some x)) m.heap)

  heap_eq :
      (done m t (some x) param).heap
      ≡ (verify_dependence m.next x.depends m.mods (with_new (some x) m).heap).1
  unfolding done
  heap_eq = (init_heap m.next x param (with_new (some x) m) o).1

  new-IsPlaced : IsPlaced m.mods (done m t (some x) param).heap (m.next + 1) k m.next
  new-IsPlaced =
      let d =
        verify_old m.next (m.next + 1) x.depends m.mods (with_new (some x) m).heap
          (λ j p e. omega (arith, (t j p e).old))
          (λ q e. absurd (ground (arith, no_targets m (some x) q))) in
      let all =
        verify-Holds m.next x.depends m.mods (with_new (some x) m).heap
          (init_heap m.next x param (with_new (some x) m) o).0 in
      record {
        old = omega arith;
        named = (x, new_hdr, named);
        targets_old = λ q e. d q (sym (ap (λ h. has q (h m.next).targets) heap_eq) ∙ e);
        linked = (started m t (some x) param).2.linked m.next (new-IsMutual m (some x));
        held = λ y e.
            subst (λ z. All (Holds m.mods (done m t (some x) param).heap m.next) (needs z.depends))
              (some_inj (sym new_hdr ∙ e))
              (subst (λ h. All (Holds m.mods h m.next) (needs x.depends)) (sym heap_eq) all);
      }

  with_param : Heap
  with_param = change m.next (λ p. record p { param = param }) (done m t (some x) param).heap

  registered : find k m.mods ≡ none → IsTable (insert k m.next m.mods) with_param (m.next + 1)
  unfolding with_param change
  registered free =
      let h = (done m t (some x) param).heap in
      let g = set_param-Grows m.next param h in
      insert-IsTable m.mods _ (m.next + 1) m.next k free
        (keep_place m.mods h with_param (m.next + 1) (m.next + 1) (omega arith) k m.next
          (g.same_hdr m.next) (ground arith) (g.linked m.next) new-IsPlaced)
        (Grows-IsTable m.mods h with_param (m.next + 1) m.next g (not_in_table m t (some x) param)
          (start-IsTable m t (some x) param))

given_text : (n : Name) (k : Bytes) → given n ≡ some k → or_blank n ≡ k
given_text none k e = absurd cc
given_text (some []) k e = absurd cc
given_text (some (c ∷ d)) k e = some_inj e

header_named : (x : CppbootPlugin) (k : Bytes) → given x.name ≡ some k → header_name (some x) ≡ k
unfolding header_name
header_named x k e = given_text x.name k e

load_header-IsManager :
    (m : PluginManager) (name param : Bytes) (hdr : Option CppbootPlugin)
    → IsManager m
    → find name m.mods ≡ none
    → Fits (some name) hdr
    → IsManager (load_header name hdr param m).1
unfolding load_header register done with_param
load_header-IsManager m name param none t free f =
    elim (Bool-cases (ok (init_pulgin m.next none param (with_new none m)).0)) [
      | inl e ↦ absurd (no_header m.next param _ e)
      | inr e ↦
          rw e (let (a, b, c) = started m t none param in rw (a, b) (start-IsTable m t none param))
    ]
load_header-IsManager m name param (some x) t free f =
    elim (Bool-cases (ok (init_pulgin m.next (some x) param (with_new (some x) m)).0)) [
      | inl e ↦ rw e (
          let (a, b, c) = started m t (some x) param in
          rw (a, b, header_named x name f) (registered m t x param name f e free))
      | inr e ↦ rw e (
          let (a, b, c) = started m t (some x) param in
          rw (a, b) (start-IsTable m t (some x) param))
    ]

load-IsManager :
    (m : PluginManager) (name : Name) (param : Option Bytes)
    (answer : Status × Option CppbootPlugin)
    → IsManager m
    → Fits (given name) answer.1
    → IsManager (load name param answer m).1
unfolding load load_named
load-IsManager m name param (st, hdr) t = elim (Option-cases (given name)) [
  | inl e ↦ rw (e, load) (λ f. t)
  | inr (k, e) ↦
      rw (e, load)
        (λ f. elim (Option-cases (find k m.mods)) [
          | inl g ↦
              rw (g, load_named)
                (elim (Bool-cases (ok st)) [
                  | inl o ↦ rw o (load_header-IsManager m k (or_blank param) hdr t g f)
                  | inr o ↦ rw o t
                ])
          | inr (p, g) ↦ rw (g, load_named) t
        ])
]

unload_found-IsManager :
    (m : PluginManager) (k : Bytes) (me : ℕ)
    → IsManager m
    → find k m.mods ≡ some me
    → IsManager (unload_found k me m).1
unfolding unload_found
unload_found-IsManager m k me t e = go (m.heap me).sources refl
  where
    go : (s : List ℕ) → (m.heap me).sources ≡ s → IsManager (unload_found k me m).1
    go [] s = rw s (
        erase-IsTable m.mods m.heap _ m.next me k e s
          (leave_targets-Leaves me (m.heap me).targets m.heap) t)
    go (p ∷ ps) s = rw s t

unload-IsManager : (m : PluginManager) (name : Name) → IsManager m → IsManager (unload name m).1
unfolding unload unload_named
unload-IsManager m name t = elim (Option-cases (given name)) [
  | inl e ↦ rw (e, unload) t
  | inr (k, e) ↦
      rw (e, unload)
        (elim (Option-cases (find k m.mods)) [
          | inl g ↦ rw (g, unload_named) t
          | inr (p, g) ↦ rw (g, unload_named) (unload_found-IsManager m k p t g)
        ])
]

-- What a program does with the manager. A load has the answer of the loader.
pub data Use : Type 0 where
  loads : (name : Name) (param : Option Bytes) (answer : Status × Option CppbootPlugin) → Use
  drops : (name : Name) → Use

abbrev pub use_one : Use → PluginManager → PluginManager
use_one (loads name param answer) m = (load name param answer m).1
use_one (drops name) m = (unload name m).1

abbrev pub run : List Use → PluginManager → PluginManager
run [] m = m
run (u ∷ us) m = run us (use_one u m)

abbrev pub FitsUse : Use → Type 0
FitsUse (loads name param answer) = Fits (given name) answer.1
FitsUse (drops name) = Unit {0}

abbrev pub new_manager : PluginManager
new_manager = record { mods = []; heap = λ p. blank none; next = 0; calls = [] }

run-IsManager :
    (us : List Use) (m : PluginManager) → All FitsUse us → IsManager m → IsManager (run us m)
run-IsManager [] m f t = t
run-IsManager (loads name param answer ∷ us) m (f, fs) t =
    run-IsManager us _ fs (load-IsManager m name param answer t f)
run-IsManager (drops name ∷ us) m (f, fs) t = run-IsManager us _ fs (unload-IsManager m name t)

reached : (us : List Use) → All FitsUse us → IsManager (run us new_manager)
unfolding find
reached us f = run-IsManager us new_manager f (λ k p e. absurd cc)

-- The plugin of that name is loaded, and unloading it is refused and changes nothing.
abbrev pub IsPinned : PluginManager → Bytes → Type 0
IsPinned m d =
    IsLoaded m.mods d × (unload (some d) m ≡ (cancelled_error (codes "has depend on by others"), m))

not_empty : (a : ℕ) (s : List ℕ) → has a s ≡ true → is_empty s ≡ false
unfolding has
not_empty a [] e = absurd cc
not_empty a (b ∷ s) e = refl

pub Holds-IsPinned :
    (m : PluginManager) (p : ℕ) (d : Bytes)
    → IsMutual m.heap p
    → Holds m.mods m.heap p d
    → IsPinned m d
unfolding unload unload_named unload_found
Holds-IsPinned m p d l (q, e, u, g) =
    let full : is_empty (m.heap q).sources ≡ false = not_empty p (m.heap q).sources (l q u) in
    ((q, e), rw (g, e, unload_named, full, unload_found) refl)

-- In every state that loads and unloads reach, with a loader that gives plugins under the names it
-- is asked for, all dependencies in the header of a loaded plugin are loaded, and unloading one of
-- them is refused and changes nothing.
pub run-IsPinned :
    (us : List Use) (k : Bytes) (p : ℕ) (hdr : CppbootPlugin)
    → All FitsUse us
    → find k (run us new_manager).mods ≡ some p
    → ((run us new_manager).heap p).hdr ≡ some hdr
    → All (IsPinned (run us new_manager)) (needs hdr.depends)
run-IsPinned us k p hdr f e h =
    let r = reached us f k p e in
    All-map (needs hdr.depends) (λ d. Holds-IsPinned (run us new_manager) p d r.linked)
      (r.held hdr h)
