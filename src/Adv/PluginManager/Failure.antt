-- ===== src/Adv/PluginManager/Failure.antt =====
-- A plugin whose init function fails.
use altas.Prelude.{
  All-map, some_inj, ℕ, ◌+◌, ◌≡◌, refl, ap, ◌∙◌, true, false, List, ◌∷◌, Option, none, some, Bytes,
  codes, ◌==◌, All,
}
use altas.OrdMap.{find}
use altas.Status.{Status, ok, ok_status, invalid_argument_error, new_status}
use altas.Adv.Env.{Name, given, or_blank}
use altas.Adv.PluginManager.{
  CppbootPlugin, PluginManager, require_list, verify_plugin_header, verify_dependence, call_init,
  init_verified, init_pulgin, load_header, load_named, load, inits, unloads,
}
use altas.Adv.PluginManager.Links.{Heap, IsLoaded, depend_ok}
use altas.Adv.PluginManager.Invariant.{needs}
use altas.Adv.PluginManager.Start.{verify-Grows, verify-Holds}
use altas.Adv.PluginManager.Laws.{
  Use, FitsUse, run, new_manager, IsPinned, Holds-IsPinned, with_new, new-IsMutual,
}

call_init_fails :
    (i : Option (Bytes → ℕ)) (init : Bytes → ℕ) (param : Bytes) (m : PluginManager)
    → i ≡ some init
    → (init param == 0) ≡ false
    → call_init i param m ≡ (
      invalid_argument_error (codes "init retrn error"),
      record m { calls = inits param ∷ m.calls },
    )
unfolding call_init
call_init_fails none init param m e f = absurd cc
call_init_fails (some g) init param m e f =
    let same : (g param == 0) ≡ false = ap (λ z. z param == 0) (some_inj e) ∙ f in rw same refl

module _ (us : List Use) (f : All FitsUse us) (name : Name) (k : Bytes) (param : Option Bytes)
    (st : Status) (x : CppbootPlugin) (init : Bytes → ℕ) (given_name : given name ≡ some k)
    (free : find k (run us new_manager).mods ≡ none) (loader_ok : ok st ≡ true)
    (whole : ok (verify_plugin_header (some x)) ≡ true) (has_init : x.init ≡ some init)
    (fails : (init (or_blank param) == 0) ≡ false)
    (loaded : All (IsLoaded (run us new_manager).mods) (needs x.depends)) where
  abbrev pub before : PluginManager
  before = run us new_manager

  after : PluginManager
  after = (load name param (st, some x) before).1

  dependencies_ok :
      (n : Name) (h : Heap)
      → All (IsLoaded before.mods) (needs n)
      → ok (verify_dependence before.next n before.mods h).0 ≡ true
  unfolding verify_dependence ok ok_status
  dependencies_ok none h a = refl
  dependencies_ok (some d) h a = depend_ok before.next before.mods (require_list d) h a

  linked_heap : Heap
  linked_heap =
      (verify_dependence before.next x.depends before.mods (with_new (some x) before).heap).1

  failed : PluginManager
  failed = record {
    mods = before.mods;
    heap = linked_heap;
    next = before.next + 1;
    calls = unloads k ∷ inits (or_blank param) ∷ before.calls;
  }

  deps_ok :
      ok (verify_dependence before.next x.depends before.mods (with_new (some x) before).heap).0
      ≡ true
  deps_ok = dependencies_ok x.depends (with_new (some x) before).heap loaded

  load_fails :
      load name param (st, some x) before
      ≡ (invalid_argument_error (codes "init retrn error"), failed)
  unfolding load load_named load_header init_pulgin init_verified failed linked_heap ok
      invalid_argument_error new_status
  load_fails =
      rw
        (
          given_name,
          load_named,
          free,
          loader_ok,
          load_header,
          init_pulgin,
          whole,
          init_verified,
          deps_ok,
          call_init_fails x.init init (or_blank param) _ has_init fails,
        )
        refl

  -- A load that fails in the init function of the plugin, after loads and unloads with a loader that
  -- gives plugins under the names it is asked for: the name was free, the header is complete, and its
  -- dependencies are loaded. The load reports the error and leaves the table as it was, but from then
  -- on unloading a dependency of that plugin is refused.
  pub load_failed-IsPinned :
      ((load name param (st, some x) before).0 ≡ invalid_argument_error (codes "init retrn error"))
      × ((load name param (st, some x) before).1.mods ≡ before.mods)
      × All (IsPinned (load name param (st, some x) before).1) (needs x.depends)
  unfolding failed linked_heap
  load_failed-IsPinned = rw load_fails (
    refl,
    refl,
    All-map (needs x.depends)
        (λ d. Holds-IsPinned failed before.next d (
          (verify-Grows before.next x.depends before.mods (with_new (some x) before).heap).linked
            before.next (new-IsMutual before (some x))))
        (verify-Holds before.next x.depends before.mods (with_new (some x) before).heap deps_ok),
  )
