-- ===== src/Tests/Loader.antt =====
-- The loader of plugins: cppboot/adv/plugin_loader.cc.
use altas.Prelude.{
  ℕ, ◌+◌, ◌-◌, ◌≡◌, ◌<◌, refl, subst, inl, inr, Bool-cases, true, List, [], ◌∷◌, none, some, codes,
  ◌==◌, bytes_eq, lex_compare, arith,
}
use altas.OrdMap.{find, insert, erase}
use altas.Adv.PluginManager.{CppbootPlugin}
use altas.Adv.PluginLoader.{Dl, new_loader, load, unload, release}
use altas.Adv.PluginLoader.Laws.{one, Counts, Op, loads, unloads, after_ops, release-uses}

abbrev a_plugin : CppbootPlugin
a_plugin = record { name = some (codes "a"); depends = none; init = none; has_exit = true }

-- A system with one library, of which the state counts the uses.
abbrev one_library : Dl (ℕ → ℕ)
one_library = record {
  dlopen = λ path l. (some 1, λ j. one 1 j + l j);
  dlsym = λ h l. some a_plugin;
  dlclose = λ h l. (true, λ j. l j - one h j);
  dlerror = λ l. [];
}

one_less : (h j : ℕ) (l : ℕ → ℕ) → 0 < l h → one h j + (l j - one h j) ≡ l j
one_less h j l p = elim (Bool-cases (h == j)) [
  | inl e ↦
      let same : h ≡ j = ground arith in
      let q : 0 < l j = subst (λ z. 0 < l z) same p in rw e (omega arith)
  | inr e ↦ rw e (omega arith)
]

one_library-Counts : Counts one_library (λ l j. l j)
one_library-Counts = record {
  opens = λ path l j. refl;
  closes = λ h l p. (refl, λ j. one_less h j l p);
}

abbrev traffic : List Op
traffic =
    loads (some (codes "a"))
    ∷ loads (some (codes "b"))
    ∷ unloads (some (codes "a"))
    ∷ loads none
    ∷ []

abbrev unused : ℕ → ℕ
unused j = 0

release-uses_example :
    let s = after_ops one_library traffic (new_loader none, unused) in
    release one_library s.0 s.1 1 ≡ unused 1
unfolding new_loader load unload find insert erase bytes_eq lex_compare
release-uses_example =
    release-uses one_library (λ l j. l j) one_library-Counts none traffic unused 1
      (refl, (refl, (tt, (tt, tt))))
