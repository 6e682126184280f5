-- ===== src/Tests/Plugins.antt =====
-- The plugin manager: cppboot/adv/plugin_manager.cc.
use altas.Prelude.{
  ℕ, ◌≡◌, refl, true, List, [], ◌∷◌, Option, none, some, Bytes, codes, All, bytes_eq, lex_compare,
  span_until, has, change, set_insert,
}
use altas.OrdMap.{find, insert}
use altas.Status.{ok_status, ok, invalid_argument_error}
use altas.StrUtil.{
  str_split, split_loop, str_trim, str_trim_left, str_trim_right, first_from, last_from,
}
use altas.Adv.PluginManager.{
  CppbootPlugin, load, init_pulgin, verify_plugin_header, verify_dependence, depend_loop,
  require_list, addplugin_usage, add_source, add_target,
}
use altas.Adv.PluginManager.Laws.{Use, loads, run, new_manager, IsPinned, run-IsPinned}
use altas.Adv.PluginManager.Invariant.{needs}
use altas.Adv.PluginManager.Failure.{load_failed-IsPinned}

abbrev plugin : Bytes → Option Bytes → (Bytes → ℕ) → CppbootPlugin
plugin name depends init = record {
  name = some name;
  depends = depends;
  init = some init;
  has_exit = true;
}

abbrev log_plugin : CppbootPlugin
log_plugin = plugin (codes "log") none (λ param. 0)

abbrev web_plugin : CppbootPlugin
web_plugin = plugin (codes "web") (some (codes "log")) (λ param. 0)

abbrev bad_plugin : CppbootPlugin
bad_plugin = plugin (codes "bad") (some (codes "log")) (λ param. 1)

abbrev load_it : Bytes → CppbootPlugin → Use
load_it name p = loads (some name) none (ok_status, some p)

abbrev two : List Use
two = load_it (codes "log") log_plugin ∷ load_it (codes "web") web_plugin ∷ []

run-IsPinned_example : All (IsPinned (run two new_manager)) (needs (some (codes "log")))
unfolding find insert lex_compare bytes_eq load init_pulgin verify_plugin_header verify_dependence
    depend_loop require_list str_split split_loop str_trim str_trim_left str_trim_right first_from
    last_from span_until ok ok_status change has set_insert addplugin_usage add_source add_target
run-IsPinned_example = run-IsPinned two (codes "web") 1 web_plugin (refl, (refl, tt)) refl refl

load_failed-IsPinned_example :
    ((load
        (some (codes "bad"))
        none
        (ok_status, some bad_plugin)
        (run (load_it (codes "log") log_plugin ∷ []) new_manager)).0
      ≡ invalid_argument_error (codes "init retrn error"))
    × ((load
          (some (codes "bad"))
          none
          (ok_status, some bad_plugin)
          (run (load_it (codes "log") log_plugin ∷ []) new_manager)).1.mods
        ≡ (run (load_it (codes "log") log_plugin ∷ []) new_manager).mods)
    × All
        (IsPinned
          (load
            (some (codes "bad"))
            none
            (ok_status, some bad_plugin)
            (run (load_it (codes "log") log_plugin ∷ []) new_manager)).1)
        (needs (some (codes "log")))
unfolding find insert lex_compare bytes_eq load init_pulgin verify_plugin_header verify_dependence
    depend_loop require_list str_split split_loop str_trim str_trim_left str_trim_right first_from
    last_from span_until ok ok_status
load_failed-IsPinned_example =
    load_failed-IsPinned (load_it (codes "log") log_plugin ∷ []) (refl, tt) (some (codes "bad"))
      (codes "bad") none ok_status bad_plugin (λ param. 1) refl refl refl refl refl refl
      ((0, refl), tt)
