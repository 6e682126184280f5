-- ===== src/Adv/PluginLoader.antt =====
-- cppboot/adv/plugin_loader.cc: plugins in shared libraries. The functions of the system's loader are
-- parameters over its state `L`: `dlopen` gives a handle or none, `dlsym` the header of a plugin,
-- and `dlclose` whether it succeeded. What is logged is left out.
pub mod Laws
use altas.Prelude.{
  ℕ, Bool, true, false, List, [], ◌∷◌, ◌++◌, Option, none, some, Bytes, codes, if◌then◌else◌,
}
use altas.OrdMap.{OrdMap, find, insert, erase}
use altas.Status.{
  Status, ok_status, invalid_argument_error, not_found_error, cancelled_error, unknown_error,
}
use altas.StrUtil.{str_cat3}
use altas.Fs.{path_join}
use altas.Adv.Env.{Name, given}
use altas.Adv.PluginManager.{CppbootPlugin}

pub record DllLoader : Type 0 where
  pub dir : Bytes
  pub handles : OrdMap ℕ

unfoldable pub new_loader : Option Bytes → DllLoader
new_loader none = record { dir = []; handles = [] }
new_loader (some dir) = record { dir = dir; handles = [] }

unfoldable pub get_plugin_path : Bytes → DllLoader → Bytes
get_plugin_path name ldr = path_join ldr.dir (str_cat3 (codes "libplugin_") name (codes ".so"))

abbrev pub load_failed : Bytes → Bytes → Status
load_failed name why =
    cancelled_error (codes "load plugin " ++ (name ++ (codes " failed: " ++ why)))

pub record Dl (L : Type 0) : Type 0 where
  pub dlopen : Bytes → L → Option ℕ × L
  pub dlsym : ℕ → L → Option CppbootPlugin
  pub dlclose : ℕ → L → Bool × L
  pub dlerror : L → Bytes

module _ {L : Type 0} (dl : Dl L) where
  -- Behind `dlopen`.
  opened : Bytes → Option ℕ × L → DllLoader → Status × Option CppbootPlugin × DllLoader × L
  opened name (none, l) ldr = (load_failed name (dl.dlerror l), none, ldr, l)
  opened name (some handle, l) ldr = elim (dl.dlsym handle l) [
    | none ↦ (
      load_failed name (codes "no symbol cppboot_plugin_entry"),
      none,
      ldr,
      (dl.dlclose handle l).1,
    )
    | some hdr ↦ (ok_status, some hdr, record ldr { handles = insert name handle ldr.handles }, l)
  ]

  -- The pointer for the result is not null.
  load_named : Option Bytes → DllLoader → L → Status × Option CppbootPlugin × DllLoader × L
  unfolding opened
  load_named none ldr l = (invalid_argument_error (codes "no name"), none, ldr, l)
  load_named (some name) ldr l = opened name (dl.dlopen (get_plugin_path name ldr) l) ldr

  unfoldable pub load : Name → DllLoader → L → Status × Option CppbootPlugin × DllLoader × L
  unfolding load_named
  load name ldr l = load_named (given name) ldr l

  unload_named : Option Bytes → DllLoader → L → Status × DllLoader × L
  unload_named none ldr l = (invalid_argument_error (codes "no name"), ldr, l)
  unload_named (some name) ldr l = elim (find name ldr.handles) [
    | none ↦ (not_found_error name, ldr, l)
    | some handle ↦
        let (closed, after) = dl.dlclose handle l in
        if closed
        then (ok_status, record ldr { handles = erase name ldr.handles }, after)
        else (unknown_error (dl.dlerror after), ldr, after)
  ]

  unfoldable pub unload : Name → DllLoader → L → Status × DllLoader × L
  unfolding unload_named
  unload name ldr l = unload_named (given name) ldr l

  -- The loop of the destructor.
  unfoldable pub close_all : OrdMap ℕ → L → L
  close_all [] l = l
  close_all ((name, handle) ∷ handles) l = close_all handles (dl.dlclose handle l).1

  unfoldable pub release : DllLoader → L → L
  release ldr l = close_all ldr.handles l
