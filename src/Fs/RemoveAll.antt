-- ===== src/Fs/RemoveAll.antt =====
-- `GetDirectoryChildren` and `RemoveAll` of cppboot/base/fs.cc. What `readdir` gives for a path is a
-- parameter, empty if the directory cannot be opened, as `remove` of the operating system is.
pub mod Laws
use altas.Prelude.{
  ℕ, zero, suc, Bool, true, false, ◌||◌, List, [], ◌∷◌, Option, none, some, Bytes, codes,
  if◌then◌else◌, bytes_eq,
}
use altas.Status.{Status, ok, ok_status}
use altas.Status.Errno.{Errno}
use altas.Fs.{path_join, remove}

abbrev pub is_dots : Bytes → Bool
is_dots name = bytes_eq name (codes ".") || bytes_eq name (codes "..")

unfoldable pub without_dots : List Bytes → List Bytes
without_dots [] = []
without_dots (ent ∷ dir) = let rest = without_dots dir in if is_dots ent then rest else ent ∷ rest

module _ {F : Type 0} (error_text : Errno → Bytes) (readdir : Bytes → F → List Bytes)
    (sys_remove : Bytes → F → Errno × F) where
  unfoldable pub get_directory_children : Bytes → F → List Bytes
  get_directory_children path fs = without_dots (readdir path fs)

  -- The loop over the children, where `all` is the call for one of them.
  unfoldable pub remove_each :
      (Bytes → F → Option (Status × F)) → List Bytes → F → Option (Status × F)
  remove_each all [] fs = some (ok_status, fs)
  remove_each all (i ∷ subpaths) fs = elim (all i fs) [
    | none ↦ none
    | some (st, after) ↦ if ok st then remove_each all subpaths after else some (st, after)
  ]

  -- One unit of fuel for each level of directories. None is out of fuel.
  unfoldable pub remove_all : ℕ → Bytes → F → Option (Status × F)
  remove_all zero path fs = none
  remove_all (suc fuel) path fs =
      elim (remove_each (λ i. remove_all fuel (path_join path i)) (get_directory_children path fs)
        fs) [
          | none ↦ none
          | some (st, after) ↦
              if ok st then some (remove error_text sys_remove path after) else some (st, after)
        ]
