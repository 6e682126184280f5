-- ===== src/Fs/RemoveAll/Laws.antt =====
-- What `RemoveAll` removes.
use altas.Prelude.{ℕ, zero, suc, ◌≡◌, ◌⊎◌, List, Option, Bytes, All}
use altas.Status.{Status}
use altas.Status.Errno.{Errno, no_error, enoent}
use altas.Fs.{path_join}
use altas.Fs.RemoveAll.{get_directory_children, remove_all}

-- What a call of `remove` answered when the path is gone.
abbrev pub IsGone : Errno → Type 0
IsGone err = (err ≡ no_error) ⊎ (err ≡ enoent)

module _ {F : Type 0} (error_text : Errno → Bytes) (readdir : Bytes → F → List Bytes)
    (sys_remove : Bytes → F → Errno × F) where
  abbrev children : Bytes → F → List Bytes
  children = get_directory_children error_text readdir sys_remove

  abbrev pub removal : ℕ → Bytes → F → Option (Status × F)
  removal = remove_all error_text readdir sys_remove

  -- The paths that are found from `p` on by the names that `readdir` gives, `.` and `..` left out,
  -- are nested less than `n` deep, and `P` holds for each of them.
  abbrev pub Tree : (Bytes → Type 0) → ℕ → Bytes → F → Type 0
  Tree P zero p fs = ⊥
  Tree P (suc n) p fs = P p × All (λ i. Tree P n (path_join p i) fs) (children p fs)

  -- A run of `remove` calls on paths for which `P` holds.
  pub data Removes (P : Bytes → Type 0) : F → F → Type 0 where
    none_left : {fs : F} → Removes P fs fs
    one :
        {fs after : F} (q : Bytes) → P q → Removes P (sys_remove q fs).1 after → Removes P fs after
