-- ===== src/Fs.antt =====
-- cppboot/base/fs.h and fs.cc, off Windows. A call of the operating system is a parameter: a function of its
-- arguments and of the state of the file system, which returns `errno`, 0 for success, and the new state.
pub mod Paths
pub mod Dirs
pub mod Files
pub mod RemoveAll
pub mod Copy
use altas.Prelude.{
  ℕ, suc, ◌+◌, ◌≡◌, Bool, true, false, ◌&&◌, ◌||◌, not, List, [], ◌∷◌, ◌++◌, Option, none, some,
  Bytes, codes, is_empty, take, drop, get_or, if◌then◌else◌, ◌==◌, leb,
}
use altas.Status.{Status, ok, ok_status, invalid_argument_error}
use altas.Status.Errno.{Errno, no_error, eexist, enoent, errno_to_status}
use altas.StrUtil.{str_append, str_trim, str_trim_right, str_split, find_last_of}

abbrev pub separator : Bytes
separator = codes "/"

-- One more part behind a path.
abbrev append_part : Bytes → Bytes → Bytes
append_part result b = str_append (result ++ separator) (str_trim b separator)

unfoldable pub path_join : Bytes → Bytes → Bytes
path_join a b = append_part (str_append [] (str_trim_right a separator)) b

unfoldable pub path_join3 : Bytes → Bytes → Bytes → Bytes
path_join3 a b c = append_part (append_part (str_append [] (str_trim_right a separator)) b) c

unfoldable pub path_join4 : Bytes → Bytes → Bytes → Bytes → Bytes
path_join4 a b c d =
    append_part (append_part (append_part (str_append [] (str_trim_right a separator)) b) c) d

unfoldable pub path_join5 : Bytes → Bytes → Bytes → Bytes → Bytes → Bytes
path_join5 a b c d e =
    append_part
      (append_part (append_part (append_part (str_append [] (str_trim_right a separator)) b) c) d) e

unfoldable pub not_empty_ones : List Bytes → List Bytes
not_empty_ones [] = []
not_empty_ones (i ∷ vec) = let rest = not_empty_ones vec in if is_empty i then rest else i ∷ rest

-- None is out of fuel.
unfoldable pub path_split : Bytes → Option (List Bytes)
path_split path = if is_empty path then some [] else elim (str_split path b'/') [
  | none ↦ none
  | some vec ↦ some ((if get_or path 0 0 == b'/' then separator ∷ [] else []) ++ not_empty_ones vec)
]

unfoldable pub get_temp_path : Bytes → Bytes
get_temp_path name = codes "/tmp/" ++ name

unfoldable pub dir : Bytes → Bytes
dir path = elim (find_last_of (codes "/\\") path) [ none ↦ [] | some pos ↦ take pos path ]

-- The view ends where its text ends, with a zero byte.
unfoldable pub basename : Bytes → Bytes
basename path = elim (find_last_of (codes "/") path) [
  | some pos ↦ drop (pos + 1) path
  | none ↦ elim (find_last_of (codes "\\") path) [ some pos ↦ drop (pos + 1) path | none ↦ path ]
]

module _ (error_text : Errno → Bytes) where
  unfoldable pub remove_status : Bytes → Errno → Status
  remove_status path no_error = ok_status
  remove_status path enoent = ok_status
  remove_status path err = errno_to_status error_text err (codes "failed to delete: " ++ path)

  unfoldable pub mkdir_status : Bytes → Errno → Status
  mkdir_status path no_error = ok_status
  mkdir_status path eexist = ok_status
  mkdir_status path err = errno_to_status error_text err (codes "failed to mkdir: " ++ path)

  module _ {F : Type 0} where
    unfoldable pub remove : (Bytes → F → Errno × F) → Bytes → F → Status × F
    remove sys_remove path fs =
        let (err, after) = sys_remove path fs in (remove_status path err, after)

    module _ (sys_mkdir : Bytes → ℕ → F → Errno × F) where
      -- `Mkdir` of the buffer `buf`, of which the system sees `path`, the part before the first NUL.
      unfoldable pub mkdir_of : Bytes → Bytes → ℕ → F → Status × F
      mkdir_of buf path mode fs =
          let (err, after) = sys_mkdir path mode fs in (mkdir_status buf err, after)

      unfoldable pub mkdir : Bytes → ℕ → F → Status × F
      mkdir path mode fs = mkdir_of path path mode fs

      abbrev pub default_mode : ℕ
      default_mode = 493

      -- The loop over the separators from the position `i` on, where `rest` is the path from
      -- there; and the last call. The separator in the buffer is a NUL during a call. A path holds
      -- no other NUL.
      unfoldable pub mkdir_loop : Bytes → ℕ → ℕ → Bytes → F → Status × F
      mkdir_loop path mode i [] fs = mkdir path default_mode fs
      mkdir_loop path mode i (c ∷ rest) fs =
          let (st, after) =
            mkdir_of (take i path ++ 0 ∷ drop (i + 1) path) (take i path) default_mode fs in
          let skip = mkdir_loop path mode (i + 1) rest fs in
          let enter = mkdir_loop path mode (i + 1) rest after in
          if c == b'/' then (if ok st then enter else (st, after)) else skip

      -- The mode is not handed on to `Mkdir`.
      unfoldable pub mkdir_all : Bytes → ℕ → F → Status × F
      mkdir_all path mode fs = mkdir_loop path mode 1 (drop 1 path) fs
