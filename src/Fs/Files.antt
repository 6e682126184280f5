-- ===== src/Fs/Files.antt =====
-- The contents of files: cppboot/base/fs.cc. A call that opens a file and reads or writes it is a
-- parameter, where none is a file that could not be opened; what is read from a stream is its
-- chunks, in order.
use altas.Prelude.{◌≡◌, refl, false, [], Option, none, some, Bytes, codes, is_empty, if◌then◌else◌}
use altas.Status.{Status, ok_status, invalid_argument_error, cancelled_error}

module _ {F : Type 0} where
  -- An error of the writing itself is not looked at.
  unfoldable pub write_file : (Bytes → Bytes → F → Option F) → Bytes → Bytes → F → Status × F
  write_file sys_write filename content fs =
      if is_empty filename
      then (invalid_argument_error (codes "no filename"), fs)
      else elim (sys_write filename content fs) [
        | none ↦ (cancelled_error (codes "create file failed"), fs)
        | some after ↦ (ok_status, after)
      ]

  unfoldable pub read_file : (Bytes → F → Option Bytes) → Bytes → F → Bytes
  read_file sys_read filename fs =
      if is_empty filename
      then []
      else elim (sys_read filename fs) [ none ↦ [] | some content ↦ content ]

  pub write_file-made :
      (sys_write : Bytes → Bytes → F → Option F) (filename content : Bytes) (fs after : F)
      → is_empty filename ≡ false
      → sys_write filename content fs ≡ some after
      → write_file sys_write filename content fs ≡ (ok_status, after)
  unfolding write_file
  write_file-made sys_write filename content fs after e w = rw (e, w, write_file) refl
