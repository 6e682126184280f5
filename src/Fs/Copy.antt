-- ===== src/Fs/Copy.antt =====
-- `CopyFile`, `AppendFile` and the links of cppboot/base/fs.cc. What the C library does on a stream
-- is a parameter: `fread` gives what one call reads from a position on, `fwrite` the number of bytes
-- it took, the error flags of the streams are read as error numbers, as the code does, and `fclose`
-- is what is left of the answer that the code does not look at: the files behind it.
pub mod Laws
use altas.Prelude.{
  ℕ, zero, suc, ◌+◌, Bool, true, false, not, ◌||◌, ◌++◌, Option, none, some, Bytes, codes, decimal,
  is_empty, length, if◌then◌else◌, ◌==◌, ltb,
}
use altas.Status.{Status, ok_status}
use altas.Status.Errno.{Errno, no_error, errno_to_status}

pub record FileIo (F : Type 0) : Type 0 where
  pub can_read : Bytes → F → Bool
  pub create : Bytes → F → Option F
  pub errno : F → Errno
  pub fread : Bytes → ℕ → F → Bytes
  pub read_error : Bytes → F → Errno
  pub fwrite : Bytes → Bytes → F → ℕ × F
  pub write_error : Bytes → F → Errno
  pub fclose : Bytes → F → F

module _ (error_text : Errno → Bytes) where
  unfoldable pub read_status : Errno → Status
  read_status no_error = ok_status
  read_status err = errno_to_status error_text err (codes "failed to read src file")

  unfoldable pub link_status : Bytes → Errno → Status
  link_status text no_error = ok_status
  link_status text err = errno_to_status error_text err text

  -- A call of the system that takes two paths, and what it says if it fails.
  module _ {F : Type 0} (sys_call : Bytes → Bytes → F → Errno × F) where
    unfoldable pub hardlink : Bytes → Bytes → F → Status × F
    hardlink src dst fs =
        let (err, after) = sys_call src dst fs in
        (link_status (codes "failed to link " ++ (src ++ (codes " to " ++ dst))) err, after)

    unfoldable pub symlink : Bytes → Bytes → F → Status × F
    symlink src dst fs =
        let (err, after) = sys_call src dst fs in
        (link_status (codes "failed to symlink " ++ (src ++ codes " to ")) err, after)

    unfoldable pub rename : Bytes → Bytes → F → Status × F
    rename src dst fs =
        let (err, after) = sys_call src dst fs in
        (link_status (codes "failed to rename " ++ (src ++ (codes " to " ++ dst))) err, after)

  module _ {F : Type 0} (io : FileIo F) where
    -- One unit of fuel for each call of `fread`. None is out of fuel.
    unfoldable pub copy_loop : ℕ → Bytes → Bytes → ℕ → F → Option (Status × F)
    copy_loop zero src dst pos fs = none
    copy_loop (suc fuel) src dst pos fs =
        let chunk = io.fread src pos fs in
        let (nwrite, after) = io.fwrite dst chunk fs in
        let rest = copy_loop fuel src dst (pos + length chunk) after in
        if is_empty chunk
        then some (read_status (io.read_error src fs), fs)
        else if nwrite == length chunk
        then rest
        else some (
          errno_to_status error_text (io.write_error dst after)
              (codes "failed to write dst file with " ++ decimal (length chunk)),
          after,
        )

    close_both : Bytes → Bytes → Option (Status × F) → Option (Status × F)
    close_both src dst none = none
    close_both src dst (some (st, fs)) = some (st, io.fclose dst (io.fclose src fs))

    unfoldable pub copy_file : ℕ → Bytes → Bytes → F → Option (Status × F)
    unfolding close_both
    copy_file fuel src dst fs =
        if io.can_read src fs
        then elim (io.create dst fs) [
          | none ↦
              let closed = io.fclose src fs in
              some (
                errno_to_status error_text (io.errno closed) (codes "failed to create dst " ++ src),
                closed,
              )
          | some created ↦ close_both src dst (copy_loop fuel src dst 0 created)
        ]
        else some
            (errno_to_status error_text (io.errno fs) (codes "failed to open src " ++ src), fs)

-- On Linux: `open_append` gives the answer of `write` on the file that it opens, none if it cannot.
unfoldable pub append_file :
    {F : Type 0} → (Bytes → Bytes → F → Option (ℕ × F)) → Bytes → Bytes → F → Bool × F
append_file open_append filename text fs =
    if is_empty filename || is_empty text
    then (false, fs)
    else elim (open_append filename text fs) [
      | none ↦ (false, fs)
      | some (n, after) ↦ (ltb 0 n, after)
    ]
