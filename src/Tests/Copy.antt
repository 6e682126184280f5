-- ===== src/Tests/Copy.antt =====
-- Copies of files: cppboot/base/fs.cc.
use altas.Prelude.{
  ◌≡◌, ◌∙◌, inl, append_assoc, Bool, false, refl, sym, ap, [], ◌++◌, true, Option, none, some,
  some_inj, Bytes, codes, length, take, drop, if◌then◌else◌, bytes_eq, arith,
}
use altas.Status.{Status}
use altas.Status.Errno.{Errno, no_error, enoent}
use altas.Fs.Copy.{FileIo, copy_file}
use altas.Fs.Copy.Laws.{IsFileIo, Copied, copy_file_lem}

-- Two files, "a" and "b", with what is in the buffer of the stream that writes "b". A read gives two
-- bytes.
abbrev TwoFiles : Type 0
TwoFiles = Bytes × Bytes × Bytes

abbrev content_of : TwoFiles → Bytes → Option Bytes
content_of (a, b, waits) path =
    if bytes_eq path (codes "a") then some a else if bytes_eq path (codes "b") then some b else none

abbrev written_of : TwoFiles → Bytes → Option Bytes
written_of (a, b, waits) path = some (b ++ waits)

abbrev nothing_lost : TwoFiles → Bool
nothing_lost fs = false

abbrev close : Bytes → TwoFiles → TwoFiles
close path (a, b, waits) = if bytes_eq path (codes "b") then (a, b ++ waits, []) else (a, b, waits)

abbrev two_files : FileIo TwoFiles
two_files = record {
  can_read = λ path fs. true;
  create = λ path fs. some (fs.0, [], []);
  errno = λ fs. enoent;
  fread = λ path pos fs. take 2 (drop pos fs.0);
  read_error = λ path fs. no_error;
  fwrite = λ path chunk fs. (length chunk, (fs.0, fs.1, fs.2 ++ chunk));
  write_error = λ path fs. enoent;
  fclose = close;
}

two_files-IsFileIo : IsFileIo two_files content_of written_of nothing_lost (codes "a") (codes "b")
unfolding bytes_eq
two_files-IsFileIo = record {
  reads = λ pos fs text h. inl (1, ap (λ z. take 2 (drop pos z)) (some_inj h));
  writes = λ chunk fs done h w.
      ap some (sym (append_assoc fs.1 fs.2 chunk)) ∙ ap (λ z. some (z ++ chunk)) (some_inj h);
  short = λ chunk fs w. absurd (ground arith);
  apart = λ chunk fs. refl;
  creates = λ fs after e. (
    ap (λ (z : TwoFiles). some (z.1 ++ z.2)) (sym (some_inj e)),
    ap (λ (z : TwoFiles). some z.0) (sym (some_inj e)),
  );
  closes_source = λ fs. (refl, refl);
  closes = λ fs done h. inl h;
  closes_apart = λ fs. refl;
  fails_open = λ fs e. absurd (cc);
  fails_create = λ fs e. absurd (cc);
}

abbrev nothing : Errno → Bytes
nothing e = []

abbrev source : TwoFiles
source = (codes "hello", codes "old", [])

copy_file_lem_example :
    (r : Status × TwoFiles) × (copy_file nothing two_files 6 (codes "a") (codes "b") source
      ≡ some r)
    × Copied nothing two_files content_of written_of nothing_lost
        (codes "a")
        (codes "b")
        two_files-IsFileIo
        (codes "hello")
        r
unfolding bytes_eq
copy_file_lem_example =
    copy_file_lem nothing two_files content_of written_of nothing_lost (codes "a") (codes "b")
      two_files-IsFileIo 6 source (codes "hello") refl (omega arith)
