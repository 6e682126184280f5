-- ===== src/Tests/Fs.antt =====
-- Paths and directories: cppboot/base/fs.cc.
use altas.Prelude.{
  ℕ, ◌≡◌, refl, ◌⊎◌, inl, inr, Bool, true, false, List, [], ◌∷◌, Bytes, codes, if◌then◌else◌,
  bytes_eq, All,
}
use altas.Status.{Status, ok, ok_status}
use altas.Status.Errno.{Errno, no_error}
use altas.Fs.{mkdir_all, mkdir_loop, mkdir, mkdir_of, mkdir_status}
use altas.Fs.Dirs.{parents, mkdir_all-Exists}

-- A file system that holds the directories that were made.
abbrev HoldsDir : List Bytes → Bytes → Type 0
HoldsDir [] p = ⊥
HoldsDir (q ∷ fs) p = (q ≡ p) ⊎ HoldsDir fs p

abbrev sys_mkdir : Bytes → ℕ → List Bytes → Errno × List Bytes
sys_mkdir p mode fs = (no_error, p ∷ fs)

abbrev error_text : Errno → Bytes
error_text e = []

mkdir_all-Exists_example :
    All (HoldsDir (mkdir_all error_text sys_mkdir (codes "/a/b") 448 []).1) (parents (codes "/a/b"))
    × HoldsDir (mkdir_all error_text sys_mkdir (codes "/a/b") 448 []).1 (codes "/a/b")
unfolding mkdir_all ok mkdir_loop mkdir mkdir_of mkdir_status ok_status
mkdir_all-Exists_example =
    mkdir_all-Exists error_text sys_mkdir HoldsDir (λ p mode fs m. inl refl)
      (λ p q mode fs h. inr h) (codes "/a/b") 448 [] refl

-- A file system as the test of what exists, with one file in "/d". The names "." and ".." are
-- resolved there.
abbrev Files : Type 0
Files = Bytes → Bool

abbrev resolved : Bytes → Bytes
resolved p =
    if bytes_eq p (codes "/d/.")
    then codes "/d"
    else if bytes_eq p (codes "/d/..")
    then codes "/"
    else p

abbrev sys_remove : Bytes → Files → Errno × Files
sys_remove p fs = (no_error, λ q. if bytes_eq (resolved p) (resolved q) then false else fs q)

abbrev listing : Bool → Bool → List Bytes
listing true true = codes "." ∷ codes ".." ∷ codes "f" ∷ []
listing true false = codes "." ∷ codes ".." ∷ []
listing false b = []

abbrev readdir : Bytes → Files → List Bytes
readdir p fs = listing (bytes_eq p (codes "/d")) (fs (codes "/d/f"))

abbrev exists : Files → Bytes → Bool
exists fs p = fs p

abbrev IsAt : Bytes → Bytes → Type 0
IsAt p q = bytes_eq (resolved p) (resolved q) ≡ true

abbrev everything : Files
everything p = true
