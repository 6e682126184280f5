-- ===== src/Fs/Dirs.antt =====
-- What `MkdirAll` leaves.
use altas.Prelude.{
  ℕ, ◌+◌, ◌≡◌, refl, ◌⊎◌, inl, inr, Bool-cases, true, false, List, [], ◌∷◌, ◌++◌, Bytes, take, drop,
  if◌then◌else◌, ◌==◌, All,
}
use altas.Status.{Status, ok, new_status}
use altas.Status.Errno.{Errno, no_error, eexist, errno_to_status}
use altas.Fs.{mkdir_status, mkdir_of, mkdir, mkdir_loop, mkdir_all}

-- The parts of a path up to a separator that is not its first byte.
abbrev parents_from : Bytes → ℕ → Bytes → List Bytes
parents_from path i [] = []
parents_from path i (c ∷ rest) =
    if c == b'/'
    then take i path ∷ parents_from path (i + 1) rest
    else parents_from path (i + 1) rest

abbrev pub parents : Bytes → List Bytes
parents path = parents_from path 1 (drop 1 path)

-- What a call of `mkdir` answered when it did its work or found it done.
abbrev IsMade : Errno → Type 0
IsMade err = (err ≡ no_error) ⊎ (err ≡ eexist)

module _ (error_text : Errno → Bytes) where
  mkdir_status-IsMade :
      (path : Bytes) (err : Errno) → ok (mkdir_status error_text path err) ≡ true → IsMade err
  unfolding mkdir_status ok errno_to_status new_status
  mkdir_status-IsMade path no_error o = inl refl
  mkdir_status-IsMade path eexist o = inr refl
  mkdir_status-IsMade path _ o = absurd cc

  -- `Exists` tells at which paths there is a file, a directory or another one.
  module _ {F : Type 0} (sys_mkdir : Bytes → ℕ → F → Errno × F) (Exists : F → Bytes → Type 0)
      (makes : (p : Bytes) (mode : ℕ) (fs : F)
        → IsMade (sys_mkdir p mode fs).0
        → Exists (sys_mkdir p mode fs).1 p)
      (keeps : (p q : Bytes) (mode : ℕ) (fs : F)
        → Exists fs q
        → Exists (sys_mkdir p mode fs).1 q) where
    mkdir-Exists :
        (buf p : Bytes) (mode : ℕ) (fs : F)
        → ok (mkdir_of error_text sys_mkdir buf p mode fs).0 ≡ true
        → Exists (mkdir_of error_text sys_mkdir buf p mode fs).1 p
    unfolding mkdir_of
    mkdir-Exists buf p mode fs o =
        makes p mode fs (mkdir_status-IsMade buf (sys_mkdir p mode fs).0 o)

    loop_keeps :
        (path : Bytes) (mode i : ℕ) (rest q : Bytes) (fs : F)
        → Exists fs q
        → Exists (mkdir_loop error_text sys_mkdir path mode i rest fs).1 q
    unfolding mkdir_loop mkdir mkdir_of
    loop_keeps path mode i [] q fs e = keeps path q _ fs e
    loop_keeps path mode i (c ∷ rest) q fs e = elim (Bool-cases (c == b'/')) [
      | inl f ↦
          rw f
            (elim (Bool-cases (
              ok (
                mkdir_status error_text (take i path ++ 0 ∷ drop (i + 1) path)
                  (sys_mkdir (take i path) 493 fs).0))) [
                    | inl g ↦
                        rw g
                          (loop_keeps path mode (i + 1) rest q _ (keeps (take i path) q 493 fs e))
                    | inr g ↦ rw g (keeps (take i path) q 493 fs e)
                  ])
      | inr f ↦ rw f (loop_keeps path mode (i + 1) rest q fs e)
    ]

    -- One round of the loop.
    module _ (path : Bytes) (mode i c : ℕ) (rest : Bytes) (fs : F) where
      abbrev made_here : Status × F
      made_here =
          mkdir_of error_text sys_mkdir (take i path ++ 0 ∷ drop (i + 1) path) (take i path) 493 fs

      loop_skip :
          (c == b'/') ≡ false
          → mkdir_loop error_text sys_mkdir path mode i (c ∷ rest) fs
            ≡ mkdir_loop error_text sys_mkdir path mode (i + 1) rest fs
      unfolding mkdir_loop
      loop_skip f = rw f refl

      loop_enter :
          (c == b'/') ≡ true
          → ok made_here.0 ≡ true
          → mkdir_loop error_text sys_mkdir path mode i (c ∷ rest) fs
            ≡ mkdir_loop error_text sys_mkdir path mode (i + 1) rest made_here.1
      unfolding mkdir_loop
      loop_enter f g = rw (f, g) refl

      loop_stops :
          (c == b'/') ≡ true
          → ok made_here.0 ≡ false
          → ok (mkdir_loop error_text sys_mkdir path mode i (c ∷ rest) fs).0 ≡ false
      unfolding mkdir_loop
      loop_stops f g = rw (f, g) g

    loop-Exists :
        (path : Bytes) (mode i : ℕ) (rest : Bytes) (fs : F)
        → ok (mkdir_loop error_text sys_mkdir path mode i rest fs).0 ≡ true
        → All
            (Exists (mkdir_loop error_text sys_mkdir path mode i rest fs).1)
            (parents_from path i rest)
          × Exists (mkdir_loop error_text sys_mkdir path mode i rest fs).1 path
    loop-Exists path mode i [] fs =
        λ o. unfold mkdir_loop mkdir in (tt, mkdir-Exists path path 493 fs o)
    loop-Exists path mode i (c ∷ rest) fs = elim (Bool-cases (c == b'/')) [
      | inl f ↦ elim (Bool-cases (ok (made_here path mode i c rest fs).0)) [
        | inl g ↦
            rw (loop_enter path mode i c rest fs f g, f)
              (λ o.
                let (a, e) =
                  loop-Exists path mode (i + 1) rest (made_here path mode i c rest fs).1 o in
                (
                  (
                    loop_keeps path mode (i + 1) rest (take i path) _ (
                        mkdir-Exists (take i path ++ 0 ∷ drop (i + 1) path) (take i path) 493 fs g),
                    a,
                  ),
                  e,
                ))
        | inr g ↦ λ o. absurd (let h = loop_stops path mode i c rest fs f g in cc)
      ]
      | inr f ↦ rw (loop_skip path mode i c rest fs f, f) (loop-Exists path mode (i + 1) rest fs)
    ]

    -- If `MkdirAll` returns ok, there is a file or directory at the path and at each part of it up
    -- to a separator, for a `mkdir` of the operating system behind which there is one at its path
    -- when it succeeds or answers EEXIST, and which removes none.
    pub mkdir_all-Exists :
        (path : Bytes) (mode : ℕ) (fs : F)
        → ok (mkdir_all error_text sys_mkdir path mode fs).0 ≡ true
        → All (Exists (mkdir_all error_text sys_mkdir path mode fs).1) (parents path)
          × Exists (mkdir_all error_text sys_mkdir path mode fs).1 path
    unfolding mkdir_all
    mkdir_all-Exists path mode fs o = loop-Exists path mode 1 (drop 1 path) fs o
