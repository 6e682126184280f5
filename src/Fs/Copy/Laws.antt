-- ===== src/Fs/Copy/Laws.antt =====
-- What `CopyFile` leaves.
use altas.Prelude.{
  ℕ, Bool, zero, suc, ◌+◌, ◌≡◌, ◌≢◌, ◌<◌, ◌⊎◌, refl, sym, ap, ◌∙◌, subst, inl, inr, Bool-cases,
  Option-cases, true, false, [], ◌∷◌, ◌++◌, append_assoc, append-nil, Option, none, some, Bytes,
  codes, decimal, is_empty, length, length-drop, take, drop, ◌==◌, arith,
}
use altas.Status.{Status, ok, new_status}
use altas.Status.Errno.{Errno, no_error, errno_to_status}
use altas.Fs.Copy.{FileIo, read_status, copy_loop, close_both, copy_file}

drop-drop : (p k : ℕ) (xs : Bytes) → drop k (drop p xs) ≡ drop (p + k) xs
drop-drop zero k xs = ap (λ n. drop n xs) (omega arith)
drop-drop (suc p) k [] = drop_nil k ∙ sym (drop_nil (suc p + k))
  where
    drop_nil : (k : ℕ) → drop k (let xs : Bytes = [] in xs) ≡ []
    drop_nil zero = refl
    drop_nil (suc k) = refl
drop-drop (suc p) k (x ∷ xs) =
    let e : suc p + k ≡ suc (p + k) = omega arith in
    drop-drop p k xs ∙ ap (λ n. drop n (x ∷ xs)) (sym e)

-- What one call reads, and what is left.
take-append-drop-length : (n : ℕ) (xs : Bytes) → take n xs ++ drop (length (take n xs)) xs ≡ xs
take-append-drop-length zero xs = refl
take-append-drop-length (suc n) [] = refl
take-append-drop-length (suc n) (x ∷ xs) = ap (◌∷◌ x) (take-append-drop-length n xs)

nil_of_take : (n : ℕ) (xs : Bytes) → is_empty (take (suc n) xs) ≡ true → xs ≡ []
nil_of_take n [] e = refl
nil_of_take n (x ∷ xs) e = absurd cc

shorter :
    (n : ℕ) (xs : Bytes)
    → is_empty (take (suc n) xs) ≡ false
    → length (drop (length (take (suc n) xs)) xs) < length xs
shorter n [] e = absurd cc
shorter n (x ∷ xs) e = omega (arith, length-drop (length (take n xs)) xs)

not_ok :
    (error_text : Errno → Bytes) (err : Errno) (text : Bytes)
    → err ≢ no_error
    → ok (errno_to_status error_text err text) ≡ false
unfolding ok errno_to_status new_status
not_ok error_text no_error text n = absurd (n refl)
not_ok error_text _ text n = refl

-- What is relied on of the C library, for two files apart. `content` is what is in a file, and
-- `written` what was written to the stream of a file, of which a part may still be in its buffer;
-- `lost` tells that a stream could not write its buffer when it was closed. A read gives a part of
-- what is left, and nothing only at the end or with the error flag.
pub record IsFileIo {F : Type 0} (io : FileIo F) (content written : F → Bytes → Option Bytes)
    (lost : F → Bool) (src dst : Bytes) : Type 0 where
  pub reads :
      (pos : ℕ) (fs : F) (text : Bytes)
      → content fs src ≡ some text
      → ((n : ℕ) × (io.fread src pos fs ≡ take (suc n) (drop pos text)))
        ⊎ ((io.fread src pos fs ≡ []) × (io.read_error src fs ≢ no_error))
  pub writes :
      (chunk : Bytes) (fs : F) (done : Bytes)
      → written fs dst ≡ some done
      → ((io.fwrite dst chunk fs).0 == length chunk) ≡ true
      → written (io.fwrite dst chunk fs).1 dst ≡ some (done ++ chunk)
  pub short :
      (chunk : Bytes) (fs : F)
      → ((io.fwrite dst chunk fs).0 == length chunk) ≡ false
      → io.write_error dst (io.fwrite dst chunk fs).1 ≢ no_error
  pub apart : (chunk : Bytes) (fs : F) → content (io.fwrite dst chunk fs).1 src ≡ content fs src
  pub creates :
      (fs after : F)
      → io.create dst fs ≡ some after
      → (written after dst ≡ some []) × (content after src ≡ content fs src)
  pub closes_source :
      (fs : F)
      → (content (io.fclose src fs) src ≡ content fs src)
        × (written (io.fclose src fs) dst ≡ written fs dst)
  pub closes :
      (fs : F) (done : Bytes)
      → written fs dst ≡ some done
      → (content (io.fclose dst fs) dst ≡ some done) ⊎ (lost (io.fclose dst fs) ≡ true)
  pub closes_apart : (fs : F) → content (io.fclose dst fs) src ≡ content fs src
  pub fails_open : (fs : F) → io.can_read src fs ≡ false → io.errno fs ≢ no_error
  pub fails_create : (fs : F) → io.create dst fs ≡ none → io.errno (io.fclose src fs) ≢ no_error

module _ {F : Type 0} (error_text : Errno → Bytes) (io : FileIo F)
    (content written : F → Bytes → Option Bytes) (lost : F → Bool) (src dst : Bytes)
    (law : IsFileIo io content written lost src dst) where
  -- The copy is not reported as done, or all of the text was written to the stream; and the source
  -- is what it was.
  abbrev Written : Bytes → Status × F → Type 0
  Written text r =
      ((ok r.0 ≡ false) ⊎ (written r.1 dst ≡ some text)) × (content r.1 src ≡ some text)

  -- The copy is not reported as done, or it is the text, or its end was lost when its stream was
  -- closed; and the source is what it was.
  abbrev pub Copied : Bytes → Status × F → Type 0
  Copied text r =
      ((ok r.0 ≡ false) ⊎ ((content r.1 dst ≡ some text) ⊎ (lost r.1 ≡ true)))
      × (content r.1 src ≡ some text)

  both_closed :
      (text : Bytes) (st : Status) (fs : F)
      → Written text (st, fs)
      → Copied text (st, io.fclose dst (io.fclose src fs))
  both_closed text st fs (inl e, s) =
      (inl e, law.closes_apart (io.fclose src fs) ∙ (law.closes_source fs).0 ∙ s)
  both_closed text st fs (inr e, s) = (
    inr (law.closes (io.fclose src fs) text ((law.closes_source fs).1 ∙ e)),
    law.closes_apart (io.fclose src fs) ∙ (law.closes_source fs).0 ∙ s,
  )

  read_fails : (err : Errno) → err ≢ no_error → ok (read_status error_text err) ≡ false
  unfolding read_status ok errno_to_status new_status
  read_fails no_error n = absurd (n refl)
  read_fails _ n = refl

  -- A read of nothing: the end, or an error.
  read_ends :
      (pos : ℕ) (fs : F) (text : Bytes)
      → content fs src ≡ some text
      → is_empty (io.fread src pos fs) ≡ true
      → (drop pos text ≡ []) ⊎ (ok (read_status error_text (io.read_error src fs)) ≡ false)
  read_ends pos fs text s e = elim (law.reads pos fs text s) [
    | inl (n, r) ↦ inl (nil_of_take n (drop pos text) (ap is_empty (sym r) ∙ e))
    | inr (r, n) ↦ inr (read_fails _ n)
  ]

  -- A read of something is a part of what is left.
  read_some :
      (pos : ℕ) (fs : F) (text : Bytes)
      → content fs src ≡ some text
      → is_empty (io.fread src pos fs) ≡ false
      → (n : ℕ) × (io.fread src pos fs ≡ take (suc n) (drop pos text))
  read_some pos fs text s e = elim (law.reads pos fs text s) [
    | inl r ↦ r
    | inr (r, n) ↦ absurd (let z : true ≡ false = ap is_empty (sym r) ∙ e in cc)
  ]

  copy_round :
      (fuel pos : ℕ) (fs : F)
      → is_empty (io.fread src pos fs) ≡ false
      → ((io.fwrite dst (io.fread src pos fs) fs).0 == length (io.fread src pos fs)) ≡ true
      → copy_loop error_text io (suc fuel) src dst pos fs
        ≡ copy_loop error_text io fuel src dst
            (pos + length (io.fread src pos fs))
            (io.fwrite dst (io.fread src pos fs) fs).1
  unfolding copy_loop
  copy_round fuel pos fs e w = rw (e, w) refl

  copy_loop-Written :
      (fuel pos : ℕ) (fs : F) (text done : Bytes)
      → content fs src ≡ some text
      → written fs dst ≡ some done
      → done ++ drop pos text ≡ text
      → length (drop pos text) < fuel
      → (r : Status × F) × (copy_loop error_text io fuel src dst pos fs ≡ some r) × Written text r
  copy_loop-Written zero pos fs text done s d k l = absurd (omega arith)
  copy_loop-Written (suc fuel) pos fs text done s d k l =
      let chunk = io.fread src pos fs in
      let after = (io.fwrite dst chunk fs).1 in
      elim (Bool-cases (is_empty chunk)) [
        | inl e ↦ (
          (read_status error_text (io.read_error src fs), fs),
          unfold copy_loop in rw e refl,
          (
            elim (read_ends pos fs text s e) [
              | inl left ↦
                  inr (d ∙ ap some (sym (append-nil done) ∙ ap (λ z. done ++ z) (sym left) ∙ k))
              | inr bad ↦ inl bad
            ],
            s,
          ),
        )
        | inr e ↦ elim (Bool-cases ((io.fwrite dst chunk fs).0 == length chunk)) [
          | inl w ↦
              let (n, read) = read_some pos fs text s e in
              let next : drop (length chunk) (drop pos text) ≡ drop (pos + length chunk) text =
                drop-drop pos (length chunk) text in
              let parts : chunk ++ drop (length chunk) (drop pos text) ≡ drop pos text =
                subst (λ z. z ++ drop (length z) (drop pos text) ≡ drop pos text) (sym read)
                  (take-append-drop-length (suc n) (drop pos text)) in
              let kept : (done ++ chunk) ++ drop (pos + length chunk) text ≡ text =
                append_assoc done chunk (drop (pos + length chunk) text)
                ∙ ap (λ z. done ++ (chunk ++ z)) (sym next)
                ∙ ap (λ z. done ++ z) parts
                ∙ k in
              let less : length (drop (length chunk) (drop pos text)) < length (drop pos text) =
                subst (λ z. length (drop (length z) (drop pos text)) < length (drop pos text))
                  (sym read) (shorter n (drop pos text) (ap is_empty (sym read) ∙ e)) in
              let (r, f, c) =
                copy_loop-Written fuel (pos + length chunk) after text (done ++ chunk)
                  (law.apart chunk fs ∙ s) (law.writes chunk fs done d w) kept
                  (omega (arith, less, ap length next)) in
              (r, copy_round fuel pos fs e w ∙ f, c)
          | inr w ↦ (
            (
              errno_to_status error_text (io.write_error dst after)
                  (codes "failed to write dst file with " ++ decimal (length chunk)),
              after,
            ),
            unfold copy_loop in rw (e, w) refl,
            (inl (not_ok error_text _ _ (law.short chunk fs w)), law.apart chunk fs ∙ s),
          )
        ]
      ]

  -- `CopyFile` of a file ends within one call of `fread` more than the file has bytes, and leaves the
  -- source as it was; if it returns ok, the destination holds the bytes of the source, unless its
  -- stream lost what was in its buffer when it was closed: for two files apart, reads that give
  -- nothing only at the end or with an error, and streams that show their errors.
  pub copy_file_lem :
      (fuel : ℕ) (fs : F) (text : Bytes)
      → content fs src ≡ some text
      → length text < fuel
      → (r : Status × F) × (copy_file error_text io fuel src dst fs ≡ some r) × Copied text r
  unfolding copy_file close_both
  copy_file_lem fuel fs text s l = elim (Bool-cases (io.can_read src fs)) [
    | inr e ↦ (
      (errno_to_status error_text (io.errno fs) (codes "failed to open src " ++ src), fs),
      rw e refl,
      (inl (not_ok error_text _ _ (law.fails_open fs e)), s),
    )
    | inl e ↦ elim (Option-cases (io.create dst fs)) [
      | inl c ↦ (
        (
          errno_to_status error_text (io.errno (io.fclose src fs))
              (codes "failed to create dst " ++ src),
          io.fclose src fs,
        ),
        rw (e, c, copy_file) refl,
        (inl (not_ok error_text _ _ (law.fails_create fs c)), (law.closes_source fs).0 ∙ s),
      )
      | inr (after, c) ↦
          let (d, k) = law.creates fs after c in
          let ((st, last), f, g) = copy_loop-Written fuel 0 after text [] (k ∙ s) d refl l in
          (
            (st, io.fclose dst (io.fclose src last)),
            rw (e, c, copy_file) (ap (close_both error_text io src dst) f),
            both_closed text st last g,
          )
    ]
  ]
