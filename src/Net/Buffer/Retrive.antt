-- ===== src/Net/Buffer/Retrive.antt =====
-- What the buffer holds after bytes are retrieved.
use altas.Prelude.{
  ℕ, ◌+◌, ◌-◌, ◌≡◌, ◌≤◌, ◌<◌, refl, sym, ap, ◌∙◌, inl, inr, Bool-cases, ltb→lt, take, drop, ltb,
  arith,
}
use altas.Words.{add_size}
use altas.Net.Buffer.Slice.{drop-take, slice, drop-drop, drop_all}
use altas.Net.Buffer.{Buffer, readable_bytes, str, retrive, retrive_all}
use altas.Net.Buffer.Laws.{IsBuffer, readable_bytes_lem, length-str, str_lem}

module _ (len : ℕ) (b : Buffer) (h : IsBuffer b) where
  taken-IsBuffer : len < readable_bytes b → IsBuffer (record b { reader = add_size b.reader len })
  taken-IsBuffer l = (
    omega (arith, readable_bytes_lem b h),
    omega (arith, readable_bytes_lem b h),
    omega arith,
    omega arith,
  )

  taken-str :
      len < readable_bytes b → str (record b { reader = add_size b.reader len }) ≡ drop len (str b)
  taken-str l =
      str_lem _ (taken-IsBuffer l)
      ∙ ap (λ z. slice z b.writer b.buffer) reader_lem
      ∙ ap (take (b.writer - (b.reader + len)))
          (drop-drop b.reader len (b.reader + len) b.buffer refl)
      ∙ sym (
          drop-take len (b.writer - b.reader) (b.writer - (b.reader + len)) (drop b.reader b.buffer)
            (omega (arith, readable_bytes_lem b h)))
      ∙ ap (drop len) (sym (str_lem b h))
    where
      reader_lem : add_size b.reader len ≡ b.reader + len
      reader_lem = omega (arith, readable_bytes_lem b h)

  all-IsBuffer : IsBuffer (retrive_all b)
  unfolding retrive_all
  all-IsBuffer = (omega arith, omega arith, omega arith, omega arith)

  pub retrive_low : (retrive len b).writer ≤ b.writer
  unfolding retrive retrive_all
  retrive_low = ground arith

  -- Retrieving from a buffer whose indices are in order and in bounds keeps them so, and takes the
  -- first `len` bytes off the readable ones, all of them if there are no more.
  pub retrive_lem : IsBuffer (retrive len b) × (str (retrive len b) ≡ drop len (str b))
  unfolding retrive retrive_all
  retrive_lem = elim (Bool-cases (ltb len (readable_bytes b))) [
    | inl q ↦ rw (q, retrive) (taken-IsBuffer (ltb→lt _ _ q), taken-str (ltb→lt _ _ q))
    | inr q ↦
        rw (q, retrive)
          (
            all-IsBuffer,
            str_lem _ all-IsBuffer
                ∙ sym
                    (drop_all len (str b) (ground (arith, readable_bytes_lem b h, length-str b h))),
          )
  ]
