-- ===== src/Net/Buffer/Laws.antt =====
-- What the buffer holds after each operation.
use altas.Prelude.{
  ℕ, ◌+◌, ◌-◌, ◌≡◌, ◌≤◌, ◌<◌, ◌^◌, refl, sym, ap, ◌∙◌, inl, inr, true, Bool-cases, ltb→lt, ◌++◌,
  some, Bytes, length, drop, replicate, ltb, arith, length-take, take_all, length-drop,
}
use altas.Words.{add_size, sub_size}
use altas.Net.Buffer.Slice.{slice, slice-copy_to, length-copy_to, length-resize, slice-append}
use altas.Net.Buffer.{
  cheap_prepend, Buffer, prependable_bytes, readable_bytes, writable_bytes, str, copy_to, resize,
  move_front, make_space, check_writable, ensure_writable_bytes, has_written, append,
}

-- No container of bytes is longer: `max_size` of vector.
abbrev pub max_size : ℕ
max_size = 2 ^ 63

-- The picture above the class: at least the cheap prefix, then the readable bytes, in bounds.
abbrev pub IsBuffer : Buffer → Type 0
IsBuffer b =
    (cheap_prepend ≤ b.reader)
    × (b.reader ≤ b.writer)
    × (b.writer ≤ length b.buffer)
    × (length b.buffer < max_size)

sub_size_le : (a b : ℕ) → b ≤ a → a < max_size → sub_size a b ≡ a - b
sub_size_le a b h k = omega arith

module _ (b : Buffer) (h : IsBuffer b) where
  pub readable_bytes_lem : readable_bytes b ≡ b.writer - b.reader
  unfolding readable_bytes
  readable_bytes_lem = omega arith

  pub str_lem : str b ≡ slice b.reader b.writer b.buffer
  unfolding str
  str_lem = rw readable_bytes_lem refl

  pub length-str : length (str b) ≡ b.writer - b.reader
  length-str = omega (
    arith,
    ap length str_lem,
    length-take (b.writer - b.reader) (drop b.reader b.buffer),
    length-drop b.reader b.buffer,
  )

  front_writer : (move_front b).writer ≡ cheap_prepend + length (str b)
  unfolding move_front
  front_writer = omega (arith, length-str, readable_bytes_lem)

  front_length : length (move_front b).buffer ≡ length b.buffer
  unfolding move_front
  front_length = length-copy_to cheap_prepend (str b) b.buffer (omega (arith, length-str))

  move_front-IsBuffer : IsBuffer (move_front b)
  unfolding move_front
  move_front-IsBuffer = (
    omega arith,
    omega (arith, front_writer),
    omega (arith, front_writer, front_length, length-str),
    omega (arith, front_length),
  )

module _ (b : Buffer) (h : IsBuffer b) where
  move_front-str : str (move_front b) ≡ str b
  unfolding move_front
  move_front-str =
      str_lem (move_front b) (move_front-IsBuffer b h)
      ∙ ap (λ z. slice cheap_prepend z (move_front b).buffer) (front_writer b h)
      ∙ slice-copy_to cheap_prepend cheap_prepend (str b) b.buffer (omega arith) (omega arith)

  writable_bytes_lem : writable_bytes b ≡ length b.buffer - b.writer
  unfolding writable_bytes
  writable_bytes_lem = omega arith

-- The number of readable bytes is that of the bytes that can be read.
pub readable_bytes-str : (b : Buffer) → IsBuffer b → readable_bytes b ≡ length (str b)
readable_bytes-str b h = readable_bytes_lem b h ∙ sym (length-str b h)

-- The buffer has the same readable bytes as the other, room for `len` more, and no more before
-- that room.
abbrev pub IsRoom : ℕ → Buffer → Buffer → Type 0
IsRoom len b c =
    IsBuffer c × (str c ≡ str b) × (c.writer + len ≤ length c.buffer) × (c.writer ≤ b.writer)

module _ (len : ℕ) (b : Buffer) (h : IsBuffer b) (m : b.writer + len < max_size) where
  resized-IsRoom :
      writable_bytes b < len
      → IsRoom len b (record b { buffer = resize (add_size b.writer len) b.buffer })
  resized-IsRoom w = (kept, same, omega (arith, size), omega arith)
    where
      c : Buffer
      c = record b { buffer = resize (add_size b.writer len) b.buffer }

      size : length (resize (add_size b.writer len) b.buffer) ≡ b.writer + len
      size = omega (arith, length-resize (add_size b.writer len) b.buffer)

      kept : IsBuffer c
      kept = (omega arith, omega arith, omega (arith, size), omega (arith, size))

      same : str c ≡ str b
      same =
          str_lem c kept
          ∙ ap
              (λ z.
                slice b.reader b.writer
                  (z ++ replicate (add_size b.writer len - length b.buffer) 0))
              (take_all _ b.buffer (omega (arith, writable_bytes_lem b h)))
          ∙ slice-append b.reader b.writer b.buffer _ (omega arith) (omega arith)
          ∙ sym (str_lem b h)

  -- Making space never fails its assertion.
  make_space_lem :
      writable_bytes b < len → (c : Buffer) × (make_space len b ≡ some c) × IsRoom len b c
  unfolding make_space prependable_bytes
  make_space_lem w =
      elim (Bool-cases (ltb (add_size (writable_bytes b) b.reader) (add_size len cheap_prepend))) [
        | inl q ↦ (_, rw (q, make_space), resized-IsRoom w)
        | inr q ↦
            let moved : ltb cheap_prepend b.reader ≡ true =
              ground (arith, writable_bytes_lem b h) in
            (
              move_front b,
              rw (q, moved, make_space),
              (
                move_front-IsBuffer b h,
                move_front-str b h,
                ground (
                  arith,
                  writable_bytes_lem b h,
                  front_writer b h,
                  front_length b h,
                  length-str b h,
                ),
                omega (arith, front_writer b h, length-str b h),
              ),
            )
      ]

  room_checked : (c : Buffer) → IsRoom len b c → check_writable len c ≡ some c
  unfolding check_writable
  room_checked c (k, s, r, w) = ground (arith, writable_bytes_lem c k)

  ensure_writable_bytes_lem : (c : Buffer) × (ensure_writable_bytes len b ≡ some c) × IsRoom len b c
  unfolding ensure_writable_bytes check_writable
  ensure_writable_bytes_lem = elim (Bool-cases (ltb (writable_bytes b) len)) [
    | inl q ↦
        let (c, e, r) = make_space_lem (ltb→lt _ _ q) in
        (c, rw (q, e, ensure_writable_bytes, room_checked c r), r)
    | inr q ↦ (b, ground arith, (h, refl, ground (arith, writable_bytes_lem b h), omega arith))
  ]

module _ (source : Bytes) (r : Buffer) (k : IsBuffer r)
    (room : r.writer + length source ≤ length r.buffer) where
  abbrev copied : Buffer
  copied = record r { buffer = copy_to r.writer source r.buffer }

  abbrev result : Buffer
  result = record copied { writer = add_size r.writer (length source) }

  copied-IsBuffer : IsBuffer copied
  copied-IsBuffer = (
    omega arith,
    omega arith,
    omega (arith, length-copy_to r.writer source r.buffer room),
    omega (arith, length-copy_to r.writer source r.buffer room),
  )

  written : has_written (length source) copied ≡ some result
  unfolding has_written
  written = ground (
    arith,
    writable_bytes_lem copied copied-IsBuffer,
    length-copy_to r.writer source r.buffer room,
  )

  written-IsBuffer : IsBuffer result
  written-IsBuffer = (
    omega arith,
    omega arith,
    omega (arith, length-copy_to r.writer source r.buffer room),
    omega (arith, length-copy_to r.writer source r.buffer room),
  )

  written-str : str result ≡ str r ++ source
  written-str =
      str_lem result written-IsBuffer
      ∙ ap (λ z. slice r.reader z (copy_to r.writer source r.buffer)) (omega arith)
      ∙ slice-copy_to r.reader r.writer source r.buffer (omega arith) (omega arith)
      ∙ ap (λ z. z ++ source) (sym (str_lem r k))

-- Appending to a buffer whose indices are in order and in bounds succeeds if the end of the readable
-- bytes and the new ones are together fewer than the largest vector has: no assertion fails, the
-- readable bytes are then those before with the new ones behind them, the indices are in order and
-- in bounds, and the end moves by no more than the new bytes.
pub append_lem :
    (source : Bytes) (b : Buffer)
    → IsBuffer b
    → b.writer + length source < max_size
    → (c : Buffer) × (append source b ≡ some c)
      × IsBuffer c
      × (str c ≡ str b ++ source)
      × (c.writer ≤ b.writer + length source)
unfolding append has_written
append_lem source b h m =
    let (r, e, (k, s, room, low)) = ensure_writable_bytes_lem (length source) b h m in
    (
      _,
      rw (e, append) (written source r k room),
      written-IsBuffer source r k room,
      written-str source r k room ∙ ap (λ z. z ++ source) s,
      omega arith,
    )
