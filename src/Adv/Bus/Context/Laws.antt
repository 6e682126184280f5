-- ===== src/Adv/Bus/Context/Laws.antt =====
-- Messages that come in one piece and in two.
use altas.Prelude.{
  subst, append-nil, length-drop, ltb→lt, ℕ, zero, suc, ◌+◌, ◌≡◌, ◌≢◌, ◌<◌, ◌≤◌, refl, sym, ap, ◌∙◌,
  inl, inr, true, false, Bool-cases, [], ◌∷◌, ◌++◌, Option, some, Bytes, length, length-append,
  take, drop, take-append, drop-append, get_or, ltb, arith, append_assoc,
}
use altas.Words.{u32_mod, u32_to_bytes, u32_at, u32_digits}
use altas.Net.Buffer.{Buffer, str, readable_bytes, retrive}
use altas.Net.Buffer.Slice.{drop-append_le}
use altas.Net.Buffer.Laws.{IsBuffer, readable_bytes-str}
use altas.Net.Buffer.Retrive.{retrive_lem}
use altas.Adv.Bus.Msg.{Msg, Document, msg_magic, unpack, header_bytes}
use altas.Adv.Bus.Msg.Laws.{framed}
use altas.Adv.Bus.Context.{
  k_continue, k_good, k_header, k_body, BusContext, Parsed, unpacked, parse_body, parse_header,
  parse,
}

-- The parse has delivered the message `n`, is at the start of the next one, and `rest` waits.
abbrev pub IsDelivered : Bytes → Msg → Parsed → Type 0
IsDelivered rest n (r, c, b, m) =
    (r ≡ k_good) × (c.state ≡ k_header) × IsBuffer b × (str b ≡ rest) × (m ≡ n)

module _ (read : Bytes → Option Document) (m n : Msg) (rest : Bytes) where
  parse_body_lem :
      (c : BusContext) (b : Buffer) (text : Bytes)
      → IsBuffer b
      → c.len ≡ length text
      → str b ≡ text ++ rest
      → unpack read text m ≡ some n
      → IsDelivered rest n (parse_body read c b m)
  unfolding parse_body unpacked
  parse_body_lem c b text h l e u =
      let all : ltb (readable_bytes b) c.len ≡ false =
        ground (arith, readable_bytes-str b h, ap length e, length-append text rest) in
      let taken : take c.len (str b) ≡ text = ap (take c.len) e ∙ take-append text rest c.len l in
      let left : str (retrive c.len b) ≡ rest =
        (retrive_lem c.len b h).1 ∙ ap (drop c.len) e ∙ drop-append text rest c.len l in
      rw (all, taken, u, parse_body) (refl, refl, (retrive_lem c.len b h).0, left, refl)

length-framed : (body : Bytes) → length (framed body) ≡ 9 + length body
unfolding header_bytes u32_to_bytes
length-framed body = omega (arith, length-append body (0 ∷ []))

framed-magic : (body rest : Bytes) → u32_at 0 (framed body ++ rest) ≡ msg_magic
unfolding header_bytes u32_at u32_to_bytes
framed-magic body rest = refl

framed-length :
    (body rest : Bytes)
    → length body + 1 < u32_mod
    → u32_at 4 (framed body ++ rest) ≡ length body + 1
unfolding header_bytes u32_at u32_to_bytes
framed-length body rest h = u32_digits (length body + 1) h

framed-drop : (body rest : Bytes) → drop 8 (framed body ++ rest) ≡ (body ++ 0 ∷ []) ++ rest
unfolding header_bytes u32_to_bytes
framed-drop body rest = refl

-- The context behind the header of a body.
abbrev in_body : BusContext → Bytes → BusContext
in_body c body = record c { state = k_body; magic = msg_magic; len = length body + 1 }

length-body : (body : Bytes) → length body + 1 ≡ length (body ++ 0 ∷ [])
length-body body = sym (length-append body (0 ∷ []))

module _ (read : Bytes → Option Document) (m : Msg) (body : Bytes)
    (short : length body + 1 < u32_mod) where
  -- The header of a message, at the front of a buffer.
  parse_header_lem :
      (c : BusContext) (b : Buffer)
      → IsBuffer b
      → 8 ≤ length (str b)
      → u32_at 0 (str b) ≡ msg_magic
      → u32_at 4 (str b) ≡ length body + 1
      → parse_header read c b m ≡ parse_body read (in_body c body) (retrive 8 b) m
  unfolding parse_header
  parse_header_lem c b h l g k =
      let enough : ltb (readable_bytes b) 8 ≡ false = ground (arith, readable_bytes-str b h) in
      rw (enough, g, k, parse_header)

  -- A message that has come whole is taken out of the buffer, and what follows it stays there, if
  -- the context is between two messages, the body is shorter than 2^32 - 1 bytes and the JSON
  -- library reads it.
  pub parse_framed :
      (n : Msg) (rest : Bytes) (c : BusContext) (b : Buffer)
      → c.state ≡ k_header
      → IsBuffer b
      → str b ≡ framed body ++ rest
      → unpack read (body ++ 0 ∷ []) m ≡ some n
      → IsDelivered rest n (parse read c b m)
  unfolding parse
  parse_framed n rest c b k h e u =
      let l : 8 ≤ length (str b) =
        omega (arith, ap length e, length-append (framed body) rest, length-framed body) in
      let left : str (retrive 8 b) ≡ (body ++ 0 ∷ []) ++ rest =
        (retrive_lem 8 b h).1 ∙ ap (drop 8) e ∙ framed-drop body rest in
      let start =
        parse_header_lem c b h l (ap (u32_at 0) e ∙ framed-magic body rest)
          (ap (u32_at 4) e ∙ framed-length body rest short) in
      rw (k, parse)
        (rw start (
          parse_body_lem read m n rest (in_body c body) (retrive 8 b) (body ++ 0 ∷ [])
            (retrive_lem 8 b h).0 (length-body body) left u))

get_or-append : (xs ys : Bytes) (i : ℕ) → i < length xs → get_or (xs ++ ys) i 0 ≡ get_or xs i 0
get_or-append [] ys i h = absurd (omega arith)
get_or-append (x ∷ xs) ys zero h = refl
get_or-append (x ∷ xs) ys (suc i) h = get_or-append xs ys i (omega arith)

u32_at-append : (i : ℕ) (xs ys : Bytes) → i + 3 < length xs → u32_at i (xs ++ ys) ≡ u32_at i xs
unfolding u32_at
u32_at-append i xs ys h = rw (
  get_or-append xs ys i (omega arith),
  get_or-append xs ys (i + 1) (omega arith),
  get_or-append xs ys (i + 2) (omega arith),
  get_or-append xs ys (i + 3) (omega arith),
)

-- The parse waits for more, and has not touched the message.
abbrev pub Waits : Msg → Parsed → Type 0
Waits m (r, c, b, n) = (r ≡ k_continue) × IsBuffer b × (n ≡ m)

ne-length : (s : Bytes) → s ≢ [] → 0 < length s
ne-length [] h = absurd (h refl)
ne-length (c ∷ s) h = omega arith

at_header :
    (read : Bytes → Option Document) (m : Msg) (c : BusContext) (b : Buffer)
    → c.state ≡ k_header
    → parse read c b m ≡ parse_header read c b m
unfolding parse
at_header read m c b k =
    ap (λ s. elim s [ k_header ↦ parse_header read c b m | k_body ↦ parse_body read c b m ]) k

-- A first part of a message, short of its end.
module _ (read : Bytes → Option Document) (m n : Msg) (body tail rest : Bytes) (c : BusContext)
    (b : Buffer) (short : length body + 1 < u32_mod) (k : c.state ≡ k_header) (h : IsBuffer b)
    (e : framed body ≡ str b ++ tail) (ne : tail ≢ []) where
  joined : framed body ++ [] ≡ str b ++ tail
  joined = append-nil (framed body) ∙ e

  begun : 8 ≤ length (str b) → parse read c b m ≡ (k_continue, in_body c body, retrive 8 b, m)
  unfolding parse parse_body
  begun l =
      let g =
        sym (u32_at-append 0 (str b) tail (omega arith))
        ∙ ap (u32_at 0) (sym joined)
        ∙ framed-magic body [] in
      let w =
        sym (u32_at-append 4 (str b) tail (omega arith))
        ∙ ap (u32_at 4) (sym joined)
        ∙ framed-length body [] short in
      let (kb, eb) = retrive_lem 8 b h in
      let few : ltb (readable_bytes (retrive 8 b)) (length body + 1) ≡ true = ground (
        arith,
        readable_bytes-str (retrive 8 b) kb,
        ap length eb,
        length-drop 8 (str b),
        ap length e,
        length-append (str b) tail,
        length-framed body,
        ne-length tail ne,
      ) in
      rw (k, parse) (parse_header_lem read m body short c b h l g w ∙ rw (few, parse_body))

  not_begun : length (str b) < 8 → parse read c b m ≡ (k_continue, c, b, m)
  unfolding parse_header
  not_begun l =
      let few : ltb (readable_bytes b) 8 ≡ true = ground (arith, readable_bytes-str b h) in
      at_header read m c b k ∙ rw (few, parse_header)

  -- With no more than a first part of a message in a buffer that is in order, the context between two
  -- messages and the body shorter than 2^32 - 1 bytes, the parse asks for more, keeps the buffer in
  -- order and leaves the message as it was.
  pub parse-Waits : Waits m (parse read c b m)
  parse-Waits = elim (Bool-cases (ltb (length (str b)) 8)) [
    | inl q ↦ rw (not_begun (ltb→lt _ _ q)) (refl, h, refl)
    | inr q ↦ rw (begun (ground arith)) (refl, (retrive_lem 8 b h).0, refl)
  ]

  rest_of_body : 8 ≤ length (str b) → str (retrive 8 b) ++ tail ≡ body ++ 0 ∷ []
  rest_of_body l =
      ap (λ z. z ++ tail) (retrive_lem 8 b h).1
      ∙ sym (drop-append_le 8 (str b) tail l)
      ∙ ap (drop 8) (sym joined)
      ∙ framed-drop body []
      ∙ append-nil (body ++ 0 ∷ [])

  -- A message that comes in two parts, where more may follow the second, is taken out by the second
  -- parse if the first part was parsed with the context between two messages, the second part is
  -- behind what the first parse left in the buffer, the body is shorter than 2^32 - 1 bytes and the
  -- JSON library reads it; what follows the message stays in the buffer.
  pub parse_in_two :
      (b' : Buffer)
      → IsBuffer b'
      → str b' ≡ str (parse read c b m).2 ++ (tail ++ rest)
      → unpack read (body ++ 0 ∷ []) m ≡ some n
      → IsDelivered rest n (parse read (parse read c b m).1 b' m)
  unfolding parse
  parse_in_two b' h' e' u = elim (Bool-cases (ltb (length (str b)) 8)) [
    | inl q ↦
        let p = not_begun (ltb→lt _ _ q) in
        subst (λ z. IsDelivered rest n (parse read z.1 b' m)) (sym p)
          (parse_framed read m body short n rest c b' k h'
            (e'
              ∙ ap (λ z. str z.2 ++ (tail ++ rest)) p
              ∙ sym (append_assoc (str b) tail rest)
              ∙ ap (λ z. z ++ rest) (sym e))
            u)
    | inr q ↦
        let l : 8 ≤ length (str b) = ground arith in
        subst (λ z. IsDelivered rest n (parse read z.1 b' m)) (sym (begun l))
          (parse_body_lem read m n rest (in_body c body) b' (body ++ 0 ∷ []) h' (length-body body)
            (e'
              ∙ ap (λ z. str z.2 ++ (tail ++ rest)) (begun l)
              ∙ sym (append_assoc (str (retrive 8 b)) tail rest)
              ∙ ap (λ z. z ++ rest) (rest_of_body l))
            u)
  ]
