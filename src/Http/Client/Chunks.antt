-- ===== src/Http/Client/Chunks.antt =====
-- `read_until` on a text that comes in chunks.
use altas.Prelude.{
  concat, ◌≡◌, ◌≢◌, ◌⊎◌, ◌≤◌, refl, sym, ap, ◌∙◌, subst, inl, inr, Bool-cases, true, false, ◌||◌,
  List, [], ◌∷◌, ◌++◌, append_assoc, append-nil, some, Bytes, codes, length, length-append, arith,
  All, Free,
}
use altas.Http.Request.{Header}
use altas.Http.Response.Laws.{line_of, head_text}
use altas.StrUtil.{begins}
use altas.Http.Client.{holds, read_until}

-- What `read_until` returns: a buffer with the delimiter, and nothing is lost.
pub read_until_lem :
    (d buffer : Bytes) (chunks : List Bytes)
    → holds d (buffer ++ concat chunks) ≡ true
    → (b : Bytes) × (rest : List Bytes) × (read_until d buffer chunks ≡ some (b, rest))
      × (holds d b ≡ true)
      × (b ++ concat rest ≡ buffer ++ concat chunks)
unfolding read_until
read_until_lem d buffer [] h =
    let whole = ap (holds d) (sym (append-nil buffer)) ∙ h in
    (buffer, [], rw whole refl, whole, refl)
read_until_lem d buffer (x ∷ chunks) h = elim (Bool-cases (holds d buffer)) [
  | inl e ↦ (buffer, x ∷ chunks, rw e refl, e, refl)
  | inr e ↦
      let (b, rest, k, g, s) =
        read_until_lem d (buffer ++ x) chunks
          (ap (holds d) (append_assoc buffer x (concat chunks)) ∙ h) in
      (b, rest, rw e k, g, s ∙ append_assoc buffer x (concat chunks))
]

-- Two ways to cut a text.
abbrev pub Longer : Bytes → Bytes → Bytes → Bytes → Type 0
Longer p q l m = (w : Bytes) × (p ≡ l ++ w) × (w ++ q ≡ m)

abbrev pub Shorter : Bytes → Bytes → Type 0
Shorter p l = (v : Bytes) × (v ≢ []) × (p ++ v ≡ l)

pub cut_cases : (p q l m : Bytes) → p ++ q ≡ l ++ m → Longer p q l m ⊎ Shorter p l
cut_cases p q [] m e = inl (p, refl, e)
cut_cases [] q (c ∷ l) m e = inr (c ∷ l, (λ f. cc), refl)
cut_cases (d ∷ p) q (c ∷ l) m e =
    let same : d ≡ c = cc in
    elim (cut_cases p q l m cc) [
      | inl (w, f, g) ↦ inl (w, rw (same, f) refl, g)
      | inr (v, n, f) ↦ inr (v, n, rw (same, f) refl)
    ]

append_end : (x y : Bytes) → x ++ y ≡ [] → y ≡ []
append_end [] y g = g
append_end (a ∷ x) y g = absurd cc

-- A text that stops before its one newline has none.
pub Free-short : (p v s : Bytes) → Free b'\n' s → v ≢ [] → p ++ v ≡ s ++ b'\n' ∷ [] → Free b'\n' p
Free-short [] v s f n e = tt
Free-short (c ∷ p) v [] f n e = absurd (n (append_end p v cc))
Free-short (c ∷ p) v (d ∷ s) (m, f) n e =
    ((λ g. m (let same : c ≡ d = cc in sym same ∙ g)), Free-short p v s f n cc)

-- Both delimiters begin with a carriage return and a newline.
begins_crlf :
    (d text : Bytes)
    → begins (b'\r' ∷ b'\n' ∷ d) text ≡ true
    → (t : Bytes) × (text ≡ b'\r' ∷ b'\n' ∷ t) × (begins d t ≡ true)
unfolding begins
begins_crlf d [] e = absurd cc
begins_crlf d (a ∷ []) e = absurd (ground arith)
begins_crlf d (a ∷ b ∷ t) e = (t, ground arith, ground arith)

pub Free-holds : (d text : Bytes) → Free b'\n' text → holds (b'\r' ∷ b'\n' ∷ d) text ≡ false
unfolding holds
Free-holds d [] f = refl
Free-holds d (c ∷ text) (n, f) = elim (Bool-cases (begins (b'\r' ∷ b'\n' ∷ d) (c ∷ text))) [
  | inl e ↦
      let (t, g, k) = begins_crlf d (c ∷ text) e in
      let tail : text ≡ b'\n' ∷ t = cc in absurd ((subst (Free b'\n') tail f).0 refl)
  | inr e ↦ rw e (Free-holds d text f)
]

abbrev pub blank_line : Bytes
blank_line = codes "\r\n\r\n"

-- An empty line behind a line stands at its end, or further on.
holds-line :
    (line w : Bytes)
    → Free b'\n' line
    → holds blank_line (line ++ b'\n' ∷ w) ≡ true
    → (begins (codes "\r\n") w ≡ true) ⊎ (holds blank_line w ≡ true)
unfolding holds begins
holds-line [] w f e = inr (ground arith)
holds-line (c ∷ line) w (n, f) e = elim (Bool-cases (begins blank_line (c ∷ (line ++ b'\n' ∷ w)))) [
  | inl g ↦
      let (t, k, b) = begins_crlf (codes "\r\n") (c ∷ (line ++ b'\n' ∷ w)) g in
      let q : line ++ b'\n' ∷ w ≡ b'\n' ∷ t = cc in inl (next_line line w t f q b)
  | inr g ↦ holds-line line w f (sym (ap (λ b. b || holds blank_line (line ++ b'\n' ∷ w)) g) ∙ e)
]
  where
    next_line :
        (line w t : Bytes)
        → Free b'\n' line
        → line ++ b'\n' ∷ w ≡ b'\n' ∷ t
        → begins (codes "\r\n") t ≡ true
        → begins (codes "\r\n") w ≡ true
    next_line [] w t f e b = let same : w ≡ t = cc in ap (begins (codes "\r\n")) same ∙ b
    next_line (d ∷ l) w t (n, f) e b = absurd (n cc)

-- The second byte of a line is no newline.
long_line :
    (line more z : Bytes) → Free b'\n' line → 2 ≤ length line → line ++ more ≡ b'\r' ∷ b'\n' ∷ z → ⊥
long_line [] more z f l e = omega arith
long_line (a ∷ []) more z f l e = omega arith
long_line (a ∷ b ∷ line) more z (n, (m, f)) l e = m cc

abbrev pub OneLine : Header → Type 0
OneLine h = Free b'\n' (line_of h)

not_at_start :
    (hs : List Header) (w v : Bytes)
    → All OneLine hs
    → v ≢ []
    → w ++ v ≡ head_text hs ++ codes "\r\n"
    → begins (codes "\r\n") w ≢ true
not_at_start [] w v a n e b =
    let (t, f, g) = begins_crlf [] w b in
    n (
      append_end t v
        (let h : (b'\r' ∷ b'\n' ∷ t) ++ v ≡ codes "\r\n" = ap (λ z. z ++ v) (sym f) ∙ e in cc))
not_at_start (h ∷ hs) w v (a, r) n e b =
    let (t, f, g) = begins_crlf [] w b in
    long_line (line_of h) ((b'\n' ∷ head_text hs) ++ codes "\r\n") (t ++ v) a
      (omega (arith, length-append h.name (b':' ∷ b' ' ∷ (h.value ++ b'\r' ∷ []))))
      (sym (append_assoc (line_of h) (b'\n' ∷ head_text hs) (codes "\r\n"))
        ∙ sym e
        ∙ ap (λ z. z ++ v) f)

-- A head that has not come whole holds no empty line.
pub head_short :
    (hs : List Header) (p v : Bytes)
    → All OneLine hs
    → v ≢ []
    → p ++ v ≡ head_text hs ++ codes "\r\n"
    → holds blank_line p ≡ false
head_short [] p v a n e =
    Free-holds (codes "\r\n") p (Free-short p v (b'\r' ∷ []) (ground arith) n e)
head_short (h ∷ hs) p v (a, r) n e =
    let line = line_of h ++ b'\n' ∷ [] in
    let rest = head_text hs ++ codes "\r\n" in
    let cut : p ++ v ≡ line ++ rest =
      e
      ∙ append_assoc (line_of h) (b'\n' ∷ head_text hs) (codes "\r\n")
      ∙ sym (append_assoc (line_of h) (b'\n' ∷ []) rest) in
    elim (cut_cases p v line rest cut) [
      | inl (w, f, g) ↦ elim (Bool-cases (holds blank_line p)) [
        | inl k ↦
            elim (holds-line (line_of h) w a
              (sym (ap (holds blank_line) (f ∙ append_assoc (line_of h) (b'\n' ∷ []) w)) ∙ k)) [
                | inl b ↦ absurd (not_at_start hs w v r n g b)
                | inr b ↦ let q = head_short hs w v r n g in absurd cc
              ]
        | inr k ↦ k
      ]
      | inr (u, m, f) ↦ Free-holds (codes "\r\n") p (Free-short p u (line_of h) a m f)
    ]
