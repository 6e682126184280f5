-- ===== src/Http/UrlDecode/Laws.antt =====
-- Decoding undoes percent-encoding.
use altas.Prelude.{
  ℕ, ◌+◌, ◌-◌, ◌/◌, ◌%◌, ◌<◌, ◌≡◌, ◌≢◌, ap, ◌∙◌, Bool, true, false, [], ◌∷◌, ◌++◌, some, Bytes,
  if◌then◌else◌, ◌==◌, ltb, append_assoc, arith, Free, append-nil,
}
use altas.Http.UrlDecode.{scan_hex, decode_from, url_decode}

-- A digit in base 16, in lower or in upper case.
unfoldable pub hex_char : Bool → ℕ → ℕ
hex_char lower d = if ltb d 10 then d + b'0' else d - 10 + (if lower then b'a' else b'A')

-- "%XX", with the case of each digit.
unfoldable pub escape : Bool → Bool → ℕ → Bytes
unfolding hex_char
escape l m c = b'%' ∷ hex_char l (c / 16) ∷ hex_char m (c % 16) ∷ []

scan_hex-byte :
    (l m : Bool) (c : ℕ)
    → c < 256
    → scan_hex (hex_char l (c / 16) ∷ hex_char m (c % 16) ∷ []) ≡ some c
unfolding scan_hex hex_char
scan_hex-byte true true c h = ground arith
scan_hex-byte true false c h = ground arith
scan_hex-byte false true c h = ground arith
scan_hex-byte false false c h = ground arith

-- Which bytes are escaped, and the case of the digits, is the encoder's choice, but '%' and '+' are
-- escaped. A blank may be written '+'.
pub data Encodes : Bytes → Bytes → Type 0 where
  done : Encodes [] []
  kept : {s t : Bytes} (c : ℕ) → c ≢ b'%' → c ≢ b'+' → Encodes s t → Encodes (c ∷ s) (c ∷ t)
  blank : {s t : Bytes} → Encodes s t → Encodes (b' ' ∷ s) (b'+' ∷ t)
  escaped :
      {s t : Bytes} (l m : Bool) (c : ℕ)
      → c < 256
      → Encodes s t
      → Encodes (c ∷ s) (escape l m c ++ t)

decode_from-plain :
    (out : Bytes) (c : ℕ) (t : Bytes)
    → c ≢ b'%'
    → decode_from out (c ∷ t) ≡ decode_from (out ++ (if c == b'+' then b' ' else c) ∷ []) t
unfolding decode_from
decode_from-plain out c [] h = ground arith
decode_from-plain out c (d ∷ []) h = ground arith
decode_from-plain out c (d ∷ e ∷ cs) h = ground arith

decode_from-escape :
    (l m : Bool) (out : Bytes) (c : ℕ) (t : Bytes)
    → c < 256
    → decode_from out (escape l m c ++ t) ≡ decode_from (out ++ c ∷ []) t
unfolding decode_from escape
decode_from-escape l m out c t h =
    let e : c % 256 ≡ c = omega arith in rw (scan_hex-byte l m c h, decode_from, e)

kept_byte : (c : ℕ) → c ≢ b'+' → (if c == b'+' then b' ' else c) ≡ c
kept_byte c h = ground arith

joined :
    (out : Bytes) (c : ℕ) (s : Bytes)
    → ◌≡◌ {A = Bool × Bytes} (true, (out ++ c ∷ []) ++ s) (true, out ++ c ∷ s)
joined out c s = ap (λ u. (true, u)) (append_assoc out (c ∷ []) s)

decode_from-Encodes :
    {s t : Bytes} (out : Bytes) → Encodes s t → decode_from out t ≡ (true, out ++ s)
decode_from-Encodes out done = unfold decode_from in rw append-nil
decode_from-Encodes out (kept {s} {t} c n p e) =
    decode_from-plain out c t n
    ∙ rw (kept_byte c p) (decode_from-Encodes (out ++ c ∷ []) e ∙ joined out c s)
decode_from-Encodes out (blank {s} {t} e) =
    decode_from-plain out b'+' t (λ h. absurd (omega arith))
    ∙ decode_from-Encodes (out ++ b' ' ∷ []) e
    ∙ joined out b' ' s
decode_from-Encodes out (escaped {s} {t} l m c h e) =
    decode_from-escape l m out c t h ∙ decode_from-Encodes (out ++ c ∷ []) e ∙ joined out c s

-- Whatever bytes an encoder chose to escape, and with digits of either case, decoding gives back
-- the text, and succeeds, if '%' and '+' are escaped, and blanks escaped, kept or written '+'.
pub url_decode-Encodes : {s t : Bytes} → Encodes s t → url_decode t ≡ (true, s)
unfolding url_decode
url_decode-Encodes e = decode_from-Encodes [] e

-- A text with no '%' and no '+' stands for itself.
pub Encodes-refl : (s : Bytes) → Free b'%' s → Free b'+' s → Encodes s s
Encodes-refl [] h k = done
Encodes-refl (c ∷ s) (n, h) (m, k) = kept c n m (Encodes-refl s h k)
