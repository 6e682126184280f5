-- ===== src/Status/Format.antt =====
-- The constructor of cppboot/base/status.cc that formats its message. `vsnprintf` is a parameter: for
-- a size, what it returns (none is a negative number) and the bytes that it leaves in the array.
use altas.Prelude.{
  ℕ, zero, suc, ◌+◌, ◌-◌, ◌%◌, ◌^◌, ◌≡◌, ◌<◌, refl, subst, sym, ap, ◌∙◌, Bool-cases, inl, inr, true,
  false, [], ◌∷◌, ◌++◌, Option, none, some, Bytes, length, take, take_all, take-append,
  if◌then◌else◌, leb, arith,
}
use altas.Words.{u32_to_bytes, u32_at-u32_to_bytes}
use altas.Status.{StatusCode, Status, code, ok, message}

-- One round for each unit of `retry`. None is a status whose `state_` was never set.
unfoldable pub format_loop : (ℕ → Option ℕ × Bytes) → StatusCode → ℕ → ℕ → Option Status
format_loop vsnprintf c zero size = none
format_loop vsnprintf c (suc retry) size = elim ((vsnprintf size).0) [
  | none ↦ format_loop vsnprintf c retry size
  | some n ↦
      let again = format_loop vsnprintf c retry (n + 1) in
      if leb size n
      then again
      else some (record { state = some (u32_to_bytes n ++ ((c % 256) ∷ (vsnprintf size).1)) })
]

-- `Status(StatusCode code, const char* format, ...)`, past its assertion that the code is not `kOk`.
unfoldable pub new_status_format : (ℕ → Option ℕ × Bytes) → StatusCode → Option Status
new_status_format vsnprintf c = format_loop vsnprintf c 2 100

-- A `vsnprintf` that gives this text: it returns the length of the text, and leaves as much of it as
-- fits in front of a 0.
abbrev pub Formats : (ℕ → Option ℕ × Bytes) → Bytes → Type 0
Formats vsnprintf text =
    (size : ℕ)
    → 0 < size
    → ((vsnprintf size).0 ≡ some (length text))
      × ((rest : Bytes) × ((vsnprintf size).1 ≡ take (size - 1) text ++ rest))

-- A status with the code and the text.
abbrev pub Holds : StatusCode → Bytes → Option Status → Type 0
Holds c text st = (s : Status) × (st ≡ some s) × (ok s ≡ false) × (code s ≡ c) × (message s ≡ text)

message_lem :
    (c : ℕ) (text rest : Bytes) (s : Status)
    → length text < 2 ^ 31
    → s.state ≡ some (u32_to_bytes (length text) ++ (c ∷ text ++ rest))
    → message s ≡ text
unfolding message u32_to_bytes
message_lem c [] rest s h e = ground (arith, u32_at-u32_to_bytes 0 (c ∷ rest))
message_lem c (x ∷ text) rest s h e = ground (
  arith,
  u32_at-u32_to_bytes (length (x ∷ text)) (c ∷ x ∷ text ++ rest),
  take-append (x ∷ text) rest (length (x ∷ text)) refl,
)

built :
    (c : ℕ) (text rest buffer : Bytes)
    → c < 128
    → length text < 2 ^ 31
    → buffer ≡ text ++ rest
    → Holds c text
        (some (record { state = some (u32_to_bytes (length text) ++ ((c % 256) ∷ buffer)) }))
unfolding ok code u32_to_bytes
built c text rest buffer h k e = (
  _,
  refl,
  refl,
  ground arith,
  message_lem (c % 256) text rest _ k
      (ap (λ z. some (u32_to_bytes (length text) ++ ((c % 256) ∷ z))) e),
)

-- The round whose array is large enough, and the one before it.
round_kept :
    (vsnprintf : ℕ → Option ℕ × Bytes) (c retry size n : ℕ)
    → (vsnprintf size).0 ≡ some n
    → leb size n ≡ false
    → format_loop vsnprintf c (suc retry) size
      ≡ some (record { state = some (u32_to_bytes n ++ ((c % 256) ∷ (vsnprintf size).1)) })
unfolding format_loop
round_kept vsnprintf c retry size n e f = rw (e, format_loop, f) refl

round_again :
    (vsnprintf : ℕ → Option ℕ × Bytes) (c retry size n : ℕ)
    → (vsnprintf size).0 ≡ some n
    → leb size n ≡ true
    → format_loop vsnprintf c (suc retry) size ≡ format_loop vsnprintf c retry (n + 1)
unfolding format_loop
round_again vsnprintf c retry size n e f = rw (e, format_loop, f) refl

fits :
    (vsnprintf : ℕ → Option ℕ × Bytes) (text : Bytes) (c retry size : ℕ)
    → Formats vsnprintf text
    → c < 128
    → length text < 2 ^ 31
    → length text < size
    → Holds c text (format_loop vsnprintf c (suc retry) size)
fits vsnprintf text c retry size f h k l =
    let (said, (rest, left)) = f size (omega arith) in
    subst (Holds c text) (sym (round_kept vsnprintf c retry size (length text) said (ground arith)))
      (built c text rest _ h k
        (left ∙ ap (λ z. z ++ rest) (take_all (size - 1) text (omega arith))))

-- A message that `vsnprintf` can format is stored with the code, whether or not it fits the first
-- array of 100 bytes.
pub new_status_format_lem :
    (vsnprintf : ℕ → Option ℕ × Bytes) (text : Bytes) (c : StatusCode)
    → Formats vsnprintf text
    → c < 128
    → length text + 1 < 2 ^ 31
    → Holds c text (new_status_format vsnprintf c)
unfolding new_status_format
new_status_format_lem vsnprintf text c f h k = elim (Bool-cases (leb 100 (length text))) [
  | inl long ↦
      subst (Holds c text)
        (sym (round_again vsnprintf c 1 100 (length text) (f 100 (omega arith)).0 long))
        (fits vsnprintf text c 0 (length text + 1) f h (omega arith) (omega arith))
  | inr short ↦ fits vsnprintf text c 1 100 f h (omega arith) (ground arith)
]
