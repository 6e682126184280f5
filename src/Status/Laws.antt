-- ===== src/Status/Laws.antt =====
-- What a status stores is what it gives back.
use altas.Prelude.{
  ℕ, ◌%◌, ◌<◌, ◌≡◌, ◌≢◌, ◌↔◌, refl, sym, ◌∙◌, false, [], ◌∷◌, ◌++◌, some, Bytes, codes, length,
  take-length, arith,
}
use altas.Words.{u32_mod, u32_to_bytes, u32_at-u32_to_bytes}
use altas.Status.{StatusCode, Status, k_ok, new_status, code, ok, message}
use altas.Status.Errno.{Errno, no_error, errno_to_status_code, errno_to_status}

stored :
    (c : StatusCode) (msg : Bytes)
    → length msg < u32_mod
    → (new_status c msg).state ≡ some (u32_to_bytes (length msg) ++ ((c % 256) ∷ msg))
unfolding new_status
stored c msg h = let e : length msg % u32_mod ≡ length msg = omega arith in rw (e, take-length msg)

message_stored :
    (c : ℕ) (msg : Bytes) (s : Status)
    → length msg < u32_mod
    → s.state ≡ some (u32_to_bytes (length msg) ++ (c ∷ msg))
    → message s ≡ msg
unfolding message u32_to_bytes
message_stored c [] s h e = ground (arith, u32_at-u32_to_bytes 0 (c ∷ []))
message_stored c (x ∷ msg) s h e =
    ground (arith, u32_at-u32_to_bytes (length (x ∷ msg)) (c ∷ x ∷ msg), take-length (x ∷ msg))

-- A status built with a code below 128 and a message shorter than 2^32 bytes is not ok, and gives
-- back that code and that message.
pub new_status_roundtrip :
    (c : StatusCode) (msg : Bytes)
    → c < 128
    → length msg < u32_mod
    → (ok (new_status c msg) ≡ false)
      × (code (new_status c msg) ≡ c)
      × (message (new_status c msg) ≡ msg)
unfolding ok code new_status u32_to_bytes
new_status_roundtrip c msg h k =
    (refl, ground arith, message_stored (c % 256) msg (new_status c msg) k (stored c msg k))

-- `errno_to_status_code` gives the code of success for no error number but 0.
pub errno_to_status_code-eq-ok : (e : Errno) → (errno_to_status_code e ≡ k_ok) ↔ (e ≡ no_error)
unfolding errno_to_status_code
errno_to_status_code-eq-ok e = ground arith

errno_to_status_code-lt : (e : Errno) → errno_to_status_code e < 128
unfolding errno_to_status_code
errno_to_status_code-lt e = ground arith

-- A status made from an error number other than 0 is not ok, carries a code other than that of
-- success, which is the one of the number, and its message is the caller's, ": " and the text of
-- `strerror`, if that is shorter than 2^32 bytes.
pub errno_to_status_lem :
    (strerror : Errno → Bytes) (e : Errno) (msg : Bytes)
    → e ≢ no_error
    → length (msg ++ (codes ": " ++ strerror e)) < u32_mod
    → let s = errno_to_status strerror e msg in
      (ok s ≡ false)
      × (code s ≡ errno_to_status_code e)
      × (code s ≢ k_ok)
      × (message s ≡ msg ++ (codes ": " ++ strerror e))
unfolding errno_to_status
errno_to_status_lem strerror e msg h k =
    let r = new_status_roundtrip (errno_to_status_code e) _ (errno_to_status_code-lt e) k in
    (r.0, r.1, λ q. h ((errno_to_status_code-eq-ok e).0 (sym r.1 ∙ q)), r.2)
