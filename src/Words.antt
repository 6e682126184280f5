-- ===== src/Words.antt =====
-- `size_t` and `uint32_t` arithmetic with its wrap-around, and the bytes of a word in memory on a
-- little-endian machine.
use altas.Prelude.{ℕ, ◌+◌, ◌-◌, ◌*◌, ◌/◌, ◌%◌, ◌^◌, ◌<◌, ◌≡◌, Bytes, [], ◌∷◌, ◌++◌, arith, get_or}

abbrev pub size_mod : ℕ
size_mod = 2 ^ 64

abbrev pub u32_mod : ℕ
u32_mod = 2 ^ 32

abbrev pub add_size : ℕ → ℕ → ℕ
add_size a b = (a + b) % size_mod

abbrev pub sub_size : ℕ → ℕ → ℕ
sub_size a b = (a + size_mod - b) % size_mod

-- `memcpy` of a `uint32_t` into bytes.
unfoldable pub u32_to_bytes : ℕ → Bytes
u32_to_bytes n = (n % 256) ∷ (n / 256 % 256) ∷ (n / 65536 % 256) ∷ (n / 16777216 % 256) ∷ []

-- `memcpy` of bytes `i` to `i + 3` into a `uint32_t`.
unfoldable pub u32_at : ℕ → Bytes → ℕ
u32_at i s =
    get_or s i 0
    + 256 * get_or s (i + 1) 0
    + 65536 * get_or s (i + 2) 0
    + 16777216 * get_or s (i + 3) 0

pub u32_digits :
    (n : ℕ)
    → n < u32_mod
    → n % 256 + 256 * (n / 256 % 256) + 65536 * (n / 65536 % 256) + 16777216 * (n / 16777216 % 256)
      ≡ n
u32_digits n h = omega arith

pub u32_at-u32_to_bytes :
    (n : ℕ) (rest : Bytes) → n < u32_mod → u32_at 0 (u32_to_bytes n ++ rest) ≡ n
unfolding u32_at u32_to_bytes
u32_at-u32_to_bytes n rest h = u32_digits n h
