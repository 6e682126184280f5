-- ===== src/StrUtil/Stricmp.antt =====
-- `Stricmp` of cppboot/base/str_util.cc. `tolower` is that of the "C" locale, and `char` is signed,
-- as on x86.
use altas.Prelude.{
  ℕ, ◌+◌, ◌-◌, ◌%◌, ◌≡◌, ◌<◌, refl, false, [], ◌∷◌, map, Bytes, All, bytes_eq, ◌==◌, ◌&&◌, ltb,
  if◌then◌else◌, arith,
}
use altas.Words.{u32_mod}
use altas.StrUtil.{tolower}

-- `tolower(*s1) - tolower(*s2)` as a bit pattern of 32 bits.
abbrev char_value : ℕ → ℕ
char_value c = if ltb c 128 then tolower c else c + u32_mod - 256

abbrev char_diff : ℕ → ℕ → ℕ
char_diff c d = (char_value c + u32_mod - char_value d) % u32_mod

-- The text of a string up to its first 0 is what `c_str` shows. Behind the end of a text there is 0.
-- If one of the texts is at its end and the other is not, the difference is not 0, so the loop
-- reads nothing behind an end.
unfoldable pub stricmp : Bytes → Bytes → ℕ
stricmp [] [] = 0
stricmp [] (d ∷ t) = if d == 0 then 0 else char_diff 0 d
stricmp (c ∷ s) [] = if c == 0 then 0 else char_diff c 0
stricmp (c ∷ s) (d ∷ t) =
    let later = stricmp s t in
    if c == 0 && d == 0 then 0 else if char_diff c d == 0 then later else char_diff c d

-- A byte of a text, and not its end.
abbrev pub IsText : ℕ → Type 0
IsText c = (0 < c) × (c < 256)

diff_zero : (c d : ℕ) → c < 256 → d < 256 → (char_diff c d == 0) ≡ (tolower c == tolower d)
unfolding tolower
diff_zero c d h k = ground arith

ends_apart : (c : ℕ) → IsText c → (char_diff c 0 == 0) ≡ false
unfolding tolower
ends_apart c h = ground arith

ends_after : (c : ℕ) → IsText c → (char_diff 0 c == 0) ≡ false
unfolding tolower
ends_after c h = ground arith

-- Texts without 0 are equal for `Stricmp` exactly if their lower-case forms are the same text.
pub stricmp-eq :
    (s t : Bytes)
    → All IsText s
    → All IsText t
    → (stricmp s t == 0) ≡ bytes_eq (map tolower s) (map tolower t)
unfolding stricmp bytes_eq
stricmp-eq [] [] hs ht = refl
stricmp-eq [] (d ∷ t) hs (h, ht) = ground (arith, ends_after d h)
stricmp-eq (c ∷ s) [] (h, hs) ht = ground (arith, ends_apart c h)
stricmp-eq (c ∷ s) (d ∷ t) (h, hs) (k, ht) =
    ground (arith, diff_zero c d h.1 k.1, stricmp-eq s t hs ht)
