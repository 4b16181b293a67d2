-- ===== src/Utf/Scalar.antt =====
-- The Unicode encoding forms, in plain arithmetic: what utils.hpp is to implement.
use adb_wfx_plugin.Base.{
  ℕ, ◌+◌, ◌-◌, ◌/◌, ◌%◌, ◌≤◌, ◌<◌, ◌⊎◌, List, [], ◌∷◌, ◌++◌, Bytes, leb, arith, if◌then◌else◌,
  length, All, IsByte,
}

-- A code point that is no surrogate.
abbrev pub IsScalar : ℕ → Type 0
IsScalar n = (n < 0x110000) × ((n < 0xD800) ⊎ (0xDFFF < n))

unfoldable pub utf8 : ℕ → Bytes
utf8 n =
    if leb n 0x7F
    then n ∷ []
    else if leb n 0x7FF
    then (0xC0 + n / 64) ∷ (0x80 + n % 64) ∷ []
    else if leb n 0xFFFF
    then (0xE0 + n / 4096) ∷ (0x80 + n / 64 % 64) ∷ (0x80 + n % 64) ∷ []
    else (0xF0 + n / 262144) ∷ (0x80 + n / 4096 % 64) ∷ (0x80 + n / 64 % 64) ∷ (0x80 + n % 64) ∷ []

unfoldable pub utf16 : ℕ → List ℕ
utf16 n =
    if leb n 0xFFFF then n ∷ [] else (0xD800 + (n - 0x10000) / 1024) ∷ (0xDC00 + n % 1024) ∷ []

unfoldable pub utf8_all : List ℕ → Bytes
utf8_all [] = []
utf8_all (n ∷ ns) = utf8 n ++ utf8_all ns

unfoldable pub utf16_all : List ℕ → List ℕ
utf16_all [] = []
utf16_all (n ∷ ns) = utf16 n ++ utf16_all ns

pub utf8-IsByte : (n : ℕ) → n < 0x110000 → All IsByte (utf8 n)
unfolding utf8
utf8-IsByte n h = ground arith

pub length-utf8 : (n : ℕ) → (1 ≤ length (utf8 n)) × (length (utf8 n) ≤ 4)
unfolding utf8
length-utf8 n = ground arith
