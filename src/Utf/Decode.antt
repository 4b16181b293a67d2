-- ===== src/Utf/Decode.antt =====
-- `decodeUtf8` on well-formed text, on any text, and on what it replaces.
use adb_wfx_plugin.Base.{
  ℕ, suc, ◌+◌, ◌*◌, ◌/◌, ◌%◌, ◌^◌, ◌≤◌, ◌<◌, ◌≡◌, ◌⊎◌, refl, [], ◌∷◌, ◌++◌, Bytes, leb, ltb, arith,
  ◌&&◌, Option, none, some, if◌then◌else◌, length, drop, All, IsByte,
}
use adb_wfx_plugin.Utf.{
  Lead, Utf8Decode, lead_of, continue, decode_sequence, decode_utf8, replacement_character,
}
use adb_wfx_plugin.Utf.Bits.{
  is_two, is_three, is_four, is_cont, join_six, low_five, low_four, low_three,
}
use adb_wfx_plugin.Utf.Scalar.{IsScalar, utf8}

-- The lead byte by ranges.
lead_by_range : ℕ → Option Lead
lead_by_range c =
    if leb 0xC0 c && ltb c 0xE0
    then some (record { seq_len = 2; codepoint = c % 32; min_codepoint = 0x80 })
    else if leb 0xE0 c && ltb c 0xF0
    then some (record { seq_len = 3; codepoint = c % 16; min_codepoint = 0x800 })
    else if leb 0xF0 c && ltb c 0xF8
    then some (record { seq_len = 4; codepoint = c % 8; min_codepoint = 0x10000 })
    else none

lead_of-range : (c : ℕ) → c < 256 → lead_of c ≡ lead_by_range c
unfolding lead_of lead_by_range
lead_of-range c h =
    rw (is_two c h, is_three c h, is_four c h, low_five c, low_four c, low_three c) refl

continue_step :
    (k c n : ℕ) (src : Bytes)
    → c < 256
    → n < 2 ^ 26
    → continue (suc k) (c ∷ src) n
      ≡ (if leb 0x80 c && ltb c 0xC0 then continue k src (n * 64 + c % 64) else none)
unfolding continue
continue_step k c n src h fits = rw (is_cont c h, join_six n c fits) refl

-- One, two and three continuation bytes of a well-formed sequence.
continue_one :
    (a n : ℕ) (rest : Bytes)
    → a < 64
    → n < 2 ^ 26
    → continue 1 ((0x80 + a) ∷ rest) n ≡ some (n * 64 + a)
unfolding continue
continue_one a n rest ha hn = ground (arith, continue_step 0 (0x80 + a) n rest)

continue_two :
    (a b n : ℕ) (rest : Bytes)
    → a < 64
    → b < 64
    → n < 2 ^ 20
    → continue 2 ((0x80 + a) ∷ (0x80 + b) ∷ rest) n ≡ some ((n * 64 + a) * 64 + b)
continue_two a b n rest ha hb hn =
    ground
      (arith, continue_step 1 (0x80 + a) n ((0x80 + b) ∷ rest), continue_one b (n * 64 + a) rest)

continue_three :
    (a b c n : ℕ) (rest : Bytes)
    → a < 64
    → b < 64
    → c < 64
    → n < 2 ^ 14
    → continue 3 ((0x80 + a) ∷ (0x80 + b) ∷ (0x80 + c) ∷ rest) n
      ≡ some (((n * 64 + a) * 64 + b) * 64 + c)
continue_three a b c n rest ha hb hc hn = ground (
  arith,
  continue_step 2 (0x80 + a) n ((0x80 + b) ∷ (0x80 + c) ∷ rest),
  continue_two b c (n * 64 + a) rest,
)

-- A well-formed sequence is decoded to its code point, whatever follows it.
pub decode_utf8-utf8 :
    (n : ℕ) (rest : Bytes)
    → IsScalar n
    → decode_utf8 (utf8 n ++ rest) ≡ record { codepoint = n; consumed = length (utf8 n) }
unfolding decode_utf8 decode_sequence utf8 lead_by_range
decode_utf8-utf8 n rest h = ground (
  arith,
  lead_of-range (0xC0 + n / 64),
  lead_of-range (0xE0 + n / 4096),
  lead_of-range (0xF0 + n / 262144),
  continue_one (n % 64) (n / 64) rest,
  continue_two (n / 64 % 64) (n % 64) (n / 4096) rest,
  continue_three (n / 4096 % 64) (n / 64 % 64) (n % 64) (n / 262144) rest,
)

-- What a decode of `src` may answer: it takes at least one byte and none that is not there, and it
-- gives a scalar value, which is the replacement character or the one whose encoding it took.
pub record Decodes (src : Bytes) (d : Utf8Decode) : Type 0 where
  pub progress : 1 ≤ d.consumed
  pub within : d.consumed ≤ length src
  pub is_scalar : IsScalar d.codepoint
  pub exact :
      (d.codepoint ≡ replacement_character) ⊎ (src ≡ utf8 d.codepoint ++ drop d.consumed src)

decode_two :
    (c : ℕ) (rest : Bytes)
    → 0xC0 ≤ c
    → c < 0xE0
    → All IsByte rest
    → Decodes
        (c ∷ rest)
        (decode_sequence (record { seq_len = 2; codepoint = c % 32; min_codepoint = 0x80 }) rest)
unfolding decode_sequence utf8 continue
decode_two c [] lo hi h = ground arith
decode_two c (a ∷ rest) lo hi h = ground (arith, continue_step 0 a (c % 32) rest)

decode_three :
    (c : ℕ) (rest : Bytes)
    → 0xE0 ≤ c
    → c < 0xF0
    → All IsByte rest
    → Decodes
        (c ∷ rest)
        (decode_sequence (record { seq_len = 3; codepoint = c % 16; min_codepoint = 0x800 }) rest)
unfolding decode_sequence utf8 continue
decode_three c [] lo hi h = ground arith
decode_three c (a ∷ []) lo hi h = ground arith
decode_three c (a ∷ b ∷ rest) lo hi h =
    ground
      (arith, continue_step 1 a (c % 16) (b ∷ rest), continue_step 0 b (c % 16 * 64 + a % 64) rest)

decode_four :
    (c : ℕ) (rest : Bytes)
    → 0xF0 ≤ c
    → c < 0xF8
    → All IsByte rest
    → Decodes
        (c ∷ rest)
        (decode_sequence (record { seq_len = 4; codepoint = c % 8; min_codepoint = 0x10000 }) rest)
unfolding decode_sequence utf8 continue
decode_four c [] lo hi h = ground arith
decode_four c (a ∷ []) lo hi h = ground arith
decode_four c (a ∷ b ∷ []) lo hi h = ground arith
decode_four c (a ∷ b ∷ d ∷ rest) lo hi h = ground (
  arith,
  continue_step 2 a (c % 8) (b ∷ d ∷ rest),
  continue_step 1 b (c % 8 * 64 + a % 64) (d ∷ rest),
  continue_step 0 d ((c % 8 * 64 + a % 64) * 64 + b % 64) rest,
)

-- Every decode, of any bytes at all, is such an answer.
pub decode_utf8-Decodes :
    (c : ℕ) (rest : Bytes) → All IsByte (c ∷ rest) → Decodes (c ∷ rest) (decode_utf8 (c ∷ rest))
unfolding decode_utf8 lead_by_range utf8
decode_utf8-Decodes c rest h =
    ground (arith, lead_of-range c h.0, decode_two c rest, decode_three c rest, decode_four c rest)

-- A lead byte 0xC0 or 0xC1 with a continuation byte, which is overlong, is replaced as a whole:
-- both bytes are consumed.
pub decode_utf8_overlong :
    (c a : ℕ) (rest : Bytes)
    → 0xC0 ≤ c
    → c ≤ 0xC1
    → 0x80 ≤ a
    → a < 0xC0
    → decode_utf8 (c ∷ a ∷ rest) ≡ record { codepoint = replacement_character; consumed = 2 }
unfolding decode_utf8 decode_sequence lead_by_range continue
decode_utf8_overlong c a rest lo hi la ha =
    ground (arith, lead_of-range c, continue_step 0 a (c % 32) rest)
