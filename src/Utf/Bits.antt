-- ===== src/Utf/Bits.antt =====
-- The masks of the UTF-8 code as arithmetic.
use adb_wfx_plugin.Base.{
  ℕ, ◌+◌, ◌*◌, ◌%◌, ◌^◌, ◌<◌, bit_and, bit_or, Bool, true, ◌&&◌, ◌≡◌, refl, arith, leb, ltb, ◌==◌,
  if◌then◌else◌, not, all_below, all_below_sound,
}
use adb_wfx_plugin.Base.Bits.{bit_and_mask, bit_or_high}

abbrev agree : Bool → Bool → Bool
agree a b = if a then b else not b

agree→eq : (a b : Bool) → agree a b ≡ true → a ≡ b
agree→eq a b h = ground arith

-- Two tests that agree on each of the 256 bytes.
by_table :
    (p q : ℕ → Bool) (c : ℕ) → c < 256 → all_below 256 (λ c. agree (p c) (q c)) ≡ true → p c ≡ q c
by_table p q c h table =
    agree→eq (p c) (q c) (all_below_sound 256 c (λ c. agree (p c) (q c)) h table)

-- The four tests on a byte, each as a range; tables of 256 entries.
pub is_two : (c : ℕ) → c < 256 → (bit_and c 0xE0 == 0xC0) ≡ (leb 0xC0 c && ltb c 0xE0)
unfolding all_below
is_two c h = by_table (λ c. bit_and c 0xE0 == 0xC0) (λ c. leb 0xC0 c && ltb c 0xE0) c h refl

pub is_three : (c : ℕ) → c < 256 → (bit_and c 0xF0 == 0xE0) ≡ (leb 0xE0 c && ltb c 0xF0)
unfolding all_below
is_three c h = by_table (λ c. bit_and c 0xF0 == 0xE0) (λ c. leb 0xE0 c && ltb c 0xF0) c h refl

pub is_four : (c : ℕ) → c < 256 → (bit_and c 0xF8 == 0xF0) ≡ (leb 0xF0 c && ltb c 0xF8)
unfolding all_below
is_four c h = by_table (λ c. bit_and c 0xF8 == 0xF0) (λ c. leb 0xF0 c && ltb c 0xF8) c h refl

pub is_cont : (c : ℕ) → c < 256 → (bit_and c 0xC0 == 0x80) ≡ (leb 0x80 c && ltb c 0xC0)
unfolding all_below
is_cont c h = by_table (λ c. bit_and c 0xC0 == 0x80) (λ c. leb 0x80 c && ltb c 0xC0) c h refl

pub low_ten : (n : ℕ) → bit_and n 0x3FF ≡ n % 1024
low_ten n = bit_and_mask 10 n

pub low_six : (n : ℕ) → bit_and n 0x3F ≡ n % 64
low_six n = bit_and_mask 6 n

pub low_five : (n : ℕ) → bit_and n 0x1F ≡ n % 32
low_five n = bit_and_mask 5 n

pub low_four : (n : ℕ) → bit_and n 0x0F ≡ n % 16
low_four n = bit_and_mask 4 n

pub low_three : (n : ℕ) → bit_and n 0x07 ≡ n % 8
low_three n = bit_and_mask 3 n

-- `0x80 | (n & 0x3F)`.
pub join_cont : (n : ℕ) → bit_or 0x80 (bit_and n 0x3F) ≡ 0x80 + n % 64
join_cont n = rw (low_six n) (bit_or_high 6 2 (n % 64) (omega arith))

pub join_two : (n : ℕ) → n < 32 → bit_or 0xC0 n ≡ 0xC0 + n
join_two n h = bit_or_high 5 6 n h

pub join_three : (n : ℕ) → n < 16 → bit_or 0xE0 n ≡ 0xE0 + n
join_three n h = bit_or_high 4 14 n h

pub join_four : (n : ℕ) → n < 8 → bit_or 0xF0 n ≡ 0xF0 + n
join_four n h = bit_or_high 3 30 n h

-- `(n << 6) | (c & 0x3F)`, where the shift loses nothing.
pub join_six :
    (n c : ℕ) → n < 2 ^ 26 → bit_or (n * 2 ^ 6 % 2 ^ 32) (bit_and c 0x3F) ≡ n * 64 + c % 64
join_six n c h = rw (low_six c, fits n h) (bit_or_high 6 n (c % 64) (omega arith))
  where
    fits : (n : ℕ) → n < 2 ^ 26 → n * 2 ^ 6 % 2 ^ 32 ≡ n * 2 ^ 6
    fits n h = omega arith
