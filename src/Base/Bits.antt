-- ===== src/Base/Bits.antt =====
-- Masks, shifts and joins of machine words in plain arithmetic, for every width.
use Prim.Native.Nat.{
  ℕ, zero, suc, ◌+◌, ◌-◌, ◌*◌, ◌/◌, ◌%◌, ◌^◌, ◌≤◌, ◌<◌, min, max, bit_and, bit_or, digits,
  bit_and-bitwise, bit_or-bitwise,
}
use mathlib.Core.Path.{◌≡◌, refl, ap}
use native.Mathlib.Omega.{arith}
use native.Mathlib.Nat.{pow-suc, one-le-pow}

-- More digits than the first number has change nothing.
module _ (z : ℕ → ℕ) (f : ℕ → ℕ → ℕ) where
  digits_enough :
      (fuel more first second : ℕ)
      → first ≤ more
      → first ≤ fuel
      → digits z f fuel first second ≡ digits z f more first second
  digits_enough zero zero a b p q = refl
  digits_enough zero (suc m) zero b p q = refl
  digits_enough zero (suc m) (suc a) b p q = absurd (omega arith)
  digits_enough (suc n) zero zero b p q = refl
  digits_enough (suc n) zero (suc a) b p q = absurd (omega arith)
  digits_enough (suc n) (suc m) zero b p q = refl
  digits_enough (suc n) (suc m) (suc a) b p q =
      ap (λ (t : ℕ). t * 2 + f (suc a % 2) (b % 2))
        (digits_enough n m (suc a / 2) (b / 2) (omega arith) (omega arith))

or_from_zero : (b : ℕ) → bit_or 0 b ≡ b
or_from_zero b = bit_or-bitwise 0 b

and_from_zero : (b : ℕ) → bit_and 0 b ≡ 0
and_from_zero b = bit_and-bitwise 0 b

-- The lowest digit and the rest.
or_halves : (a b : ℕ) → bit_or a b ≡ max (a % 2) (b % 2) + 2 * bit_or (a / 2) (b / 2)
or_halves zero b = omega (arith, or_from_zero b, or_from_zero (b / 2))
or_halves (suc a) b = omega (
  arith,
  digits_enough (λ c. c) max a (suc a / 2) (suc a / 2) (b / 2) (omega arith) (omega arith),
  bit_or-bitwise (suc a / 2) (b / 2),
  bit_or-bitwise (suc a) b,
)

and_halves : (a b : ℕ) → bit_and a b ≡ min (a % 2) (b % 2) + 2 * bit_and (a / 2) (b / 2)
and_halves zero b = omega (arith, and_from_zero b, and_from_zero (b / 2))
and_halves (suc a) b = omega (
  arith,
  digits_enough (λ c. 0) min a (suc a / 2) (suc a / 2) (b / 2) (omega arith) (omega arith),
  bit_and-bitwise (suc a / 2) (b / 2),
  bit_and-bitwise (suc a) b,
)

or_to_zero : (n a : ℕ) → a ≤ n → bit_or a 0 ≡ a
or_to_zero n zero h = or_from_zero 0
or_to_zero zero (suc a) h = absurd (omega arith)
or_to_zero (suc n) (suc a) h =
    omega (arith, or_halves (suc a) 0, or_to_zero n (suc a / 2) (omega arith))

and_to_zero : (n a : ℕ) → a ≤ n → bit_and a 0 ≡ 0
and_to_zero n zero h = and_from_zero 0
and_to_zero zero (suc a) h = absurd (omega arith)
and_to_zero (suc n) (suc a) h =
    omega (arith, and_halves (suc a) 0, and_to_zero n (suc a / 2) (omega arith))

shift_once : (a k : ℕ) → a * 2 ^ suc k ≡ 2 * (a * 2 ^ k)
shift_once a k = omega (arith, ap (λ (t : ℕ). a * t) (pow-suc 2 k))

-- `(a << k) | b` is a sum where `b` fits the low `k` bits.
pub bit_or_high : (k a b : ℕ) → b < 2 ^ k → bit_or (a * 2 ^ k) b ≡ a * 2 ^ k + b
bit_or_high zero a b h =
    ground (arith, or_to_zero a a (omega arith), or_to_zero (a * 1) (a * 1) (omega arith))
bit_or_high (suc k) a b h = omega (
  arith,
  or_halves (a * 2 ^ suc k) b,
  shift_once a k,
  ap (λ (t : ℕ). bit_or t (b / 2)) (halved a k),
  bit_or_high k a (b / 2) (omega (arith, pow-suc 2 k)),
)
  where
    halved : (a k : ℕ) → a * 2 ^ suc k / 2 ≡ a * 2 ^ k
    halved a k = omega (arith, shift_once a k)

-- `b | (a << k)`, the same with the fields the other way round.
pub bit_or_low : (k a b : ℕ) → b < 2 ^ k → bit_or b (a * 2 ^ k) ≡ b + a * 2 ^ k
bit_or_low zero a zero h = omega (arith, or_from_zero (a * 1))
bit_or_low zero a (suc b) h = absurd (omega arith)
bit_or_low (suc k) a b h = omega (
  arith,
  or_halves b (a * 2 ^ suc k),
  shift_once a k,
  ap (λ (t : ℕ). bit_or (b / 2) t) (halved a k),
  bit_or_low k a (b / 2) (omega (arith, pow-suc 2 k)),
)
  where
    halved : (a k : ℕ) → a * 2 ^ suc k / 2 ≡ a * 2 ^ k
    halved a k = omega (arith, shift_once a k)

-- A mask of `k` ones keeps the remainder by `2 ^ k`.
mask_field : (k q r : ℕ) → r < 2 ^ k → bit_and (q * 2 ^ k + r) (2 ^ k - 1) ≡ r
mask_field zero q r h = omega (arith, and_to_zero (q * 2 ^ 0 + r) (q * 2 ^ 0 + r) (omega arith))
mask_field (suc k) q r h = omega (
  arith,
  and_halves (q * 2 ^ suc k + r) (2 ^ suc k - 1),
  shift_once q k,
  pow-suc 2 k,
  one-le-pow k 2,
  ap (λ (t : ℕ). bit_and t ((2 ^ suc k - 1) / 2)) (top q r k),
  ap (λ (t : ℕ). bit_and (q * 2 ^ k + r / 2) t) (ones k),
  mask_field k q (r / 2) (omega (arith, pow-suc 2 k)),
)
  where
    top : (q r k : ℕ) → (q * 2 ^ suc k + r) / 2 ≡ q * 2 ^ k + r / 2
    top q r k = omega (arith, shift_once q k)

    ones : (k : ℕ) → (2 ^ suc k - 1) / 2 ≡ 2 ^ k - 1
    ones k = omega (arith, pow-suc 2 k, one-le-pow k 2)

pub bit_and_mask : (k a : ℕ) → bit_and a (2 ^ k - 1) ≡ a % 2 ^ k
bit_and_mask k a = ground (arith, one-le-pow k 2, mask_field k (a / 2 ^ k) (a % 2 ^ k))
