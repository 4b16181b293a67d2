-- ===== src/Base/Decimal.antt =====
-- `std::to_string` of an unsigned and of a signed number.
use Prim.Native.Nat.{ℕ, zero, suc, ◌+◌, ◌*◌, ◌-◌, ◌/◌, ◌%◌, ◌≤◌}
use mathlib.Core.Path.{◌≡◌, refl}
use mathlib.Core.Bool.{true, false}
use mathlib.Core.List.{[], ◌∷◌, ◌++◌}
use mathlib.Core.Logic.{inl, inr}
use native.Mathlib.Omega.{arith}
use adb_wfx_plugin.Base.Tests.{ltb, Bool-cases}
use adb_wfx_plugin.Base.Lists.{All, All-append}
use adb_wfx_plugin.Base.Text.{Bytes}
use adb_wfx_plugin.Base.Int.{ℤ, pos, negsuc}

-- The fuel is a bound on the number of digits; `n` itself is one.
digits_loop : ℕ → ℕ → Bytes
digits_loop zero n = (b'0' + n % 10) ∷ []
digits_loop (suc fuel) n = elim (ltb n 10) [
  | true ↦ (b'0' + n) ∷ []
  | false ↦ digits_loop fuel (n / 10) ++ (b'0' + n % 10) ∷ []
]

unfoldable pub to_string : ℕ → Bytes
unfolding digits_loop
to_string n = digits_loop n n

unfoldable pub to_string_signed : ℤ → Bytes
unfolding to_string
to_string_signed (pos n) = to_string n
to_string_signed (negsuc n) = b'-' ∷ to_string (suc n)

-- A character that prints a digit.
abbrev pub IsDigit : ℕ → Type 0
IsDigit c = (c ≤ b'9') × (b'0' ≤ c)

-- The number that further digits make of the one before them.
abbrev pub value : ℕ → Bytes → ℕ
value so_far [] = so_far
value so_far (c ∷ s) = value (10 * so_far + (c - b'0')) s

value-append :
    (s : Bytes) (so_far c : ℕ) → value so_far (s ++ c ∷ []) ≡ 10 * value so_far s + (c - b'0')
value-append [] so_far c = refl
value-append (d ∷ s) so_far c = value-append s (10 * so_far + (d - b'0')) c

digits_loop-value : (fuel n : ℕ) → n ≤ fuel → value 0 (digits_loop fuel n) ≡ n
unfolding digits_loop
digits_loop-value zero n h = omega arith
digits_loop-value (suc fuel) n h = ground (
  arith,
  digits_loop-value fuel (n / 10),
  value-append (digits_loop fuel (n / 10)) 0 (b'0' + n % 10),
)

digits_loop-IsDigit : (fuel n : ℕ) → All IsDigit (digits_loop fuel n)
unfolding digits_loop
digits_loop-IsDigit zero n = omega arith
digits_loop-IsDigit (suc fuel) n = elim (Bool-cases (ltb n 10)) [
  | inl e ↦ rw (e, digits_loop, All) (ground (arith, e))
  | inr e ↦
      rw (e, digits_loop, All)
        (All-append IsDigit (digits_loop fuel (n / 10)) ((b'0' + n % 10) ∷ [])
          (digits_loop-IsDigit fuel (n / 10)) (omega arith))
]

-- The text is digits only and spells the number.
pub to_string-value : (n : ℕ) → value 0 (to_string n) ≡ n
unfolding to_string
to_string-value n = digits_loop-value n n (omega arith)

pub to_string-IsDigit : (n : ℕ) → All IsDigit (to_string n)
unfolding to_string
to_string-IsDigit n = digits_loop-IsDigit n n
