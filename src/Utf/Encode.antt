-- ===== src/Utf/Encode.antt =====
-- `appendUtf8` and `appendWide` write the encoding forms.
use adb_wfx_plugin.Base.{ℕ, ◌-◌, ◌/◌, ◌<◌, ◌≡◌, List, ◌++◌, Bytes, arith}
use adb_wfx_plugin.Utf.{append_utf8, append_wide}
use adb_wfx_plugin.Utf.Bits.{join_cont, join_two, join_three, join_four, low_ten}
use adb_wfx_plugin.Utf.Scalar.{utf8, utf16}

pub append_utf8-utf8 : (out : Bytes) (n : ℕ) → n < 0x110000 → append_utf8 out n ≡ out ++ utf8 n
unfolding append_utf8 utf8
append_utf8-utf8 out n h = ground (
  arith,
  join_cont n,
  join_cont (n / 64),
  join_cont (n / 4096),
  join_two (n / 64),
  join_three (n / 4096),
  join_four (n / 262144),
)

pub append_wide-utf16 : (out : List ℕ) (n : ℕ) → n < 0x110000 → append_wide out n ≡ out ++ utf16 n
unfolding append_wide utf16
append_wide-utf16 out n h = ground (arith, low_ten (n - 0x10000))
