-- ===== src/Server.antt =====
-- The server's port of adbserver.hpp. `adb_server_port` is given the value of the environment
-- variable, if it is set. `std::strtol` is the standard library's: white space, a sign, the
-- longest run of decimal digits, and the value brought into the range of a `long`.
pub mod Port
pub mod Binary
pub mod Start
use adb_wfx_plugin.Base.{
  ℕ, ◌+◌, ◌-◌, ◌*◌, ◌^◌, Bool, true, false, ◌||◌, ◌&&◌, Option, none, some, List, [], ◌∷◌, Bytes,
  ◌==◌, ltb, leb, is_empty, if◌then◌else◌, min,
}
use adb_wfx_plugin.Base.Int.{ℤ, pos, neg}
use adb_wfx_plugin.Proto.{adb_default_port}

abbrev pub is_c_space : ℕ → Bool
is_c_space c = c == b' ' || (leb 9 c && leb c 13)

abbrev pub is_c_digit : ℕ → Bool
is_c_digit c = leb b'0' c && leb c b'9'

pub skip_c_spaces : Bytes → Bytes
skip_c_spaces [] = []
skip_c_spaces (c ∷ s) = if is_c_space c then skip_c_spaces s else c ∷ s

-- The number that the run of digits spells behind `n`, and what follows the run.
pub digit_run : ℕ → Bytes → ℕ × Bytes
digit_run n [] = (n, [])
digit_run n (c ∷ s) =
    let rest = digit_run (10 * n + (c - b'0')) s in if is_c_digit c then rest else (n, c ∷ s)

-- The digits, behind the sign; `none` where there is no digit, and `end` is the text itself.
pub digits_behind : Bool → Bytes → Option (ℤ × Bytes)
unfolding digit_run
digits_behind is_negative [] = none
digits_behind is_negative (c ∷ s) =
    let (n, end) = digit_run 0 (c ∷ s) in
    if is_c_digit c
    then some (if is_negative then neg (min n (2 ^ 63)) else pos (min n (2 ^ 63 - 1)), end)
    else none

pub signed_digits : Bytes → Option (ℤ × Bytes)
unfolding digits_behind
signed_digits [] = none
signed_digits (c ∷ s) =
    if c == b'-'
    then digits_behind true s
    else if c == b'+'
    then digits_behind false s
    else digits_behind false (c ∷ s)

pub strtol : Bytes → Option (ℤ × Bytes)
unfolding skip_c_spaces signed_digits
strtol raw = signed_digits (skip_c_spaces raw)

-- `value < 1 || value > 65535`.
pub port_of : ℤ → ℕ
port_of (pos n) = if ltb n 1 || ltb 65535 n then adb_default_port else n
port_of z = adb_default_port

pub accepted_port : Option (ℤ × Bytes) → ℕ
unfolding port_of
accepted_port none = adb_default_port
accepted_port (some (value, end)) = if is_empty end then port_of value else adb_default_port

pub adb_server_port : Option Bytes → ℕ
unfolding strtol accepted_port
adb_server_port none = adb_default_port
adb_server_port (some raw) = if is_empty raw then adb_default_port else accepted_port (strtol raw)
