-- ===== src/Server/Port.antt =====
-- The port is one always, and the one that the variable spells.
use adb_wfx_plugin.Base.{
  ℕ, ◌≤◌, ◌+◌, ◌-◌, ◌*◌, ◌≡◌, refl, Option, none, some, [], ◌∷◌, Bytes, All, arith,
}
use adb_wfx_plugin.Base.Int.{ℤ, pos, negsuc}
use adb_wfx_plugin.Base.Decimal.{to_string, value, IsDigit, to_string-value, to_string-IsDigit}
use adb_wfx_plugin.Server.{
  skip_c_spaces, digit_run, digits_behind, signed_digits, strtol, port_of, accepted_port,
  adb_server_port,
}

port_of-bounds : (z : ℤ) → (1 ≤ port_of z) × (port_of z ≤ 65535)
unfolding port_of
port_of-bounds (pos n) = ground arith
port_of-bounds (negsuc n) = omega arith

accepted_port-bounds :
    (answer : Option (ℤ × Bytes)) → (1 ≤ accepted_port answer) × (accepted_port answer ≤ 65535)
unfolding accepted_port
accepted_port-bounds none = omega arith
accepted_port-bounds (some (z, [])) = port_of-bounds z
accepted_port-bounds (some (z, c ∷ end)) = omega arith

-- Whatever the variable holds, the port is from 1 to 65535.
adb_server_port-bounds :
    (raw : Option Bytes) → (1 ≤ adb_server_port raw) × (adb_server_port raw ≤ 65535)
unfolding adb_server_port
adb_server_port-bounds none = omega arith
adb_server_port-bounds (some []) = omega arith
adb_server_port-bounds (some (c ∷ raw)) = accepted_port-bounds (strtol (c ∷ raw))

digit_run-digits : (n : ℕ) (s : Bytes) → All IsDigit s → digit_run n s ≡ (value n s, [])
unfolding digit_run
digit_run-digits n [] h = refl
digit_run-digits n (c ∷ s) h = ground (arith, digit_run-digits (10 * n + (c - b'0')) s h.1, h.0)

strtol-digits :
    (c : ℕ) (s : Bytes)
    → All IsDigit (c ∷ s)
    → value 0 (c ∷ s) ≤ 65535
    → strtol (c ∷ s) ≡ some (pos (value 0 (c ∷ s)), [])
unfolding strtol skip_c_spaces signed_digits digits_behind
strtol-digits c s h le = ground (arith, h.0, digit_run-digits 0 (c ∷ s) h)

port_by_digits :
    (text : Bytes) (port : ℕ)
    → All IsDigit text
    → value 0 text ≡ port
    → 1 ≤ port
    → port ≤ 65535
    → adb_server_port (some text) ≡ port
unfolding adb_server_port accepted_port port_of
port_by_digits [] port h e lo hi = omega arith
port_by_digits (c ∷ s) port h e lo hi =
    rw (strtol-digits c s h (omega arith)) (ground (arith, e, lo, hi))

-- A port in decimal digits is read back.
adb_server_port-to_string :
    (port : ℕ) → 1 ≤ port → port ≤ 65535 → adb_server_port (some (to_string port)) ≡ port
adb_server_port-to_string port lo hi =
    port_by_digits (to_string port) port (to_string-IsDigit port) (to_string-value port) lo hi
