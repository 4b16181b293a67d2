-- ===== src/Proto/Devices/Printed.antt =====
-- `parseDevicesL` on the text that an adb server prints.
use adb_wfx_plugin.Base.{
  ℕ, zero, suc, ◌+◌, ◌<◌, ◌≡◌, refl, sym, ap, ◌∙◌, List, [], ◌∷◌, ◌++◌, append_assoc, append-nil,
  Bytes, length, length-append, drop, All, arith, find, find-append, Lacks, take-append_length,
}
use adb_wfx_plugin.Proto.Devices.{
  DeviceInfo, trim_loop, trim_trailing_whitespace, parse_line, lines_loop, parse_devices_l,
}
use adb_wfx_plugin.Proto.Devices.Lines.{
  DeviceLine, device_line, print_devices, device_of, devices_of, IsPrintable,
}
use adb_wfx_plugin.Proto.Devices.Parsed.{parse_line-device_line, device_line-Lacks}

lines_step :
    (fuel : ℕ) (line rest : Bytes) (devices : List DeviceInfo)
    → Lacks b'\n' line
    → lines_loop (suc fuel) (line ++ b'\n' ∷ rest) devices
      ≡ lines_loop fuel rest (parse_line line devices)
unfolding lines_loop
lines_step fuel line rest devices h =
    rw (find-append b'\n' line rest h, lines_loop)
      (rw (take-append_length line (b'\n' ∷ rest), behind line) refl)
  where
    behind : (line : Bytes) → drop (length line + 1) (line ++ b'\n' ∷ rest) ≡ rest
    behind [] = refl
    behind (c ∷ line) =
        ap (λ j. drop j (c ∷ line ++ b'\n' ∷ rest)) {y = suc (length line + 1)} (omega arith)
        ∙ behind line

parse_empty_line : (devices : List DeviceInfo) → parse_line [] devices ≡ devices
unfolding parse_line trim_trailing_whitespace trim_loop
parse_empty_line devices = refl

no_line : (fuel : ℕ) (devices : List DeviceInfo) → lines_loop (suc fuel) [] devices ≡ devices
unfolding lines_loop find
no_line fuel devices = parse_empty_line devices

lines_loop-print_devices :
    (ls : List DeviceLine) (fuel : ℕ) (devices : List DeviceInfo)
    → All IsPrintable ls
    → length (print_devices ls) < fuel
    → lines_loop fuel (print_devices ls) devices ≡ devices ++ devices_of ls
unfolding print_devices
lines_loop-print_devices ls zero devices h lt = absurd (omega arith)
lines_loop-print_devices [] (suc fuel) devices h lt =
    no_line fuel devices ∙ sym (append-nil devices)
lines_loop-print_devices (l ∷ ls) (suc fuel) devices h lt =
    lines_step fuel (device_line l) (print_devices ls) devices (device_line-Lacks l h.0)
    ∙ ap (lines_loop fuel (print_devices ls)) (parse_line-device_line l devices h.0)
    ∙ lines_loop-print_devices ls fuel (devices ++ device_of l ∷ []) h.1
        (omega (arith, length-append (device_line l) (b'\n' ∷ print_devices ls)))
    ∙ append_assoc devices (device_of l ∷ []) (devices_of ls)

-- Lines whose fields hold no white space, with a serial that is not the header's first word, a
-- state and at most one field for the model, at any place among the others, are read back, each
-- ended by a newline: serial, state and model of every line, in their order.
pub parse_devices_l-print_devices :
    (ls : List DeviceLine) → All IsPrintable ls → parse_devices_l (print_devices ls) ≡ devices_of ls
unfolding parse_devices_l
parse_devices_l-print_devices ls h =
    lines_loop-print_devices ls (length (print_devices ls) + 1) [] h (omega arith)
