-- ===== src/Proto/Devices/Listed.antt =====
-- What `parseDevicesL` promises of the devices in any text.
use adb_wfx_plugin.Base.{
  ℕ, zero, suc, ◌+◌, inl, inr, Bool, true, false, ◌&&◌, not, List, [], ◌∷◌, Bytes, is_empty,
  if◌then◌else◌, length, take, drop, All, All-append, Option-cases, find, bytes_eq,
}
use adb_wfx_plugin.Proto.Devices.{
  DeviceInfo, trim_trailing_whitespace, split_fields, push_device, parse_line, lines_loop,
  parse_devices_l, list_header,
}
use adb_wfx_plugin.Proto.Devices.Fields.{IsField, split_fields-IsField}

-- What holds of every device that is listed.
pub record IsListed (d : DeviceInfo) : Type 0 where
  pub serial_is_field : IsField d.serial
  pub state_is_field : IsField d.state

push_device-IsListed :
    (fields : List Bytes) (devices : List DeviceInfo)
    → All IsField fields
    → All IsListed devices
    → All IsListed (push_device fields devices)
unfolding push_device
push_device-IsListed [] devices h k = k
push_device-IsListed (serial ∷ []) devices h k = k
push_device-IsListed (serial ∷ state ∷ fields) devices h k =
    All-append IsListed devices _ k (record { serial_is_field = h.0; state_is_field = h.1.0 }, tt)

parse_line-IsListed :
    (line : Bytes) (devices : List DeviceInfo)
    → All IsListed devices
    → All IsListed (parse_line line devices)
unfolding parse_line
parse_line-IsListed raw devices k = choose (not (is_empty line) && not (bytes_eq line list_header))
  where
    line : Bytes
    line = trim_trailing_whitespace raw

    choose :
        (b : Bool) → All IsListed (if b then push_device (split_fields line) devices else devices)
    choose true = push_device-IsListed (split_fields line) devices (split_fields-IsField line) k
    choose false = k

lines_loop-IsListed :
    (fuel : ℕ) (text : Bytes) (devices : List DeviceInfo)
    → All IsListed devices
    → All IsListed (lines_loop fuel text devices)
unfolding lines_loop
lines_loop-IsListed zero text devices k = k
lines_loop-IsListed (suc fuel) text devices k = elim (Option-cases (find b'\n' text)) [
  | inl e ↦ rw (e, lines_loop, All) (parse_line-IsListed text devices k)
  | inr (i, e) ↦
      rw (e, lines_loop, All)
        (lines_loop-IsListed fuel (drop (i + 1) text) _
          (parse_line-IsListed (take i text) devices k))
]

-- Whatever the server sends, a listed device has a serial and a state, and no blank in either.
pub parse_devices_l-IsListed : (text : Bytes) → All IsListed (parse_devices_l text)
unfolding parse_devices_l
parse_devices_l-IsListed text = lines_loop-IsListed (length text + 1) text [] tt
