-- ===== src/Proto/Devices.antt =====
-- The text form of `host:devices-l`: adbproto.hpp's parser, and what it says of a device's state.
pub mod Fields
pub mod Listed
pub mod Lines
pub mod Parsed
pub mod Printed
use adb_wfx_plugin.Base.{
  ℕ, zero, suc, ◌+◌, Bool, true, false, ◌&&◌, ◌||◌, not, Option, none, some, List, [], ◌∷◌, ◌++◌,
  Bytes, codes, ltb, leb, ◌==◌, bytes_eq, is_empty, find, starts_with, if◌then◌else◌, length,
  get_or, take, drop,
}

pub record DeviceInfo : Type 0 where
  pub serial : Bytes
  pub state : Bytes
  pub model : Bytes

abbrev pub is_space : ℕ → Bool
is_space c = c == b' ' || (c == b'\t' || (c == b'\r' || c == b'\n'))

abbrev pub is_blank : ℕ → Bool
is_blank c = c == b' ' || c == b'\t'

-- The loop `while (end > 0 && …) --end`, from `end` on.
pub trim_loop : Bytes → ℕ → ℕ
trim_loop s zero = zero
trim_loop s (suc end) =
    let rest = trim_loop s end in if is_space (get_or s end 0) then rest else suc end

pub trim_trailing_whitespace : Bytes → Bytes
trim_trailing_whitespace s = take (trim_loop s (length s)) s

-- The first inner loop of `splitFields`: past the blanks.
pub skip_blanks : Bytes → Bytes
skip_blanks [] = []
skip_blanks (c ∷ s) = if is_blank c then skip_blanks s else c ∷ s

-- The second: up to the next blank. The field, and what is left.
pub span_field : Bytes → Bytes × Bytes
span_field [] = ([], [])
span_field (c ∷ s) =
    let (field, rest) = span_field s in if is_blank c then ([], c ∷ s) else (c ∷ field, rest)

-- `while (i < line.size())`, on fuel: a round takes a byte at least.
pub fields_loop : ℕ → Bytes → List Bytes → List Bytes
fields_loop zero line fields = fields
fields_loop (suc fuel) [] fields = fields
fields_loop (suc fuel) (c ∷ line) fields =
    let (field, rest) = span_field (skip_blanks (c ∷ line)) in
    fields_loop fuel rest (if is_empty field then fields else fields ++ field ∷ [])

pub split_fields : Bytes → List Bytes
split_fields line = fields_loop (length line) line []

abbrev pub model_prefix : Bytes
model_prefix = codes "model:"

-- The loop over the fields from the third on.
pub model_loop : List Bytes → Bytes → Bytes
model_loop [] model = model
model_loop (field ∷ fields) model =
    model_loop fields
      (if starts_with model_prefix field then drop (length model_prefix) field else model)

-- What the fields of a line add to the devices.
pub push_device : List Bytes → List DeviceInfo → List DeviceInfo
push_device [] devices = devices
push_device (serial ∷ []) devices = devices
push_device (serial ∷ state ∷ fields) devices =
    devices ++ record { serial = serial; state = state; model = model_loop fields [] } ∷ []

abbrev pub list_header : Bytes
list_header = codes "List of devices attached"

pub parse_line : Bytes → List DeviceInfo → List DeviceInfo
parse_line raw_line devices =
    let line = trim_trailing_whitespace raw_line in
    if not (is_empty line) && not (bytes_eq line list_header)
    then push_device (split_fields line) devices
    else devices

-- The loop over the lines, on fuel: `text` is what is behind `lineStart`, and a round that goes on
-- takes the line's end.
pub lines_loop : ℕ → Bytes → List DeviceInfo → List DeviceInfo
lines_loop zero text devices = devices
lines_loop (suc fuel) text devices = elim (find b'\n' text) [
  | none ↦ parse_line text devices
  | some line_end ↦
      lines_loop fuel (drop (line_end + 1) text) (parse_line (take line_end text) devices)
]

pub parse_devices_l : Bytes → List DeviceInfo
parse_devices_l text = lines_loop (length text + 1) text []

unfoldable pub device_state_is_usable : Bytes → Bool
device_state_is_usable state = bytes_eq state (codes "device")

unfoldable pub device_state_message : DeviceInfo → Bytes
device_state_message d =
    let device = codes "Device " ++ d.serial in
    if bytes_eq d.state (codes "unauthorized")
    then device ++ codes " is unauthorized: check the phone's screen and authorise this computer."
    else if bytes_eq d.state (codes "offline")
    then device ++ codes " is offline: try reconnecting the USB cable."
    else if bytes_eq d.state (codes "recovery")
    then device ++ codes " is in recovery mode, not the normal Android system."
    else if bytes_eq d.state (codes "bootloader")
    then device ++ codes " is in bootloader mode, not the normal Android system."
    else if bytes_eq d.state (codes "sideload")
    then device ++ codes " is in sideload mode, not the normal Android system."
    else device ++ codes " is in state '" ++ d.state ++ codes "' and is not usable."
