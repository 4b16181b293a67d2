-- ===== src/Core/Listing/Entries.antt =====
-- What `appendEntries` and `listRootDevices` answer.
use adb_wfx_plugin.Base.{
  ◌≡◌, inl, inr, refl, sym, ◌∙◌, Bool, false, not, List, [], ◌∷◌, ◌++◌, append_assoc, append-nil,
  Bytes, is_empty, if◌then◌else◌, arith, Bool-cases, All, codes,
}
use mathlib.Core.List.{map}
use adb_wfx_plugin.Proto.Entry.{DirEntry}
use adb_wfx_plugin.Proto.Devices.{
  DeviceInfo, device_state_is_usable, device_state_message, parse_devices_l,
}
use adb_wfx_plugin.Proto.Devices.Fields.{NoBlank}
use adb_wfx_plugin.Proto.Devices.Listed.{IsListed, parse_devices_l-IsListed}
use adb_wfx_plugin.Base.Text.{Lacks}
use adb_wfx_plugin.RemotePath.DisplayName.{
  HasNoOpen, Lacks-HasNoOpen, serial_from_display_name-display_name,
}
use adb_wfx_plugin.RemotePath.{serial_from_display_name}
use adb_wfx_plugin.Core.Listing.{
  FindResult, is_dot, find_result_of, append_entries, root_entry, add_warning, root_loop,
}

-- The entries that a test keeps, in their order.
pub keep : {A : Type 0} → (A → Bool) → List A → List A
keep test [] = []
keep test (x ∷ xs) = if test x then x ∷ keep test xs else keep test xs

append_entries_from :
    (entries : List DirEntry) (out : List FindResult)
    → append_entries entries out
      ≡ out ++ map find_result_of (keep (λ e. not (is_dot e.name)) entries)
unfolding append_entries keep
append_entries_from [] out = sym (append-nil out)
append_entries_from (e ∷ entries) out = elim (Bool-cases (is_dot e.name)) [
  | inl h ↦ rw h (append_entries_from entries out)
  | inr h ↦ rw h (append_entries_from entries (out ++ find_result_of e ∷ []) ∙ append_assoc out _ _)
]

-- A listing holds every entry of the directory once and in its order, but for `.` and `..`.
append_entries_lem :
    (entries : List DirEntry)
    → append_entries entries [] ≡ map find_result_of (keep (λ e. not (is_dot e.name)) entries)
append_entries_lem entries = append_entries_from entries []

abbrev pub is_usable : DeviceInfo → Bool
is_usable d = device_state_is_usable d.state

-- The lines of the warning.
pub join_lines : List Bytes → Bytes
join_lines [] = []
join_lines (l ∷ []) = l
join_lines (l ∷ m ∷ ls) = l ++ b'\n' ∷ join_lines (m ∷ ls)

root_loop-entries :
    (devices : List DeviceInfo) (out : List FindResult) (warnings : Bytes)
    → (root_loop devices out warnings).entries ≡ out ++ map root_entry (keep is_usable devices)
unfolding root_loop keep
root_loop-entries [] out warnings = sym (append-nil out)
root_loop-entries (d ∷ devices) out warnings = elim (Bool-cases (is_usable d)) [
  | inl h ↦
      rw (h, root_loop)
        (root_loop-entries devices (out ++ root_entry d ∷ []) warnings ∙ append_assoc out _ _)
  | inr h ↦
      rw (h, root_loop)
        (root_loop-entries devices out (add_warning warnings (device_state_message d)))
]

message_nonempty : (d : DeviceInfo) → is_empty (device_state_message d) ≡ false
unfolding device_state_message
message_nonempty d = ground arith

join_lines-append :
    (w l : Bytes) (ls : List Bytes)
    → join_lines ((w ++ codes "\n" ++ l) ∷ ls) ≡ w ++ b'\n' ∷ join_lines (l ∷ ls)
unfolding join_lines
join_lines-append w l [] = append_assoc w (codes "\n") l
join_lines-append w l (m ∷ ls) = append_assoc (w ++ codes "\n") l _ ∙ append_assoc w (codes "\n") _

nonempty-append : (w l : Bytes) → is_empty w ≡ false → is_empty (w ++ l) ≡ false
nonempty-append [] l h = ground arith
nonempty-append (x ∷ w) l h = refl

messages : List DeviceInfo → List Bytes
unfolding keep
messages devices = map device_state_message (keep (λ d. not (is_usable d)) devices)

root_loop-warning_after :
    (devices : List DeviceInfo) (out : List FindResult) (warnings : Bytes)
    → is_empty warnings ≡ false
    → (root_loop devices out warnings).warning ≡ join_lines (warnings ∷ messages devices)
unfolding root_loop messages join_lines add_warning
root_loop-warning_after [] out warnings h = refl
root_loop-warning_after (d ∷ devices) out warnings h = elim (Bool-cases (is_usable d)) [
  | inl e ↦
      rw (e, root_loop) (root_loop-warning_after devices (out ++ root_entry d ∷ []) warnings h)
  | inr e ↦
      rw (e, root_loop, h)
        (root_loop-warning_after devices out (warnings ++ codes "\n" ++ device_state_message d)
            (nonempty-append (warnings ++ codes "\n") _ (nonempty-append warnings _ h))
          ∙ join_lines-append warnings (device_state_message d) (messages devices))
]

root_loop-warning :
    (devices : List DeviceInfo) (out : List FindResult)
    → (root_loop devices out []).warning ≡ join_lines (messages devices)
unfolding root_loop messages join_lines add_warning
root_loop-warning [] out = refl
root_loop-warning (d ∷ devices) out = elim (Bool-cases (is_usable d)) [
  | inl e ↦ rw (e, root_loop) (root_loop-warning devices (out ++ root_entry d ∷ []))
  | inr e ↦
      rw (e, root_loop)
        (root_loop-warning_after devices out (device_state_message d) (message_nonempty d))
]

-- The root shows the usable devices in the order of the device list, and the warning has one line
-- for each of the others, in that order too.
root_loop_lem :
    (devices : List DeviceInfo)
    → ((root_loop devices [] []).entries ≡ map root_entry (keep is_usable devices))
      × ((root_loop devices [] []).warning
          ≡ join_lines (map device_state_message (keep (λ d. not (is_usable d)) devices)))
unfolding messages
root_loop_lem devices = (root_loop-entries devices [] [], root_loop-warning devices [])

NoBlank-Lacks : (s : Bytes) → NoBlank s → Lacks b' ' s
NoBlank-Lacks [] h = tt
NoBlank-Lacks (c ∷ s) h = (ground (arith, h.0), NoBlank-Lacks s h.1)

NoBlank-HasNoOpen : (s : Bytes) → NoBlank s → HasNoOpen s
NoBlank-HasNoOpen s h = Lacks-HasNoOpen s (NoBlank-Lacks s h)

abbrev ReadsBack : DeviceInfo → Type 0
ReadsBack d = serial_from_display_name (root_entry d).name ≡ d.serial

each : (devices : List DeviceInfo) → All IsListed devices → All ReadsBack devices
unfolding root_entry
each [] h = tt
each (d ∷ devices) (h, k) = (
  serial_from_display_name-display_name d.model d.serial h.serial_is_field.filled
      (NoBlank-HasNoOpen d.serial h.serial_is_field.unbroken),
  each devices k,
)

-- Whatever the device list says, the name that the root shows for a device leads back to its
-- serial.
pub root_entry-serial_from_display_name :
    (text : Bytes)
    → All (λ d. serial_from_display_name (root_entry d).name ≡ d.serial) (parse_devices_l text)
root_entry-serial_from_display_name text =
    each (parse_devices_l text) (parse_devices_l-IsListed text)
