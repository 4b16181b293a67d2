-- ===== src/RemotePath.antt =====
-- WFX paths and names: `parseRemotePath` and `joinWfxPath` of adbutils.hpp, and of
-- fsplugin_impl.hpp `displayNameForDevice`, `serialFromDisplayName`, `parseWfxPath`,
-- `throughSymlink`, `parentWfxDir`, `trimTrailingNewlines`, `utf8TruncatedLength` and
-- `tempDownloadPath`. A position in a text is a number, and `npos` is `none`.
pub mod Parents
pub mod Split
pub mod DisplayName
pub mod Trim
pub mod Names
use adb_wfx_plugin.Base.{
  ℕ, zero, suc, ◌+◌, ◌-◌, ◌≤◌, ◌<◌, ◌≡◌, Bool, true, false, ◌&&◌, ◌||◌, not, Option, none, some,
  List, [], ◌∷◌, ◌++◌, Bytes, codes, ltb, leb, ◌==◌, bytes_eq, is_empty, last?, find, starts_with,
  if◌then◌else◌, length, take, drop, get_or, bit_and,
}

pub record RemotePath : Type 0 where
  pub is_root : Bool
  pub serial : Bytes
  pub path : Bytes

abbrev pub slash : ℕ
slash = b'/'

abbrev pub root_path : Bytes
root_path = codes "/"

-- `wfxPath.front() == '/'` of a text that is not empty.
abbrev start_of : Bytes → ℕ
start_of [] = 0
start_of (c ∷ s) = if c == slash then 1 else 0

-- A result that is not the root.
abbrev pub on_device : Bytes → Bytes → RemotePath
on_device serial path = record { is_root = false; serial = serial; path = path }

-- What is behind `start`, split at its first slash. `rest` keeps the slash.
pub split_serial : Bytes → RemotePath
split_serial tail = elim (find slash tail) [
  | none ↦ on_device tail root_path
  | some next_slash ↦
      let rest = drop next_slash tail in
      on_device (take next_slash tail) (if ltb 1 (length rest) then rest else root_path)
]

pub parse_remote_path : Bytes → RemotePath
parse_remote_path wfx_path =
    if is_empty wfx_path || bytes_eq wfx_path root_path
    then record { is_root = true; serial = []; path = root_path }
    else split_serial (drop (start_of wfx_path) wfx_path)

pub join_wfx_path : Bytes → Bytes → Bytes
join_wfx_path dir leaf = elim (last? dir) [
  | none ↦ dir ++ slash ∷ leaf
  | some c ↦ if c == slash then dir ++ leaf else dir ++ slash ∷ leaf
]

unfoldable pub through_symlink : Bytes → Bytes
through_symlink path = join_wfx_path path (codes ".")

-- `s.rfind(p)`: the last position at which `p` stands.
unfoldable pub rfind : Bytes → Bytes → Option ℕ
rfind p [] = if is_empty p then some 0 else none
rfind p (c ∷ s) = elim (rfind p s) [
  | some i ↦ some (suc i)
  | none ↦ if starts_with p (c ∷ s) then some 0 else none
]

abbrev pub display_name_serial_open : Bytes
display_name_serial_open = codes " ("

abbrev pub display_name_serial_close : ℕ
display_name_serial_close = b')'

unfoldable pub display_name : Bytes → Bytes → Bytes
display_name model serial =
    if not (is_empty model)
    then model ++ display_name_serial_open ++ serial ++ display_name_serial_close ∷ []
    else serial

-- `displayName.substr(start, end - start)` between the last " (" and the closing bracket.
pub serial_between : Bytes → Bytes
serial_between name = elim (rfind display_name_serial_open name) [
  | none ↦ name
  | some open_pos ↦
      let start = open_pos + length display_name_serial_open in
      let end = length name - 1 in
      if leb end start then name else take (end - start) (drop start name)
]

pub serial_from_display_name : Bytes → Bytes
unfolding serial_between
serial_from_display_name name = elim (last? name) [
  | none ↦ name
  | some c ↦ if c == display_name_serial_close then serial_between name else name
]

pub parse_wfx_path : Bytes → RemotePath
parse_wfx_path wfx_path =
    let rp = parse_remote_path wfx_path in record rp { serial = serial_from_display_name rp.serial }

-- `s.find_last_of(c)`.
unfoldable pub find_last : ℕ → Bytes → Option ℕ
find_last c [] = none
find_last c (d ∷ s) = elim (find_last c s) [
  | some i ↦ some (suc i)
  | none ↦ if d == c then some 0 else none
]

pub parent_wfx_dir : Bytes → Bytes
parent_wfx_dir wfx_path = elim (find_last slash wfx_path) [
  | none ↦ root_path
  | some pos ↦ if pos == 0 then root_path else take pos wfx_path
]

-- The loop `while (end > 0 && …) --end`, from `end` on.
pub trim_end : Bytes → ℕ → ℕ
trim_end s zero = zero
trim_end s (suc end) =
    let c = get_or s end 0 in
    let rest = trim_end s end in if c == b'\n' || c == b'\r' then rest else suc end

pub trim_trailing_newlines : Bytes → Bytes
trim_trailing_newlines s = take (trim_end s (length s)) s

-- The loop that backs up over continuation bytes.
pub back_up : Bytes → ℕ → ℕ
back_up s zero = zero
back_up s (suc n) =
    let rest = back_up s n in if bit_and (get_or s (suc n) 0) 0xC0 == 0x80 then rest else suc n

unfoldable pub utf8_truncated_length : Bytes → ℕ → ℕ
utf8_truncated_length s max_bytes =
    if leb (length s) max_bytes then length s else back_up s max_bytes

abbrev pub max_file_name_bytes : ℕ
max_file_name_bytes = 255

abbrev pub temp_download_suffix : Bytes
temp_download_suffix = codes ".adbwfx.tmp."

-- What the limit leaves for the name, between the leading dot and the suffix.
unfoldable pub temp_budget : Bytes → ℕ
temp_budget suffix =
    if ltb (length suffix + 1) max_file_name_bytes
    then max_file_name_bytes - length suffix - 1
    else 0

unfoldable pub shortened : Bytes → ℕ → Bytes
shortened base budget =
    if ltb budget (length base) then take (utf8_truncated_length base budget) base else base

-- `pid` is the text of `std::to_string(getpid())`.
unfoldable pub temp_base : Bytes → Bytes → Bytes
temp_base base pid =
    let suffix = temp_download_suffix ++ pid in
    codes "." ++ (shortened base (temp_budget suffix) ++ suffix)

unfoldable pub temp_download_path : Bytes → Bytes → Bytes
unfolding temp_base
temp_download_path local_path pid = elim (find_last slash local_path) [
  | none ↦ temp_base local_path pid
  | some pos ↦ take (pos + 1) local_path ++ temp_base (drop (pos + 1) local_path) pid
]
