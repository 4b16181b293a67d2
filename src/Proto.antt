-- ===== src/Proto.antt =====
-- adbproto.hpp: the wire protocol's encoders and decoders. Bytes in, values out.
-- `unsigned char` is a number below 256 and `uint32_t` one below 2 ^ 32; a pointer with a length is
-- the list that it points at.
pub mod Entry
pub mod Devices
pub mod Framing
pub mod Packets
use adb_wfx_plugin.Base.{
  ℕ, zero, suc, ◌+◌, ◌-◌, ◌*◌, ◌/◌, ◌%◌, ◌^◌, bit_and, bit_or, Bool, true, false, ◌&&◌, ◌||◌,
  Option, none, some, List, [], ◌∷◌, ◌++◌, Bytes, codes, ltb, leb, ◌==◌, bytes_eq, if◌then◌else◌,
  length, get_or, take, drop,
}
use adb_wfx_plugin.Base.Int.{ℤ, pos}
use adb_wfx_plugin.Base.Decimal.{to_string}
use Entry.{DirEntry}

abbrev pub sync_data_max : ℕ
sync_data_max = 65536

abbrev pub sync_path_max : ℕ
sync_path_max = 1024

abbrev pub adb_default_port : ℕ
adb_default_port = 5037

abbrev pub host_request_max_size : ℕ
host_request_max_size = 0xFFFF

-- A lowercase hexadecimal digit of `%04x`.
pub hex_digit : ℕ → ℕ
hex_digit n = if ltb n 10 then b'0' + n else b'a' + (n - 10)

-- `%04x` of a number below 2 ^ 16.
unfoldable pub length_prefix : ℕ → Bytes
unfolding hex_digit
length_prefix n =
    hex_digit (n / 4096)
    ∷ hex_digit (n / 256 % 16)
    ∷ hex_digit (n / 16 % 16)
    ∷ hex_digit (n % 16)
    ∷ []

pub encode_host_request : Bytes → Bytes
encode_host_request service =
    if ltb host_request_max_size (length service)
    then []
    else length_prefix (length service) ++ service

pub data AdbStatus : Type 0 where
  okay fail malformed : AdbStatus

unfoldable pub parse_status : Bytes → AdbStatus
parse_status four_bytes =
    if bytes_eq (take 4 four_bytes) (codes "OKAY")
    then okay
    else if bytes_eq (take 4 four_bytes) (codes "FAIL")
    then fail
    else malformed

unfoldable pub read_u32_le : Bytes → ℕ
read_u32_le p =
    bit_or
      (bit_or (bit_or (get_or p 0 0) (get_or p 1 0 * 2 ^ 8 % 2 ^ 32))
        (get_or p 2 0 * 2 ^ 16 % 2 ^ 32))
      (get_or p 3 0 * 2 ^ 24 % 2 ^ 32)

unfoldable pub write_u32_le : ℕ → Bytes
write_u32_le v =
    bit_and v 0xFF
    ∷ bit_and (v / 2 ^ 8) 0xFF
    ∷ bit_and (v / 2 ^ 16) 0xFF
    ∷ bit_and (v / 2 ^ 24) 0xFF
    ∷ []

-- `none` is the code's -1.
pub hex_digit_value : ℕ → Option ℕ
hex_digit_value c =
    if leb b'0' c && leb c b'9'
    then some (c - b'0')
    else if leb b'a' c && leb c b'f'
    then some (10 + (c - b'a'))
    else if leb b'A' c && leb c b'F'
    then some (10 + (c - b'A'))
    else none

-- The loop over the digits, with the rounds left; `none` is `*ok = false`.
pub hex_loop : ℕ → Bytes → ℕ → Option ℕ
hex_loop zero s value = some value
hex_loop (suc rounds) s value = elim (hex_digit_value (get_or s 0 0)) [
  | none ↦ none
  | some digit ↦ hex_loop rounds (drop 1 s) (bit_or (value * 2 ^ 4 % 2 ^ 32) digit)
]

pub parse_hex_length : Bytes → Option ℕ
parse_hex_length four_hex_digits = hex_loop 4 four_hex_digits 0

pub record SyncHeader : Type 0 where
  pub id : Bytes
  pub arg : ℕ

pub encode_sync_header : Bytes → ℕ → Bytes
encode_sync_header id arg = take 4 id ++ write_u32_le arg

unfoldable pub parse_sync_header : Bytes → SyncHeader
parse_sync_header eight_bytes = record {
  id = take 4 eight_bytes;
  arg = read_u32_le (drop 4 eight_bytes);
}

unfoldable pub sync_id_is : SyncHeader → Bytes → Bool
sync_id_is h id = bytes_eq h.id (take 4 id)

abbrev pub dent_fixed_header_size : ℕ
dent_fixed_header_size = 16

-- The assignments through `out`. The flag that is not on the wire stays.
unfoldable pub read_dent : Bytes → DirEntry → DirEntry
read_dent p out = record out {
  mode = read_u32_le p;
  size = read_u32_le (drop 4 p);
  mtime = pos (read_u32_le (drop 8 p));
  name = take (read_u32_le (drop 12 p)) (drop dent_fixed_header_size p);
}

-- `avail` is the length of `p`. The result is the entry that `out` becomes, and `consumed`.
pub parse_dent_body : Bytes → DirEntry → Option (DirEntry × ℕ)
unfolding read_dent
parse_dent_body p out =
    if ltb (length p) dent_fixed_header_size
    then none
    else let namelen = read_u32_le (drop 12 p) in
      if ltb (length p - dent_fixed_header_size) namelen
      then none
      else some (read_dent p out, dent_fixed_header_size + namelen)

unfoldable pub encode_send_path_spec : Bytes → ℕ → Bytes
encode_send_path_spec path mode = path ++ codes "," ++ to_string mode
