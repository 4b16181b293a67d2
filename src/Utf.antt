-- ===== src/Utf.antt =====
-- The UTF-16 and UTF-8 conversions of utils.hpp: the functions, line by line.
-- `uint32_t` values stay below 2 ^ 32 and shifts wrap there; `static_cast<char>` keeps 8 bits and
-- `static_cast<WCHAR>` 16. A pair `(src, pos)` is the list from `pos` on, so that `src[pos + k]` is
-- its element `k` and `src.size() - pos` its length.
pub mod Bits
pub mod Scalar
pub mod Encode
pub mod Decode
pub mod Strings
pub mod Buffer
use adb_wfx_plugin.Base.{
  ℕ, zero, suc, ◌+◌, ◌-◌, ◌*◌, ◌/◌, ◌%◌, ◌^◌, bit_and, bit_or, Bool, true, false, ◌&&◌, ◌||◌,
  Option, none, some, List, [], ◌∷◌, ◌++◌, Bytes, ltb, leb, ◌==◌, if◌then◌else◌, length, get_or,
  take, drop,
}

abbrev pub replacement_character : ℕ
replacement_character = 0xFFFD

abbrev pub max_code_point : ℕ
max_code_point = 0x10FFFF

abbrev pub to_char : ℕ → ℕ
to_char n = n % 256

abbrev pub to_wchar : ℕ → ℕ
to_wchar n = n % 65536

-- `n >> k`.
abbrev pub shr : ℕ → ℕ → ℕ
shr n k = n / 2 ^ k

-- A continuation byte with six bits of the code point.
abbrev cont : ℕ → ℕ
cont n = to_char (bit_or 0x80 (bit_and n 0x3F))

pub append_utf8 : Bytes → ℕ → Bytes
append_utf8 out codepoint =
    if leb codepoint 0x7F
    then out ++ to_char codepoint ∷ []
    else if leb codepoint 0x7FF
    then out ++ to_char (bit_or 0xC0 (shr codepoint 6)) ∷ cont codepoint ∷ []
    else if leb codepoint 0xFFFF
    then out
      ++ to_char (bit_or 0xE0 (shr codepoint 12)) ∷ cont (shr codepoint 6) ∷ cont codepoint ∷ []
    else out
      ++ to_char (bit_or 0xF0 (shr codepoint 18))
        ∷ cont (shr codepoint 12)
        ∷ cont (shr codepoint 6)
        ∷ cont codepoint
        ∷ []

pub append_wide : List ℕ → ℕ → List ℕ
append_wide out codepoint =
    if leb codepoint 0xFFFF
    then out ++ to_wchar codepoint ∷ []
    else let v = codepoint - 0x10000 in
      out ++ to_wchar (0xD800 + shr v 10) ∷ to_wchar (0xDC00 + bit_and v 0x3FF) ∷ []

pub record Utf8Decode : Type 0 where
  pub codepoint : ℕ
  pub consumed : ℕ

-- The three values that a lead byte decides.
pub record Lead : Type 0 where
  pub seq_len : ℕ
  pub codepoint : ℕ
  pub min_codepoint : ℕ

pub lead_of : ℕ → Option Lead
lead_of lead =
    if bit_and lead 0xE0 == 0xC0
    then some (record { seq_len = 2; codepoint = bit_and lead 0x1F; min_codepoint = 0x80 })
    else if bit_and lead 0xF0 == 0xE0
    then some (record { seq_len = 3; codepoint = bit_and lead 0x0F; min_codepoint = 0x800 })
    else if bit_and lead 0xF8 == 0xF0
    then some (record { seq_len = 4; codepoint = bit_and lead 0x07; min_codepoint = 0x10000 })
    else none

-- The loop over the continuation bytes, with the rounds left; `none` at a broken one. The list
-- does not run out: its length has been tested.
pub continue : ℕ → Bytes → ℕ → Option ℕ
continue zero src codepoint = some codepoint
continue (suc k) [] codepoint = none
continue (suc k) (c ∷ src) codepoint =
    if bit_and c 0xC0 == 0x80
    then continue k src (bit_or (codepoint * 2 ^ 6 % 2 ^ 32) (bit_and c 0x3F))
    else none

abbrev malformed : ℕ → Utf8Decode
malformed n = record { codepoint = replacement_character; consumed = n }

-- Overlong, too large, or a surrogate.
pub out_of_range : ℕ → ℕ → Bool
out_of_range min_codepoint codepoint =
    ltb codepoint min_codepoint
    || ltb max_code_point codepoint
    || (leb 0xD800 codepoint && leb codepoint 0xDFFF)

pub decode_sequence : Lead → Bytes → Utf8Decode
unfolding out_of_range
decode_sequence l rest =
    if ltb (suc (length rest)) l.seq_len
    then malformed 1
    else elim (continue (l.seq_len - 1) rest l.codepoint) [
      | none ↦ malformed 1
      | some codepoint ↦
          if out_of_range l.min_codepoint codepoint
          then malformed l.seq_len
          else record { codepoint = codepoint; consumed = l.seq_len }
    ]

-- The code reads `src[pos]` with `pos < src.size()`; it is never called on the empty text.
pub decode_utf8 : Bytes → Utf8Decode
decode_utf8 [] = malformed 1
decode_utf8 (lead ∷ rest) =
    if leb lead 0x7F
    then record { codepoint = lead; consumed = 1 }
    else elim (lead_of lead) [ none ↦ malformed 1 | some l ↦ decode_sequence l rest ]

abbrev pub is_high : ℕ → Bool
is_high unit = leb 0xD800 unit && leb unit 0xDBFF

abbrev pub is_low : ℕ → Bool
is_low unit = leb 0xDC00 unit && leb unit 0xDFFF

-- One round of `wideToUtf8`: the code point, and whether the low surrogate was consumed too.
pub record WideDecode : Type 0 where
  pub codepoint : ℕ
  pub pair : Bool

pub decode_wide : ℕ → ℕ → WideDecode
decode_wide unit next =
    if is_high unit
    then if is_low next
      then record { codepoint = 0x10000 + (unit - 0xD800) * 2 ^ 10 + (next - 0xDC00); pair = true }
      else record { codepoint = replacement_character; pair = false }
    else if is_low unit
    then record { codepoint = replacement_character; pair = false }
    else record { codepoint = unit; pair = false }

pub wide_loop : List ℕ → Bytes → Bytes
wide_loop [] out = out
wide_loop (unit ∷ []) out = append_utf8 out (decode_wide unit 0).codepoint
wide_loop (unit ∷ next ∷ rest) out =
    let r = decode_wide unit next in
    elim r.pair [
      | true ↦ wide_loop rest (append_utf8 out r.codepoint)
      | false ↦ wide_loop (next ∷ rest) (append_utf8 out r.codepoint)
    ]

-- `wideToUtf8(src, len)`, on the first `len` units.
pub wide_to_utf8 : List ℕ → Bytes
wide_to_utf8 src = wide_loop src []

-- `while (src[len] != 0) ++len`.
unfoldable pub until_nul : List ℕ → List ℕ
until_nul [] = []
until_nul (u ∷ src) = if u == 0 then [] else u ∷ until_nul src

-- `wideToUtf8(src)` of a terminated text.
unfoldable pub wide_c_str_to_utf8 : List ℕ → Bytes
wide_c_str_to_utf8 src = wide_to_utf8 (until_nul src)

-- `while (pos < src.size())`, on fuel. Each round takes a byte at least.
pub utf8_loop : ℕ → Bytes → List ℕ → List ℕ
utf8_loop zero src out = out
utf8_loop (suc fuel) [] out = out
utf8_loop (suc fuel) (c ∷ src) out =
    let d = decode_utf8 (c ∷ src) in
    utf8_loop fuel (drop d.consumed (c ∷ src)) (append_wide out d.codepoint)

pub utf8_to_wide : Bytes → List ℕ
utf8_to_wide src = utf8_loop (length src) src [] ++ 0 ∷ []

-- Where a truncated copy stops: a high surrogate is not left as the last unit.
pub copy_units : List ℕ → ℕ → ℕ
copy_units wide max_units =
    if ltb 0 max_units && is_high (get_or wide (max_units - 1) 0) then max_units - 1 else max_units

-- What `utf8ToWideBuf` leaves in `dest`, terminator included, and its result. Writing nothing at
-- `destChars == 0` is the empty list.
pub utf8_to_wide_buf : Bytes → ℕ → List ℕ × Bool
utf8_to_wide_buf src zero = ([], false)
utf8_to_wide_buf src (suc max_units) =
    let wide = utf8_to_wide src in
    let source_units = length wide - 1 in
    if leb source_units max_units
    then (take source_units wide ++ 0 ∷ [], true)
    else (take (copy_units wide max_units) wide ++ 0 ∷ [], false)
