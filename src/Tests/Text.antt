-- ===== src/Tests/Text.antt =====
-- The theorems on texts, paths, times and shell words at concrete inputs.
use adb_wfx_plugin.Base.{
  ℕ, ◌≤◌, ◌<◌, ◌+◌, ◌*◌, ◌≡◌, ◌⊎◌, inl, inr, refl, List, [], ◌∷◌, ◌++◌, Bytes, codes, All, take,
  arith,
}
use adb_wfx_plugin.Base.Int.{pos_part, neg_part}
use adb_wfx_plugin.Utf.{
  decode_utf8, replacement_character, utf8_to_wide, wide_to_utf8, utf8_to_wide_buf,
}
use adb_wfx_plugin.Utf.Scalar.{IsScalar, utf8_all, utf16_all}
use adb_wfx_plugin.Utf.Decode.{decode_utf8_overlong}
use adb_wfx_plugin.Utf.Strings.{
  Reads, wide_to_utf8_total, utf8_to_wide_total, utf8_to_wide-utf8_all, wide_to_utf8-utf16_all,
}
use adb_wfx_plugin.Utf.Buffer.{Fills, utf8_to_wide_buf-Fills}
use adb_wfx_plugin.FileTime.{
  FileTime, is_unset_file_time, file_time_to_time, ticks_of, ticks_at_unix_epoch, ticks_per_second,
  file_time_to_time_accurate,
}
use adb_wfx_plugin.RemotePath.{
  slash, on_device, parse_remote_path, join_wfx_path, parse_wfx_path, display_name,
  utf8_truncated_length,
}
use adb_wfx_plugin.RemotePath.Split.{parse_remote_path-join}
use adb_wfx_plugin.RemotePath.DisplayName.{Lacks-HasNoOpen, parse_wfx_path-display_name}
use adb_wfx_plugin.RemotePath.Names.{utf8_truncated_length-utf8_all}
use adb_wfx_plugin.ShellQuote.{shell_quote}
use adb_wfx_plugin.ShellQuote.Words.{between, word, words_from, words_from-shell_quote}

-- "a", "é", "€" and a code point above the first plane.
abbrev mixed : List ℕ
mixed = b'a' ∷ 0xE9 ∷ 0x20AC ∷ 0x1F600 ∷ []

mixed-IsScalar : All IsScalar mixed
mixed-IsScalar = (
  (omega arith, inl (omega arith)),
  (
    (omega arith, inl (omega arith)),
    ((omega arith, inl (omega arith)), ((omega arith, inr (omega arith)), tt)),
  ),
)

-- An unpaired surrogate between two letters.
abbrev unpaired : List ℕ
unpaired = b'a' ∷ 0xD800 ∷ b'b' ∷ []

-- A byte that begins no character.
abbrev stray : Bytes
stray = b'a' ∷ 0xFF ∷ b'b' ∷ []

wide_to_utf8_total_example : (ns : List ℕ) × All IsScalar ns × (wide_to_utf8 unpaired ≡ utf8_all ns)
wide_to_utf8_total_example =
    wide_to_utf8_total unpaired (omega arith, (omega arith, (omega arith, tt)))

utf8_to_wide_total_example :
    (ns : List ℕ) × Reads stray ns × (utf8_to_wide stray ≡ utf16_all ns ++ 0 ∷ [])
utf8_to_wide_total_example =
    utf8_to_wide_total stray (omega arith, (omega arith, (omega arith, tt)))

utf8_to_wide-utf8_all_example : utf8_to_wide (utf8_all mixed) ≡ utf16_all mixed ++ 0 ∷ []
utf8_to_wide-utf8_all_example = utf8_to_wide-utf8_all mixed mixed-IsScalar

wide_to_utf8-utf16_all_example : wide_to_utf8 (utf16_all mixed) ≡ utf8_all mixed
wide_to_utf8-utf16_all_example = wide_to_utf8-utf16_all mixed mixed-IsScalar

utf8_to_wide_buf-Fills_example :
    (ns : List ℕ) × Reads stray ns × Fills ns 2 (utf8_to_wide_buf stray 3)
utf8_to_wide_buf-Fills_example =
    utf8_to_wide_buf-Fills stray 2 (omega arith, (omega arith, (omega arith, tt)))

decode_utf8_overlong_example :
    decode_utf8 (0xC0 ∷ 0x80 ∷ b'a' ∷ [])
    ≡ record { codepoint = replacement_character; consumed = 2 }
decode_utf8_overlong_example =
    decode_utf8_overlong 0xC0 0x80 (b'a' ∷ []) (omega arith) (omega arith) (omega arith)
      (omega arith)

-- 1601, before the Unix epoch.
abbrev early : FileTime
early = record { high = 1; low = 2 }

file_time_to_time_accurate_example :
    let t = file_time_to_time early in
    (ticks_at_unix_epoch + pos_part t * ticks_per_second
      < ticks_of early + neg_part t * ticks_per_second + ticks_per_second)
    × (ticks_of early + neg_part t * ticks_per_second
        < ticks_at_unix_epoch + pos_part t * ticks_per_second + ticks_per_second)
unfolding is_unset_file_time
file_time_to_time_accurate_example = file_time_to_time_accurate early (omega arith) refl

abbrev below : Bytes
below = codes "Pixel (ABC)/sdcard"

parse_remote_path-join_example :
    parse_remote_path (join_wfx_path (slash ∷ below) (codes "a"))
    ≡ on_device
        (parse_remote_path (slash ∷ below)).serial
        (join_wfx_path (parse_remote_path (slash ∷ below)).path (codes "a"))
parse_remote_path-join_example = parse_remote_path-join below (codes "a") (λ e. cc)

parse_wfx_path-display_name_example :
    parse_wfx_path (slash ∷ display_name (codes "P7") (codes "AB") ++ slash ∷ codes "sdcard")
    ≡ on_device (codes "AB") (slash ∷ codes "sdcard")
unfolding display_name
parse_wfx_path-display_name_example =
    parse_wfx_path-display_name (codes "P7") (codes "AB") (codes "sdcard") (λ e. cc)
      (Lacks-HasNoOpen (codes "AB") (refl, (refl, tt)))
      (refl, (refl, (refl, (refl, (refl, (refl, (refl, tt)))))))

utf8_truncated_length-utf8_all_example :
    let n = utf8_truncated_length (utf8_all mixed) 5 in
    (ms : List ℕ) × (rest : List ℕ) × (mixed ≡ ms ++ rest)
    × (take n (utf8_all mixed) ≡ utf8_all ms)
    × (n ≤ 5)
    × ((rest ≡ []) ⊎ (5 ≤ n + 3))
utf8_truncated_length-utf8_all_example = utf8_truncated_length-utf8_all mixed 5 mixed-IsScalar

abbrev complaint : Bytes
complaint = codes "rm: a\n\n"

words_from-shell_quote_example :
    words_from (shell_quote (codes "it's; rm -rf $HOME") ++ codes " b") between
    ≡ words_from (codes " b") (word (codes "it's; rm -rf $HOME"))
words_from-shell_quote_example = words_from-shell_quote (codes "it's; rm -rf $HOME") (codes " b")
