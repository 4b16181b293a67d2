-- ===== src/ShellQuote.antt =====
-- `shellQuote` of adbutils.hpp.
pub mod Words
use adb_wfx_plugin.Base.{ℕ, [], ◌∷◌, ◌++◌, Bytes, codes, ◌==◌, if◌then◌else◌}

abbrev pub quote : ℕ
quote = b'\''

-- `for (char c : arg)`, which appends to `out`.
pub quote_loop : Bytes → Bytes → Bytes
quote_loop [] out = out
quote_loop (c ∷ arg) out =
    quote_loop arg (if c == quote then out ++ codes "'\\''" else out ++ c ∷ [])

pub shell_quote : Bytes → Bytes
shell_quote arg = quote_loop arg (quote ∷ []) ++ quote ∷ []
