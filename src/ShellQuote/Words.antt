-- ===== src/ShellQuote/Words.antt =====
-- How a POSIX shell splits a command line into words, as far as quoting goes (Shell Command
-- Language, 2.2 Quoting): the independent description that `shell_quote` is held against.
use adb_wfx_plugin.Base.{
  ℕ, ◌≡◌, inl, inr, refl, sym, ap, ◌∙◌, Bool, false, ◌&&◌, ◌||◌, Option, none, some, List, [], ◌∷◌,
  ◌++◌, append_assoc, append-nil, Bytes, codes, leb, ◌==◌, if◌then◌else◌, arith, Bool-cases,
}
use adb_wfx_plugin.ShellQuote.{quote, quote_loop, shell_quote}

abbrev is_between : ℕ → ℕ → ℕ → Bool
is_between lo c hi = leb lo c && leb c hi

-- The bytes that stand for themselves outside quotes. Every other byte (`$`, `*`, `;`, a newline,
-- a byte above 127 and so on) is left to the shell, and here the split fails.
is_literal : ℕ → Bool
is_literal c =
    is_between b'a' c b'z'
    || (is_between b'A' c b'Z'
        || (is_between b'0' c b'9'
            || (c == b'-' || (c == b'/' || (c == b'.' || (c == b'=' || c == b'@'))))))

pub data Mode : Type 0 where
  between : Mode
  word quoted escaped : Bytes → Mode

-- The mode after one byte outside quotes, in the word `cur`.
plain_step : ℕ → Bytes → Option Mode
plain_step c cur =
    if c == quote
    then some (quoted cur)
    else if c == b'\\'
    then some (escaped cur)
    else if is_literal c
    then some (word (cur ++ c ∷ []))
    else none

-- The next mode, and the word that a blank ends.
step : ℕ → Mode → Option (Mode × List Bytes)
step c between =
    if c == b' '
    then some (between, [])
    else elim (plain_step c []) [ none ↦ none | some m ↦ some (m, []) ]
step c (word cur) =
    if c == b' '
    then some (between, cur ∷ [])
    else elim (plain_step c cur) [ none ↦ none | some m ↦ some (m, []) ]
step c (quoted cur) = some ((if c == quote then word cur else quoted (cur ++ c ∷ [])), [])
step c (escaped cur) = some (word (cur ++ c ∷ []), [])

prepend : List Bytes → Option (List Bytes) → Option (List Bytes)
prepend ws none = none
prepend ws (some more) = some (ws ++ more)

unfoldable pub words_from : Bytes → Mode → Option (List Bytes)
unfolding prepend step plain_step is_literal
words_from [] between = some []
words_from [] (word cur) = some (cur ∷ [])
words_from [] (quoted cur) = none
words_from [] (escaped cur) = none
words_from (c ∷ s) m = elim (step c m) [ none ↦ none | some (n, ws) ↦ prepend ws (words_from s n) ]

unfoldable pub shell_words : Bytes → Option (List Bytes)
shell_words s = words_from s between

-- One step that ends no word.
words_step :
    (c : ℕ) (s : Bytes) (m n : Mode)
    → step c m ≡ some (n, [])
    → words_from (c ∷ s) m ≡ words_from s n
unfolding words_from
words_step c s m n e = rw (e, words_from) (nothing (words_from s n))
  where
    nothing : (r : Option (List Bytes)) → prepend [] r ≡ r
    nothing none = refl
    nothing (some ws) = refl

in_quotes :
    (c : ℕ) (cur : Bytes)
    → (c == quote) ≡ false
    → step c (quoted cur) ≡ some (quoted (cur ++ c ∷ []), [])
unfolding step
in_quotes c cur h = rw h refl

-- The quoted form of one byte, inside quotes, adds that byte to the word and stays inside quotes.
quoted_quote :
    (s cur : Bytes)
    → words_from (codes "'\\''" ++ s) (quoted cur) ≡ words_from s (quoted (cur ++ quote ∷ []))
unfolding words_from
quoted_quote s cur = nothing (words_from s (quoted (cur ++ quote ∷ [])))
  where
    nothing : (r : Option (List Bytes)) → prepend [] (prepend [] (prepend [] (prepend [] r))) ≡ r
    nothing none = refl
    nothing (some ws) = refl

quote_loop-append :
    (arg out rest : Bytes) → quote_loop arg out ++ rest ≡ out ++ (quote_loop arg [] ++ rest)
unfolding quote_loop
quote_loop-append [] out rest = refl
quote_loop-append (c ∷ arg) out rest = elim (Bool-cases (c == quote)) [
  | inl e ↦ rw e (
      quote_loop-append arg (out ++ codes "'\\''") rest
      ∙ append_assoc out (codes "'\\''") (quote_loop arg [] ++ rest)
      ∙ ap (◌++◌ out) (sym (quote_loop-append arg (codes "'\\''") rest)))
  | inr e ↦ rw e (
      quote_loop-append arg (out ++ c ∷ []) rest
      ∙ append_assoc out (c ∷ []) (quote_loop arg [] ++ rest)
      ∙ ap (◌++◌ out) (sym (quote_loop-append arg (c ∷ []) rest)))
]

quote_loop-words :
    (arg cur rest : Bytes)
    → words_from (quote_loop arg [] ++ rest) (quoted cur) ≡ words_from rest (quoted (cur ++ arg))
unfolding quote_loop
quote_loop-words [] cur rest = ap (λ w. words_from rest (quoted w)) (sym (append-nil cur))
quote_loop-words (c ∷ arg) cur rest = elim (Bool-cases (c == quote)) [
  | inl e ↦ rw e (
      ap (λ t. words_from t (quoted cur)) (quote_loop-append arg (codes "'\\''") rest)
      ∙ quoted_quote (quote_loop arg [] ++ rest) cur
      ∙ quote_loop-words arg (cur ++ quote ∷ []) rest
      ∙ ap (λ w. words_from rest (quoted w))
          (append_assoc cur (quote ∷ []) arg
            ∙ ap (λ d. cur ++ d ∷ arg) {x = quote} {y = c} (ground (arith, e))))
  | inr e ↦ rw e (
      ap (λ t. words_from t (quoted cur)) (quote_loop-append arg (c ∷ []) rest)
      ∙ words_step c (quote_loop arg [] ++ rest) (quoted cur) (quoted (cur ++ c ∷ []))
          (in_quotes c cur e)
      ∙ quote_loop-words arg (cur ++ c ∷ []) rest
      ∙ ap (λ w. words_from rest (quoted w)) (append_assoc cur (c ∷ []) arg))
]

-- Quoted, any byte string begins one word of the command line, which
-- so far is that string, whatever follows it.
pub words_from-shell_quote :
    (arg rest : Bytes) → words_from (shell_quote arg ++ rest) between ≡ words_from rest (word arg)
unfolding shell_quote
words_from-shell_quote arg rest =
    ap (λ t. words_from t between)
      (append_assoc (quote_loop arg (quote ∷ [])) (quote ∷ []) rest
        ∙ quote_loop-append arg (quote ∷ []) (quote ∷ rest))
    ∙ words_step quote (quote_loop arg [] ++ quote ∷ rest) between (quoted [])
        (unfold words_from in refl)
    ∙ quote_loop-words arg [] (quote ∷ rest)
    ∙ words_step quote rest (quoted arg) (word arg) (unfold words_from in refl)

pub words_of_quoted : (arg : Bytes) → words_from (shell_quote arg) between ≡ some (arg ∷ [])
unfolding words_from
words_of_quoted arg =
    ap (λ t. words_from t between) (sym (append-nil (shell_quote arg)))
    ∙ words_from-shell_quote arg []

-- Two quoted arguments with a blank between them are two words.
pub words_of_two :
    (a b : Bytes) → words_from (shell_quote a ++ b' ' ∷ shell_quote b) between ≡ some (a ∷ b ∷ [])
words_of_two a b =
    words_from-shell_quote a (b' ' ∷ shell_quote b)
    ∙ unfold words_from in rw (words_of_quoted b) refl
