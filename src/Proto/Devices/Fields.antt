-- ===== src/Proto/Devices/Fields.antt =====
-- Lines and their fields: what `splitFields` and the trimming give, on any text and on a printed
-- line.
use adb_wfx_plugin.Base.{
  ℕ, zero, suc, ◌+◌, ◌-◌, ◌≤◌, ◌≡◌, ◌≢◌, refl, sym, ap, ◌∙◌, false, some, List, [], ◌∷◌, ◌++◌,
  append_assoc, append-nil, Bytes, is_empty, if◌then◌else◌, length, length-append, get_or, take_all,
  All, All-append, arith, last?,
}
use adb_wfx_plugin.Proto.Devices.{
  is_space, is_blank, trim_loop, trim_trailing_whitespace, skip_blanks, span_field, fields_loop,
  split_fields,
}

abbrev pub NoBlank : Bytes → Type 0
NoBlank = All (λ c. is_blank c ≡ false)

-- A field of a line.
pub record IsField (f : Bytes) : Type 0 where
  pub filled : f ≢ []
  pub unbroken : NoBlank f

span_field-NoBlank : (s : Bytes) → NoBlank (span_field s).0
unfolding span_field
span_field-NoBlank [] = tt
span_field-NoBlank (c ∷ s) = ground (arith, span_field-NoBlank s)

fields_loop-IsField :
    (fuel : ℕ) (line : Bytes) (fields : List Bytes)
    → All IsField fields
    → All IsField (fields_loop fuel line fields)
unfolding fields_loop
fields_loop-IsField zero line fields h = h
fields_loop-IsField (suc fuel) [] fields h = h
fields_loop-IsField (suc fuel) (c ∷ line) fields h =
    fields_loop-IsField fuel (span_field (skip_blanks (c ∷ line))).1 _
      (pushed (span_field (skip_blanks (c ∷ line))).0 (span_field-NoBlank (skip_blanks (c ∷ line))))
  where
    pushed : (f : Bytes) → NoBlank f → All IsField (if is_empty f then fields else fields ++ f ∷ [])
    pushed [] n = h
    pushed (d ∷ f) n =
        All-append IsField fields ((d ∷ f) ∷ []) h (record { filled = λ e. cc; unbroken = n }, tt)

-- On any line, every field is filled and holds no blank.
pub split_fields-IsField : (line : Bytes) → All IsField (split_fields line)
unfolding split_fields
split_fields-IsField line = fields_loop-IsField (length line) line [] tt

-- So many spaces in front.
abbrev pub spaces : ℕ → Bytes → Bytes
spaces zero s = s
spaces (suc n) s = b' ' ∷ spaces n s

-- Fields with a space in front of each, and so many more.
abbrev pub tail_of : List (ℕ × Bytes) → Bytes
tail_of [] = []
tail_of ((n, f) ∷ fs) = b' ' ∷ spaces n (f ++ tail_of fs)

abbrev pub fields_of : List (ℕ × Bytes) → List Bytes
fields_of [] = []
fields_of ((b, f) ∷ fs) = f ∷ fields_of fs

abbrev pub Printed : List (ℕ × Bytes) → Type 0
Printed = All (λ p. IsField p.1)

span_field-append :
    (f : Bytes) (fs : List (ℕ × Bytes))
    → NoBlank f
    → Printed fs
    → span_field (f ++ tail_of fs) ≡ (f, tail_of fs)
unfolding span_field
span_field-append [] [] n h = refl
span_field-append [] ((b, g) ∷ fs) n h = refl
span_field-append (c ∷ f) fs n h = rw (span_field-append f fs n.1 h, n.0) refl

skip_blanks-field : (c : ℕ) (s : Bytes) → is_blank c ≡ false → skip_blanks (c ∷ s) ≡ c ∷ s
unfolding skip_blanks
skip_blanks-field c s h = rw h refl

skip_blanks-spaces : (n : ℕ) (s : Bytes) → skip_blanks (spaces n s) ≡ skip_blanks s
unfolding skip_blanks
skip_blanks-spaces zero s = refl
skip_blanks-spaces (suc n) s = skip_blanks-spaces n s

length-spaces : (n : ℕ) (s : Bytes) → length (spaces n s) ≡ n + length s
length-spaces zero s = omega arith
length-spaces (suc n) s = omega (arith, length-spaces n s)

fields_loop_step :
    (fuel c : ℕ) (line field rest : Bytes) (fields : List Bytes)
    → span_field (skip_blanks (c ∷ line)) ≡ (field, rest)
    → field ≢ []
    → fields_loop (suc fuel) (c ∷ line) fields ≡ fields_loop fuel rest (fields ++ field ∷ [])
unfolding fields_loop
fields_loop_step fuel c line [] rest fields e h = absurd (h refl)
fields_loop_step fuel c line (d ∷ field) rest fields e h = rw e refl

tail_loop :
    (fs : List (ℕ × Bytes)) (fuel : ℕ) (fields : List Bytes)
    → Printed fs
    → length (tail_of fs) ≤ fuel
    → fields_loop fuel (tail_of fs) fields ≡ fields ++ fields_of fs
tail_loop [] zero fields h fits = unfold fields_loop in sym (append-nil fields)
tail_loop [] (suc fuel) fields h fits = unfold fields_loop in sym (append-nil fields)
tail_loop ((b, f) ∷ fs) zero fields h fits = absurd (omega arith)
tail_loop ((b, []) ∷ fs) (suc fuel) fields h fits = absurd (h.0.filled refl)
tail_loop ((b, c ∷ f) ∷ fs) (suc fuel) fields h fits =
    fields_loop_step fuel b' ' (spaces b (c ∷ f ++ tail_of fs)) (c ∷ f) (tail_of fs) fields
      (rw
        (
          skip_blanks-spaces (suc b) (c ∷ f ++ tail_of fs),
          skip_blanks-field c (f ++ tail_of fs) h.0.unbroken.0,
        )
        (span_field-append (c ∷ f) fs h.0.unbroken h.1))
      h.0.filled
    ∙ tail_loop fs fuel (fields ++ (c ∷ f) ∷ []) h.1
        (omega (arith, length-spaces b (c ∷ f ++ tail_of fs), length-append f (tail_of fs)))
    ∙ append_assoc fields ((c ∷ f) ∷ []) (fields_of fs)

-- A line of fields with one space or more between each two is split into these fields.
pub split_fields-tail_of :
    (f : Bytes) (fs : List (ℕ × Bytes))
    → IsField f
    → Printed fs
    → split_fields (f ++ tail_of fs) ≡ f ∷ fields_of fs
unfolding split_fields
split_fields-tail_of [] fs i h = absurd (i.filled refl)
split_fields-tail_of (c ∷ f) fs i h =
    fields_loop_step (length (f ++ tail_of fs)) c (f ++ tail_of fs) (c ∷ f) (tail_of fs) []
      (rw (skip_blanks-field c (f ++ tail_of fs) i.unbroken.0)
        (span_field-append (c ∷ f) fs i.unbroken h))
      i.filled
    ∙ tail_loop fs (length (f ++ tail_of fs)) ((c ∷ f) ∷ []) h
        (omega (arith, length-append f (tail_of fs)))

get_or_last : (s : Bytes) {c : ℕ} → last? s ≡ some c → get_or s (length s - 1) 0 ≡ c
unfolding last?
get_or_last [] e = cc
get_or_last (d ∷ []) e = ground (arith, e)
get_or_last (d ∷ f ∷ s) e =
    ap (λ n. get_or (d ∷ f ∷ s) n 0) {y = suc (length (f ∷ s) - 1)} (omega arith)
    ∙ get_or_last (f ∷ s) e

-- A line that ends in no white space stays as it is.
pub trim_none :
    (s : Bytes) {c : ℕ} → last? s ≡ some c → is_space c ≡ false → trim_trailing_whitespace s ≡ s
unfolding trim_trailing_whitespace trim_loop last?
trim_none [] e h = cc
trim_none (d ∷ s) e h =
    rw (ap is_space (rw (one_less (length s)) at (get_or_last (d ∷ s) e)) ∙ h, trim_loop)
      (take_all (suc (length s)) (d ∷ s) (omega arith))
  where
    one_less : (n : ℕ) → suc n - 1 ≡ n
    one_less n = omega arith
