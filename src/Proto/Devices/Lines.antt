-- ===== src/Proto/Devices/Lines.antt =====
-- The lines that an adb server prints, and what `splitFields` finds in them.
use adb_wfx_plugin.Base.{
  ℕ, ◌≡◌, ◌≢◌, refl, ap, ◌∙◌, false, some, List, [], ◌∷◌, ◌++◌, Bytes, codes, All, All-append,
  arith, last?, Lacks, starts_with,
}
use adb_wfx_plugin.Proto.Devices.{DeviceInfo, is_space, split_fields, model_prefix}
use adb_wfx_plugin.Proto.Devices.Fields.{
  IsField, NoBlank, tail_of, fields_of, Printed, split_fields-tail_of,
}

-- A line as the server prints it: the serial, one space or more, the state, and fields behind it.
-- The model, where it is known, has the field `model:` at any place among the others.
pub record DeviceLine : Type 0 where
  pub serial : Bytes
  pub padding : ℕ
  pub state : Bytes
  pub before : List Bytes
  pub model : Bytes
  pub after : List Bytes

abbrev pub model_field : Bytes → List Bytes
model_field [] = []
model_field (c ∷ m) = (model_prefix ++ c ∷ m) ∷ []

abbrev pub behind_state : DeviceLine → List Bytes
behind_state l = l.before ++ (model_field l.model ++ l.after)

-- One space in front of each.
abbrev pub spaced : List Bytes → List (ℕ × Bytes)
spaced [] = []
spaced (f ∷ fs) = (0, f) ∷ spaced fs

abbrev pub line_fields : DeviceLine → List (ℕ × Bytes)
line_fields l = (l.padding, l.state) ∷ spaced (behind_state l)

unfoldable pub device_line : DeviceLine → Bytes
device_line l = l.serial ++ tail_of (line_fields l)

unfoldable pub print_devices : List DeviceLine → Bytes
unfolding device_line
print_devices [] = []
print_devices (l ∷ ls) = device_line l ++ b'\n' ∷ print_devices ls

-- The device that a line is about.
abbrev pub device_of : DeviceLine → DeviceInfo
device_of l = record { serial = l.serial; state = l.state; model = l.model }

abbrev pub devices_of : List DeviceLine → List DeviceInfo
devices_of [] = []
devices_of (l ∷ ls) = device_of l ∷ devices_of ls

abbrev pub NoSpace : Bytes → Type 0
NoSpace = All (λ c. is_space c ≡ false)

-- A text that can be a field.
pub record IsText (f : Bytes) : Type 0 where
  pub filled : f ≢ []
  pub unbroken : NoSpace f

-- A field that is not the model's.
pub record IsOther (f : Bytes) : Type 0 where
  pub text : IsText f
  pub no_model : starts_with model_prefix f ≡ false

-- A line that can be printed: no white space within a field, a serial and a state, the serial not
-- the first word of the header, and no second field for the model.
pub record IsPrintable (l : DeviceLine) : Type 0 where
  pub serial : IsText l.serial
  pub not_header : l.serial ≢ codes "List"
  pub state : IsText l.state
  pub before : All IsOther l.before
  pub model : NoSpace l.model
  pub after : All IsOther l.after

NoSpace-NoBlank : (s : Bytes) → NoSpace s → NoBlank s
NoSpace-NoBlank [] h = tt
NoSpace-NoBlank (c ∷ s) h = (ground (arith, h.0), NoSpace-NoBlank s h.1)

pub NoSpace-Lacks : (s : Bytes) → NoSpace s → Lacks b'\n' s
NoSpace-Lacks [] h = tt
NoSpace-Lacks (c ∷ s) h = (ground (arith, h.0), NoSpace-Lacks s h.1)

pub NoSpace-last? :
    (c : ℕ) (s : Bytes)
    → NoSpace (c ∷ s)
    → (d : ℕ) × (last? (c ∷ s) ≡ some d) × (is_space d ≡ false)
unfolding last?
NoSpace-last? c [] h = (c, refl, h.0)
NoSpace-last? c (d ∷ s) h = NoSpace-last? d s h.1

prefix-NoSpace : (m : Bytes) → NoSpace m → NoSpace (model_prefix ++ m)
prefix-NoSpace m h = (refl, (refl, (refl, (refl, (refl, (refl, h))))))

model_field-IsText : (m : Bytes) → NoSpace m → All IsText (model_field m)
model_field-IsText [] h = tt
model_field-IsText (c ∷ m) h =
    (record { filled = λ e. cc; unbroken = prefix-NoSpace (c ∷ m) h }, tt)

others-IsText : (fs : List Bytes) → All IsOther fs → All IsText fs
others-IsText [] h = tt
others-IsText (f ∷ fs) h = (h.0.text, others-IsText fs h.1)

behind_state-IsText : (l : DeviceLine) → IsPrintable l → All IsText (behind_state l)
behind_state-IsText l p =
    All-append IsText l.before (model_field l.model ++ l.after) (others-IsText l.before p.before) (
      All-append IsText (model_field l.model) l.after (model_field-IsText l.model p.model)
        (others-IsText l.after p.after))

abbrev pub Texts : List (ℕ × Bytes) → Type 0
Texts = All (λ p. IsText p.1)

spaced-Texts : (fs : List Bytes) → All IsText fs → Texts (spaced fs)
spaced-Texts [] h = tt
spaced-Texts (f ∷ fs) h = (h.0, spaced-Texts fs h.1)

pub line_fields-Texts : (l : DeviceLine) → IsPrintable l → Texts (line_fields l)
line_fields-Texts l p = (p.state, spaced-Texts (behind_state l) (behind_state-IsText l p))

IsText-IsField : (f : Bytes) → IsText f → IsField f
IsText-IsField f h = record { filled = h.filled; unbroken = NoSpace-NoBlank f h.unbroken }

Texts-Printed : (fs : List (ℕ × Bytes)) → Texts fs → Printed fs
Texts-Printed [] h = tt
Texts-Printed ((n, f) ∷ fs) h = (IsText-IsField f h.0, Texts-Printed fs h.1)

fields_of-spaced : (fs : List Bytes) → fields_of (spaced fs) ≡ fs
fields_of-spaced [] = refl
fields_of-spaced (f ∷ fs) = ap (λ r. f ∷ r) (fields_of-spaced fs)

pub device_line-fields :
    (l : DeviceLine)
    → IsPrintable l
    → split_fields (device_line l) ≡ l.serial ∷ l.state ∷ behind_state l
unfolding device_line
device_line-fields l p =
    split_fields-tail_of l.serial (line_fields l) (IsText-IsField l.serial p.serial)
      (Texts-Printed (line_fields l) (line_fields-Texts l p))
    ∙ ap (λ r. l.serial ∷ l.state ∷ r) (fields_of-spaced (behind_state l))
