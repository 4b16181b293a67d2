-- ===== src/Proto/Devices/Parsed.antt =====
-- What the parser makes of one line that an adb server prints.
use adb_wfx_plugin.Base.{
  ℕ, zero, suc, ◌≡◌, ◌≢◌, inl, inr, refl, sym, ap, ◌∙◌, false, some, if◌then◌else◌, List, [], ◌∷◌,
  ◌++◌, append-nil, Bytes, codes, ◌==◌, is_empty, length, drop, All, All-append, Bool-cases, last?,
  last?-append_cons, Lacks, bytes_eq, bytes_eq_iff, starts_with,
}
use adb_wfx_plugin.Proto.Devices.{
  DeviceInfo, is_space, split_fields, push_device, parse_line, model_prefix, model_loop,
  list_header, skip_blanks, span_field, fields_loop,
}
use adb_wfx_plugin.Proto.Devices.Fields.{spaces, tail_of, trim_none}
use adb_wfx_plugin.Proto.Devices.Lines.{
  DeviceLine, model_field, behind_state, device_line, device_of, IsText, IsOther, IsPrintable,
  Texts, line_fields, NoSpace-Lacks, NoSpace-last?, line_fields-Texts, device_line-fields,
}

model_loop-others :
    (fs gs : List Bytes) (m : Bytes) → All IsOther fs → model_loop (fs ++ gs) m ≡ model_loop gs m
unfolding model_loop
model_loop-others [] gs m h = refl
model_loop-others (f ∷ fs) gs m h =
    ap (λ b. model_loop (fs ++ gs) (if b then drop (length model_prefix) f else m)) h.0.no_model
    ∙ model_loop-others fs gs m h.1

model_loop_end : (m : Bytes) → model_loop [] m ≡ m
unfolding model_loop
model_loop_end m = refl

with_model :
    (c : ℕ) (m : Bytes) (fs : List Bytes)
    → model_loop (model_field (c ∷ m) ++ fs) [] ≡ model_loop fs (c ∷ m)
unfolding model_loop starts_with
with_model c m fs = refl

model_loop-behind_state :
    (l : DeviceLine) → IsPrintable l → model_loop (behind_state l) [] ≡ l.model
model_loop-behind_state l p =
    model_loop-others l.before (model_field l.model ++ l.after) [] p.before ∙ at_model l.model
  where
    past_after : (m : Bytes) → model_loop l.after m ≡ m
    past_after m =
        ap (λ fs. model_loop fs m) (sym (append-nil l.after))
        ∙ model_loop-others l.after [] m p.after
        ∙ model_loop_end m

    at_model : (m : Bytes) → model_loop (model_field m ++ l.after) [] ≡ m
    at_model [] = past_after []
    at_model (c ∷ m) = with_model c m l.after ∙ past_after (c ∷ m)

last?-spaces : (n c : ℕ) (s : Bytes) → last? (b' ' ∷ spaces n (c ∷ s)) ≡ last? (c ∷ s)
unfolding last?
last?-spaces zero c s = refl
last?-spaces (suc n) c s = last?-spaces n c s

-- Fields end in a byte that is no white space.
fields_end :
    (f : Bytes) (fs : List (ℕ × Bytes))
    → IsText f
    → Texts fs
    → (c : ℕ) × (last? (f ++ tail_of fs) ≡ some c) × (is_space c ≡ false)
fields_end [] fs i h = absurd (i.filled refl)
fields_end (d ∷ f) [] i h =
    let (c, e, n) = NoSpace-last? d f i.unbroken in (c, ap last? (append-nil (d ∷ f)) ∙ e, n)
fields_end (d ∷ f) ((k, []) ∷ fs) i h = absurd (h.0.filled refl)
fields_end (d ∷ f) ((k, g ∷ gs) ∷ fs) i h =
    let (c, e, n) = fields_end (g ∷ gs) fs h.0 h.1 in
    (
      c,
      last?-append_cons (d ∷ f) b' ' (spaces k (g ∷ gs ++ tail_of fs))
          ∙ last?-spaces k g (gs ++ tail_of fs)
          ∙ e,
      n,
    )

Lacks-append : (c : ℕ) (s t : Bytes) → Lacks c s → Lacks c t → Lacks c (s ++ t)
Lacks-append c s t h k = All-append (λ d. (d == c) ≡ false) s t h k

spaces-Lacks : (n : ℕ) (s : Bytes) → Lacks b'\n' s → Lacks b'\n' (spaces n s)
spaces-Lacks zero s h = h
spaces-Lacks (suc n) s h = (refl, spaces-Lacks n s h)

tail_of-Lacks : (fs : List (ℕ × Bytes)) → Texts fs → Lacks b'\n' (tail_of fs)
tail_of-Lacks [] h = tt
tail_of-Lacks ((n, f) ∷ fs) h = (
  refl,
  spaces-Lacks n (f ++ tail_of fs)
      (Lacks-append b'\n' f (tail_of fs) (NoSpace-Lacks f h.0.unbroken) (tail_of-Lacks fs h.1)),
)

pub device_line-Lacks : (l : DeviceLine) → IsPrintable l → Lacks b'\n' (device_line l)
unfolding device_line
device_line-Lacks l p =
    Lacks-append b'\n' l.serial (tail_of (line_fields l)) (NoSpace-Lacks l.serial p.serial.unbroken)
      (tail_of-Lacks (line_fields l) (line_fields-Texts l p))

header_fields :
    split_fields list_header ≡ codes "List" ∷ codes "of" ∷ codes "devices" ∷ codes "attached" ∷ []
unfolding split_fields fields_loop skip_blanks span_field
header_fields = refl

-- A line whose serial is not the header's first word is not the header.
not_header : (l : DeviceLine) → IsPrintable l → bytes_eq (device_line l) list_header ≡ false
not_header l p = elim (Bool-cases (bytes_eq (device_line l) list_header)) [
  | inl e ↦
      let same = ap split_fields ((bytes_eq_iff _ _).0 e) in
      absurd (p.not_header (ap first (sym (device_line-fields l p) ∙ same ∙ header_fields)))
  | inr e ↦ e
]
  where
    first : List Bytes → Bytes
    first [] = []
    first (f ∷ fs) = f

append_filled : (s t : Bytes) → s ≢ [] → is_empty (s ++ t) ≡ false
append_filled [] t ne = absurd (ne refl)
append_filled (c ∷ s) t ne = refl

pub parse_line-device_line :
    (l : DeviceLine) (devices : List DeviceInfo)
    → IsPrintable l
    → parse_line (device_line l) devices ≡ devices ++ device_of l ∷ []
unfolding parse_line push_device
parse_line-device_line l devices p =
    let (c, e, n) = line_end in
    rw (trim_none (device_line l) e n) (
      rw (filled, not_header l p, device_line-fields l p)
        (ap (λ m. devices ++ record { serial = l.serial; state = l.state; model = m } ∷ [])
          (model_loop-behind_state l p)))
  where
    line_end : (c : ℕ) × (last? (device_line l) ≡ some c) × (is_space c ≡ false)
    line_end =
        unfold device_line in fields_end l.serial (line_fields l) p.serial (line_fields-Texts l p)

    filled : is_empty (device_line l) ≡ false
    filled = unfold device_line in append_filled l.serial (tail_of (line_fields l)) p.serial.filled
