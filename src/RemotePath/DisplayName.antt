-- ===== src/RemotePath/DisplayName.antt =====
-- The name that the root listing shows for a device, and the serial read back from it.
use adb_wfx_plugin.Base.{
  ℕ, ◌+◌, ◌-◌, ◌≡◌, ◌≢◌, inl, inr, refl, sym, ap, ◌∙◌, none, some, [], ◌∷◌, ◌++◌, append_assoc,
  Bytes, ◌==◌, last?, last?-append, starts_with, Lacks, length, length-append, take, drop, arith,
  take-append_length, Bool-cases, Option-cases,
}
use adb_wfx_plugin.RemotePath.{
  slash, on_device, rfind, display_name, display_name_serial_open, display_name_serial_close,
  serial_between, serial_from_display_name, parse_wfx_path,
}
use adb_wfx_plugin.RemotePath.Split.{parse_remote_path-append}

-- The separator " (" does not stand in the text.
abbrev pub HasNoOpen : Bytes → Type 0
HasNoOpen s = rfind display_name_serial_open s ≡ none

-- A text without a space has no " (".
pub Lacks-HasNoOpen : (s : Bytes) → Lacks b' ' s → HasNoOpen s
unfolding rfind starts_with
Lacks-HasNoOpen [] h = refl
Lacks-HasNoOpen (c ∷ s) h = rw (Lacks-HasNoOpen s h.1) (ground (arith, h.0))

abbrev close : Bytes
close = display_name_serial_close ∷ []

rfind-close : (s : Bytes) → HasNoOpen s → rfind display_name_serial_open (s ++ close) ≡ none
unfolding rfind starts_with
rfind-close [] h = refl
rfind-close (c ∷ []) h = ground arith
rfind-close (c ∷ d ∷ s) h = ground (arith, rfind-close (d ∷ s))

rfind-append :
    (model t : Bytes)
    → HasNoOpen t
    → rfind display_name_serial_open (model ++ (display_name_serial_open ++ t))
      ≡ some (length model)
unfolding rfind starts_with
rfind-append [] t h = rw h refl
rfind-append (c ∷ model) t h = rw (rfind-append model t h) refl

shown : Bytes → Bytes → Bytes
shown model serial = model ++ (display_name_serial_open ++ (serial ++ close))

length-shown :
    (model serial : Bytes) → length (shown model serial) ≡ length model + length serial + 3
unfolding shown
length-shown model serial = omega (
  arith,
  length-append model (display_name_serial_open ++ (serial ++ close)),
  length-append serial close,
)

drop-shown : (model serial : Bytes) → drop (length model + 2) (shown model serial) ≡ serial ++ close
unfolding shown
drop-shown [] serial = refl
drop-shown (c ∷ model) serial = ground (arith, drop-shown model serial)

last?-shown : (model serial : Bytes) → last? (shown model serial) ≡ some display_name_serial_close
unfolding shown
last?-shown model serial =
    ap last? (sym (append_assoc model (display_name_serial_open ++ serial) close))
    ∙ last?-append (model ++ (display_name_serial_open ++ serial)) display_name_serial_close

serial_from-shown :
    (model : Bytes) (c : ℕ) (serial : Bytes)
    → HasNoOpen (c ∷ serial)
    → serial_from_display_name (shown model (c ∷ serial)) ≡ c ∷ serial
unfolding serial_from_display_name serial_between
serial_from-shown model c serial h =
    rw (last?-shown model (c ∷ serial), serial_from_display_name)
      (rw (at_open, serial_between) (ground (arith, taken, length-shown model (c ∷ serial))))
  where
    at_open : rfind display_name_serial_open (shown model (c ∷ serial)) ≡ some (length model)
    at_open =
        unfold shown in rfind-append model ((c ∷ serial) ++ close) (rfind-close (c ∷ serial) h)

    taken :
        take
          (length (shown model (c ∷ serial)) - 1 - (length model + 2))
          (drop (length model + 2) (shown model (c ∷ serial)))
        ≡ c ∷ serial
    taken = rw (drop-shown model (c ∷ serial)) (
        ap (λ n. take n ((c ∷ serial) ++ close)) {y = length (c ∷ serial)}
          (omega (arith, length-shown model (c ∷ serial)))
        ∙ take-append_length (c ∷ serial) close)

bare_serial : (serial : Bytes) → HasNoOpen serial → serial_from_display_name serial ≡ serial
unfolding serial_from_display_name serial_between
bare_serial serial h = elim (Option-cases (last? serial)) [
  | inl e ↦ rw (e, serial_from_display_name) refl
  | inr (c, e) ↦ elim (Bool-cases (c == display_name_serial_close)) [
    | inl t ↦ rw (e, serial_from_display_name, t) (rw (h, serial_between) refl)
    | inr t ↦ rw (e, serial_from_display_name, t) refl
  ]
]

-- The serial is read back from the name that is shown for it, with a model or without one, if the
-- serial is not empty and " (" does not stand in it.
pub serial_from_display_name-display_name :
    (model serial : Bytes)
    → serial ≢ []
    → HasNoOpen serial
    → serial_from_display_name (display_name model serial) ≡ serial
unfolding display_name
serial_from_display_name-display_name [] serial ne h = bare_serial serial h
serial_from_display_name-display_name (m ∷ model) [] ne h = absurd (ne refl)
serial_from_display_name-display_name (m ∷ model) (c ∷ serial) ne h =
    ap serial_from_display_name regroup ∙ serial_from-shown (m ∷ model) c serial h
  where
    regroup :
        (m ∷ model) ++ display_name_serial_open ++ (c ∷ serial) ++ display_name_serial_close ∷ []
        ≡ shown (m ∷ model) (c ∷ serial)
    regroup = unfold shown in simp append_assoc

-- A path below the name that is shown for a device reaches the device's serial and that path on
-- it, if the serial is not empty, " (" does not stand in it, and the name has no slash in it.
pub parse_wfx_path-display_name :
    (model serial p : Bytes)
    → serial ≢ []
    → HasNoOpen serial
    → Lacks slash (display_name model serial)
    → parse_wfx_path (slash ∷ display_name model serial ++ slash ∷ p) ≡ on_device serial (slash ∷ p)
unfolding parse_wfx_path
parse_wfx_path-display_name model serial p ne h k =
    rw (parse_remote_path-append (display_name model serial) p k)
      (ap (λ s. on_device s (slash ∷ p)) (serial_from_display_name-display_name model serial ne h))
