-- ===== src/RemotePath/Split.antt =====
-- How a WFX path is split into a device and a path on it, and put together again.
use adb_wfx_plugin.Base.{
  ℕ, ◌≡◌, ◌≢◌, ◌⊎◌, inl, inr, refl, sym, ap, subst, ◌∙◌, true, false, none, some, [], ◌∷◌, ◌++◌,
  append_assoc, Bytes, ltb, ◌==◌, bytes_eq, last?, last?-append_cons, find-Lacks, find-append,
  Lacks, if◌then◌else◌, length, take-append_length, drop-append_length, arith, Option-cases,
  Bool-cases,
}
use adb_wfx_plugin.RemotePath.{
  RemotePath, slash, root_path, on_device, parse_remote_path, split_serial, join_wfx_path,
  find_last, parent_wfx_dir,
}

long_or_slash :
    (p : Bytes) → (if ltb 1 (length (slash ∷ p)) then slash ∷ p else root_path) ≡ slash ∷ p
long_or_slash [] = refl
long_or_slash (c ∷ p) = ground arith

split_serial-append :
    (serial p : Bytes)
    → Lacks slash serial
    → split_serial (serial ++ slash ∷ p) ≡ on_device serial (slash ∷ p)
unfolding split_serial
split_serial-append serial p h =
    rw (find-append slash serial p h, split_serial)
      (rw
        (
          take-append_length serial (slash ∷ p),
          drop-append_length serial (slash ∷ p),
          long_or_slash p,
        )
        refl)

split_serial-Lacks :
    (serial : Bytes) → Lacks slash serial → split_serial serial ≡ on_device serial root_path
unfolding split_serial
split_serial-Lacks serial h = rw (find-Lacks slash serial h, split_serial) refl

not_root : (c : ℕ) (s : Bytes) → bytes_eq (slash ∷ c ∷ s) root_path ≡ false
unfolding bytes_eq
not_root c s = refl

-- A text that is not the root is split behind its leading slash.
parse-split : (c : ℕ) (s : Bytes) → parse_remote_path (slash ∷ c ∷ s) ≡ split_serial (c ∷ s)
unfolding parse_remote_path
parse-split c s = rw (not_root c s) refl

-- A device's name and a path on it are read back, whatever the path is.
pub parse_remote_path-append :
    (serial p : Bytes)
    → Lacks slash serial
    → parse_remote_path (slash ∷ serial ++ slash ∷ p) ≡ on_device serial (slash ∷ p)
parse_remote_path-append [] p h = parse-split slash p ∙ split_serial-append [] p h
parse_remote_path-append (c ∷ s) p h =
    parse-split c (s ++ slash ∷ p) ∙ split_serial-append (c ∷ s) p h

-- The first slash splits a text, or there is none.
find-split :
    (c : ℕ) (s : Bytes)
    → (Lacks c s) ⊎ ((front : Bytes) × (back : Bytes) × (s ≡ front ++ c ∷ back) × Lacks c front)
find-split c [] = inl tt
find-split c (d ∷ s) = elim (Bool-cases (d == c)) [
  | inl e ↦ inr ([], s, ap (λ x. x ∷ s) (ground (arith, e)), tt)
  | inr e ↦ elim (find-split c s) [
    | inl h ↦ inl (e, h)
    | inr (front, back, eq, h) ↦ inr (d ∷ front, back, ap (◌∷◌ d) eq, (e, h))
  ]
]

-- Either the device alone, whose path is the root, or a device and the path behind it.
pub data Parsed (wfx_path : Bytes) : RemotePath → Type 0 where
  device :
      (serial : Bytes)
      → wfx_path ≡ slash ∷ serial
      → serial ≢ []
      → Lacks slash serial
      → Parsed wfx_path (on_device serial root_path)
  below :
      (serial p : Bytes)
      → wfx_path ≡ slash ∷ serial ++ slash ∷ p
      → Lacks slash serial
      → Parsed wfx_path (on_device serial (slash ∷ p))

parse-tail : (c : ℕ) (s : Bytes) → Parsed (slash ∷ c ∷ s) (parse_remote_path (slash ∷ c ∷ s))
parse-tail c s = elim (find-split slash (c ∷ s)) [
  | inl h ↦ rw (parse-split c s, split_serial-Lacks (c ∷ s) h) (device (c ∷ s) refl (λ e. cc) h)
  | inr (serial, p, e, h) ↦
      subst (λ t. Parsed (slash ∷ t) (parse_remote_path (slash ∷ t))) (sym e)
        (rw (parse_remote_path-append serial p h) (below serial p refl h))
]

-- A path that begins with a slash is the root itself, or a device alone, whose path is then `/`, or
-- a device and the path behind it from its slash on; the device has no slash in it.
parse_remote_path-Parsed :
    (s : Bytes)
    → (parse_remote_path (slash ∷ s) ≡ record { is_root = true; serial = []; path = root_path })
        × (s ≡ [])
      ⊎ Parsed (slash ∷ s) (parse_remote_path (slash ∷ s))
parse_remote_path-Parsed [] = inl (unfold parse_remote_path bytes_eq in refl, refl)
parse_remote_path-Parsed (c ∷ s) = inr (parse-tail c s)

last?-Lacks :
    (c d : ℕ) (s : Bytes)
    → Lacks c (d ∷ s)
    → (e : ℕ) × (last? (d ∷ s) ≡ some e) × ((e == c) ≡ false)
unfolding last?
last?-Lacks c d [] h = (d, refl, h.0)
last?-Lacks c d (e ∷ s) h = last?-Lacks c e s h.1

-- Joining looks at the end of the directory only.
join-append :
    (x p leaf : Bytes) → join_wfx_path (x ++ slash ∷ p) leaf ≡ x ++ join_wfx_path (slash ∷ p) leaf
unfolding join_wfx_path
join-append x p leaf = elim (Option-cases (last? (slash ∷ p))) [
  | inl e ↦
      rw (last?-append_cons x slash p ∙ e, e, join_wfx_path)
        (append_assoc x (slash ∷ p) (slash ∷ leaf))
  | inr (d, e) ↦ elim (Bool-cases (d == slash)) [
    | inl t ↦
        rw (last?-append_cons x slash p ∙ e, e, t, join_wfx_path) (append_assoc x (slash ∷ p) leaf)
    | inr t ↦
        rw (last?-append_cons x slash p ∙ e, e, t, join_wfx_path)
          (append_assoc x (slash ∷ p) (slash ∷ leaf))
  ]
]

join-slash : (p leaf : Bytes) → (q : Bytes) × (join_wfx_path (slash ∷ p) leaf ≡ slash ∷ q)
unfolding join_wfx_path
join-slash p leaf = elim (Option-cases (last? (slash ∷ p))) [
  | inl e ↦ (p ++ slash ∷ leaf, rw (e, join_wfx_path) refl)
  | inr (d, e) ↦ elim (Bool-cases (d == slash)) [
    | inl t ↦ (p ++ leaf, rw (e, t, join_wfx_path) refl)
    | inr t ↦ (p ++ slash ∷ leaf, rw (e, t, join_wfx_path) refl)
  ]
]

join-Lacks :
    (c : ℕ) (s leaf : Bytes)
    → Lacks slash (c ∷ s)
    → join_wfx_path (slash ∷ c ∷ s) leaf ≡ slash ∷ c ∷ s ++ slash ∷ leaf
unfolding join_wfx_path last?
join-Lacks c s leaf h = let (d, e, t) = last?-Lacks slash c s h in rw (e, t, join_wfx_path) refl

join-root : (leaf : Bytes) → join_wfx_path root_path leaf ≡ slash ∷ leaf
unfolding join_wfx_path last?
join-root leaf = refl

join-Parsed :
    {w : Bytes} {rp : RemotePath} (leaf : Bytes)
    → Parsed w rp
    → parse_remote_path (join_wfx_path w leaf) ≡ on_device rp.serial (join_wfx_path rp.path leaf)
join-Parsed leaf (device [] e ne h) = absurd (ne refl)
join-Parsed leaf (device (c ∷ s) e ne h) =
    rw (e, join-Lacks c s leaf h, join-root leaf) (parse_remote_path-append (c ∷ s) leaf h)
join-Parsed leaf (below serial p e h) =
    let (q, eq) = join-slash p leaf in
    rw (e, join-append (slash ∷ serial) p leaf, eq) (parse_remote_path-append serial q h)

-- If the path is not the root itself, the path of an entry of a listed directory names the same device, and on it the entry of the
-- directory that was listed.
pub parse_remote_path-join :
    (s leaf : Bytes)
    → s ≢ []
    → let rp = parse_remote_path (slash ∷ s) in
      parse_remote_path (join_wfx_path (slash ∷ s) leaf)
      ≡ on_device rp.serial (join_wfx_path rp.path leaf)
parse_remote_path-join [] leaf h = absurd (h refl)
parse_remote_path-join (c ∷ s) leaf h = join-Parsed leaf (parse-tail c s)

pub find_last-Lacks : (c : ℕ) (t : Bytes) → Lacks c t → find_last c t ≡ none
unfolding find_last
find_last-Lacks c [] h = refl
find_last-Lacks c (d ∷ t) h = rw (find_last-Lacks c t h.1, h.0) refl

pub find_last-append :
    (c : ℕ) (s t : Bytes) → Lacks c t → find_last c (s ++ c ∷ t) ≡ some (length s)
unfolding find_last
find_last-append c [] t h = rw (find_last-Lacks c t h) (ground arith)
find_last-append c (d ∷ s) t h = rw (find_last-append c s t h) refl

-- The parent of a name without a slash in it, behind a directory that is not empty and a slash, is
-- that directory.
pub parent_wfx_dir-append :
    (c : ℕ) (dir leaf : Bytes)
    → Lacks slash leaf
    → parent_wfx_dir (c ∷ dir ++ slash ∷ leaf) ≡ c ∷ dir
unfolding parent_wfx_dir
parent_wfx_dir-append c dir leaf h =
    rw (find_last-append slash (c ∷ dir) leaf h, parent_wfx_dir)
      (ground (arith, take-append_length (c ∷ dir) (slash ∷ leaf)))
