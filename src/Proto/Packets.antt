-- ===== src/Proto/Packets.antt =====
-- Sync packets: little-endian numbers, headers, and the body of a DENT.
use adb_wfx_plugin.Base.{
  ℕ, ◌+◌, ◌-◌, ◌*◌, ◌/◌, ◌%◌, ◌^◌, ◌≤◌, ◌<◌, ◌≡◌, ◌⊎◌, inl, inr, refl, sym, ap, ◌∙◌, false, none,
  some, [], ◌∷◌, ◌++◌, Bytes, ltb, arith, length, length-append, take, drop, All, IsByte,
  Bool-cases, length-take, take-append_length, length-drop,
}
use adb_wfx_plugin.Base.Bits.{bit_or_low, bit_and_mask}
use adb_wfx_plugin.Base.Int.{pos}
use adb_wfx_plugin.Proto.{
  read_u32_le, write_u32_le, encode_sync_header, parse_sync_header, parse_dent_body, read_dent,
  dent_fixed_header_size,
}
use adb_wfx_plugin.Proto.Entry.{DirEntry}

read_u32_le_sum :
    (a b c d : ℕ) (rest : Bytes)
    → a < 256
    → b < 256
    → c < 256
    → d < 256
    → read_u32_le (a ∷ b ∷ c ∷ d ∷ rest) ≡ a + b * 2 ^ 8 + c * 2 ^ 16 + d * 2 ^ 24
unfolding read_u32_le
read_u32_le_sum a b c d rest ha hb hc hd =
    rw (fits b 8 hb, fits_16 c hc, fits_24 d hd)
      (rw
        (
          bit_or_low 8 b a (omega arith),
          bit_or_low 16 c (a + b * 2 ^ 8) (omega arith),
          bit_or_low 24 d (a + b * 2 ^ 8 + c * 2 ^ 16) (omega arith),
        )
        refl)
  where
    fits : (n k : ℕ) → n < 256 → n * 2 ^ 8 % 2 ^ 32 ≡ n * 2 ^ 8
    fits n k h = omega arith

    fits_16 : (n : ℕ) → n < 256 → n * 2 ^ 16 % 2 ^ 32 ≡ n * 2 ^ 16
    fits_16 n h = omega arith

    fits_24 : (n : ℕ) → n < 256 → n * 2 ^ 24 % 2 ^ 32 ≡ n * 2 ^ 24
    fits_24 n h = omega arith

write_u32_le_bytes :
    (v : ℕ) → write_u32_le v ≡ v % 256 ∷ v / 256 % 256 ∷ v / 65536 % 256 ∷ v / 16777216 % 256 ∷ []
unfolding write_u32_le
write_u32_le_bytes v =
    rw
      (
        bit_and_mask 8 v,
        bit_and_mask 8 (v / 2 ^ 8),
        bit_and_mask 8 (v / 2 ^ 16),
        bit_and_mask 8 (v / 2 ^ 24),
      )
      refl

-- Every 32-bit number is read back from the four bytes that it is written to.
pub read_u32_le-write_u32_le :
    (v : ℕ) (rest : Bytes) → v < 2 ^ 32 → read_u32_le (write_u32_le v ++ rest) ≡ v
read_u32_le-write_u32_le v rest h =
    ap (λ w. read_u32_le (w ++ rest)) (write_u32_le_bytes v)
    ∙ read_u32_le_sum _ _ _ _ rest (omega arith) (omega arith) (omega arith) (omega arith)
    ∙ omega arith

pub length-write_u32_le : (v : ℕ) → length (write_u32_le v) ≡ 4
unfolding write_u32_le
length-write_u32_le v = refl

-- What four bytes spell is a 32-bit number.
pub read_u32_le-lt :
    (a b c d : ℕ) (rest : Bytes)
    → All IsByte (a ∷ b ∷ c ∷ d ∷ [])
    → read_u32_le (a ∷ b ∷ c ∷ d ∷ rest) < 2 ^ 32
read_u32_le-lt a b c d rest h =
    rw (read_u32_le_sum a b c d rest h.0 h.1.0 h.1.1.0 h.1.1.1.0) (omega arith)

-- A header with an id of four bytes and a 32-bit argument is read back from its eight bytes.
parse_sync_header-encode_sync_header :
    (a b c d arg : ℕ)
    → arg < 2 ^ 32
    → parse_sync_header (encode_sync_header (a ∷ b ∷ c ∷ d ∷ []) arg)
      ≡ record { id = a ∷ b ∷ c ∷ d ∷ []; arg = arg }
unfolding parse_sync_header encode_sync_header
parse_sync_header-encode_sync_header a b c d arg h =
    ap (λ n. record { id = a ∷ b ∷ c ∷ d ∷ []; arg = n })
      (ap read_u32_le (sym (append_nil (write_u32_le arg))) ∙ read_u32_le-write_u32_le arg [] h)
  where
    append_nil : (s : Bytes) → s ++ [] ≡ s
    append_nil [] = refl
    append_nil (c ∷ s) = ap (◌∷◌ c) (append_nil s)

-- A DENT body as a device sends it.
unfoldable pub dent_body : DirEntry → ℕ → Bytes
dent_body e mtime =
    write_u32_le e.mode
    ++ (write_u32_le e.size ++ (write_u32_le mtime ++ (write_u32_le (length e.name) ++ e.name)))

four_drop : (v : ℕ) (s : Bytes) → drop 4 (write_u32_le v ++ s) ≡ s
unfolding write_u32_le
four_drop v s = refl

module _ (e : DirEntry) (mtime : ℕ) (rest : Bytes) where
  at_mode :
      dent_body e mtime ++ rest
      ≡ write_u32_le e.mode
        ++ (write_u32_le e.size
            ++ (write_u32_le mtime ++ (write_u32_le (length e.name) ++ (e.name ++ rest))))
  unfolding dent_body write_u32_le
  at_mode = refl

  at_size :
      drop 4 (dent_body e mtime ++ rest)
      ≡ write_u32_le e.size
        ++ (write_u32_le mtime ++ (write_u32_le (length e.name) ++ (e.name ++ rest)))
  unfolding dent_body write_u32_le
  at_size = refl

  at_mtime :
      drop 8 (dent_body e mtime ++ rest)
      ≡ write_u32_le mtime ++ (write_u32_le (length e.name) ++ (e.name ++ rest))
  unfolding dent_body write_u32_le
  at_mtime = refl

  at_namelen :
      drop 12 (dent_body e mtime ++ rest) ≡ write_u32_le (length e.name) ++ (e.name ++ rest)
  unfolding dent_body write_u32_le
  at_namelen = refl

  at_name : drop 16 (dent_body e mtime ++ rest) ≡ e.name ++ rest
  unfolding dent_body write_u32_le
  at_name = refl

  length-dent_body : length (dent_body e mtime ++ rest) ≡ 16 + length e.name + length rest
  unfolding dent_body write_u32_le
  length-dent_body = omega (arith, length-append e.name rest)

  -- An entry whose fields and name length fit 32 bits is read back from its body, whatever follows; only the flag that is not on the wire
  -- keeps the value that it had.
  pub parse_dent_body-dent_body :
      (out : DirEntry)
      → e.mode < 2 ^ 32
      → e.size < 2 ^ 32
      → mtime < 2 ^ 32
      → length e.name < 2 ^ 32
      → parse_dent_body (dent_body e mtime ++ rest) out
        ≡ some (
          record {
            name = e.name;
            mode = e.mode;
            size = e.size;
            mtime = pos mtime;
            symlink_target_is_dir = out.symlink_target_is_dir;
          },
          dent_fixed_header_size + length e.name,
        )
  unfolding parse_dent_body
  parse_dent_body-dent_body out hm hs ht hn =
      rw (enough, parse_dent_body)
        (rw (namelen, room, parse_dent_body, mode, size, time, name) refl)
    where
      enough : ltb (length (dent_body e mtime ++ rest)) dent_fixed_header_size ≡ false
      enough = ground (arith, length-dent_body)

      namelen : read_u32_le (drop 12 (dent_body e mtime ++ rest)) ≡ length e.name
      namelen = ap read_u32_le at_namelen ∙ read_u32_le-write_u32_le (length e.name) _ hn

      room :
          ltb (length (dent_body e mtime ++ rest) - dent_fixed_header_size) (length e.name) ≡ false
      room = ground (arith, length-dent_body)

      mode : read_u32_le (dent_body e mtime ++ rest) ≡ e.mode
      mode = ap read_u32_le at_mode ∙ read_u32_le-write_u32_le e.mode _ hm

      size : read_u32_le (drop 4 (dent_body e mtime ++ rest)) ≡ e.size
      size = ap read_u32_le at_size ∙ read_u32_le-write_u32_le e.size _ hs

      time : read_u32_le (drop 8 (dent_body e mtime ++ rest)) ≡ mtime
      time = ap read_u32_le at_mtime ∙ read_u32_le-write_u32_le mtime _ ht

      name : take (length e.name) (drop 16 (dent_body e mtime ++ rest)) ≡ e.name
      name = ap (take (length e.name)) at_name ∙ take-append_length e.name rest

-- A body is accepted exactly when its fixed part and the name that it announces are there, and
-- then the name has the announced length and no more than the body is consumed.
pub parse_dent_body_bounds :
    (p : Bytes) (out : DirEntry)
    → ((parse_dent_body p out ≡ none) × (length p < 16 + read_u32_le (drop 12 p)))
      ⊎ ((e : DirEntry) × (n : ℕ) × (parse_dent_body p out ≡ some (e, n))
          × (n ≤ length p)
          × (length e.name ≡ read_u32_le (drop 12 p))
          × (n ≡ 16 + length e.name))
unfolding parse_dent_body
parse_dent_body_bounds p out = elim (Bool-cases (ltb (length p) 16)) [
  | inl short ↦ inl (rw short refl, ground (arith, short))
  | inr long ↦ elim (Bool-cases (ltb (length p - 16) (read_u32_le (drop 12 p)))) [
    | inl cut ↦ inl (rw (long, cut) refl, ground (arith, cut, long))
    | inr fits ↦
        let len : length (take (read_u32_le (drop 12 p)) (drop 16 p)) ≡ read_u32_le (drop 12 p) =
          ground
            (arith, length-take (read_u32_le (drop 12 p)) (drop 16 p), length-drop 16 p, fits) in
        inr (
          read_dent p out,
          16 + read_u32_le (drop 12 p),
          rw (long, fits) refl,
          ground (arith, long, fits),
          len,
          omega (arith, len),
        )
  ]
]
