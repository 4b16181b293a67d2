-- ===== src/Proto/Framing.antt =====
-- Length prefixes and status words.
use adb_wfx_plugin.Base.{
  ℕ, suc, ◌+◌, ◌*◌, ◌/◌, ◌%◌, ◌^◌, ◌≤◌, ◌<◌, ◌≡◌, ◌≢◌, ◌⊎◌, inl, inr, refl, ap, ◌∙◌, bit_or, some,
  [], ◌∷◌, ◌++◌, Bytes, ltb, arith, length, drop,
}
use adb_wfx_plugin.Base.Tests.{Bool-cases}
use adb_wfx_plugin.Base.Bits.{bit_or_high}
use adb_wfx_plugin.Proto.{
  host_request_max_size, hex_digit, length_prefix, encode_host_request, hex_digit_value, hex_loop,
  parse_hex_length,
}

hex_digit_value-hex_digit : (n : ℕ) → n < 16 → hex_digit_value (hex_digit n) ≡ some n
unfolding hex_digit_value hex_digit
hex_digit_value-hex_digit n h = ground arith

hex_digit_value-lt : (c : ℕ) {d : ℕ} → hex_digit_value c ≡ some d → d < 16
unfolding hex_digit_value
hex_digit_value-lt c h = ground arith

hex_step :
    (k c d n : ℕ) (s : Bytes)
    → hex_digit_value c ≡ some d
    → n < 2 ^ 28
    → hex_loop (suc k) (c ∷ s) n ≡ hex_loop k s (n * 16 + d)
unfolding hex_loop
hex_step k c d n s e h =
    rw (e, hex_loop)
      (ap (hex_loop k s) (
        ap (λ (t : ℕ). bit_or t d) {y = n * 2 ^ 4} (omega arith)
        ∙ bit_or_high 4 n d (hex_digit_value-lt c e)))

-- A length below 2 ^ 16 is read back from its four digits, whatever follows them.
pub parse_hex_length-length_prefix :
    (n : ℕ) (rest : Bytes) → n < 2 ^ 16 → parse_hex_length (length_prefix n ++ rest) ≡ some n
unfolding parse_hex_length length_prefix
parse_hex_length-length_prefix n rest h =
    hex_step 3 _ (n / 4096) 0 _ (hex_digit_value-hex_digit (n / 4096) (omega arith)) (omega arith)
    ∙ hex_step 2 _ (n / 256 % 16) _ _ (hex_digit_value-hex_digit _ (omega arith)) (omega arith)
    ∙ hex_step 1 _ (n / 16 % 16) _ _ (hex_digit_value-hex_digit _ (omega arith)) (omega arith)
    ∙ hex_step 0 _ (n % 16) _ _ (hex_digit_value-hex_digit _ (omega arith)) (omega arith)
    ∙ unfold hex_loop in ap some (omega arith)

-- A request is refused, by the empty text, exactly when its length does not fit the prefix; any
-- other is the prefix, from which the length is read back, and the service behind it.
pub encode_host_request_lem :
    (service : Bytes)
    → ((host_request_max_size < length service) × (encode_host_request service ≡ []))
      ⊎ ((length service ≤ host_request_max_size)
          × (encode_host_request service ≢ [])
          × (parse_hex_length (encode_host_request service) ≡ some (length service))
          × (drop 4 (encode_host_request service) ≡ service))
unfolding encode_host_request
encode_host_request_lem service = elim (Bool-cases (ltb host_request_max_size (length service))) [
  | inl e ↦ inl (ground (arith, e), rw e refl)
  | inr e ↦ inr (
    ground (arith, e),
    rw e (unfold length_prefix in λ p. cc),
    rw e (parse_hex_length-length_prefix (length service) service (ground (arith, e))),
    rw e (unfold length_prefix in refl),
  )
]
