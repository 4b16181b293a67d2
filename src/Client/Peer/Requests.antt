-- ===== src/Client/Peer/Requests.antt =====
-- The requests to the adb server, and how it answers them.
use adb_wfx_plugin.Base.{
  ℕ, arith, ◌≡◌, inl, inr, ◌≤◌, ◌<◌, ◌^◌, refl, sym, ap, ◌∙◌, Option, some, false, none, [], ◌∷◌,
  ◌++◌, append-nil, Bytes, bytes_eq, codes, length, is_empty,
}
use adb_wfx_plugin.Base.Exec.{Result, ok, err, fail_if}
use adb_wfx_plugin.Proto.{
  encode_host_request, host_request_max_size, parse_status, parse_hex_length, length_prefix,
}
use adb_wfx_plugin.Proto.Framing.{encode_host_request_lem, parse_hex_length-length_prefix}
use adb_wfx_plugin.Client.{
  Line, Transport, Failure, or_fail_message, message, explain, or_connection_error, read_exactly,
  write_all, send_request_and_check_status, after_status, read_length_prefixed_message,
}
use adb_wfx_plugin.Client.Peer.{
  Peer, At, Says, quiet, continue-Says, explain-Says, read_count-Says, write_all-Says,
  read_body-Says, fail_if-Says,
}

-- The service that selects a device.
abbrev pub device_service : Bytes → Bytes
device_service serial = codes "host:transport:" ++ serial

module _ {W : Type 0} {t : Transport W} (peer : Peer t) where
  encode_host_request-not_empty :
      (service : Bytes)
      → length service ≤ host_request_max_size
      → is_empty (encode_host_request service) ≡ false
  encode_host_request-not_empty service le = elim (encode_host_request_lem service) [
    | inl (long, _) ↦ absurd (omega (arith, long, le))
    | inr (_, full, _, _) ↦ go (encode_host_request service) full
  ]
    where
      go : (bytes : Bytes) → (bytes ≡ [] → ⊥) → is_empty bytes ≡ false
      go [] p = absurd (p refl)
      go (b ∷ bytes) p = refl

  pub or_fail_message-Says :
      {A : Type 0} (o : Option A) (a : A) (m h d : Bytes) (s : Line W)
      → o ≡ some a
      → At peer h d s
      → Says peer (ok a) h d (or_fail_message o m s)
  or_fail_message-Says none a m h d s e p = cc
  or_fail_message-Says (some b) a m h d s e p = (ap ok {x = b} {y = a} cc, p)

  length-length_prefix : (n : ℕ) → length (length_prefix n) ≡ 4
  unfolding length_prefix
  length-length_prefix n = refl

  hex-back :
      (m : Bytes)
      → length m < 2 ^ 16
      → parse_hex_length (length_prefix (length m)) ≡ some (length m)
  hex-back m small =
      ap parse_hex_length (sym (append-nil (length_prefix (length m))))
      ∙ parse_hex_length-length_prefix (length m) [] small

  -- A text behind its length.
  pub read_length_prefixed_message-Says :
      (number : ℕ) (m rest d : Bytes) (s : Line W)
      → length m < 2 ^ 16
      → At peer (length_prefix (length m) ++ (m ++ rest)) d s
      → Says peer (ok m) rest d (read_length_prefixed_message t (quiet peer number) s)
  unfolding read_length_prefixed_message or_connection_error
  read_length_prefixed_message-Says number m rest d s small p =
      continue-Says peer (explain t (quiet peer number) _ (read_exactly t (quiet peer number) 4 s))
        _
        (explain-Says peer (quiet peer number) _ _ (
          read_count-Says peer number 4 (length_prefix (length m)) (m ++ rest) d s
            (length-length_prefix (length m)) p))
        (λ s p.
          continue-Says peer (or_fail_message (parse_hex_length (length_prefix (length m))) _ s) _
            (or_fail_message-Says (parse_hex_length (length_prefix (length m))) (length m) _ _ d s
              (hex-back m small) p)
            (λ s p.
              explain-Says peer (quiet peer number) _ _ (read_body-Says peer number m rest d s p)))

  -- What the server has read and answered, up to the status.
  module _ (number : ℕ) (service : Bytes) (fits : length service ≤ host_request_max_size) where
    requested :
        (r : Result Failure (Unit {0})) (status rest h d : Bytes) (s : Line W)
        → length status ≡ 4
        → ((s : Line W)
            → At peer rest (d ++ encode_host_request service) s
            → Says peer r h
                (d ++ encode_host_request service)
                (after_status t (quiet peer number) (parse_status status) s))
        → At peer (status ++ rest) d s
        → Says peer r h
            (d ++ encode_host_request service)
            (send_request_and_check_status t (quiet peer number) service s)
    unfolding send_request_and_check_status or_connection_error
    requested r status rest h d s four answer p =
        continue-Says peer (fail_if (is_empty (encode_host_request service)) _ s) _
          (fail_if-Says peer _ _ s (encode_host_request-not_empty service fits) p)
          (λ s p.
            continue-Says peer
              (explain t (quiet peer number) _ (write_all t (quiet peer number) _ s)) _
              (explain-Says peer (quiet peer number) _ _
                (write_all-Says peer number (encode_host_request service) (status ++ rest) d s p))
              (λ s p.
                continue-Says peer
                  (explain t (quiet peer number) _ (read_exactly t (quiet peer number) 4 s)) _
                  (explain-Says peer (quiet peer number) _ _ (
                    read_count-Says peer number 4 status rest (d ++ encode_host_request service) s
                      four p))
                  answer))

    pub send_request-okay :
        (rest d : Bytes) (s : Line W)
        → At peer (codes "OKAY" ++ rest) d s
        → Says peer
            (ok tt)
            rest
            (d ++ encode_host_request service)
            (send_request_and_check_status t (quiet peer number) service s)
    unfolding parse_status after_status bytes_eq
    send_request-okay rest d s =
        requested (ok tt) (codes "OKAY") rest rest d s refl (λ s p. (refl, p))

    -- The text of a `FAIL` becomes the message of the error.
    pub send_request-refused :
        (m rest d : Bytes) (s : Line W)
        → length m < 2 ^ 16
        → At peer (codes "FAIL" ++ (length_prefix (length m) ++ (m ++ rest))) d s
        → Says peer
            (err (message m))
            rest
            (d ++ encode_host_request service)
            (send_request_and_check_status t (quiet peer number) service s)
    unfolding parse_status after_status bytes_eq
    send_request-refused m rest d s small =
        requested (err (message m)) (codes "FAIL") (length_prefix (length m) ++ (m ++ rest)) rest d
          s refl
          (λ s p.
            continue-Says peer (read_length_prefixed_message t (quiet peer number) s) _
              (read_length_prefixed_message-Says number m rest _ s small p) (λ s p. (refl, p)))
