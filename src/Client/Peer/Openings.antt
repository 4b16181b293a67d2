-- ===== src/Client/Peer/Openings.antt =====
-- Opening a connection, and whole conversations on it.
use adb_wfx_plugin.Base.{
  ℕ, arith, ◌≡◌, ◌≤◌, ◌^◌, refl, subst, ap, ◌∙◌, ◌++◌, append_assoc, Bytes, codes, length, ltb, ◌%◌,
}
use adb_wfx_plugin.Base.Exec.{Result, ok, err, continue, ◌>>◌}
use adb_wfx_plugin.Proto.{
  encode_sync_header, sync_path_max, encode_host_request, host_request_max_size,
}
use adb_wfx_plugin.Client.{
  Line, Transport, Connection, Failure, Talk, or_connection_error, connected, closed_on_failure,
  closing, open_transport, open_device_transport, open_sync_transport,
  send_request_and_check_status,
}
use adb_wfx_plugin.Client.Sync.{write_sync_packet}
use adb_wfx_plugin.Client.Operations.{check_path_length, request}
use adb_wfx_plugin.Client.Peer.{
  write_sync_packet-Says, Peer, At, Says, quiet, continue-Says, explain-Says,
  closed_on_failure-Says, fail_if-Says,
}
use adb_wfx_plugin.Client.Peer.Requests.{device_service, send_request-okay}

-- What a conversation of the sync protocol says: the device, the protocol, and a request about a path.
abbrev pub asked : Bytes → Bytes → Bytes → Bytes
asked serial id path =
    encode_host_request (device_service serial)
    ++ encode_host_request (codes "sync:")
    ++ (encode_sync_header id (length path) ++ path)

module _ {W : Type 0} {t : Transport W} (peer : Peer t) where
  -- A new connection.
  pub open_transport-Says :
      (h d : Bytes) (s : Line W)
      → At peer h d s
      → (number : ℕ) × Says peer (ok (quiet peer number)) h d (open_transport t s)
  unfolding open_transport
  open_transport-Says h d s (p, q) =
      let (number, e, p', q') = peer.connects s.world in
      (number, go (t.connect s.world) number e (p' ∙ p) (q' ∙ q))
    where
      go :
          (out : Result Bytes ℕ × W) (number : ℕ)
          → out.0 ≡ ok number
          → peer.heard out.1 ≡ h
          → peer.said out.1 ≡ d
          → Says peer (ok (quiet peer number)) h d (connected t out s.stall_cancelled)
      go (ok n, w) number e p q = (ap (λ n. ok (quiet peer n)) {x = n} {y = number} cc, (p, q))
      go (err m, w) number e p q = cc

  -- What a request adds to what was said, on a connection that it may close.
  kept-okay :
      (number : ℕ) (service : Bytes) (rest d : Bytes) (s : Line W)
      → length service ≤ host_request_max_size
      → At peer (codes "OKAY" ++ rest) d s
      → Says peer (ok (quiet peer number)) rest (d ++ encode_host_request service) (
          continue
            (closed_on_failure t
              (quiet peer number)
              (send_request_and_check_status t (quiet peer number) service s))
            (λ _ s. (ok (quiet peer number), s)))
  kept-okay number service rest d s fits p =
      continue-Says peer (closed_on_failure t (quiet peer number) _) _
        (closed_on_failure-Says peer (quiet peer number)
          (send_request_and_check_status t (quiet peer number) service s)
          (send_request-okay peer number service fits rest d s p))
        (λ s p. (refl, p))

  pub open_device_transport-Says :
      (serial rest d : Bytes) (s : Line W)
      → length (device_service serial) ≤ host_request_max_size
      → At peer (codes "OKAY" ++ rest) d s
      → (number : ℕ) × Says peer
          (ok (quiet peer number))
          rest
          (d ++ encode_host_request (device_service serial))
          (open_device_transport t serial s)
  unfolding open_device_transport
  open_device_transport-Says serial rest d s fits p =
      let (number, q) = open_transport-Says (codes "OKAY" ++ rest) d s p in
      (
        number,
        continue-Says peer (open_transport t s) _ q
            (λ s p. kept-okay number (device_service serial) rest d s fits p),
      )

  pub open_sync_transport-Says :
      (serial rest d : Bytes) (s : Line W)
      → length (device_service serial) ≤ host_request_max_size
      → At peer (codes "OKAY" ++ (codes "OKAY" ++ rest)) d s
      → (number : ℕ) × Says peer
          (ok (quiet peer number))
          rest
          (d ++ encode_host_request (device_service serial) ++ encode_host_request (codes "sync:"))
          (open_sync_transport t serial s)
  unfolding open_sync_transport
  open_sync_transport-Says serial rest d s fits p =
      let (number, q) = open_device_transport-Says serial (codes "OKAY" ++ rest) d s fits p in
      (
        number,
        continue-Says peer (open_device_transport t serial s) _ q
            (λ s p. kept-okay number (codes "sync:") rest _ s (omega arith) p),
      )

  -- The end of a conversation.
  pub closing-Says :
      {A : Type 0} {r : Result Failure A} {h d : Bytes} (number : ℕ) (m : Talk W A) (s : Line W)
      → Says peer r h d (m s)
      → Says peer r h d (closing t (quiet peer number) m s)
  closing-Says number m s (e, (p, q)) =
      let (p', q') = peer.closes number (m s).1.world in (e, (p' ∙ p, q' ∙ q))

  -- A conversation that one more service opens, given what `m` makes of the reply.
  pub exchange-Says :
      {A : Type 0} {r : Result Failure A} {h d' : Bytes} (number : ℕ) (service : Bytes)
      (m : Talk W A) (reply d : Bytes) (s : Line W)
      → length service ≤ host_request_max_size
      → ((s : Line W) → At peer reply (d ++ encode_host_request service) s → Says peer r h d' (m s))
      → At peer (codes "OKAY" ++ reply) d s
      → Says peer r h d' (
          closing t
            (quiet peer number)
            (send_request_and_check_status t (quiet peer number) service >> m)
            s)
  exchange-Says number service m reply d s fits answer p =
      closing-Says number (send_request_and_check_status t (quiet peer number) service >> m) s (
        continue-Says peer (send_request_and_check_status t (quiet peer number) service s) (λ _. m)
          (send_request-okay peer number service fits reply d s p) answer)

  pub request-Says :
      (number : ℕ) (id path what h d : Bytes) (s : Line W)
      → length path ≤ sync_path_max
      → At peer h d s
      → Says peer
          (ok tt)
          h
          (d ++ (encode_sync_header id (length path) ++ path))
          (request t (quiet peer number) id path what s)
  unfolding request or_connection_error
  request-Says number id path what h d s short p = explain-Says peer (quiet peer number) _ _ (
      subst
        (λ n.
          Says peer (ok tt) h (d ++ (encode_sync_header id (length path) ++ path))
            (write_sync_packet t (quiet peer number) id n path s))
        (fits_word (length path) short)
        (write_sync_packet-Says peer number id (length path) path h d s p))
    where
      fits_word : (n : ℕ) → n ≤ sync_path_max → n ≡ n % 2 ^ 32
      fits_word n le = omega (arith, le)

  -- A whole conversation about a path, given what `m` makes of the reply.
  pub conversation-Says :
      {A : Type 0} (serial id path what reply rest d : Bytes) (r : Result Failure A)
      (m : Connection W → Talk W A) (s : Line W)
      → length path ≤ sync_path_max
      → length (device_service serial) ≤ host_request_max_size
      → ((number : ℕ) (d : Bytes) (s : Line W)
          → At peer reply d s
          → Says peer r rest d (m (quiet peer number) s))
      → At peer (codes "OKAY" ++ (codes "OKAY" ++ reply)) d s
      → Says peer r rest (d ++ asked serial id path) (
          continue (check_path_length t path s) λ _ s.
            continue
              (open_sync_transport t serial s)
              λ c. closing t c (request t c id path what >> m c))
  conversation-Says {A = A} serial id path what reply rest d r m s short fits answer p =
      continue-Says peer (check_path_length t path s) _
        (fail_if-Says peer (ltb sync_path_max (length path)) _ s (ground (arith, short)) p)
        (λ s p.
          let (number, q) = open_sync_transport-Says serial reply d s fits p in
          continue-Says peer (open_sync_transport t serial s) _ q (λ s p.
            closing-Says number
              (request t (quiet peer number) id path what >> m (quiet peer number)) s
              (continue-Says peer (request t (quiet peer number) id path what s) _
                (request-Says number id path what reply _ s short p)
                (λ s p. all_said (m (quiet peer number) s) (answer number _ s p)))))
    where
      all_said :
          (out : Result Failure A × Line W)
          → Says peer r rest
              (d
                ++ encode_host_request (device_service serial)
                ++ encode_host_request (codes "sync:")
                ++ (encode_sync_header id (length path) ++ path))
              out
          → Says peer r rest (d ++ asked serial id path) out
      all_said out (e, (p, q)) = (
        e,
        (
          p,
          q
              ∙ ap (λ x. x ++ (encode_sync_header id (length path) ++ path))
                  (append_assoc d (encode_host_request (device_service serial))
                    (encode_host_request (codes "sync:")))
              ∙ append_assoc d
                  (encode_host_request (device_service serial)
                    ++ encode_host_request (codes "sync:"))
                  (encode_sync_header id (length path) ++ path),
        ),
      )
