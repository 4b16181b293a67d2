-- ===== src/Client/Peer/Refusals.antt =====
-- A server that refuses the device.
use adb_wfx_plugin.Base.{ℕ, ◌≤◌, ◌<◌, ◌^◌, ap, ◌∙◌, ◌++◌, Bytes, codes, length, arith, ltb}
use adb_wfx_plugin.Base.Exec.{Result, ok, err, Exec, continue}
use adb_wfx_plugin.Proto.{encode_host_request, host_request_max_size, length_prefix, sync_path_max}
use adb_wfx_plugin.Client.{
  Line, Transport, Failure, message, closed_on_failure, open_transport, open_device_transport,
  open_sync_transport, send_request_and_check_status,
}
use adb_wfx_plugin.Client.Operations.{check_path_length, sync_list, sync_stat, shell_command}
use adb_wfx_plugin.Client.Peer.{Peer, At, Says, quiet, continue-Says, fail_if-Says}
use adb_wfx_plugin.Client.Peer.Requests.{device_service, send_request-refused}
use adb_wfx_plugin.Client.Peer.Openings.{open_transport-Says}

module _ {W : Type 0} {t : Transport W} (peer : Peer t) where
  -- A failure ends what follows.
  failed-Says :
      {E A B : Type 0} {e : E} {h d : Bytes} (out : Result E A × Line W) (f : A → Exec E (Line W) B)
      → Says peer {A = A} (err e) h d out
      → Says peer {A = B} (err e) h d (continue out f)
  failed-Says (ok a, s) f (e, p) = cc
  failed-Says (err e', s) f (e, p) = (ap err {x = e'} cc, p)

  closed-Says :
      {A : Type 0} {e : Failure} {h d : Bytes} (number : ℕ) (out : Result Failure A × Line W)
      → Says peer {A = A} (err e) h d out
      → Says peer {A = A} (err e) h d (closed_on_failure t (quiet peer number) out)
  closed-Says number (ok a, s) p = cc
  closed-Says number (err e', s) (e, (p, q)) =
      let (p', q') = peer.closes number s.world in (e, (p' ∙ p, q' ∙ q))

  module _ (serial m rest d : Bytes) (small : length m < 2 ^ 16)
      (fits : length (device_service serial) ≤ host_request_max_size) where
    -- The answer of a server that does not know the device.
    abbrev pub refusal : Bytes
    refusal = codes "FAIL" ++ (length_prefix (length m) ++ (m ++ rest))

    abbrev Refused : {A : Type 0} → Result Failure A × Line W → Type 0
    Refused {A = A} =
        Says peer {A = A} (err (message m)) rest (d ++ encode_host_request (device_service serial))

    open_device_transport-Refused :
        (s : Line W) → At peer refusal d s → Refused (open_device_transport t serial s)
    unfolding open_device_transport
    open_device_transport-Refused s p =
        let (number, q) = open_transport-Says peer refusal d s p in
        continue-Says peer (open_transport t s) _ q (λ s p.
          failed-Says (closed_on_failure t (quiet peer number) _) _ (
            closed-Says number
              (send_request_and_check_status t (quiet peer number) (device_service serial) s)
              (send_request-refused peer number (device_service serial) fits m rest d s small p)))

    open_sync_transport-Refused :
        (s : Line W) → At peer refusal d s → Refused (open_sync_transport t serial s)
    unfolding open_sync_transport
    open_sync_transport-Refused s p =
        failed-Says (open_device_transport t serial s) _ (open_device_transport-Refused s p)

    -- A device that the server refuses: `syncList`, `syncStat` and `shellCommand` fail with the text of
    -- the server, and have asked for the device and nothing else.
    pub unknown_device :
        (fuel : ℕ) (path command : Bytes) (s : Line W)
        → length path ≤ sync_path_max
        → At peer refusal d s
        → Refused (sync_list t fuel serial path s)
          × Refused (sync_stat t serial path s)
          × Refused (shell_command t fuel serial command s)
    unfolding sync_list sync_stat shell_command
    unknown_device fuel path command s short p = (
      continue-Says peer (check_path_length t path s) _ checked
          (λ s p. failed-Says (open_sync_transport t serial s) _ (open_sync_transport-Refused s p)),
      continue-Says peer (check_path_length t path s) _ checked
          (λ s p. failed-Says (open_sync_transport t serial s) _ (open_sync_transport-Refused s p)),
      failed-Says (open_device_transport t serial s) _ (open_device_transport-Refused s p),
    )
      where
        checked : Says peer (ok tt) refusal d (check_path_length t path s)
        checked = fail_if-Says peer (ltb sync_path_max (length path)) _ s (ground (arith, short)) p
