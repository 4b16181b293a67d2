-- ===== src/Client/Peer/Replies.antt =====
-- `listDevices`, `syncStat` and `shellCommand` read back what the server answers.
use adb_wfx_plugin.Base.{
  ℕ, All, zero, suc, arith, ◌==◌, ◌≡◌, ◌≤◌, ◌<◌, ◌^◌, refl, sym, subst, ap, ◌∙◌, false, Option,
  none, some, List, [], ◌∷◌, ◌++◌, append_assoc, append-nil, Bytes, bytes_eq, codes, length,
  length-append, drop,
}
use adb_wfx_plugin.Base.Int.{pos}
use adb_wfx_plugin.Base.Exec.{ok, pure, ◌>>=◌}
use adb_wfx_plugin.Proto.{
  encode_host_request, host_request_max_size, write_u32_le, read_u32_le, length_prefix,
  sync_path_max,
}
use adb_wfx_plugin.Proto.Entry.{DirEntry, empty_entry}
use adb_wfx_plugin.Proto.Packets.{read_u32_le-write_u32_le}
use adb_wfx_plugin.Proto.Devices.{parse_devices_l}
use adb_wfx_plugin.Proto.Devices.Lines.{DeviceLine, devices_of, print_devices, IsPrintable}
use adb_wfx_plugin.Proto.Devices.Printed.{parse_devices_l-print_devices}
use adb_wfx_plugin.Client.{
  open_transport, read_length_prefixed_message, Line, Transport, Talk, explain, or_connection_error,
  read_exactly, read_some, open_device_transport,
}
use adb_wfx_plugin.Client.Operations.{
  list_devices, stat_of, read_stat, sync_stat, shell_loop, shell_command, shell_read_chunk_size,
}
use adb_wfx_plugin.Client.Peer.{
  Peer, At, Says, quiet, continue-Says, explain-Says, read_exactly-Says, read_count-Says,
}
use adb_wfx_plugin.Client.Peer.Requests.{read_length_prefixed_message-Says, device_service}
use adb_wfx_plugin.Client.Peer.Openings.{
  exchange-Says, open_transport-Says, asked, conversation-Says, open_device_transport-Says,
}

-- What `STAT` answers of a file; a file has a type, so its mode is not zero.
pub record Stat : Type 0 where
  pub mode : ℕ
  pub size : ℕ
  pub mtime : ℕ

abbrev pub known : Option Stat → Option DirEntry
known none = none
known (some x) = some (record empty_entry { mode = x.mode; size = x.size; mtime = pos x.mtime })

abbrev pub StatFits : Option Stat → Type 0
StatFits none = Unit {0}
StatFits (some x) = (0 < x.mode) × (x.mode < 2 ^ 32) × (x.size < 2 ^ 32) × (x.mtime < 2 ^ 32)

abbrev fields : ℕ → ℕ → ℕ → Bytes
fields mode size mtime = write_u32_le mode ++ (write_u32_le size ++ write_u32_le mtime)

-- Nothing is there where all fields are zero.
unfoldable pub stat_reply : Option Stat → Bytes
stat_reply none = fields 0 0 0
stat_reply (some x) = fields x.mode x.size x.mtime

length-stat_reply : (o : Option Stat) → length (stat_reply o) ≡ 12
unfolding stat_reply write_u32_le
length-stat_reply none = refl
length-stat_reply (some x) = refl

module _ (mode size mtime : ℕ) where
  mode_back : mode < 2 ^ 32 → read_u32_le (fields mode size mtime) ≡ mode
  mode_back = read_u32_le-write_u32_le mode (write_u32_le size ++ write_u32_le mtime)

  at_size : drop 4 (fields mode size mtime) ≡ write_u32_le size ++ write_u32_le mtime
  unfolding write_u32_le
  at_size = refl

  at_mtime : drop 8 (fields mode size mtime) ≡ write_u32_le mtime ++ []
  unfolding write_u32_le
  at_mtime = refl

  size_back : size < 2 ^ 32 → read_u32_le (drop 4 (fields mode size mtime)) ≡ size
  size_back h = ap read_u32_le at_size ∙ read_u32_le-write_u32_le size (write_u32_le mtime) h

  mtime_back : mtime < 2 ^ 32 → read_u32_le (drop 8 (fields mode size mtime)) ≡ mtime
  mtime_back h = ap read_u32_le at_mtime ∙ read_u32_le-write_u32_le mtime [] h

stat_of-stat_reply :
    {W : Type 0} (t : Transport W) (o : Option Stat)
    → StatFits o
    → stat_of t (stat_reply o) ≡ known o
unfolding stat_of stat_reply
stat_of-stat_reply t none fits =
    rw
      (
        mode_back 0 0 0 (omega arith),
        size_back 0 0 0 (omega arith),
        mtime_back 0 0 0 (omega arith),
        stat_of,
      )
      refl
stat_of-stat_reply t (some x) (there, m, s, time) =
    rw
      (
        mode_back x.mode x.size x.mtime m,
        size_back x.mode x.size x.mtime s,
        mtime_back x.mode x.size x.mtime time,
        is_there,
        stat_of,
      )
      refl
  where
    is_there : (x.mode == 0) ≡ false
    is_there = ground (arith, there)

module _ {W : Type 0} {t : Transport W} (peer : Peer t) where
  -- `syncStat` says what the protocol wants and reads back what the device sends of a file, or that
  -- there is none, whatever follows it.
  pub sync_stat-stat_reply :
      (serial path : Bytes) (o : Option Stat) (rest d : Bytes) (s : Line W)
      → StatFits o
      → length path ≤ sync_path_max
      → length (device_service serial) ≤ host_request_max_size
      → At peer (codes "OKAY" ++ (codes "OKAY" ++ (codes "STAT" ++ (stat_reply o ++ rest)))) d s
      → Says peer
          (ok (known o))
          rest
          (d ++ asked serial (codes "STAT") path)
          (sync_stat t serial path s)
  unfolding sync_stat
  sync_stat-stat_reply serial path o rest d s fits short fits_host p =
      conversation-Says peer serial (codes "STAT") path (codes "failed to write STAT request")
        (codes "STAT" ++ (stat_reply o ++ rest)) rest d (ok (known o)) (λ c. read_stat t c) s short
        fits_host read p
    where
      read :
          (number : ℕ) (d : Bytes) (s : Line W)
          → At peer (codes "STAT" ++ (stat_reply o ++ rest)) d s
          → Says peer (ok (known o)) rest d (read_stat t (quiet peer number) s)
      read number d s p =
          unfold read_stat or_connection_error bytes_eq in
          continue-Says peer
            (explain t (quiet peer number) _ (read_exactly t (quiet peer number) 4 s)) _
            (explain-Says peer (quiet peer number) _ _
              (read_exactly-Says peer number (codes "STAT") _ d s p))
            (λ s p.
              continue-Says peer
                (explain t (quiet peer number) _ (read_exactly t (quiet peer number) 12 s)) _
                (explain-Says peer (quiet peer number) _ _
                  (read_count-Says peer number 12 (stat_reply o) rest d s (length-stat_reply o) p))
                (λ s p. (ap ok (stat_of-stat_reply t o fits), p)))

  -- `listDevices` asks for the devices, and reads back the serial, the state and the model of every
  -- line that the server prints, in order, where the lines are printable: fields without white
  -- space, spaces between them, the model's field, if there is one, anywhere behind the state.
  pub list_devices-print_devices :
      (ls : List DeviceLine) (rest d : Bytes) (s : Line W)
      → All IsPrintable ls
      → length (print_devices ls) < 2 ^ 16
      → At peer
          (codes "OKAY"
            ++ (length_prefix (length (print_devices ls)) ++ (print_devices ls ++ rest)))
          d
          s
      → Says peer
          (ok (devices_of ls))
          rest
          (d ++ encode_host_request (codes "host:devices-l"))
          (list_devices t s)
  unfolding list_devices
  list_devices-print_devices ls rest d s printable small p =
      let (number, q) = open_transport-Says peer _ d s p in
      continue-Says peer (open_transport t s) _ q (λ s p.
        exchange-Says peer number (codes "host:devices-l")
          (read_length_prefixed_message t (quiet peer number) >>= λ payload.
            pure (parse_devices_l payload))
          _ d s (omega arith)
          (λ s p.
            continue-Says peer (read_length_prefixed_message t (quiet peer number) s)
              (λ payload. pure (parse_devices_l payload))
              (read_length_prefixed_message-Says peer number (print_devices ls) rest _ s small p)
              (λ s p. (ap ok (parse_devices_l-print_devices ls printable), p)))
          p)

  -- What `shellCommand` does with a chunk.
  abbrev after_chunk : ℕ → ℕ → Bytes → Bytes → Talk W Bytes
  after_chunk fuel number output chunk = elim chunk [
    | [] ↦ pure output
    | b ∷ bytes ↦ shell_loop t fuel (quiet peer number) (output ++ b ∷ bytes)
  ]

  -- The output, in chunks of any length.
  output-Says :
      (fuel number : ℕ) (heard output d : Bytes) (s : Line W)
      → length heard < fuel
      → At peer heard d s
      → Says peer (ok (output ++ heard)) [] d (shell_loop t fuel (quiet peer number) output s)
  unfolding shell_loop or_connection_error
  output-Says zero number heard output d s enough p = absurd (omega (arith, enough))
  output-Says (suc fuel) number heard output d s enough (h, g) =
      let (bytes, e, taken, same, at_end) =
        peer.flows number shell_read_chunk_size s (omega arith) in
      continue-Says peer
        (explain t (quiet peer number) _ (read_some t (quiet peer number) shell_read_chunk_size s))
        _ (explain-Says peer (quiet peer number) _ _ (e, (refl, same ∙ g)))
        (λ s' p.
          go bytes s' at_end (sym h ∙ taken) p
            (λ rest output' s' lt p. output-Says fuel number rest output' d s' lt p))
    where
      left : Bytes
      left = peer.heard (read_some t (quiet peer number) shell_read_chunk_size s).1.world

      go :
          (bytes : Bytes) (s' : Line W)
          → (bytes ≡ [] → left ≡ [])
          → heard ≡ bytes ++ left
          → At peer left d s'
          → ((rest output' : Bytes) (s' : Line W)
              → length rest < fuel
              → At peer rest d s'
              → Says peer
                  (ok (output' ++ rest))
                  []
                  d
                  (shell_loop t fuel (quiet peer number) output' s'))
          → Says peer (ok (output ++ heard)) [] d (after_chunk fuel number output bytes s')
      go [] s' at_end all (h', g') again = (
        ap ok (sym (append-nil output) ∙ ap (λ x. output ++ x) (sym (all ∙ at_end refl))),
        (h' ∙ at_end refl, g'),
      )
      go (b ∷ bs) s' at_end all p again =
          subst
            (λ z.
              Says peer (ok z) [] d (shell_loop t fuel (quiet peer number) (output ++ b ∷ bs) s'))
            (append_assoc output (b ∷ bs) left ∙ ap (λ x. output ++ x) (sym all))
            (again left (output ++ b ∷ bs) s'
              (omega (arith, enough, ap length all, length-append bs left)) p)

  -- `shellCommand` sends the command to the device's shell, and answers all of its output to its end,
  -- in whatever chunks it arrives, on any fuel above the number of its bytes.
  pub shell_command-output :
      (fuel : ℕ) (serial command output d : Bytes) (s : Line W)
      → length output < fuel
      → length (device_service serial) ≤ host_request_max_size
      → length (codes "shell:" ++ command) ≤ host_request_max_size
      → At peer (codes "OKAY" ++ (codes "OKAY" ++ output)) d s
      → Says peer
          (ok output)
          []
          (d
            ++ encode_host_request (device_service serial)
            ++ encode_host_request (codes "shell:" ++ command))
          (shell_command t fuel serial command s)
  unfolding shell_command
  shell_command-output fuel serial command output d s enough fits_host fits p =
      let (number, q) =
        open_device_transport-Says peer serial (codes "OKAY" ++ output) d s fits_host p in
      continue-Says peer (open_device_transport t serial s) _ q (λ s p.
        exchange-Says peer number (codes "shell:" ++ command)
          (shell_loop t fuel (quiet peer number) []) output _ s fits
          (λ s p. output-Says fuel number output [] _ s enough p) p)
