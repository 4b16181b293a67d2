-- ===== src/Tests/Server.antt =====
-- The theorems on whole conversations at concrete inputs: a server whose answers have arrived, read at
-- most seven bytes at a time where the client leaves that open.
use adb_wfx_plugin.Base.{
  ℕ, ◌<◌, ◌^◌, ◌≡◌, refl, sym, ap, ◌∙◌, Bool, true, false, some, [], ◌∷◌, ◌++◌, Bytes, codes,
  length, length-append, take, drop, take-append_length, drop-append_length, take-append-drop, ltb,
  arith,
}
use adb_wfx_plugin.Base.Exec.{Result, ok, err}
use adb_wfx_plugin.Proto.{length_prefix, encode_host_request}
use adb_wfx_plugin.Proto.Devices.Lines.{devices_of, print_devices, device_line}
use adb_wfx_plugin.Client.{Line, Transport, Failure, message}
use adb_wfx_plugin.Client.Operations.{list_devices, sync_list, sync_stat, shell_command}
use adb_wfx_plugin.Client.Peer.{Peer, Says}
use adb_wfx_plugin.Client.Peer.Requests.{device_service}
use adb_wfx_plugin.Client.Peer.Openings.{asked}
use adb_wfx_plugin.Client.Peer.Listing.{Sent, entries_of, listing, sync_list-listing}
use adb_wfx_plugin.Client.Peer.Replies.{
  known, stat_reply, sync_stat-stat_reply, list_devices-print_devices, shell_command-output,
}
use adb_wfx_plugin.Client.Peer.Refusals.{refusal, unknown_device}
use adb_wfx_plugin.Tests.Wire.{phones, phones-IsPrintable}

record World : Type 0 where
  heard : Bytes
  said : Bytes

abbrev take_off : ℕ → Line World → Line World
take_off n s = record s { world = record { heard = drop n s.world.heard; said = s.world.said } }

abbrev hand_on : Bool → ℕ → Line World → Result (Unit {0}) Bytes × Line World
hand_on true n s = (err tt, s)
hand_on false n s = (ok (take n s.world.heard), take_off n s)

abbrev server : Transport World
server = record {
  connect = λ w. (ok 1, w);
  write_all = λ on_stall number bytes s.
      (ok tt, record s { world = record { heard = s.world.heard; said = s.world.said ++ bytes } });
  read_exactly = λ on_stall number n s. hand_on (ltb (length s.world.heard) n) n s;
  read_some = λ on_stall number n s. hand_on false 7 s;
  close = λ number w. w;
  last_error = λ number w. [];
}

handed :
    (bytes rest : Bytes) (s : Line World)
    → s.world.heard ≡ bytes ++ rest
    → let (r, s') = hand_on (ltb (length s.world.heard) (length bytes)) (length bytes) s in
      (r ≡ ok bytes) × (s'.world.heard ≡ rest) × (s'.world.said ≡ s.world.said)
handed bytes rest s h = rw there (
  ap ok (ap (take (length bytes)) h ∙ take-append_length bytes rest),
  ap (drop (length bytes)) h ∙ drop-append_length bytes rest,
  refl,
)
  where
    there : ltb (length s.world.heard) (length bytes) ≡ false
    there = ground (arith, ap length h, length-append bytes rest)

none_left : (heard : Bytes) → take 7 heard ≡ [] → drop 7 heard ≡ []
none_left [] h = refl
none_left (b ∷ heard) h = cc

abbrev peer : Peer server
peer = record {
  heard = λ w. w.heard;
  said = λ w. w.said;
  connects = λ w. (1, refl, refl, refl);
  arrives = λ number bytes rest s h. handed bytes rest s h;
  flows = λ number n s lt. (
    take 7 s.world.heard,
    refl,
    sym (take-append-drop 7 s.world.heard),
    refl,
    none_left s.world.heard,
  );
  takes = λ number bytes s. (refl, refl, refl);
  closes = λ number w. (refl, refl);
}

-- A conversation that begins with the answers given.
abbrev answering : Bytes → Line World
answering bytes = record { world = record { heard = bytes; said = [] }; stall_cancelled = false }

abbrev photo : Sent
photo = record { name = codes "a.jpg"; mode = 0o100644; size = 12; mtime = 1700000000 }

abbrev folder : Sent
folder = record { name = codes "DCIM"; mode = 0o040755; size = 0; mtime = 1700000001 }

abbrev listing_reply : Bytes
listing_reply = codes "OKAY" ++ (codes "OKAY" ++ (listing (photo ∷ folder ∷ []) ++ codes "more"))

sync_list-listing_example :
    Says peer
      (ok (entries_of (photo ∷ folder ∷ [])))
      (codes "more")
      ([] ++ asked (codes "AB") (codes "LIST") (codes "/sdcard"))
      (sync_list server 3 (codes "AB") (codes "/sdcard") (answering listing_reply))
sync_list-listing_example =
    sync_list-listing peer 3 (codes "AB") (codes "/sdcard") (photo ∷ folder ∷ []) (codes "more") []
      (answering listing_reply) (omega arith)
      (
        (omega arith, omega arith, omega arith, omega arith),
        ((omega arith, omega arith, omega arith, omega arith), tt),
      )
      (omega arith) (omega arith) (refl, refl)

abbrev stat_answer : Bytes
stat_answer =
    codes "OKAY"
    ++ (codes "OKAY"
        ++ (codes "STAT"
            ++ (stat_reply (some (record { mode = 0o100644; size = 12; mtime = 9 })) ++ [])))

sync_stat-stat_reply_example :
    Says peer
      (ok (known (some (record { mode = 0o100644; size = 12; mtime = 9 }))))
      []
      ([] ++ asked (codes "AB") (codes "STAT") (codes "/sdcard/a.jpg"))
      (sync_stat server (codes "AB") (codes "/sdcard/a.jpg") (answering stat_answer))
sync_stat-stat_reply_example =
    sync_stat-stat_reply peer (codes "AB") (codes "/sdcard/a.jpg")
      (some (record { mode = 0o100644; size = 12; mtime = 9 })) [] [] (answering stat_answer)
      (omega arith, omega arith, omega arith, omega arith) (omega arith) (omega arith) (refl, refl)

abbrev devices_answer : Bytes
devices_answer =
    codes "OKAY" ++ (length_prefix (length (print_devices phones)) ++ (print_devices phones ++ []))

phones_short : length (print_devices phones) < 2 ^ 16
unfolding print_devices device_line
phones_short = omega arith

list_devices-print_devices_example :
    Says peer
      (ok (devices_of phones))
      []
      ([] ++ encode_host_request (codes "host:devices-l"))
      (list_devices server (answering devices_answer))
list_devices-print_devices_example =
    list_devices-print_devices peer phones [] [] (answering devices_answer) phones-IsPrintable
      phones_short (refl, refl)

abbrev output_answer : Bytes
output_answer = codes "OKAY" ++ (codes "OKAY" ++ codes "rm: a: No such file")

shell_command-output_example :
    Says peer
      (ok (codes "rm: a: No such file"))
      []
      ([]
        ++ encode_host_request (device_service (codes "AB"))
        ++ encode_host_request (codes "shell:" ++ codes "rm -f a"))
      (shell_command server 99 (codes "AB") (codes "rm -f a") (answering output_answer))
shell_command-output_example =
    shell_command-output peer 99 (codes "AB") (codes "rm -f a") (codes "rm: a: No such file") []
      (answering output_answer) (omega arith) (omega arith) (omega arith) (refl, refl)

abbrev RefusedResult : {A : Type 0} → Result Failure A × Line World → Type 0
RefusedResult =
    Says peer (err (message (codes "device 'AB' not found"))) []
      ([] ++ encode_host_request (device_service (codes "AB")))

abbrev unknown : Line World
unknown =
    answering
      (refusal peer (codes "AB") (codes "device 'AB' not found") [] [] (omega arith) (omega arith))

unknown_device_example :
    RefusedResult (sync_list server 9 (codes "AB") (codes "/") unknown)
    × RefusedResult (sync_stat server (codes "AB") (codes "/") unknown)
    × RefusedResult (shell_command server 9 (codes "AB") (codes "ls") unknown)
unknown_device_example =
    unknown_device peer (codes "AB") (codes "device 'AB' not found") [] [] (omega arith)
      (omega arith) 9 (codes "/") (codes "ls") unknown (omega arith) (refl, refl)
