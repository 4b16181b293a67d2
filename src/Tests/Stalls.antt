-- ===== src/Tests/Stalls.antt =====
-- A peer that sends the header of a `FAIL`, and then stalls until the user cancels.
use adb_wfx_plugin.Base.{
  ◌≡◌, refl, true, false, none, [], ◌++◌, ◌∷◌, Bytes, codes, ◌==◌, if◌then◌else◌, bytes_eq, arith,
}
use adb_wfx_plugin.Base.Exec.{ok, err}
use adb_wfx_plugin.Proto.{parse_sync_header, sync_id_is, read_u32_le}
use adb_wfx_plugin.Client.{Line, Transport, Connection, message, connection_message}
use adb_wfx_plugin.Client.Sync.{moved, Files}
use adb_wfx_plugin.Client.Transfers.{Transfer, recv_step, with_stall}
use adb_wfx_plugin.Client.Stalls.{Stalled, in_fail, recv_step-Stalled}

abbrev fail_header : Bytes
fail_header = codes "FAIL" ++ 9 ∷ 0 ∷ 0 ∷ 0 ∷ []

abbrev waiting : Line (Unit {0})
waiting = record { world = tt; stall_cancelled = false }

abbrev given_up : Line (Unit {0})
given_up = record { world = tt; stall_cancelled = true }

abbrev stalling : Transport (Unit {0})
stalling = record {
  connect = λ w. (ok 0, w);
  write_all = λ on_stall c bytes s. (ok tt, s);
  read_exactly = λ on_stall c n s. if n == 8 then (ok fail_header, s) else (err tt, given_up);
  read_some = λ on_stall c n s. (ok [], s);
  close = λ c w. w;
  last_error = λ c w. codes "transfer cancelled while waiting for the device";
}

abbrev no_disk : Files (Unit {0})
no_disk = record {
  write = λ fd buf w. (moved 0, w);
  read = λ fd n w. (moved [], w);
  strerror = λ e. [];
}

abbrev incoming_file : Transfer (Unit {0})
incoming_file = record { fd = 3; total = 4; progress = none }

abbrev line : Connection (Unit {0})
line = record { number = 0; on_stall = none }

cut_short :
    let c = with_stall line incoming_file 0 in
    Stalled stalling no_disk c waiting
      (message (
        connection_message stalling c
          (codes "failed to read FAIL message from adb server")
          given_up))
      given_up
unfolding parse_sync_header sync_id_is bytes_eq read_u32_le
cut_short =
    in_fail waiting waiting given_up fail_header refl refl (omega arith) (omega arith) refl refl

recv_step-Stalled_example :
    let c = with_stall line incoming_file 0 in
    recv_step stalling no_disk 1 line incoming_file 0 waiting ≡ (
      err (
          message (
            connection_message stalling c
              (codes "failed to read FAIL message from adb server")
              given_up)),
      given_up,
    )
recv_step-Stalled_example =
    recv_step-Stalled stalling no_disk 1 line incoming_file 0 waiting
      (message (
        connection_message stalling (with_stall line incoming_file 0)
          (codes "failed to read FAIL message from adb server") given_up))
      given_up cut_short
