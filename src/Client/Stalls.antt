-- ===== src/Client/Stalls.antt =====
-- What `syncRecv` reports when a read fails after the user has cancelled.
use adb_wfx_plugin.Base.{
  ◌≡◌, refl, ap, ◌<◌, ◌≤◌, true, false, ℕ, Bytes, codes, bytes_eq, bytes_eq_iff, ltb, ◌==◌, arith,
}
use adb_wfx_plugin.Base.Exec.{ok, err}
use adb_wfx_plugin.Proto.{SyncHeader, parse_sync_header, sync_id_is, sync_data_max}
use adb_wfx_plugin.Core.Download.{adb_cancelled}
use adb_wfx_plugin.Client.{
  Line, Transport, Connection, Failure, message, read_exactly, read_body, or_connection_error,
  connection_message,
}
use adb_wfx_plugin.Client.Sync.{
  Files, read_sync_header, read_sync_fail_message, fail_sync, sync_fail_message_max,
}
use adb_wfx_plugin.Client.Transfers.{Transfer, cancellation_or, with_stall, recv_chunk, recv_step}

module _ {W : Type 0} (t : Transport W) (files : Files W) (c : Connection W) where
  -- A read of a round fails with the flag set: the error, and the state after it.
  pub data Stalled : Line W → Failure → Line W → Type 0 where
    at_header :
        (s s1 : Line W)
        → read_exactly t c 8 s ≡ (err tt, s1)
        → s1.stall_cancelled ≡ true
        → Stalled s (message adb_cancelled) s1
    in_data :
        (s s1 s2 : Line W) (header : Bytes)
        → read_exactly t c 8 s ≡ (ok header, s1)
        → sync_id_is (parse_sync_header header) (codes "DATA") ≡ true
        → (parse_sync_header header).arg ≤ sync_data_max
        → read_exactly t c (parse_sync_header header).arg s1 ≡ (err tt, s2)
        → s2.stall_cancelled ≡ true
        → Stalled s (message adb_cancelled) s2
    in_fail :
        (s s1 s2 : Line W) (header : Bytes)
        → read_exactly t c 8 s ≡ (ok header, s1)
        → sync_id_is (parse_sync_header header) (codes "FAIL") ≡ true
        → 0 < (parse_sync_header header).arg
        → (parse_sync_header header).arg ≤ sync_fail_message_max
        → read_exactly t c (parse_sync_header header).arg s1 ≡ (err tt, s2)
        → s2.stall_cancelled ≡ true
        → Stalled s
            (message
              (connection_message t c (codes "failed to read FAIL message from adb server") s2))
            s2

pub data_id :
    (h : SyncHeader)
    → sync_id_is h (codes "DATA") ≡ true
    → (sync_id_is h (codes "DONE") ≡ false) × (sync_id_is h (codes "FAIL") ≡ false)
unfolding sync_id_is bytes_eq
data_id h e =
    let same = (bytes_eq_iff h.id (codes "DATA")).0 e in
    (ap (λ i. bytes_eq i (codes "DONE")) same, ap (λ i. bytes_eq i (codes "FAIL")) same)

fail_id :
    (h : SyncHeader) → sync_id_is h (codes "FAIL") ≡ true → sync_id_is h (codes "DONE") ≡ false
unfolding sync_id_is bytes_eq
fail_id h e = ap (λ i. bytes_eq i (codes "DONE")) ((bytes_eq_iff h.id (codes "FAIL")).0 e)

fits : (n bound : ℕ) → n ≤ bound → ltb bound n ≡ false
fits n bound le = ground arith

positive : (n : ℕ) → 0 < n → (n == 0) ≡ false
positive n lt = ground arith

module _ {W : Type 0} (t : Transport W) (files : Files W) where
  -- A read of a header or of a chunk that fails once the flag is set is reported as the cancellation;
  -- one of the message of a `FAIL` is not, but as the failed read.
  pub recv_step-Stalled :
      (fuel : ℕ) (connection : Connection W) (x : Transfer W) (done : ℕ) (s : Line W) (e : Failure)
      (s' : Line W)
      → Stalled t files (with_stall connection x done) s e s'
      → recv_step t files fuel connection x done s ≡ (err e, s')
  unfolding recv_step cancellation_or or_connection_error read_sync_header with_stall recv_chunk
      fail_sync read_sync_fail_message read_body
  recv_step-Stalled fuel connection x done _ _ _ (at_header s s1 h flag) = rw (h, flag) refl
  recv_step-Stalled fuel connection x done _ _ _ (in_data s s1 s2 header h id le b flag) =
      rw
        (
          h,
          (data_id (parse_sync_header header) id).0,
          (data_id (parse_sync_header header) id).1,
          id,
          fits _ _ le,
          b,
          flag,
        )
        refl
  recv_step-Stalled fuel connection x done _ _ _ (in_fail s s1 s2 header h id pos_len le b flag) =
      rw (h, fail_id (parse_sync_header header) id, id, fits _ _ le, positive _ pos_len, b) refl
