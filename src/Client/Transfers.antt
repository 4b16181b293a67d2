-- ===== src/Client/Transfers.antt =====
-- `syncRecv` and `syncSend`, and the record of operations that PluginCore is given.
use adb_wfx_plugin.Base.{
  ℕ, zero, suc, ◌+◌, ◌-◌, ◌%◌, ◌^◌, Bool, true, false, not, Option, none, some, [], Bytes, codes,
  ltb, min, length, if◌then◌else◌,
}
use adb_wfx_plugin.Base.Int.{ℤ, to_u32}
use adb_wfx_plugin.Base.Exec.{Result, ok, err, Exec, pure, fail, fail_if, ◌>>=◌, ◌>>◌}
use adb_wfx_plugin.Proto.{sync_id_is, sync_data_max, encode_send_path_spec}
use adb_wfx_plugin.Core.Interface.{ProgressFn, AdbClient}
use adb_wfx_plugin.Core.Download.{adb_cancelled}
use adb_wfx_plugin.Client.{
  StallFn, Line, Transport, Connection, Failure, message, out_of_fuel, Talk, read_exactly,
  connection_message, or_connection_error, closing, open_sync_transport,
}
use adb_wfx_plugin.Client.Sync.{
  Files, write_sync_packet, read_sync_header, fail_sync, read_pending_sync_fail, should_continue,
  write_all_to_fd, read_all_from_fd, on_file,
}
use adb_wfx_plugin.Client.Operations.{
  check_path_length, request, list_devices, sync_list, sync_stat, shell_command,
}

-- What a call is about beside the connection: the descriptor, the size and the callback.
pub record Transfer (W : Type 0) : Type 0 where
  pub fd : ℕ
  pub total : ℕ
  pub progress : Option (ProgressFn W)

module _ {W : Type 0} where
  -- The callback's answer, in the conversation: false is noted in `*cancelled`.
  abbrev pub note_stall : Bool × W → Bool → Bool × Line W
  note_stall (true, w) b = (true, record { world = w; stall_cancelled = b })
  note_stall (false, w) b = (false, record { world = w; stall_cancelled = true })

  -- `installStallCallback`, at the moment when `*done` is `done`.
  unfoldable pub stall_callback : Option (ProgressFn W) → ℕ → ℕ → StallFn (Line W)
  stall_callback none done total = none
  stall_callback (some progress) done total =
      some (λ s. note_stall (progress done total s.world) s.stall_cancelled)

  unfoldable pub with_stall : Connection W → Transfer W → ℕ → Connection W
  unfolding stall_callback
  with_stall c x done = record c { on_stall = stall_callback x.progress done x.total }

  -- `cancellationOr`, on a failure of the transport.
  abbrev pub cancelled_or : {A : Type 0} → Result Failure A × Line W → Result Failure A × Line W
  cancelled_or (ok a, s) = (ok a, s)
  cancelled_or (err e, s) = (err (if s.stall_cancelled then message adb_cancelled else e), s)

  unfoldable pub cancellation_or : {A : Type 0} → Talk W A → Talk W A
  cancellation_or m s = cancelled_or (m s)

  -- `bool stallCancelled = false`.
  abbrev pub not_cancelled : Line W → Result Failure (Unit {0}) × Line W
  not_cancelled s = (ok tt, record s { stall_cancelled = false })

-- The outcome of a round: the transfer is over, or so many bytes are done.
pub data Round : Type 0 where
  finished : Round
  more : ℕ → Round

module _ {W : Type 0} (t : Transport W) (files : Files W) where
  -- The end of a round: the count, and the callback.
  unfoldable pub counted : Transfer W → ℕ → ℕ → Talk W Round
  unfolding should_continue
  counted x done n = do
    let done' = (done + n) % 2 ^ 64
    go ← should_continue x.progress done' x.total
    fail_if (not go) (message adb_cancelled)
    pure (more done')

  -- A `DATA` chunk of `len` bytes, from the device to the local file.
  unfoldable pub recv_chunk : ℕ → Connection W → Transfer W → ℕ → ℕ → Talk W Round
  unfolding cancellation_or or_connection_error on_file write_all_to_fd counted
  recv_chunk fuel c x done len = do
    chunk ← cancellation_or (
        or_connection_error t c (codes "failed to read DATA chunk from adb server")
          (read_exactly t c len))
    on_file files (codes "failed to write to local file") (write_all_to_fd files fuel x.fd chunk)
    counted x done len

  -- One round of `for (;;)`.
  unfoldable pub recv_step : ℕ → Connection W → Transfer W → ℕ → Talk W Round
  unfolding cancellation_or or_connection_error read_sync_header fail_sync recv_chunk with_stall
  recv_step fuel connection x done = do
    let c = with_stall connection x done
    header ← cancellation_or (
        or_connection_error t c (codes "failed to read sync reply from adb server")
          (read_sync_header t c))
    if sync_id_is header (codes "DONE")
        then pure finished
        else if sync_id_is header (codes "FAIL")
        then fail_sync t c header.arg
        else (do
          fail_if (not (sync_id_is header (codes "DATA")))
              (message (codes "malformed sync reply from adb server"))
          fail_if (ltb sync_data_max header.arg)
              (message (codes "adb server sent an oversized DATA chunk"))
          recv_chunk fuel c x done header.arg)

  -- The loop, on fuel for its rounds and for those of each `writeAllToFd`.
  unfoldable pub recv_loop : ℕ → ℕ → Connection W → Transfer W → ℕ → Talk W (Unit {0})
  unfolding recv_step
  recv_loop zero file_fuel c x done = fail out_of_fuel
  recv_loop (suc fuel) file_fuel c x done = do
    round ← recv_step file_fuel c x done
    elim round [ finished ↦ pure tt | more done' ↦ recv_loop fuel file_fuel c x done' ]

  unfoldable pub sync_recv : ℕ → ℕ → Bytes → Bytes → Transfer W → Talk W (Unit {0})
  unfolding open_sync_transport cancellation_or request recv_loop with_stall
  sync_recv fuel file_fuel serial remote x = do
    check_path_length t remote
    not_cancelled
    c ← open_sync_transport t serial
    closing t c (do
      cancellation_or (
          request t (with_stall c x 0) (codes "RECV") remote (codes "failed to write RECV request"))
      recv_loop fuel file_fuel c x 0)

  -- A chunk that could not be written: the device's own reason, if it has sent one.
  abbrev pub broken_with : Bytes → Option Bytes × Line W → Result Failure (Unit {0}) × Line W
  broken_with write_err (none, s) = (err (message write_err), s)
  broken_with write_err (some pending_fail, s) = (err (message pending_fail), s)

  unfoldable pub send_broken : Connection W → Talk W (Unit {0})
  unfolding read_pending_sync_fail
  send_broken c s =
      let write_err = connection_message t c (codes "failed to write DATA chunk") s in
      broken_with write_err (if s.stall_cancelled then (none, s) else read_pending_sync_fail t c s)

  abbrev pub or_broken :
      Connection W → Result (Unit {0}) (Unit {0}) × Line W → Result Failure (Unit {0}) × Line W
  or_broken c (ok u, s) = (ok u, s)
  or_broken c (err u, s) = cancelled_or (send_broken c s)

  unfoldable pub send_chunk : Connection W → Bytes → Talk W (Unit {0})
  unfolding write_sync_packet send_broken
  send_chunk c chunk s = or_broken c (write_sync_packet t c (codes "DATA") (length chunk) chunk s)

  -- One round of `while (done < localSize)`.
  unfoldable pub send_step : ℕ → Connection W → Transfer W → ℕ → Talk W Round
  unfolding with_stall on_file read_all_from_fd send_chunk counted
  send_step fuel connection x done = do
    let c = with_stall connection x done
    let chunk_len = min (x.total - done) sync_data_max
    chunk ←
        on_file files (codes "failed to read from local file")
          (read_all_from_fd files fuel x.fd chunk_len [])
    send_chunk c chunk
    counted x done chunk_len

  -- The loop; its result is the last value of `done`.
  unfoldable pub send_loop : ℕ → ℕ → Connection W → Transfer W → ℕ → Talk W ℕ
  unfolding send_step
  send_loop zero file_fuel c x done = if ltb done x.total then fail out_of_fuel else pure done
  send_loop (suc fuel) file_fuel c x done = elim (ltb done x.total) [
    | false ↦ pure done
    | true ↦ send_step file_fuel c x done >>= λ round. elim round [
      | finished ↦ pure done
      | more done' ↦ send_loop fuel file_fuel c x done'
    ]
  ]

  -- `DONE` with the modification time, and the device's answer.
  unfoldable pub send_done : Connection W → ℤ → Talk W (Unit {0})
  unfolding cancellation_or or_connection_error write_sync_packet read_sync_header fail_sync
  send_done c mtime = do
    cancellation_or (
        or_connection_error t c (codes "failed to write DONE")
          (write_sync_packet t c (codes "DONE") (to_u32 mtime) []))
    final_header ← cancellation_or (
        or_connection_error t c (codes "failed to read final reply from adb server")
          (read_sync_header t c))
    if sync_id_is final_header (codes "FAIL")
        then fail_sync t c final_header.arg
        else fail_if (not (sync_id_is final_header (codes "OKAY")))
            (message (codes "malformed final reply from adb server"))

  -- What is said on the connection.
  unfoldable pub send_on : ℕ → ℕ → Connection W → Bytes → ℕ → ℤ → Transfer W → Talk W (Unit {0})
  unfolding cancellation_or request send_loop send_done with_stall
  send_on fuel file_fuel c remote mode mtime x = do
    cancellation_or (
        request t (with_stall c x 0) (codes "SEND") (encode_send_path_spec remote mode)
          (codes "failed to write SEND request"))
    done ← send_loop fuel file_fuel c x 0
    send_done (with_stall c x done) mtime

  unfoldable pub sync_send : ℕ → ℕ → Bytes → Bytes → ℕ → ℤ → Transfer W → Talk W (Unit {0})
  unfolding open_sync_transport send_on
  sync_send fuel file_fuel serial remote mode mtime x = do
    check_path_length t remote
    not_cancelled
    c ← open_sync_transport t serial
    closing t c (send_on fuel file_fuel c remote mode mtime x)

  -- A whole call, from a world to a world.
  abbrev pub told : {A : Type 0} → Result Failure A × Line W → Result Bytes A × W
  told (ok a, s) = (ok a, s.world)
  told (err (message m), s) = (err m, s.world)
  told (err out_of_fuel, s) = (err (codes "out of fuel"), s.world)

  abbrev pub call : {A : Type 0} → Talk W A → Exec Bytes W A
  call m w = told (m (record { world = w; stall_cancelled = false }))

  -- The operations that PluginCore calls, all loops on the same fuel.
  unfoldable pub adb_client : ℕ → AdbClient W
  unfolding list_devices sync_list sync_stat sync_recv sync_send shell_command
  adb_client fuel = record {
    list_devices = call (list_devices t);
    sync_list = λ serial path. call (sync_list t fuel serial path);
    sync_stat = λ serial path. call (sync_stat t serial path);
    sync_recv = λ serial remote fd size progress. call (
        sync_recv fuel fuel serial remote
          (record { fd = fd; total = size; progress = some progress }));
    sync_send = λ serial fd size remote mode mtime progress. call (
        sync_send fuel fuel serial remote mode mtime
          (record { fd = fd; total = size; progress = some progress }));
    shell_command = λ serial command. call (shell_command t fuel serial command);
  }
