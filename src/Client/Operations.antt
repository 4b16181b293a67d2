-- ===== src/Client/Operations.antt =====
-- The methods of `AdbClient`.
use adb_wfx_plugin.Base.{
  ℕ, zero, suc, ◌%◌, ◌^◌, not, ◌&&◌, Option, none, some, List, [], ◌∷◌, ◌++◌, Bytes, codes, ◌==◌,
  ltb, bytes_eq, length, drop, if◌then◌else◌,
}
use adb_wfx_plugin.Base.Int.{pos}
use adb_wfx_plugin.Base.Exec.{pure, fail, fail_if, ◌>>=◌, ◌>>◌}
use adb_wfx_plugin.Proto.{read_u32_le, sync_path_max}
use adb_wfx_plugin.Proto.Entry.{DirEntry, empty_entry}
use adb_wfx_plugin.Proto.Devices.{DeviceInfo, parse_devices_l}
use adb_wfx_plugin.Client.{
  Transport, Connection, message, out_of_fuel, Talk, read_exactly, read_some, or_connection_error,
  read_length_prefixed_message, send_request_and_check_status, closing, open_transport,
  open_device_transport, open_sync_transport,
}
use adb_wfx_plugin.Client.Sync.{dent, last_entry, write_sync_packet, fail_after_id, read_list_entry}

abbrev pub shell_read_chunk_size : ℕ
shell_read_chunk_size = 4096

-- The message of `checkPathLength`.
abbrev pub path_too_long : Bytes → Bytes
path_too_long path = codes "remote path too long for sync protocol: " ++ path

module _ {W : Type 0} (t : Transport W) where
  abbrev pub check_path_length : Bytes → Talk W (Unit {0})
  check_path_length path = fail_if (ltb sync_path_max (length path)) (message (path_too_long path))

  unfoldable pub list_devices : Talk W (List DeviceInfo)
  unfolding open_transport send_request_and_check_status read_length_prefixed_message
  list_devices = do
    c ← open_transport t
    closing t c (do
      send_request_and_check_status t c (codes "host:devices-l")
      payload ← read_length_prefixed_message t c
      pure (parse_devices_l payload))

  -- The request of a conversation about a path: its length in the header, and the path.
  unfoldable pub request : Connection W → Bytes → Bytes → Bytes → Talk W (Unit {0})
  unfolding or_connection_error write_sync_packet
  request c id payload what =
      or_connection_error t c what (write_sync_packet t c id (length payload % 2 ^ 32) payload)

  -- `for (;;)` of syncList; the entries so far are dropped where an entry is an error.
  unfoldable pub list_loop : ℕ → Connection W → List DirEntry → Talk W (List DirEntry)
  unfolding read_list_entry
  list_loop zero c out = fail out_of_fuel
  list_loop (suc fuel) c out = do
    reply ← read_list_entry t c
    elim reply [ dent entry ↦ list_loop fuel c (out ++ entry ∷ []) | last_entry ↦ pure out ]

  unfoldable pub sync_list : ℕ → Bytes → Bytes → Talk W (List DirEntry)
  unfolding open_sync_transport request list_loop
  sync_list fuel serial path = do
    check_path_length path
    c ← open_sync_transport t serial
    closing t c (do
      request c (codes "LIST") path (codes "failed to write LIST request")
      list_loop fuel c [])

  -- Twelve bytes of a `STAT` reply; all zero means that there is no such file.
  unfoldable pub stat_of : Bytes → Option DirEntry
  stat_of body =
      let mode = read_u32_le body in
      let size = read_u32_le (drop 4 body) in
      let mtime = read_u32_le (drop 8 body) in
      if mode == 0 && (size == 0 && mtime == 0)
      then none
      else some (record empty_entry { mode = mode; size = size; mtime = pos mtime })

  unfoldable pub read_stat : Connection W → Talk W (Option DirEntry)
  unfolding or_connection_error fail_after_id stat_of
  read_stat c = do
    id_buf ←
        or_connection_error t c (codes "failed to read STAT reply from adb server")
          (read_exactly t c 4)
    if bytes_eq id_buf (codes "FAIL") then fail_after_id t c else (do
      fail_if (not (bytes_eq id_buf (codes "STAT")))
          (message (codes "malformed STAT reply from adb server"))
      body ←
          or_connection_error t c (codes "failed to read STAT body from adb server")
            (read_exactly t c 12)
      pure (stat_of body))

  unfoldable pub sync_stat : Bytes → Bytes → Talk W (Option DirEntry)
  unfolding open_sync_transport request read_stat
  sync_stat serial path = do
    check_path_length path
    c ← open_sync_transport t serial
    closing t c
        (do request c (codes "STAT") path (codes "failed to write STAT request"); read_stat c)

  -- `for (;;)` of shellCommand: no bytes are the end of the output.
  unfoldable pub shell_loop : ℕ → Connection W → Bytes → Talk W Bytes
  unfolding or_connection_error
  shell_loop zero c output = fail out_of_fuel
  shell_loop (suc fuel) c output = do
    chunk ←
        or_connection_error t c (codes "failed to read shell output from adb server")
          (read_some t c shell_read_chunk_size)
    elim chunk [ [] ↦ pure output | b ∷ bytes ↦ shell_loop fuel c (output ++ b ∷ bytes) ]

  unfoldable pub shell_command : ℕ → Bytes → Bytes → Talk W Bytes
  unfolding open_device_transport send_request_and_check_status shell_loop
  shell_command fuel serial command = do
    c ← open_device_transport t serial
    closing t c
        (do send_request_and_check_status t c (codes "shell:" ++ command); shell_loop fuel c [])
