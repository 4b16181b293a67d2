-- ===== src/Client/Sync.antt =====
-- The packets of the sync protocol on a connection, and the local file of a transfer.
use adb_wfx_plugin.Base.{
  ◌≡◌, refl, ◌⊎◌, inl, inr, ℕ, zero, suc, ◌-◌, Bool, true, false, not, ◌||◌, Option, none, some, [],
  ◌∷◌, ◌++◌, Bytes, codes, ltb, bytes_eq, is_empty, length, drop, if◌then◌else◌,
}
use adb_wfx_plugin.Base.Exec.{Result, ok, err, Exec, pure, fail_if, ◌>>=◌, ◌>>◌}
use adb_wfx_plugin.Proto.{
  SyncHeader, encode_sync_header, parse_sync_header, sync_id_is, read_u32_le, parse_dent_body,
  dent_fixed_header_size, sync_path_max,
}
use adb_wfx_plugin.Proto.Entry.{DirEntry, empty_entry}
use adb_wfx_plugin.Core.Interface.{ProgressFn}
use adb_wfx_plugin.Client.{
  Line, Transport, Connection, Failure, message, out_of_fuel, Talk, or_fail_message, write_all,
  read_exactly, read_body, connection_message, or_connection_error,
}

abbrev pub sync_fail_message_max : ℕ
sync_fail_message_max = 65536

-- One entry of a `LIST` reply.
pub data ListReply : Type 0 where
  dent : DirEntry → ListReply
  last_entry : ListReply

module _ {W : Type 0} (t : Transport W) where
  unfoldable pub write_sync_packet :
      Connection W → Bytes → ℕ → Bytes → Exec (Unit {0}) (Line W) (Unit {0})
  write_sync_packet c id arg payload = do
    write_all t c (encode_sync_header id arg)
    if is_empty payload then pure tt else write_all t c payload

  unfoldable pub read_sync_header : Connection W → Exec (Unit {0}) (Line W) SyncHeader
  read_sync_header c = do buf ← read_exactly t c 8; pure (parse_sync_header buf)

  -- The message of the error that is returned whatever happens: the server's, or why there is none.
  abbrev pub fail_text : Connection W → Result (Unit {0}) Bytes × Line W → Bytes × Line W
  fail_text c (ok m, s) = (m, s)
  fail_text c (err u, s) =
      (connection_message t c (codes "failed to read FAIL message from adb server") s, s)

  unfoldable pub read_sync_fail_message : Connection W → ℕ → Line W → Bytes × Line W
  unfolding read_body
  read_sync_fail_message c len s =
      if ltb sync_fail_message_max len
      then (codes "oversized FAIL message from adb server", s)
      else fail_text c (read_body t c len s)

  abbrev pub fail_with : {A : Type 0} → Bytes × Line W → Result Failure A × Line W
  fail_with (m, s) = (err (message m), s)

  -- `return readSyncFailMessage(…)`.
  unfoldable pub fail_sync : {A : Type 0} → Connection W → ℕ → Talk W A
  unfolding read_sync_fail_message
  fail_sync c len s = fail_with (read_sync_fail_message c len s)

  -- The length of a `FAIL` and its message, where the packet is not read as a header.
  unfoldable pub fail_after_id : {A : Type 0} → Connection W → Talk W A
  unfolding or_connection_error fail_sync
  fail_after_id c = do
    len_buf ←
        or_connection_error t c (codes "failed to read FAIL length from adb server")
          (read_exactly t c 4)
    fail_sync c (read_u32_le len_buf)

  -- The body of a `DENT`, and of the `DONE` that has the same shape.
  unfoldable pub read_list_body : Connection W → Bool → Talk W ListReply
  unfolding or_connection_error read_body
  read_list_body c is_done_id = do
    fixed ←
        or_connection_error t c (codes "failed to read LIST entry from adb server")
          (read_exactly t c dent_fixed_header_size)
    let namelen = read_u32_le (drop 12 fixed)
    fail_if (ltb sync_path_max namelen)
        (message (codes "malformed DENT entry from adb server: name too long"))
    name ←
        or_connection_error t c (codes "failed to read LIST entry name from adb server")
          (read_body t c namelen)
    if is_done_id then pure last_entry else (do
      (entry, consumed) ←
          or_fail_message (parse_dent_body (fixed ++ name) empty_entry)
            (codes "malformed DENT entry from adb server")
      pure (dent entry))

  unfoldable pub read_list_entry : Connection W → Talk W ListReply
  unfolding or_connection_error fail_after_id read_list_body
  read_list_entry c = do
    id_buf ←
        or_connection_error t c (codes "failed to read LIST reply from adb server")
          (read_exactly t c 4)
    if bytes_eq id_buf (codes "FAIL") then fail_after_id c else (do
      let is_done_id = bytes_eq id_buf (codes "DONE")
      fail_if (not (bytes_eq id_buf (codes "DENT") || is_done_id))
          (message (codes "malformed LIST reply from adb server"))
      read_list_body c is_done_id)

  abbrev pub non_empty : Bytes × Line W → Option Bytes × Line W
  non_empty (m, s) = (if is_empty m then none else some m, s)

  abbrev pub pending_in :
      Connection W → Result (Unit {0}) SyncHeader × Line W → Option Bytes × Line W
  pending_in c (err u, s) = (none, s)
  pending_in c (ok header, s) =
      if sync_id_is header (codes "FAIL")
      then non_empty (read_sync_fail_message c header.arg s)
      else (none, s)

  -- `none` is the code's false.
  unfoldable pub read_pending_sync_fail : Connection W → Line W → Option Bytes × Line W
  unfolding read_sync_header read_sync_fail_message
  read_pending_sync_fail c s = pending_in c (read_sync_header c s)

module _ {W : Type 0} where
  -- The caller's callback, asked between two chunks.
  abbrev pub on_line : Bool × W → Bool → Result Failure Bool × Line W
  on_line (go, w) b = (ok go, record { world = w; stall_cancelled = b })

  unfoldable pub should_continue : Option (ProgressFn W) → ℕ → ℕ → Talk W Bool
  should_continue none done total s = (ok true, s)
  should_continue (some progress) done total s =
      on_line (progress done total s.world) s.stall_cancelled

-- `errno`, and what one call of `::write` or `::read` answers.
pub data Errno : Type 0 where
  eintr eagain ewouldblock : Errno
  other : ℕ → Errno

pub data Attempt (A : Type 0) : Type 0 where
  moved : A → Attempt A
  failed : Errno → Attempt A

pub Attempt-cases :
    {A : Type 0} (r : Attempt A) → ((a : A) × (r ≡ moved a)) ⊎ ((e : Errno) × (r ≡ failed e))
Attempt-cases (moved a) = inl (a, refl)
Attempt-cases (failed e) = inr (e, refl)

-- `errno == 0` stands for the end of the file.
pub data FileFailure : Type 0 where
  end_of_file files_out_of_fuel : FileFailure
  file_errno : Errno → FileFailure

-- The local system's calls on a descriptor. `write` answers how many of the bytes it has taken.
pub record Files (W : Type 0) : Type 0 where
  pub write : ℕ → Bytes → W → Attempt ℕ × W
  pub read : ℕ → ℕ → W → Attempt Bytes × W
  pub strerror : Errno → Bytes

module _ {W : Type 0} (files : Files W) where
  -- The text of `withErrno`; the loops' fuel has no text.
  abbrev pub with_errno : Bytes → FileFailure → Failure
  with_errno what end_of_file = message (what ++ codes ": unexpected end of file")
  with_errno what files_out_of_fuel = out_of_fuel
  with_errno what (file_errno e) = message (what ++ codes ": " ++ files.strerror e)

  -- The rest of the round, given what one `::write` answered: the bytes that are left, if the loop
  -- goes on.
  abbrev pub write_left : Bytes → Attempt ℕ → Result FileFailure Bytes
  write_left buf (moved zero) = err end_of_file
  write_left buf (moved (suc n)) = ok (drop (suc n) buf)
  write_left buf (failed eintr) = ok buf
  write_left buf (failed eagain) = err (file_errno eagain)
  write_left buf (failed ewouldblock) = err (file_errno ewouldblock)
  write_left buf (failed (other e)) = err (file_errno (other e))

  -- `while (done < n)`, on the bytes that are left.
  unfoldable pub write_all_to_fd : ℕ → ℕ → Bytes → Exec FileFailure W (Unit {0})
  write_all_to_fd fuel fd [] w = (ok tt, w)
  write_all_to_fd zero fd (b ∷ buf) w = (err files_out_of_fuel, w)
  write_all_to_fd (suc fuel) fd (b ∷ buf) w =
      let (answer, w') = files.write fd (b ∷ buf) w in
      elim (write_left (b ∷ buf) answer) [
        | ok left ↦ write_all_to_fd fuel fd left w'
        | err e ↦ (err e, w')
      ]

  abbrev pub read_more : Attempt Bytes → Result FileFailure Bytes
  read_more (moved []) = err end_of_file
  read_more (moved (b ∷ bytes)) = ok (b ∷ bytes)
  read_more (failed eintr) = ok []
  read_more (failed eagain) = err (file_errno eagain)
  read_more (failed ewouldblock) = err (file_errno ewouldblock)
  read_more (failed (other e)) = err (file_errno (other e))

  -- The same for reading: `bytes` is the buffer's first part, which is filled.
  unfoldable pub read_all_from_fd : ℕ → ℕ → ℕ → Bytes → Exec FileFailure W Bytes
  read_all_from_fd zero fd n bytes w =
      (if ltb (length bytes) n then err files_out_of_fuel else ok bytes, w)
  read_all_from_fd (suc fuel) fd n bytes w = elim (ltb (length bytes) n) [
    | false ↦ (ok bytes, w)
    | true ↦
        let (answer, w') = files.read fd (n - length bytes) w in
        elim (read_more answer) [
          | ok more ↦ read_all_from_fd fuel fd n (bytes ++ more) w'
          | err e ↦ (err e, w')
        ]
  ]

  abbrev pub on_world_of :
      {A : Type 0} → Bytes → Result FileFailure A × W → Bool → Result Failure A × Line W
  on_world_of what (ok a, w) b = (ok a, record { world = w; stall_cancelled = b })
  on_world_of what (err e, w) b =
      (err (with_errno what e), record { world = w; stall_cancelled = b })

  -- A call on the local file, within a conversation.
  unfoldable pub on_file : {A : Type 0} → Bytes → Exec FileFailure W A → Talk W A
  on_file what m s = on_world_of what (m s.world) s.stall_cancelled
