-- ===== src/Core/Download/Safety.antt =====
-- What a download does to a file that stands at the target already.
use adb_wfx_plugin.Base.{
  ℕ, ◌≡◌, ◌⊎◌, inl, inr, refl, ap, ◌∙◌, true, false, Option, some, Bytes, bytes_eq,
}
use adb_wfx_plugin.Base.Int.{ℤ}
use adb_wfx_plugin.Base.Exec.{Result, ok, err, Result-cases, continue}
use adb_wfx_plugin.RemotePath.{RemotePath, temp_download_path}
use adb_wfx_plugin.Proto.Entry.{DirEntry}
use adb_wfx_plugin.Core.{State}
use adb_wfx_plugin.Core.Interface.{AdbClient, Host, ProgressFn}
use adb_wfx_plugin.Core.Download.{
  FileError, failed, write_error, utime_failed, receive, move_into_place, stamp_local, download_to,
  remove_and_fail, remove_local,
}

-- What the local system documents of its calls: each changes the file that it is given and no
-- other. `content` and `modified` are what a path shows, `target` the path behind a descriptor.
pub record LocalFiles {W : Type 0} (client : AdbClient W) (host : Host W) : Type 0 where
  pub content : W → Bytes → Option Bytes
  pub modified : W → Bytes → Option ℤ
  pub target : W → ℕ → Bytes
  pub open_write_keeps :
      (path p : Bytes) (w : W)
      → bytes_eq path p ≡ false
      → content (host.open_write path w).1 p ≡ content w p
  pub open_write_target :
      (path : Bytes) (w : W) (fd : ℕ)
      → (host.open_write path w).0 ≡ ok fd
      → target (host.open_write path w).1 fd ≡ path
  pub recv_keeps :
      (serial path p : Bytes) (fd size : ℕ) (progress : ProgressFn W) (w : W)
      → ((done total : ℕ) (v : W) → content (progress done total v).1 p ≡ content v p)
      → bytes_eq (target w fd) p ≡ false
      → content (client.sync_recv serial path fd size progress w).1 p ≡ content w p
  pub close_keeps : (fd : ℕ) (p : Bytes) (w : W) → content (host.close fd w) p ≡ content w p
  pub unlink_keeps :
      (path p : Bytes) (w : W)
      → bytes_eq path p ≡ false
      → content (host.unlink path w).1 p ≡ content w p
  pub rename_failed_keeps :
      (from to p : Bytes) (w : W) (m : Bytes)
      → (host.rename from to w).0 ≡ err m
      → content (host.rename from to w).1 p ≡ content w p
  pub set_mtime_sets :
      (path : Bytes) (t : ℤ) (w : W) (u : Unit {0})
      → (host.set_mtime path t w).0 ≡ ok u
      → modified (host.set_mtime path t w).1 path ≡ some t

module _ {W : Type 0} (client : AdbClient W) (host : Host W) (files : LocalFiles client host) where
  -- A callback that leaves a file alone.
  abbrev pub Quiet : Bytes → ProgressFn W → Type 0
  Quiet p progress =
      (done total : ℕ) (v : W) → files.content (progress done total v).1 p ≡ files.content v p

  -- Success leaves the date of the remote file. A failure leaves the content that was there, unless
  -- it is the failure to set that date.
  pub Downloaded : Bytes → ℤ → State W → Result FileError (Unit {0}) → State W → Type 0
  Downloaded local_path mtime s (ok u) s' = files.modified s'.world local_path ≡ some mtime
  Downloaded local_path mtime s (err e) s' =
      (files.content s'.world local_path ≡ files.content s.world local_path)
      ⊎ ((m : Bytes) × (e ≡ failed write_error (utime_failed m)))

  receive_keeps :
      (rp : RemotePath) (path p : Bytes) (size : ℕ) (progress : ProgressFn W) (s : State W)
      → Quiet p progress
      → bytes_eq path p ≡ false
      → files.content (receive client host rp path size progress s).1.world p
        ≡ files.content s.world p
  unfolding receive remove_and_fail remove_local
  receive_keeps rp path p size progress s q ne = elim (Result-cases opened.0) [
    | inr (m, e) ↦ rw e (files.open_write_keeps path p s.world ne)
    | inl (fd, e) ↦ elim (Result-cases (received fd).0) [
      | inl (u, h) ↦ rw (e, h) (closed fd e)
      | inr (m, h) ↦ rw (e, h) (files.unlink_keeps path p _ ne ∙ closed fd e)
    ]
  ]
    where
      opened : Result Bytes ℕ × W
      opened = host.open_write path s.world

      received : ℕ → Result Bytes (Unit {0}) × W
      received fd = client.sync_recv rp.serial rp.path fd size progress opened.1

      closed :
          (fd : ℕ)
          → opened.0 ≡ ok fd
          → files.content (host.close fd (received fd).1) p ≡ files.content s.world p
      closed fd e =
          files.close_keeps fd p (received fd).1
          ∙ files.recv_keeps rp.serial rp.path p fd size progress opened.1 q
              (ap (λ t. bytes_eq t p) (files.open_write_target path s.world fd e) ∙ ne)
          ∙ files.open_write_keeps path p s.world ne

  stamped :
      (path : Bytes) (mtime : ℤ) (s s' : State W)
      → let (r, s'') = stamp_local client host path mtime s' in Downloaded path mtime s r s''
  unfolding stamp_local remove_and_fail remove_local Downloaded
  stamped path mtime s s' = elim (Result-cases (host.set_mtime path mtime s'.world).0) [
    | inl (u, e) ↦ rw e (files.set_mtime_sets path mtime s'.world u e)
    | inr (m, e) ↦ rw e (inr (m, refl))
  ]

  -- From the rename on, if what stood at the target stands there still.
  placed :
      (write_path local_path : Bytes) (mtime : ℤ) (s s' : State W)
      → bytes_eq write_path local_path ≡ false
      → files.content s'.world local_path ≡ files.content s.world local_path
      → let (r, s'') =
          continue
            (move_into_place client host true write_path local_path s')
            λ _. stamp_local client host local_path mtime in
        Downloaded local_path mtime s r s''
  unfolding move_into_place remove_and_fail remove_local Downloaded
  placed write_path local_path mtime s s' ne same =
      elim (Result-cases (host.rename write_path local_path s'.world).0) [
        | inl (u, e) ↦ rw e (
            stamped local_path mtime s
              (record s' { world = (host.rename write_path local_path s'.world).1 }))
        | inr (m, e) ↦ rw e (
            inl (
              files.unlink_keeps write_path local_path _ ne
              ∙ files.rename_failed_keeps write_path local_path local_path s'.world m e
              ∙ same))
      ]

  placed_after :
      (write_path local_path : Bytes) (mtime : ℤ) (s : State W) (r : Result FileError (Unit {0}))
      (s' : State W)
      → bytes_eq write_path local_path ≡ false
      → files.content s'.world local_path ≡ files.content s.world local_path
      → let (r', s'') =
          continue
            (r, s')
            λ _. λ v.
              continue
                (move_into_place client host true write_path local_path v)
                λ _. stamp_local client host local_path mtime in
        Downloaded local_path mtime s r' s''
  unfolding Downloaded
  placed_after write_path local_path mtime s (ok u) s' ne same =
      placed write_path local_path mtime s s' ne same
  placed_after write_path local_path mtime s (err e) s' ne same = inl same

  -- A download onto a file that exists, with a temporary name that is not the file's own and a
  -- callback that leaves the file alone: on success the file has the modification time of the
  -- remote file; on a failure, to abort and to lose the connection among them, its content is what
  -- it was, unless the failure is to set that time, which is reported as such.
  pub download_to-Downloaded :
      (rp : RemotePath) (info : DirEntry) (local_path : Bytes) (progress : ProgressFn W)
      (s : State W)
      → Quiet local_path progress
      → bytes_eq (temp_download_path local_path host.pid) local_path ≡ false
      → let (r, s') = download_to client host rp info local_path true progress s in
        Downloaded local_path info.mtime s r s'
  unfolding download_to Downloaded
  download_to-Downloaded rp info local_path progress s q ne =
      placed_after write_path local_path info.mtime s received.0 received.1 ne kept
    where
      write_path : Bytes
      write_path = temp_download_path local_path host.pid

      received : Result FileError (Unit {0}) × State W
      received = receive client host rp write_path info.size progress s

      kept : files.content received.1.world local_path ≡ files.content s.world local_path
      kept = receive_keeps rp write_path local_path info.size progress s q ne
