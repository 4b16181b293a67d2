-- ===== src/Core/Upload/Source.antt =====
-- What `putFile` does to the local file and to the cache: the file is left alone but for the deletion of
-- a move, which comes last.
use adb_wfx_plugin.Base.{ℕ, ◌≡◌, ◌⊎◌, ◌%◌, ◌^◌, Bool, true, false, [], Bytes, is_empty}
use adb_wfx_plugin.Base.Int.{ℤ}
use adb_wfx_plugin.Base.Exec.{Result, ok, err}
use adb_wfx_plugin.RemotePath.{RemotePath, parse_wfx_path}
use adb_wfx_plugin.Core.{State}
use adb_wfx_plugin.Core.Keeps.{KeptBy}
use adb_wfx_plugin.Core.Interface.{AdbClient, Host, ProgressFn, LocalStat}
use adb_wfx_plugin.Core.Laws.{Forgot}
use adb_wfx_plugin.Core.Download.{FileError, silent, user_abort, is_ok}

-- What is seen of a local file, which reading it and the calls of the client leave alone.
pub record LocalView {W : Type 0} (client : AdbClient W) (host : Host W) (D : Type 0) : Type 0 where
  pub local : W → D
  pub sync_stat_keeps :
      (serial path : Bytes) (w : W) → local (client.sync_stat serial path w).1 ≡ local w
  pub sync_send_keeps :
      (serial : Bytes) (fd size : ℕ) (path : Bytes) (mode : ℕ) (mtime : ℤ) (progress : ProgressFn W)
      (w : W)
      → ((done total : ℕ) (v : W) → local (progress done total v).1 ≡ local v)
      → local (client.sync_send serial fd size path mode mtime progress w).1 ≡ local w
  pub stat_keeps : (path : Bytes) (w : W) → local (host.stat path w).1 ≡ local w
  pub open_read_keeps : (path : Bytes) (w : W) → local (host.open_read path w).1 ≡ local w
  pub close_keeps : (fd : ℕ) (w : W) → local (host.close fd w) ≡ local w

module _ {W D : Type 0} (client : AdbClient W) (host : Host W)
    (view : LocalView client host D) where
  abbrev pub Kept : State W → State W → Type 0
  Kept = KeptBy view.local

  -- The last call was the deletion, of a file that was still what it was; the text says that it failed.
  unfoldable pub Deleted : Bytes → D → Bytes → W → Type 0
  Deleted local_path file m w' =
      (w : W) × (view.local w ≡ file)
      × (w' ≡ (host.unlink local_path w).1)
      × (is_empty m ≡ is_ok (host.unlink local_path w).0)

  -- The file was sent: what `stat` said of it, in a state that differs in neither the file nor the
  -- cache, is what `syncSend` was told, it was opened after that, and `syncSend` succeeded.
  unfoldable pub Sent : Bytes → Bytes → ProgressFn W → State W → Type 0
  Sent local_path wfx_remote progress s =
      let rp = parse_wfx_path wfx_remote in
      (s0 s1 : State W) × (st : LocalStat) × (fd : ℕ) × Kept s s0
      × Kept s s1
      × ((host.stat local_path s0.world).0 ≡ ok st)
      × (let (opened, w) = host.open_read local_path s1.world in
          (opened ≡ ok fd)
          × ((client.sync_send rp.serial fd (st.st_size % 2 ^ 64) rp.path (st.st_mode % 2 ^ 32)
                st.st_mtime progress w).0
              ≡ ok tt))

  -- On a failure the file is what it was, and so is the cache unless the upload was cancelled, which
  -- may have left a part of the file on the device. After a success the file has been
  -- sent, and the cache has forgotten the target; the file is what it was without the move flag, and with it its deletion came last.
  pub Uploaded :
      Bool → Bytes → Bytes → ProgressFn W → State W → Result FileError Bytes → State W → Type 0
  Uploaded move local_path wfx_remote progress s (err e) s' =
      Kept s s'
      ⊎ ((e ≡ silent user_abort)
          × (view.local s'.world ≡ view.local s.world)
          × Forgot wfx_remote s s')
  Uploaded move local_path wfx_remote progress s (ok m) s' =
      Sent local_path wfx_remote progress s
      × Forgot wfx_remote s s'
      × (((move ≡ false) × (m ≡ []) × (view.local s'.world ≡ view.local s.world))
          ⊎ ((move ≡ true) × Deleted local_path (view.local s.world) m s'.world))

  abbrev Outcome :
      Bool → Bytes → Bytes → ProgressFn W → State W → Result FileError Bytes × State W → Type 0
  Outcome move local_path wfx_remote progress s out =
      Uploaded move local_path wfx_remote progress s out.0 out.1
