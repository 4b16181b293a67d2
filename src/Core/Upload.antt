-- ===== src/Core/Upload.antt =====
-- `putFile`.
pub mod Source
use adb_wfx_plugin.Base.{
  ℕ, ◌^◌, ◌%◌, Bool, true, false, [], ◌++◌, Bytes, codes, bytes_eq, if◌then◌else◌,
}
use adb_wfx_plugin.Base.Exec.{ok, err, pure, fail, fail_if, try, with_error, ◌>>=◌, ◌>>◌}
use adb_wfx_plugin.RemotePath.{RemotePath, parse_wfx_path}
use adb_wfx_plugin.Core.Interface.{AdbClient, Host, ProgressFn, LocalStat}
use adb_wfx_plugin.Core.{outside, on_world, invalidate_path_and_parent}
use adb_wfx_plugin.Core.Move.{is_some}
use adb_wfx_plugin.Core.Download.{
  file_exists, read_error, write_error, user_abort, not_supported, Transfer, silent, failed,
  has_flag, copyflags_overwrite, copyflags_resume, copyflags_move, adb_cancelled,
}

abbrev pub read_failed : Bytes → Bytes
read_failed m = codes "failed to read local file: " ++ m

abbrev pub open_failed : Bytes → Bytes
open_failed m = codes "failed to open local file: " ++ m

abbrev pub local_kept : Bytes → Bytes
local_kept m = codes "uploaded, but failed to delete the local source (copied, not moved): " ++ m

module _ {W : Type 0} (client : AdbClient W) (host : Host W) where
  unfoldable pub refuse_remote : RemotePath → Bool → Transfer W (Unit {0})
  refuse_remote rp true = pure tt
  refuse_remote rp false = do
    remote ← with_error (failed write_error) (outside (client.sync_stat rp.serial rp.path))
    fail_if (is_some remote) (silent file_exists)

  -- A failed send: a cancelled one may have written a part, so the listing is dropped.
  unfoldable pub send_failure : Bytes → Bytes → Transfer W (Unit {0})
  send_failure wfx_remote m =
      if bytes_eq m adb_cancelled
      then (do invalidate_path_and_parent wfx_remote; fail (silent user_abort))
      else fail (failed write_error m)

  unfoldable pub send : Bytes → Bytes → LocalStat → ProgressFn W → Transfer W (Unit {0})
  unfolding send_failure
  send local_path wfx_remote st progress = do
    let rp = parse_wfx_path wfx_remote
    fd ← with_error (λ m. failed read_error (open_failed m)) (outside (host.open_read local_path))
    sent ← try (
        outside (
          client.sync_send rp.serial fd (st.st_size % 2 ^ 64) rp.path (st.st_mode % 2 ^ 32)
            st.st_mtime progress))
    on_world (host.close fd)
    elim sent [ ok _ ↦ invalidate_path_and_parent wfx_remote | err m ↦ send_failure wfx_remote m ]

  unfoldable pub delete_local : Bool → Bytes → Transfer W Bytes
  delete_local false local_path = pure []
  delete_local true local_path = do
    removed ← try (outside (host.unlink local_path))
    elim removed [ ok _ ↦ pure [] | err m ↦ pure (local_kept m) ]

  unfoldable pub put_file : Bytes → Bytes → ℕ → ProgressFn W → Transfer W Bytes
  unfolding refuse_remote send delete_local
  put_file local_path wfx_remote copy_flags progress = do
    fail_if (has_flag copy_flags copyflags_resume) (silent not_supported)
    let rp = parse_wfx_path wfx_remote
    st ← with_error (λ m. failed read_error (read_failed m)) (outside (host.stat local_path))
    refuse_remote rp (has_flag copy_flags copyflags_overwrite)
    send local_path wfx_remote st progress
    delete_local (has_flag copy_flags copyflags_move) local_path
