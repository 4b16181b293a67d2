-- ===== src/Core/Download.antt =====
-- `getFile`.
pub mod Safety
pub mod Source
use adb_wfx_plugin.Base.{
  ℕ, Bool, true, false, not, ◌&&◌, Option, none, some, [], ◌++◌, Bytes, codes, bytes_eq, is_empty,
  ◌==◌, if◌then◌else◌, bit_and,
}
use adb_wfx_plugin.Base.Int.{ℤ}
use adb_wfx_plugin.Base.Exec.{
  Result, ok, err, Exec, pure, fail, fail_if, try, with_error, ◌>>=◌, ◌>>◌,
}
use adb_wfx_plugin.RemotePath.{RemotePath, parse_wfx_path, through_symlink, temp_download_path}
use adb_wfx_plugin.Proto.Entry.{DirEntry, is_symlink}
use adb_wfx_plugin.Core.Interface.{AdbClient, Host, ProgressFn}
use adb_wfx_plugin.Core.{State, outside, on_world}
use adb_wfx_plugin.Core.Commands.{delete_file}

-- The `FS_FILE_*` codes that the plugin returns.
pub data FileCode : Type 0 where
  file_ok file_exists file_not_found read_error write_error user_abort not_supported : FileCode

-- A failure: its code and `*error`.
pub record FileError : Type 0 where
  pub code : FileCode
  pub message : Bytes

-- The methods that return a code: a success carries the text of `*error`, mostly empty.
abbrev pub Transfer : Type 0 → Type 0 → Type 0
Transfer W A = Exec FileError (State W) A

abbrev pub silent : FileCode → FileError
silent c = record { code = c; message = [] }

abbrev pub failed : FileCode → Bytes → FileError
failed c m = record { code = c; message = m }

abbrev pub copyflags_overwrite : ℕ
copyflags_overwrite = 1

abbrev pub copyflags_resume : ℕ
copyflags_resume = 2

abbrev pub copyflags_move : ℕ
copyflags_move = 4

-- `flags & flag` as a condition.
unfoldable pub has_flag : ℕ → ℕ → Bool
has_flag flags flag = not (bit_and flags flag == 0)

abbrev pub adb_cancelled : Bytes
adb_cancelled = codes "cancelled"

-- What a failed transfer is reported as.
abbrev pub transfer_failure : FileCode → Bytes → FileError
transfer_failure c m = if bytes_eq m adb_cancelled then silent user_abort else failed c m

abbrev pub or_unknown : Bytes → Bytes
or_unknown m = if is_empty m then codes "unknown error" else m

abbrev pub create_failed : Bytes → Bytes
create_failed m = codes "failed to create local file: " ++ m

abbrev pub rename_failed : Bytes → Bytes
rename_failed m = codes "failed to move downloaded file into place: " ++ m

abbrev pub utime_failed : Bytes → Bytes
utime_failed m = codes "downloaded but failed to set local modification time, file removed: " ++ m

abbrev pub source_kept : Bytes → Bytes
source_kept m =
    codes "downloaded, but failed to delete the source from the device (copied, not moved): "
    ++ or_unknown m

-- The link's target, where the `STAT` through the link finds one.
abbrev pub target_or : DirEntry → Result Bytes (Option DirEntry) → DirEntry
target_or info (ok (some target)) = target
target_or info (ok none) = info
target_or info (err m) = info

abbrev pub is_ok : {E A : Type 0} → Result E A → Bool
is_ok (ok a) = true
is_ok (err e) = false

module _ {W : Type 0} (client : AdbClient W) (host : Host W) where
  abbrev pub require_found : Option DirEntry → Transfer W DirEntry
  require_found none = fail (silent file_not_found)
  require_found (some e) = pure e

  -- `localFileExists`.
  unfoldable pub local_file_exists : Bytes → Transfer W Bool
  local_file_exists path = do answer ← try (outside (host.stat path)); pure (is_ok answer)

  -- The `STAT`, through the link if the path is one.
  unfoldable pub through_link : RemotePath → DirEntry → Transfer W DirEntry
  through_link rp info =
      if is_symlink info
      then (do
        answer ← try (outside (client.sync_stat rp.serial (through_symlink rp.path)))
        pure (target_or info answer))
      else pure info

  unfoldable pub remote_info : RemotePath → Transfer W DirEntry
  unfolding through_link
  remote_info rp = do
    exists ← with_error (failed read_error) (outside (client.sync_stat rp.serial rp.path))
    info ← require_found exists
    through_link rp info

  -- `unlink` of what was written, whose own failure is not looked at.
  unfoldable pub remove_local : Bytes → Transfer W (Unit {0})
  remove_local path = do try (outside (host.unlink path)); pure tt

  -- A failure, after the file is removed.
  unfoldable pub remove_and_fail : Bytes → FileError → Transfer W (Unit {0})
  unfolding remove_local
  remove_and_fail path e = do remove_local path; fail e

  -- The bytes, from `open` to `close`, and the removal of what a failed transfer leaves.
  unfoldable pub receive : RemotePath → Bytes → ℕ → ProgressFn W → Transfer W (Unit {0})
  unfolding remove_and_fail
  receive rp write_path size progress = do
    fd ←
        with_error (λ m. failed write_error (create_failed m))
          (outside (host.open_write write_path))
    recv ← try (outside (client.sync_recv rp.serial rp.path fd size progress))
    on_world (host.close fd)
    elim recv [
      | ok _ ↦ pure tt
      | err m ↦ remove_and_fail write_path (transfer_failure read_error m)
    ]

  -- The rename of a temporary file.
  unfoldable pub move_into_place : Bool → Bytes → Bytes → Transfer W (Unit {0})
  unfolding remove_and_fail
  move_into_place false write_path local_path = pure tt
  move_into_place true write_path local_path = do
    renamed ← try (outside (host.rename write_path local_path))
    elim renamed [
      | ok _ ↦ pure tt
      | err m ↦ remove_and_fail write_path (failed write_error (rename_failed m))
    ]

  unfoldable pub stamp_local : Bytes → ℤ → Transfer W (Unit {0})
  unfolding remove_and_fail
  stamp_local local_path mtime = do
    stamped ← try (outside (host.set_mtime local_path mtime))
    elim stamped [
      | ok _ ↦ pure tt
      | err m ↦ remove_and_fail local_path (failed write_error (utime_failed m))
    ]

  -- What a move does behind the download: its failure is only reported.
  unfoldable pub delete_source : Bool → Bytes → Transfer W Bytes
  delete_source false wfx_remote = pure []
  delete_source true wfx_remote = do
    deleted ← try (delete_file client wfx_remote)
    elim deleted [ ok _ ↦ pure [] | err m ↦ pure (source_kept m) ]

  -- The two ways of writing: straight to the name, or through a temporary file where the name is
  -- taken.
  unfoldable pub download_to :
      RemotePath → DirEntry → Bytes → Bool → ProgressFn W → Transfer W (Unit {0})
  unfolding receive move_into_place stamp_local
  download_to rp info local_path target_exists progress = do
    let write_path = if target_exists then temp_download_path local_path host.pid else local_path
    receive rp write_path info.size progress
    move_into_place target_exists write_path local_path
    stamp_local local_path info.mtime

  unfoldable pub get_file : Bytes → Bytes → ℕ → ProgressFn W → Transfer W Bytes
  unfolding local_file_exists remote_info download_to delete_source
  get_file wfx_remote local_path copy_flags progress = do
    fail_if (has_flag copy_flags copyflags_resume) (silent not_supported)
    let rp = parse_wfx_path wfx_remote
    info ← remote_info rp
    target_exists ← local_file_exists local_path
    fail_if (not (has_flag copy_flags copyflags_overwrite) && target_exists) (silent file_exists)
    download_to rp info local_path target_exists progress
    delete_source (has_flag copy_flags copyflags_move) wfx_remote
