-- ===== src/Core/Move.antt =====
-- `renameOrMove`, `runDeviceMove` and `runDeviceCopy`.
pub mod Refusals
use adb_wfx_plugin.Base.{
  ℕ, Bool, true, false, not, Option, none, some, [], ◌∷◌, ◌++◌, Bytes, codes, bytes_eq, is_empty,
  if◌then◌else◌,
}
use adb_wfx_plugin.Base.Int.{ℤ}
use adb_wfx_plugin.Base.Exec.{
  Result, ok, err, Exec, pure, fail, fail_if, try, with_error, rename_error, modify, ◌>>=◌, ◌>>◌,
}
use adb_wfx_plugin.RemotePath.{RemotePath, parse_wfx_path}
use adb_wfx_plugin.Proto.Entry.{DirEntry, is_dir}
use adb_wfx_plugin.Core.Interface.{AdbClient, Host}
use adb_wfx_plugin.Core.{
  Method, State, outside, invalidate_path_and_parent, complaint_of, run_mutating_shell_command,
}
use adb_wfx_plugin.Core.Commands.{mv_command, cp_command}
use adb_wfx_plugin.Core.Touch.{epoch_then_fallback, set_modification_time, or_fail}

-- `*error` with `*crossDevice` and `*targetExists`.
pub record MoveError : Type 0 where
  pub message : Bytes
  pub cross_device : Bool
  pub target_exists : Bool

-- Every failure but the two that have a flag of their own.
abbrev pub plain_error : Bytes → MoveError
plain_error m = record { message = m; cross_device = false; target_exists = false }

abbrev pub cross_device_error : Bool → MoveError
cross_device_error move = record {
  message =
      if move then codes "cannot move between devices" else codes "cannot copy between devices";
  cross_device = true;
  target_exists = false;
}

abbrev pub target_exists_error : MoveError
target_exists_error = record {
  message = codes "target already exists";
  cross_device = false;
  target_exists = true;
}

abbrev pub copy_onto_itself : Bytes → Bytes
copy_onto_itself path = codes "cannot copy a file onto itself: " ++ path

abbrev pub copy_missing : Bytes → Bytes
copy_missing path = codes "cannot copy " ++ path ++ codes ": no such file or directory"

abbrev pub copy_directory : Bytes → Bytes
copy_directory path = codes "cannot copy a directory on the device: " ++ path

-- The date could not be set; an empty reason gets a text of its own.
abbrev pub stamp_failed : Bytes → Bytes
stamp_failed e =
    codes "copied, but failed to set the copy's modification time: "
    ++ (if is_empty e then codes "unknown error" else e)

abbrev pub is_some : {A : Type 0} → Option A → Bool
is_some none = false
is_some (some a) = true

module _ {W : Type 0} (client : AdbClient W) (host : Host W) where
  unfoldable pub run_device_move : RemotePath → RemotePath → Bytes → Bytes → Method W (Unit {0})
  unfolding complaint_of
  run_device_move rp_from rp_to wfx_from wfx_to = do
    output ← outside (client.shell_command rp_from.serial (mv_command rp_from.path rp_to.path))
    complaint_of output
    invalidate_path_and_parent wfx_from
    invalidate_path_and_parent wfx_to

  -- What is copied must be there, and no directory.
  unfoldable pub copy_source : RemotePath → Method W DirEntry
  copy_source rp_from = do
    exists ← outside (client.sync_stat rp_from.serial rp_from.path)
    source ← or_fail exists (copy_missing rp_from.path)
    fail_if (is_dir source) (copy_directory rp_from.path)
    pure source

  unfoldable pub run_device_copy : RemotePath → RemotePath → Bytes → Method W (Unit {0})
  unfolding copy_source
  run_device_copy rp_from rp_to wfx_to = do
    fail_if (bytes_eq rp_from.path rp_to.path) (copy_onto_itself rp_from.path)
    source ← copy_source rp_from
    run_mutating_shell_command client rp_from (cp_command rp_from.path rp_to.path) wfx_to
    with_error stamp_failed
        (set_modification_time client host wfx_to source.mtime epoch_then_fallback)

  -- The check that `overwrite` leaves out.
  unfoldable pub refuse_existing : RemotePath → Bool → Exec MoveError (State W) (Unit {0})
  refuse_existing rp_to true = pure tt
  refuse_existing rp_to false = do
    target ← with_error plain_error (outside (client.sync_stat rp_to.serial rp_to.path))
    fail_if (is_some target) target_exists_error

  unfoldable pub rename_or_move : Bytes → Bytes → Bool → Bool → Exec MoveError (State W) (Unit {0})
  unfolding refuse_existing run_device_move run_device_copy
  rename_or_move wfx_from wfx_to move overwrite = do
    let rp_from = parse_wfx_path wfx_from
    let rp_to = parse_wfx_path wfx_to
    fail_if (not (bytes_eq rp_from.serial rp_to.serial)) (cross_device_error move)
    refuse_existing rp_to overwrite
    with_error plain_error (
        if move
        then run_device_move rp_from rp_to wfx_from wfx_to
        else run_device_copy rp_from rp_to wfx_to)
