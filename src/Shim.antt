-- ===== src/Shim.antt =====
-- fsplugin.cpp: the functions that the file manager calls, and the reports of fsplugin_impl.hpp.
--
-- A wide text is its units up to the terminator. A `HANDLE` is the find handle that it points at,
-- or `none` for an invalid one. No call throws.
pub mod Walk
pub mod Codes
pub mod Session
pub mod RootName
use adb_wfx_plugin.Base.{
  ℕ, ◌+◌, ◌-◌, Bool, true, false, not, ◌||◌, Option, none, some, List, [], ◌∷◌, ◌++◌, Bytes, codes,
  ◌==◌, ltb, is_empty, length, take, if◌then◌else◌,
}
use adb_wfx_plugin.Base.Int.{ℤ, pos, negsuc}
use adb_wfx_plugin.Base.Exec.{Result, ok, err, Exec}
use adb_wfx_plugin.Utf.{utf8_to_wide, wide_c_str_to_utf8}
use adb_wfx_plugin.FileTime.{FileTime, is_unset_file_time, file_time_to_time}
use adb_wfx_plugin.ListingCache
use adb_wfx_plugin.ListingCache.{ListingCache, listing_cache_ttl_seconds}
use adb_wfx_plugin.Core.{State, Method}
use adb_wfx_plugin.Core.Interface.{AdbClient, Host, ProgressFn}
use adb_wfx_plugin.Core.Commands.{delete_file, remove_dir, make_dir}
use adb_wfx_plugin.Core.Touch.{epoch_then_fallback, set_modification_time}
use adb_wfx_plugin.Core.Move.{MoveError, rename_or_move}
use adb_wfx_plugin.Core.Listing.{Listing, list_directory}
use adb_wfx_plugin.Core.Download.{
  FileCode, file_exists, file_not_found, read_error, write_error, user_abort, not_supported,
  file_ok, FileError, Transfer, get_file,
}
use adb_wfx_plugin.Core.Upload.{put_file}
use adb_wfx_plugin.Find.{
  FindData, FindHandle, advance_find_data, make_progress_fn, is_write_operation,
}
use adb_wfx_plugin.Server.Start.{Processes, start_adb_server}
use adb_wfx_plugin.Server.{adb_server_port}
use adb_wfx_plugin.Server.Binary.{find_adb_binary}

-- The callbacks of `FsInitW`, where they are given, with the plugin's number applied.
pub record Manager (W : Type 0) : Type 0 where
  pub progress_proc : Option (List ℕ → List ℕ → ℕ → W → ℕ × W)
  pub log_proc : Option (ℕ → List ℕ → W → W)
  pub request_proc : Option (ℕ → List ℕ → List ℕ → W → W)

-- `gPluginCore` with the port that its client connects to.
pub record Running : Type 0 where
  pub port : ℕ
  pub cache : ListingCache

-- The globals, and the world outside.
pub record Plugin (W : Type 0) : Type 0 where
  pub world : W
  pub manager : Manager W
  pub core : Option Running

abbrev pub msgtype_details : ℕ
msgtype_details = 3

abbrev pub msgtype_important_error : ℕ
msgtype_important_error = 6

abbrev pub rt_msg_ok : ℕ
rt_msg_ok = 8

-- The numbers of wfxplugin.h.
unfoldable pub fs_file_code : FileCode → ℕ
fs_file_code file_ok = 0
fs_file_code file_exists = 1
fs_file_code file_not_found = 2
fs_file_code read_error = 3
fs_file_code write_error = 4
fs_file_code user_abort = 5
fs_file_code not_supported = 6

module _ {W : Type 0} where
  abbrev pub report_with : Option (ℕ → List ℕ → W → W) → ℕ → Bytes → W → W
  report_with none kind m w = w
  report_with (some log_proc) kind m w = log_proc kind (utf8_to_wide m) w

  unfoldable pub report_error : Manager W → Bytes → W → W
  report_error manager m w =
      if is_empty m then w else report_with manager.log_proc msgtype_important_error m w

  abbrev pub warn_with : Option (ℕ → List ℕ → List ℕ → W → W) → Bytes → W → W
  warn_with none m w = w
  warn_with (some request_proc) m w =
      request_proc rt_msg_ok (utf8_to_wide (codes "ADB")) (utf8_to_wide m) w

  unfoldable pub report_warning : Manager W → Bytes → W → W
  report_warning manager m w = if is_empty m then w else warn_with manager.request_proc m w

  -- The callback of a transfer between the two names, as the manager spells them.
  abbrev pub named :
      Option (List ℕ → List ℕ → ℕ → W → ℕ × W) → List ℕ → List ℕ → Option (ℕ → W → ℕ × W)
  named none source target = none
  named (some progress_proc) source target = some (progress_proc source target)

  abbrev pub progress_of : Manager W → List ℕ → List ℕ → ProgressFn W
  progress_of manager source target = make_progress_fn (named manager.progress_proc source target)

  -- A method of PluginCore is called on its cache and the world.
  abbrev pub enter : Plugin W → Running → State W
  enter p r = record { world = p.world; cache = r.cache }

  -- The plugin after it, with the world that a report leaves.
  abbrev pub leave : Plugin W → Running → State W → W → Plugin W
  leave p r s w = record p { world = w; core = some (record r { cache = s.cache }) }

module _ {W : Type 0} (clients : ℕ → AdbClient W) (host : Host W) where
  -- `FsInitW`. The result of `startAdbServer`, whose loop runs on `fuel`, is not looked at.
  unfoldable pub fs_init :
      (Bytes → Option Bytes)
      → (Bytes → Bool)
      → Processes W
      → ℕ
      → Manager W
      → Plugin W
      → ℕ × Plugin W
  unfolding ListingCache.new_cache start_adb_server
  fs_init get_env is_executable processes fuel manager p =
      let port = adb_server_port (get_env (codes "ANDROID_ADB_SERVER_PORT")) in
      let adb_binary = find_adb_binary get_env is_executable in
      let w =
        if is_empty adb_binary
        then p.world
        else (start_adb_server processes fuel adb_binary p.world).1 in
      (
        0,
        record {
          world = w;
          manager = manager;
          core =
              some
                (record { port = port; cache = ListingCache.new_cache listing_cache_ttl_seconds });
        },
      )

  abbrev pub found :
      Plugin W
      → Running
      → State W
      → Option FindData × FindHandle
      → W
      → Option (FindHandle × FindData) × Plugin W
  found p r s (none, handle) w = (none, leave p r s w)
  found p r s (some find_data, handle) w = (some (handle, find_data), leave p r s w)

  abbrev pub listed :
      Plugin W
      → Running
      → Result Bytes Listing × State W
      → Option (FindHandle × FindData) × Plugin W
  listed p r (err m, s) = (none, leave p r s (report_error p.manager m s.world))
  listed p r (ok listing, s) =
      found p r s (advance_find_data (record { entries = listing.entries; index = 0 }))
        (report_warning p.manager listing.warning s.world)

  -- `FsFindFirstW`: the handle with the first entry, or an invalid handle.
  unfoldable pub fs_find_first : List ℕ → Plugin W → Option (FindHandle × FindData) × Plugin W
  unfolding report_error report_warning
  fs_find_first path p = elim p.core [
    | none ↦ (none, p)
    | some r ↦
        listed p r (list_directory (clients r.port) host (wide_c_str_to_utf8 path) (enter p r))
  ]

  -- The result of a transfer is its code, with its text reported whatever the code is.
  abbrev pub transferred : Plugin W → Running → Result FileError Bytes × State W → ℕ × Plugin W
  transferred p r (ok m, s) = (fs_file_code file_ok, leave p r s (report_error p.manager m s.world))
  transferred p r (err e, s) =
      (fs_file_code e.code, leave p r s (report_error p.manager e.message s.world))

  unfoldable pub fs_get_file : List ℕ → List ℕ → ℕ → Plugin W → ℕ × Plugin W
  unfolding report_error fs_file_code
  fs_get_file remote_name local_name copy_flags p = elim p.core [
    | none ↦ (fs_file_code read_error, p)
    | some r ↦ transferred p r (
        get_file (clients r.port) host (wide_c_str_to_utf8 remote_name)
          (wide_c_str_to_utf8 local_name) copy_flags (progress_of p.manager remote_name local_name)
          (enter p r))
  ]

  unfoldable pub fs_put_file : List ℕ → List ℕ → ℕ → Plugin W → ℕ × Plugin W
  unfolding report_error fs_file_code
  fs_put_file local_name remote_name copy_flags p = elim p.core [
    | none ↦ (fs_file_code write_error, p)
    | some r ↦ transferred p r (
        put_file (clients r.port) host (wide_c_str_to_utf8 local_name)
          (wide_c_str_to_utf8 remote_name) copy_flags (progress_of p.manager local_name remote_name)
          (enter p r))
  ]

  abbrev pub move_code : MoveError → FileCode
  move_code e =
      if e.target_exists then file_exists else if e.cross_device then not_supported else write_error

  abbrev pub moved_to : Plugin W → Running → Result MoveError (Unit {0}) × State W → ℕ × Plugin W
  moved_to p r (ok u, s) = (fs_file_code file_ok, leave p r s s.world)
  moved_to p r (err e, s) =
      (fs_file_code (move_code e), leave p r s (report_error p.manager e.message s.world))

  -- `FsRenMovFileW`; `move` and `overWrite` are tests on numbers there.
  unfoldable pub fs_ren_mov_file : List ℕ → List ℕ → Bool → Bool → Plugin W → ℕ × Plugin W
  unfolding report_error fs_file_code
  fs_ren_mov_file old_name new_name move over_write p = elim p.core [
    | none ↦ (fs_file_code write_error, p)
    | some r ↦ moved_to p r (
        rename_or_move (clients r.port) host (wide_c_str_to_utf8 old_name)
          (wide_c_str_to_utf8 new_name) move over_write (enter p r))
  ]

  abbrev pub told : Plugin W → Running → Result Bytes (Unit {0}) × State W → Bool × Plugin W
  told p r (ok u, s) = (true, leave p r s s.world)
  told p r (err m, s) = (false, leave p r s (report_error p.manager m s.world))

  -- A method that answers whether it succeeded.
  unfoldable pub export_method : (AdbClient W → Method W (Unit {0})) → Plugin W → Bool × Plugin W
  unfolding report_error
  export_method method p = elim p.core [
    | none ↦ (false, p)
    | some r ↦ told p r (method (clients r.port) (enter p r))
  ]

  unfoldable pub fs_delete_file : List ℕ → Plugin W → Bool × Plugin W
  unfolding export_method
  fs_delete_file remote_name =
      export_method (λ client. delete_file client (wide_c_str_to_utf8 remote_name))

  unfoldable pub fs_remove_dir : List ℕ → Plugin W → Bool × Plugin W
  unfolding export_method
  fs_remove_dir remote_name =
      export_method (λ client. remove_dir client (wide_c_str_to_utf8 remote_name))

  unfoldable pub fs_mk_dir : List ℕ → Plugin W → Bool × Plugin W
  unfolding export_method
  fs_mk_dir path = export_method (λ client. make_dir client (wide_c_str_to_utf8 path))

  abbrev pub set_to : List ℕ → Option FileTime → Plugin W → Bool × Plugin W
  set_to remote_name none p = (true, p)
  set_to remote_name (some last_write_time) p =
      export_method
        (λ client.
          set_modification_time client host (wide_c_str_to_utf8 remote_name)
            (file_time_to_time last_write_time) epoch_then_fallback)
        p

  unfoldable pub fs_set_time : List ℕ → Option FileTime → Plugin W → Bool × Plugin W
  unfolding export_method
  fs_set_time remote_name last_write_time p = elim p.core [
    | none ↦ (false, p)
    | some r ↦
        if is_unset_file_time last_write_time
        then (true, p)
        else set_to remote_name last_write_time p
  ]

-- `FsFindNextW`.
unfoldable pub fs_find_next : Option FindHandle → Option FindData × Option FindHandle
fs_find_next none = (none, none)
fs_find_next (some handle) = let (answer, next) = advance_find_data handle in (answer, some next)
