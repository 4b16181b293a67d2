-- ===== src/Core/Listing.antt =====
-- `listDirectory` with `listRootDevices`, `checkIsDirectory`, `resolveSymlinkTargets` and
-- `appendEntries`.
pub mod Entries
pub mod Cached
use adb_wfx_plugin.Base.{
  ℕ, Bool, true, false, not, ◌||◌, ◌&&◌, Option, none, some, List, [], ◌∷◌, ◌++◌, Bytes, codes,
  bytes_eq, is_empty, if◌then◌else◌,
}
use adb_wfx_plugin.Base.Int.{ℤ, pos}
use adb_wfx_plugin.Base.Exec.{Result, ok, err, Exec, pure, fail, fail_if, try, modify, ◌>>=◌, ◌>>◌}
use adb_wfx_plugin.RemotePath.{
  RemotePath, parse_wfx_path, display_name, through_symlink, join_wfx_path,
}
use adb_wfx_plugin.Proto.Entry.{DirEntry, is_dir, is_symlink, is_navigable_dir}
use adb_wfx_plugin.Proto.Devices.{DeviceInfo, device_state_is_usable, device_state_message}
use adb_wfx_plugin.ListingCache
use adb_wfx_plugin.ListingCache.{ListingCache}
use adb_wfx_plugin.Core.Interface.{AdbClient, Host}
use adb_wfx_plugin.Core.{Method, State, outside}
use adb_wfx_plugin.Core.Touch.{or_fail}

pub record FindResult : Type 0 where
  pub name : Bytes
  pub size : ℕ
  pub mtime : ℤ
  pub unix_mode : ℕ
  pub is_directory : Bool

-- `*out` and `*warning`.
pub record Listing : Type 0 where
  pub entries : List FindResult
  pub warning : Bytes

abbrev pub is_dot : Bytes → Bool
is_dot name = bytes_eq name (codes ".") || bytes_eq name (codes "..")

pub find_result_of : DirEntry → FindResult
find_result_of e = record {
  name = e.name;
  size = e.size;
  mtime = e.mtime;
  unix_mode = e.mode;
  is_directory = is_navigable_dir e;
}

pub append_entries : List DirEntry → List FindResult → List FindResult
unfolding find_result_of
append_entries [] out = out
append_entries (e ∷ entries) out =
    append_entries entries (if is_dot e.name then out else out ++ find_result_of e ∷ [])

-- A usable device as an entry of the root.
pub root_entry : DeviceInfo → FindResult
root_entry d = record {
  name = display_name d.model d.serial;
  size = 0;
  mtime = pos 0;
  unix_mode = 0;
  is_directory = true;
}

pub add_warning : Bytes → Bytes → Bytes
add_warning warnings w = (if is_empty warnings then warnings else warnings ++ codes "\n") ++ w

-- The loop over the devices, with `out` and `warnings`.
pub root_loop : List DeviceInfo → List FindResult → Bytes → Listing
unfolding root_entry add_warning
root_loop [] out warnings = record { entries = out; warning = warnings }
root_loop (d ∷ devices) out warnings = elim (device_state_is_usable d.state) [
  | true ↦ root_loop devices (out ++ root_entry d ∷ []) warnings
  | false ↦ root_loop devices out (add_warning warnings (device_state_message d))
]

abbrev pub open_missing : Bytes → Bytes
open_missing path = codes "cannot open " ++ path ++ codes ": no such file or directory"

abbrev pub open_not_directory : Bytes → Bytes
open_not_directory path = codes "cannot open " ++ path ++ codes ": not a directory"

-- The answer to a `STAT` through a link, where failing is no error.
abbrev pub is_directory_answer : Result Bytes (Option DirEntry) → Bool
is_directory_answer (ok (some target)) = is_dir target
is_directory_answer (ok none) = false
is_directory_answer (err m) = false

abbrev pub mark_target : DirEntry → Result Bytes (Option DirEntry) → DirEntry
mark_target e answer =
    if is_directory_answer answer then record e { symlink_target_is_dir = true } else e

module _ {W : Type 0} (client : AdbClient W) where
  unfoldable pub list_root_devices : Method W Listing
  list_root_devices = do devices ← outside client.list_devices; pure (root_loop devices [] [])

  -- For an entry that is no directory itself: a link that leads to one is good too.
  unfoldable pub check_link : Bytes → Bytes → DirEntry → Method W (Unit {0})
  check_link serial path info =
      if is_symlink info
      then (do
        answer ← try (outside (client.sync_stat serial (through_symlink path)))
        fail_if (not (is_directory_answer answer)) (open_not_directory path))
      else fail (open_not_directory path)

  unfoldable pub check_is_directory : Bytes → Bytes → Method W (Unit {0})
  unfolding check_link
  check_is_directory serial path = do
    exists ← outside (client.sync_stat serial path)
    info ← or_fail exists (open_missing path)
    if is_dir info then pure tt else check_link serial path info

  -- One round of `resolveSymlinkTargets`.
  unfoldable pub resolve_entry : Bytes → Bytes → DirEntry → Method W DirEntry
  resolve_entry serial dir_path e = if not (is_symlink e) || is_dot e.name then pure e else (do
    answer ←
        try (outside (client.sync_stat serial (through_symlink (join_wfx_path dir_path e.name))))
    pure (mark_target e answer))

  unfoldable pub resolve_symlink_targets : Bytes → Bytes → List DirEntry → Method W (List DirEntry)
  unfolding resolve_entry
  resolve_symlink_targets serial dir_path [] = pure []
  resolve_symlink_targets serial dir_path (e ∷ entries) = do
    e' ← resolve_entry serial dir_path e
    rest ← resolve_symlink_targets serial dir_path entries
    pure (e' ∷ rest)

module _ {W : Type 0} (client : AdbClient W) (host : Host W) where
  -- `cache_.get` at an entry that it finds: only then the clock is read.
  unfoldable pub cache_get_found : Bytes → Method W (Option (List DirEntry))
  cache_get_found wfx_dir s =
      let (now, w) = host.clock s.world in
      let (hit, c) = ListingCache.get s.cache wfx_dir now in
      (ok hit, record { world = w; cache = c })

  unfoldable pub cache_get : Bytes → Method W (Option (List DirEntry))
  unfolding cache_get_found
  cache_get wfx_dir s = elim (ListingCache.lookup wfx_dir s.cache.table) [
    | none ↦ (ok none, s)
    | some e ↦ cache_get_found wfx_dir s
  ]

  -- `cache_.put`.
  unfoldable pub cache_put : Bytes → List DirEntry → Method W (Unit {0})
  cache_put wfx_dir entries s =
      let (now, w) = host.clock s.world in
      (ok tt, record { world = w; cache = ListingCache.put s.cache wfx_dir entries now })

  -- A directory that the cache does not hold.
  unfoldable pub list_uncached : Bytes → RemotePath → Method W (List DirEntry)
  unfolding check_is_directory resolve_symlink_targets cache_put
  list_uncached wfx_dir rp = do
    check_is_directory client rp.serial rp.path
    entries ← outside (client.sync_list rp.serial rp.path)
    resolved ← resolve_symlink_targets client rp.serial rp.path entries
    cache_put wfx_dir resolved
    pure resolved

  unfoldable pub list_below : Bytes → RemotePath → Option (List DirEntry) → Method W (List DirEntry)
  unfolding list_uncached
  list_below wfx_dir rp (some cached) = pure cached
  list_below wfx_dir rp none = list_uncached wfx_dir rp

  unfoldable pub list_directory : Bytes → Method W Listing
  unfolding list_root_devices cache_get list_below append_entries
  list_directory wfx_dir =
      let rp = parse_wfx_path wfx_dir in
      if rp.is_root then list_root_devices client else (do
        cached ← cache_get wfx_dir
        entries ← list_below wfx_dir rp cached
        pure (record { entries = append_entries entries []; warning = [] }))
