-- ===== src/Shim/Session.antt =====
-- fsplugin.cpp: FsStatusInfoW, FsDisconnectW and FsGetDefRootName.
use adb_wfx_plugin.Base.{
  ℕ, ◌-◌, Bool, true, false, not, ◌||◌, none, some, List, [], ◌∷◌, ◌++◌, Bytes, codes, ◌==◌, ltb,
  length, take, if◌then◌else◌,
}
use adb_wfx_plugin.Base.Int.{ℤ, pos, negsuc}
use adb_wfx_plugin.Utf.{wide_c_str_to_utf8}
use adb_wfx_plugin.ListingCache
use adb_wfx_plugin.ListingCache.{ListingCache, listing_cache_ttl_seconds}
use adb_wfx_plugin.Find.{is_write_operation}
use adb_wfx_plugin.Shim.{Plugin, Running, report_with, msgtype_details}

abbrev pub with_cache : Running → ListingCache → Running
with_cache r c = record r { cache = c }

abbrev pub starting_message : List ℕ → Bytes
starting_message remote_dir =
    codes "ADB: starting a write operation on "
    ++ wide_c_str_to_utf8 remote_dir
    ++ codes " -- clearing the directory listing cache"

abbrev is_start : ℤ → Bool
is_start (pos n) = n == 0
is_start (negsuc n) = false

module _ {W : Type 0} where
  unfoldable pub fs_status_info : List ℕ → ℤ → ℕ → Plugin W → Plugin W
  unfolding ListingCache.clear is_write_operation
  fs_status_info remote_dir info_start_end info_operation p = elim p.core [
    | none ↦ p
    | some r ↦
        if not (is_start info_start_end) || not (is_write_operation info_operation)
        then p
        else record p {
          world =
              report_with p.manager.log_proc msgtype_details (starting_message remote_dir) p.world;
          core = some (with_cache r (ListingCache.clear r.cache));
        }
  ]

  unfoldable pub fs_disconnect : Plugin W → Bool × Plugin W
  unfolding ListingCache.clear
  fs_disconnect p = elim p.core [
    | none ↦ (true, p)
    | some r ↦ (true, record p { core = some (with_cache r (ListingCache.clear r.cache)) })
  ]

abbrev pub root_name : Bytes
root_name = codes "ADB"

-- `FsGetDefRootName`, on a buffer of `maxlen` characters: what it writes.
unfoldable pub fs_get_def_root_name : ℤ → Bytes
fs_get_def_root_name maxlen = elim maxlen [
  | negsuc n ↦ []
  | pos n ↦
      if n == 0
      then []
      else let copy_len = if ltb (length root_name) (n - 1) then length root_name else n - 1 in
        take copy_len root_name ++ 0 ∷ []
]
