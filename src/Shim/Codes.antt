-- ===== src/Shim/Codes.antt =====
-- The code that `FsRenMovFileW` answers with.
use adb_wfx_plugin.Base.{
  ℕ, ◌≡◌, refl, Bool, true, false, not, ◌&&◌, some, List, Bytes, ◌==◌, if◌then◌else◌,
}
use adb_wfx_plugin.Base.Exec.{Result, ok, err}
use adb_wfx_plugin.Utf.{wide_c_str_to_utf8}
use adb_wfx_plugin.Core.{State}
use adb_wfx_plugin.Core.Interface.{AdbClient, Host}
use adb_wfx_plugin.Core.Download.{file_exists, not_supported, write_error}
use adb_wfx_plugin.Core.Move.{MoveError, rename_or_move}
use adb_wfx_plugin.Core.Move.Refusals.{
  same_device, in_the_way, Free-clear, Judged, rename_or_move-Judged,
}
use adb_wfx_plugin.Shim.{Plugin, Running, enter, moved_to, fs_ren_mov_file, fs_file_code}

-- FS_FILE_EXISTS and FS_FILE_NOTSUPPORTED.
abbrev pub exists_code : ℕ
exists_code = 1

abbrev pub not_supported_code : ℕ
not_supported_code = 6

codes_of :
    (same taken : Bool)
    → let code =
        fs_file_code (
          if same && taken then file_exists else if not same then not_supported else write_error) in
      ((code == not_supported_code) ≡ not same) × ((code == exists_code) ≡ (same && taken))
unfolding fs_file_code
codes_of true true = (refl, refl)
codes_of true false = (refl, refl)
codes_of false true = (refl, refl)
codes_of false false = (refl, refl)

module _ {W : Type 0} (clients : ℕ → AdbClient W) (host : Host W) where
  coded :
      (p : Plugin W) (r : Running) (wfx_from wfx_to : Bytes) (over_write : Bool) (s : State W)
      (result : Result MoveError (Unit {0})) (s' : State W)
      → Judged (clients r.port) wfx_from wfx_to over_write s result s'
      → let code = (moved_to clients host p r (result, s')).0 in
        ((code == not_supported_code) ≡ not (same_device wfx_from wfx_to))
        × ((code == exists_code)
            ≡ (same_device wfx_from wfx_to && in_the_way (clients r.port) wfx_to over_write s))
  unfolding Judged fs_file_code
  coded p r wfx_from wfx_to over_write s (ok u) s' (same, free) =
      rw (same, Free-clear (clients r.port) wfx_to over_write s free) (refl, refl)
  coded p r wfx_from wfx_to over_write s (err e) s' (cross, exists, k, l) =
      rw (cross, exists)
        (codes_of (same_device wfx_from wfx_to) (in_the_way (clients r.port) wfx_to over_write s))

  -- Once `FsInitW` has run, for any two wide names and flags: the code is FS_FILE_NOTSUPPORTED exactly
  -- when the names lie on different devices, and FS_FILE_EXISTS exactly when they lie on one and the
  -- `STAT` of the target found something that may not be overwritten.
  pub fs_ren_mov_file-codes :
      (old_name new_name : List ℕ) (move over_write : Bool) (p : Plugin W) (r : Running)
      → p.core ≡ some r
      → let wfx_from = wide_c_str_to_utf8 old_name in
        let wfx_to = wide_c_str_to_utf8 new_name in
        let (code, p') = fs_ren_mov_file clients host old_name new_name move over_write p in
        ((code == not_supported_code) ≡ not (same_device wfx_from wfx_to))
        × ((code == exists_code) ≡ (
            same_device wfx_from wfx_to
            && in_the_way (clients r.port) wfx_to over_write (enter p r)))
  unfolding fs_ren_mov_file
  fs_ren_mov_file-codes old_name new_name move over_write p r h = rw h (
      coded (record p { core = some r }) r _ _ over_write _
        (rename_or_move (clients r.port) host (wide_c_str_to_utf8 old_name)
          (wide_c_str_to_utf8 new_name) move over_write (enter p r)).0
        _
        (rename_or_move-Judged (clients r.port) host (wide_c_str_to_utf8 old_name)
          (wide_c_str_to_utf8 new_name) move over_write (enter p r)))
