-- ===== src/Core.antt =====
-- `PluginCore` of fsplugin_impl.hpp: its state and what its methods share. A `bool` method that
-- fills `*error` answers nothing or that text; the methods that return a code answer the code with
-- the text. The optional `error` pointer is always given, as fsplugin.cpp does.
pub mod Interface
pub mod Commands
pub mod Touch
pub mod Move
pub mod Listing
pub mod Download
pub mod Upload
pub mod Laws
pub mod Keeps
use adb_wfx_plugin.Base.{
  ℕ, Bool, true, false, not, ◌&&◌, Option, none, some, List, [], ◌∷◌, ◌++◌, Bytes, codes, ◌==◌,
  is_empty, if◌then◌else◌, bit_and,
}
use adb_wfx_plugin.Base.Int.{ℤ}
use adb_wfx_plugin.Base.Exec.{Result, ok, err, Exec, pure, fail, fail_if, try, modify, ◌>>=◌, ◌>>◌}
use adb_wfx_plugin.RemotePath.{RemotePath, trim_trailing_newlines, parent_wfx_dir}
use adb_wfx_plugin.ListingCache
use adb_wfx_plugin.ListingCache.{ListingCache}
use Interface.{AdbClient, Host}

-- The object's own field beside the client, and the world outside.
pub record State (W : Type 0) : Type 0 where
  pub world : W
  pub cache : ListingCache

-- A method of PluginCore that may fail with a text.
abbrev pub Method : Type 0 → Type 0 → Type 0
Method W A = Exec Bytes (State W) A

module _ {W : Type 0} where
  -- A call of the world, which leaves the cache alone.
  abbrev pub outside : {E A : Type 0} → Exec E W A → Exec E (State W) A
  outside m s = let (r, w) = m s.world in (r, record s { world = w })

  abbrev pub on_world : {E : Type 0} → (W → W) → Exec E (State W) (Unit {0})
  on_world f = modify (λ s. record s { world = f s.world })

  -- `invalidatePathAndParent`.
  unfoldable pub invalidate_path_and_parent : {E : Type 0} → Bytes → Exec E (State W) (Unit {0})
  invalidate_path_and_parent wfx_path = modify (λ s. record s {
    cache =
        ListingCache.invalidate (ListingCache.invalidate s.cache wfx_path)
          (parent_wfx_dir wfx_path);
  })

  -- The device's complaint: what a shell command printed, but for newlines at the end.
  unfoldable pub complaint_of : Bytes → Exec Bytes (State W) (Unit {0})
  complaint_of output =
      let trimmed = trim_trailing_newlines output in fail_if (not (is_empty trimmed)) trimmed

module _ {W : Type 0} (client : AdbClient W) where
  -- `runMutatingShellCommand`.
  unfoldable pub run_mutating_shell_command : RemotePath → Bytes → Bytes → Method W (Unit {0})
  unfolding complaint_of
  run_mutating_shell_command rp command wfx_path = do
    output ← outside (client.shell_command rp.serial command)
    complaint_of output
    invalidate_path_and_parent wfx_path
