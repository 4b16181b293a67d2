-- ===== src/Shim/Walk.antt =====
-- What a file manager gets that calls `FsFindFirstW`, and then `FsFindNextW` until that fails.
use adb_wfx_plugin.Base.{ℕ, zero, suc, ◌+◌, ◌≡◌, Option, none, some, List, [], ◌∷◌, length, Bytes}
use adb_wfx_plugin.Base.Exec.{Result, ok, err}
use adb_wfx_plugin.Core.Interface.{AdbClient, Host}
use adb_wfx_plugin.Core.Listing.{Listing}
use adb_wfx_plugin.Find.{FindData, FindHandle}
use adb_wfx_plugin.Find.Walk.{all_find_data}
use adb_wfx_plugin.Shim.{fs_find_next}

-- Up to `fuel` calls of `FsFindNextW`, each on the handle that the last one has left.
unfoldable pub next_calls : ℕ → Option FindHandle → List FindData
unfolding fs_find_next
next_calls zero handle = []
next_calls (suc fuel) handle = elim (fs_find_next handle).0 [
  | none ↦ []
  | some find_data ↦ find_data ∷ next_calls fuel (fs_find_next handle).1
]

-- The data of `FsFindFirstW`, if it has answered a handle, and of the calls after it.
pub calls : ℕ → Option (FindHandle × FindData) → List FindData
calls fuel none = []
calls fuel (some (handle, find_data)) = find_data ∷ next_calls fuel (some handle)

module _ {W : Type 0} (clients : ℕ → AdbClient W) (host : Host W) where
  -- What the calls give of a listing, or of a failure.
  unfoldable pub Walked : ℕ → Result Bytes Listing → Option (FindHandle × FindData) → Type 0
  Walked further (ok listing) first =
      calls (length listing.entries + further) first ≡ all_find_data listing.entries
  Walked further (err m) first = first ≡ none
