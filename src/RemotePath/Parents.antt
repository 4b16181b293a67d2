-- ===== src/RemotePath/Parents.antt =====
-- `parentWfxDir`, said of the path alone.
use adb_wfx_plugin.Base.{ℕ, ◌≡◌, ◌∙◌, refl, ap, [], ◌∷◌, ◌++◌, Bytes, codes, Lacks}
use adb_wfx_plugin.RemotePath.{slash, parent_wfx_dir}
use adb_wfx_plugin.RemotePath.Split.{find_last-Lacks, find_last-append, parent_wfx_dir-append}

-- The directory that a name stands in: what is in front of the last slash, or the root where nothing is.
pub record IsParent (path parent : Bytes) : Type 0 where
  pub under :
      (c : ℕ) (dir name : Bytes)
      → Lacks b'/' name
      → path ≡ c ∷ dir ++ b'/' ∷ name
      → parent ≡ c ∷ dir
  pub at_top : (name : Bytes) → Lacks b'/' name → path ≡ b'/' ∷ name → parent ≡ codes "/"
  pub no_slash : Lacks b'/' path → parent ≡ codes "/"

pub parent_wfx_dir-IsParent : (path : Bytes) → IsParent path (parent_wfx_dir path)
unfolding parent_wfx_dir
parent_wfx_dir-IsParent path = record {
  under = λ c dir name lacks e. ap parent_wfx_dir e ∙ parent_wfx_dir-append c dir name lacks;
  at_top = λ name lacks e.
      ap parent_wfx_dir e ∙ rw (find_last-append slash [] name lacks, parent_wfx_dir) refl;
  no_slash = λ lacks. rw (find_last-Lacks slash path lacks, parent_wfx_dir) refl;
}
