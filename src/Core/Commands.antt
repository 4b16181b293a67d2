-- ===== src/Core/Commands.antt =====
-- The shell commands of PluginCore, and the methods that run one and are done: `deleteFile`,
-- `removeDir`, `makeDir`.
use adb_wfx_plugin.Base.{◌≡◌, refl, some, [], ◌∷◌, ◌++◌, Bytes, codes}
use adb_wfx_plugin.RemotePath.{parse_wfx_path}
use adb_wfx_plugin.ShellQuote.{shell_quote}
use adb_wfx_plugin.ShellQuote.Words.{shell_words, words_from, words_of_quoted, words_of_two}
use adb_wfx_plugin.Core.Interface.{AdbClient}
use adb_wfx_plugin.Core.{Method, run_mutating_shell_command}

unfoldable pub rm_command : Bytes → Bytes
rm_command path = codes "rm -f " ++ shell_quote path

unfoldable pub rm_rf_command : Bytes → Bytes
rm_rf_command path = codes "rm -rf " ++ shell_quote path

unfoldable pub mkdir_command : Bytes → Bytes
mkdir_command path = codes "mkdir -p " ++ shell_quote path

unfoldable pub mv_command : Bytes → Bytes → Bytes
mv_command from to = codes "mv " ++ (shell_quote from ++ b' ' ∷ shell_quote to)

unfoldable pub cp_command : Bytes → Bytes → Bytes
cp_command from to = codes "cp " ++ (shell_quote from ++ b' ' ∷ shell_quote to)

-- The shell runs `rm -f`, `rm -rf` and `mkdir -p` on the path, and `mv` and `cp` on the two paths, as
-- they are, whatever bytes they hold.
pub command_words :
    (path to : Bytes)
    → (shell_words (rm_command path) ≡ some (codes "rm" ∷ codes "-f" ∷ path ∷ []))
      × (shell_words (rm_rf_command path) ≡ some (codes "rm" ∷ codes "-rf" ∷ path ∷ []))
      × (shell_words (mkdir_command path) ≡ some (codes "mkdir" ∷ codes "-p" ∷ path ∷ []))
      × (shell_words (mv_command path to) ≡ some (codes "mv" ∷ path ∷ to ∷ []))
      × (shell_words (cp_command path to) ≡ some (codes "cp" ∷ path ∷ to ∷ []))
unfolding rm_command rm_rf_command mkdir_command mv_command cp_command shell_words words_from
command_words path to = (
  rw (words_of_quoted path) refl,
  rw (words_of_quoted path) refl,
  rw (words_of_quoted path) refl,
  rw (words_of_two path to) refl,
  rw (words_of_two path to) refl,
)

module _ {W : Type 0} (client : AdbClient W) where
  unfoldable pub delete_file : Bytes → Method W (Unit {0})
  delete_file wfx_remote =
      let rp = parse_wfx_path wfx_remote in
      run_mutating_shell_command client rp (rm_command rp.path) wfx_remote

  unfoldable pub remove_dir : Bytes → Method W (Unit {0})
  remove_dir wfx_remote =
      let rp = parse_wfx_path wfx_remote in
      run_mutating_shell_command client rp (rm_rf_command rp.path) wfx_remote

  unfoldable pub make_dir : Bytes → Method W (Unit {0})
  make_dir wfx_remote =
      let rp = parse_wfx_path wfx_remote in
      run_mutating_shell_command client rp (mkdir_command rp.path) wfx_remote
