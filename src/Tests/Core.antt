-- ===== src/Tests/Core.antt =====
-- The theorems on the plugin's core at concrete inputs: a device on which every command succeeds
-- in silence, every path is a directory, and the world counts the calls.
use adb_wfx_plugin.Base.{
  ℕ, suc, none, ◌⊎◌, ◌≡◌, some, true, false, List, [], ◌∷◌, Bytes, codes, All,
}
use adb_wfx_plugin.Base.Int.{pos}
use adb_wfx_plugin.Base.Exec.{ok, err}
use adb_wfx_plugin.Proto.Entry.{DirEntry}
use adb_wfx_plugin.Proto.Devices.{DeviceInfo, parse_devices_l}
use adb_wfx_plugin.RemotePath.{parse_wfx_path, serial_from_display_name}
use adb_wfx_plugin.ShellQuote.Words.{shell_words}
use adb_wfx_plugin.Core.{State, run_mutating_shell_command}
use adb_wfx_plugin.Core.Interface.{AdbClient, Host, Tm}
use adb_wfx_plugin.Core.Commands.{
  rm_command, rm_rf_command, mkdir_command, mv_command, cp_command, command_words,
}
use adb_wfx_plugin.Core.Laws.{Ran, run_mutating_shell_command-Ran}
use adb_wfx_plugin.Core.Move.{rename_or_move}
use adb_wfx_plugin.Core.Move.Refusals.{Judged, rename_or_move-Judged}
use adb_wfx_plugin.Core.Touch.{Stamp, format_touch_t_arg}
use adb_wfx_plugin.Core.Touch.Stamps.{IsDateOf, read_stamp, format_touch_t_arg-read_stamp}
use adb_wfx_plugin.Core.Listing.{root_entry, list_uncached}
use adb_wfx_plugin.Core.Listing.Entries.{root_entry-serial_from_display_name}
use adb_wfx_plugin.Core.Listing.Cached.{Listed, list_uncached-Listed}

abbrev pub folder : DirEntry
folder = record {
  name = codes "DCIM";
  mode = 0o040755;
  size = 0;
  mtime = pos 7;
  symlink_target_is_dir = false;
}

abbrev here : DirEntry
here = record {
  name = codes ".";
  mode = 0o040755;
  size = 0;
  mtime = pos 7;
  symlink_target_is_dir = false;
}

abbrev pub client : AdbClient ℕ
client = record {
  list_devices = λ w. (ok [], suc w);
  sync_list = λ serial path w. (ok (here ∷ folder ∷ []), suc w);
  sync_stat = λ serial path w. (ok (some folder), suc w);
  sync_recv = λ serial path fd size progress w. (ok tt, suc w);
  sync_send = λ serial fd size path mode mtime progress w. (ok tt, suc w);
  shell_command = λ serial command w. (ok [], suc w);
}

-- 2023-11-14 22:13:20.
abbrev pub noon : Tm
noon = record {
  tm_year = pos 123;
  tm_mon = pos 10;
  tm_mday = pos 14;
  tm_hour = pos 22;
  tm_min = pos 13;
  tm_sec = pos 20;
}

abbrev pub host : Host ℕ
host = record {
  stat = λ path w. (err (codes "no such file"), suc w);
  open_write = λ path w. (ok 3, suc w);
  open_read = λ path w. (ok 3, suc w);
  close = λ fd w. suc w;
  unlink = λ path w. (ok tt, suc w);
  rename = λ from to w. (ok tt, suc w);
  set_mtime = λ path t w. (ok tt, suc w);
  clock = λ w. (pos w, w);
  gmtime = λ t. some noon;
  pid = codes "4711";
}

abbrev pub start : State ℕ
start = record { world = 0; cache = record { ttl_seconds = pos 5; table = [] } }

abbrev sdcard : Bytes
sdcard = codes "/AB/sdcard"

run_mutating_shell_command-Ran_example :
    let rp = parse_wfx_path sdcard in
    let (answer, w) = client.shell_command rp.serial (codes "rm -f a") start.world in
    let (result, s') = run_mutating_shell_command client rp (codes "rm -f a") sdcard start in
    Ran sdcard start answer w result s'
run_mutating_shell_command-Ran_example =
    run_mutating_shell_command-Ran client (parse_wfx_path sdcard) (codes "rm -f a") sdcard start

rename_or_move-Judged_example :
    let (result, s') = rename_or_move client host sdcard (codes "/AB/b") true false start in
    Judged client sdcard (codes "/AB/b") false start result s'
rename_or_move-Judged_example =
    rename_or_move-Judged client host sdcard (codes "/AB/b") true false start

list_uncached-Listed_example :
    let (result, s') = list_uncached client host sdcard (parse_wfx_path sdcard) start in
    Listed sdcard start result s'
list_uncached-Listed_example = list_uncached-Listed client host sdcard (parse_wfx_path sdcard) start

format_touch_t_arg-read_stamp_example :
    ((text : Bytes) × (tm : Tm) × (t : Stamp) × (format_touch_t_arg
          (λ t. some noon)
          (pos 1700000000)
        ≡ some text)
      × (some noon ≡ some tm)
      × (read_stamp text ≡ some t)
      × IsDateOf tm t)
    ⊎ ((format_touch_t_arg (λ t. some noon) (pos 1700000000) ≡ none)
        × ((tm : Tm) → some noon ≡ some tm → (t : Stamp) → IsDateOf tm t → ⊥))
format_touch_t_arg-read_stamp_example =
    format_touch_t_arg-read_stamp (λ t. some noon) (pos 1700000000)

abbrev phones : List DeviceInfo
phones =
    record { serial = codes "AB"; state = codes "device"; model = codes "P7" }
    ∷ record { serial = codes "C"; state = codes "offline"; model = [] }
    ∷ []

root_entry-serial_from_display_name_example :
    All
      (λ d. serial_from_display_name (root_entry d).name ≡ d.serial)
      (parse_devices_l (codes "AB device model:P7"))
root_entry-serial_from_display_name_example =
    root_entry-serial_from_display_name (codes "AB device model:P7")

command_words_example :
    (shell_words (rm_command (codes "/a'b")) ≡ some (codes "rm" ∷ codes "-f" ∷ codes "/a'b" ∷ []))
    × (shell_words (rm_rf_command (codes "/a'b"))
        ≡ some (codes "rm" ∷ codes "-rf" ∷ codes "/a'b" ∷ []))
    × (shell_words (mkdir_command (codes "/a'b"))
        ≡ some (codes "mkdir" ∷ codes "-p" ∷ codes "/a'b" ∷ []))
    × (shell_words (mv_command (codes "/a'b") (codes "/c d"))
        ≡ some (codes "mv" ∷ codes "/a'b" ∷ codes "/c d" ∷ []))
    × (shell_words (cp_command (codes "/a'b") (codes "/c d"))
        ≡ some (codes "cp" ∷ codes "/a'b" ∷ codes "/c d" ∷ []))
command_words_example = command_words (codes "/a'b") (codes "/c d")
