-- ===== src/Tests/Download.antt =====
-- A download at a concrete input: a world of files by their paths, with the one that is written,
-- and their modification times.
use adb_wfx_plugin.Base.{
  ◌≡◌, refl, true, false, Option, none, some, [], Bytes, codes, bytes_eq, bytes_eq_refl,
  if◌then◌else◌,
}
use adb_wfx_plugin.Base.Int.{ℤ, pos}
use adb_wfx_plugin.Base.Exec.{ok, err}
use adb_wfx_plugin.Proto.Entry.{DirEntry}
use adb_wfx_plugin.RemotePath.{parse_wfx_path, temp_download_path, find_last}
use adb_wfx_plugin.Core.{State}
use adb_wfx_plugin.Core.Interface.{AdbClient, Host, ProgressFn}
use adb_wfx_plugin.Core.Download.{download_to}
use adb_wfx_plugin.Core.Download.Safety.{LocalFiles, Downloaded, download_to-Downloaded}

record World : Type 0 where
  files : Bytes → Option Bytes
  writing : Bytes
  stamps : Bytes → Option ℤ

abbrev update : {A : Type 0} → Bytes → Option A → (Bytes → Option A) → Bytes → Option A
update path a f p = if bytes_eq path p then a else f p

abbrev client : AdbClient World
client = record {
  list_devices = λ w. (ok [], w);
  sync_list = λ serial path w. (ok [], w);
  sync_stat = λ serial path w. (ok none, w);
  sync_recv = λ serial path fd size progress w.
      (ok tt, record w { files = update w.writing (some (codes "new")) w.files });
  sync_send = λ serial fd size path mode mtime progress w. (ok tt, w);
  shell_command = λ serial command w. (ok [], w);
}

-- Here every rename fails.
abbrev host : Host World
host = record {
  stat = λ path w. (err (codes "no such file"), w);
  open_write = λ path w. (ok 3, record w { files = update path (some []) w.files; writing = path });
  open_read = λ path w. (ok 3, w);
  close = λ fd w. w;
  unlink = λ path w. (ok tt, record w { files = update path none w.files });
  rename = λ from to w. (err (codes "read-only"), w);
  set_mtime = λ path t w. (ok tt, record w { stamps = update path (some t) w.stamps });
  clock = λ w. (pos 0, w);
  gmtime = λ t. none;
  pid = codes "4711";
}

update_other :
    {A : Type 0} (path p : Bytes) (a : Option A) (f : Bytes → Option A)
    → bytes_eq path p ≡ false
    → update path a f p ≡ f p
update_other path p a f h = rw h refl

update_same :
    {A : Type 0} (path : Bytes) (a : Option A) (f : Bytes → Option A) → update path a f path ≡ a
update_same path a f = rw (bytes_eq_refl path) refl

local_files : LocalFiles client host
local_files = record {
  content = λ w. w.files;
  modified = λ w. w.stamps;
  target = λ w fd. w.writing;
  open_write_keeps = λ path p w h. update_other path p (some []) w.files h;
  open_write_target = λ path w fd h. refl;
  recv_keeps = λ serial path p fd size progress w q h.
      update_other w.writing p (some (codes "new")) w.files h;
  close_keeps = λ fd p w. refl;
  unlink_keeps = λ path p w h. update_other path p none w.files h;
  rename_failed_keeps = λ from to p w m h. refl;
  set_mtime_sets = λ path t w u h. update_same path (some t) w.stamps;
}

abbrev photo : DirEntry
photo = record {
  name = codes "a";
  mode = 0o100644;
  size = 3;
  mtime = pos 7;
  symlink_target_is_dir = false;
}

abbrev start : State World
start = record {
  world = record { files = λ p. some (codes "old"); writing = []; stamps = λ p. none };
  cache = record { ttl_seconds = pos 5; table = [] };
}

abbrev silent_progress : ProgressFn World
silent_progress done total w = (true, w)

download_to-Downloaded_example :
    let (r, s') =
      download_to client host
        (parse_wfx_path (codes "/AB/a"))
        photo
        (codes "/home/a")
        true
        silent_progress
        start in
    Downloaded client host local_files (codes "/home/a") photo.mtime start r s'
unfolding bytes_eq temp_download_path find_last
download_to-Downloaded_example =
    download_to-Downloaded client host local_files (parse_wfx_path (codes "/AB/a")) photo
      (codes "/home/a") silent_progress start (λ done total v. refl) refl
