-- ===== src/Tests/Moves.antt =====
-- The theorems on moves at concrete inputs: one file on a device and one on the local disk.
use adb_wfx_plugin.Base.{Option, none, some, true, [], Bytes, codes, refl}
use adb_wfx_plugin.Base.Int.{pos}
use adb_wfx_plugin.Base.Exec.{ok}
use adb_wfx_plugin.Core.{State}
use adb_wfx_plugin.Core.Interface.{AdbClient, Host}
use adb_wfx_plugin.Core.Download.{get_file, has_flag, copyflags_move}
use adb_wfx_plugin.Core.Download.Source.{DeviceView, Sourced, get_file-Sourced}
use adb_wfx_plugin.Tests.Core.{folder, noon}

-- The contents of the two files, where they are there.
record World : Type 0 where
  on_device : Option Bytes
  on_disk : Option Bytes

abbrev phone : AdbClient World
phone = record {
  list_devices = λ w. (ok [], w);
  sync_list = λ serial path w. (ok [], w);
  sync_stat = λ serial path w. (ok (some folder), w);
  sync_recv = λ serial path fd size progress w. (ok tt, record w { on_disk = w.on_device });
  sync_send =
      λ serial fd size path mode mtime progress w. (ok tt, record w { on_device = w.on_disk });
  shell_command = λ serial command w. (ok [], record w { on_device = none });
}

abbrev disk : Host World
disk = record {
  stat = λ path w. (ok (record { st_size = 3; st_mode = 0o100644; st_mtime = pos 7 }), w);
  open_write = λ path w. (ok 3, record w { on_disk = some [] });
  open_read = λ path w. (ok 3, w);
  close = λ fd w. w;
  unlink = λ path w. (ok tt, record w { on_disk = none });
  rename = λ from to w. (ok tt, w);
  set_mtime = λ path t w. (ok tt, w);
  clock = λ w. (pos 0, w);
  gmtime = λ t. some noon;
  pid = codes "4711";
}

device_view : DeviceView phone disk (Option Bytes)
device_view = record {
  device = λ w. w.on_device;
  sync_stat_keeps = λ serial path w. refl;
  sync_recv_keeps = λ serial path fd size progress w q. refl;
  stat_keeps = λ path w. refl;
  open_write_keeps = λ path w. refl;
  close_keeps = λ fd w. refl;
  unlink_keeps = λ path w. refl;
  rename_keeps = λ from to w. refl;
  set_mtime_keeps = λ path t w. refl;
}

abbrev before : State World
before = record {
  world = record { on_device = some (codes "abc"); on_disk = some (codes "old") };
  cache = record { ttl_seconds = pos 5; table = [] };
}

-- A move, with leave to overwrite.
get_file-Sourced_example :
    let (r, s') =
      get_file phone disk (codes "/AB/a") (codes "/home/a") 5 (λ done total w. (true, w)) before in
    Sourced phone disk device_view
      (has_flag 5 copyflags_move)
      (codes "/AB/a")
      (codes "/home/a")
      (λ done total w. (true, w))
      before
      r
      s'
get_file-Sourced_example =
    get_file-Sourced phone disk device_view (codes "/AB/a") (codes "/home/a") 5
      (λ done total w. (true, w)) before (λ done total w. refl)
