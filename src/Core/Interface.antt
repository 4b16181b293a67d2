-- ===== src/Core/Interface.antt =====
-- What PluginCore stands on: the six operations of `AdbClient` (adbclient.hpp), and of the host the
-- local file system, the clock and `gmtime_r`. `W` is everything outside the plugin, which each
-- call may change. An operation of `AdbClient` answers its value or the message of its `AdbError`;
-- a system call answers its value or the text of `errno`.
use adb_wfx_plugin.Base.{ℕ, Bool, Option, List, Bytes}
use adb_wfx_plugin.Base.Int.{ℤ}
use adb_wfx_plugin.Base.Exec.{Exec}
use adb_wfx_plugin.Proto.Entry.{DirEntry}
use adb_wfx_plugin.Proto.Devices.{DeviceInfo}

-- `ProgressFn`: false asks to cancel.
abbrev pub ProgressFn : Type 0 → Type 0
ProgressFn W = ℕ → ℕ → W → Bool × W

-- The serial comes first, then the path on the device. `sync_stat` answers `none` for a path that
-- does not exist.
pub record AdbClient (W : Type 0) : Type 0 where
  pub list_devices : Exec Bytes W (List DeviceInfo)
  pub sync_list : Bytes → Bytes → Exec Bytes W (List DirEntry)
  pub sync_stat : Bytes → Bytes → Exec Bytes W (Option DirEntry)
  pub sync_recv : Bytes → Bytes → ℕ → ℕ → ProgressFn W → Exec Bytes W (Unit {0})
  pub sync_send : Bytes → ℕ → ℕ → Bytes → ℕ → ℤ → ProgressFn W → Exec Bytes W (Unit {0})
  pub shell_command : Bytes → Bytes → Exec Bytes W Bytes

pub record LocalStat : Type 0 where
  pub st_size : ℕ
  pub st_mode : ℕ
  pub st_mtime : ℤ

-- `struct tm`.
pub record Tm : Type 0 where
  pub tm_year : ℤ
  pub tm_mon : ℤ
  pub tm_mday : ℤ
  pub tm_hour : ℤ
  pub tm_min : ℤ
  pub tm_sec : ℤ

-- A file descriptor is a number; `pid` is the text of the process id.
pub record Host (W : Type 0) : Type 0 where
  pub stat : Bytes → Exec Bytes W LocalStat
  pub open_write : Bytes → Exec Bytes W ℕ
  pub open_read : Bytes → Exec Bytes W ℕ
  pub close : ℕ → W → W
  pub unlink : Bytes → Exec Bytes W (Unit {0})
  pub rename : Bytes → Bytes → Exec Bytes W (Unit {0})
  pub set_mtime : Bytes → ℤ → Exec Bytes W (Unit {0})
  pub clock : W → ℤ × W
  pub gmtime : ℤ → Option Tm
  pub pid : Bytes
