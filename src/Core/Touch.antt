-- ===== src/Core/Touch.antt =====
-- `formatTouchTArg` and `setModificationTime`.
pub mod Stamps
use adb_wfx_plugin.Base.{
  ℕ, suc, ◌+◌, ◌-◌, ◌/◌, ◌%◌, Bool, true, false, not, ◌&&◌, Option, none, some, List, [], ◌∷◌, ◌++◌,
  Bytes, codes, leb, ◌==◌, is_empty, if◌then◌else◌,
}
use adb_wfx_plugin.Base.Int.{ℤ, pos, negsuc}
use adb_wfx_plugin.Base.Decimal.{to_string_signed}
use adb_wfx_plugin.Base.Exec.{Result, ok, err, Exec, pure, fail, fail_if, try, modify, ◌>>=◌, ◌>>◌}
use adb_wfx_plugin.RemotePath.{RemotePath, parse_wfx_path, trim_trailing_newlines}
use adb_wfx_plugin.ShellQuote.{shell_quote}
use adb_wfx_plugin.Proto.Entry.{DirEntry}
use adb_wfx_plugin.Core.Interface.{AdbClient, Host, Tm}
use adb_wfx_plugin.Core.{Method, State, outside, invalidate_path_and_parent, complaint_of}

-- A field, if it lies in its range.
pub in_range : ℕ → ℕ → ℤ → Option ℕ
in_range lo hi (pos n) = if leb lo n && leb n hi then some n else none
in_range lo hi (negsuc n) = none

-- An `int` plus a positive constant.
pub plus : ℤ → ℕ → ℤ
plus (pos n) k = pos (n + k)
plus (negsuc n) k = if leb (suc n) k then pos (k - suc n) else negsuc (n - k)

infixl 5 ◌and_then◌
abbrev pub ◌and_then◌ : {A B : Type 0} → Option A → (A → Option B) → Option B
none and_then f = none
(some a) and_then f = f a

-- `%02d` and `%04d` of numbers that fit.
abbrev two_digits : ℕ → Bytes
two_digits n = (b'0' + n / 10 % 10) ∷ (b'0' + n % 10) ∷ []

abbrev four_digits : ℕ → Bytes
four_digits n = two_digits (n / 100) ++ two_digits (n % 100)

-- The six fields in their ranges.
pub record Stamp : Type 0 where
  pub year : ℕ
  pub month : ℕ
  pub day : ℕ
  pub hour : ℕ
  pub minute : ℕ
  pub second : ℕ

pub check_fields : Tm → Option Stamp
unfolding in_range plus
check_fields tm = in_range 1 9999 (plus tm.tm_year 1900) and_then λ year.
    in_range 1 12 (plus tm.tm_mon 1) and_then λ month. in_range 1 31 tm.tm_mday and_then λ day.
    in_range 0 23 tm.tm_hour and_then λ hour. in_range 0 59 tm.tm_min and_then λ minute.
    in_range 0 60 tm.tm_sec and_then λ second. some (record {
      year = year;
      month = month;
      day = day;
      hour = hour;
      minute = minute;
      second = second;
    })

pub stamp_text : Stamp → Bytes
stamp_text t =
    four_digits t.year
    ++ (two_digits t.month
        ++ (two_digits t.day
            ++ (two_digits t.hour ++ (two_digits t.minute ++ b'.' ∷ two_digits t.second))))

-- `gmtime` is the host's `gmtime_r`; `none` where that fails, and the text stays unset.
pub format_touch_t_arg : (ℤ → Option Tm) → ℤ → Option Bytes
unfolding check_fields stamp_text
format_touch_t_arg gmtime epoch_seconds =
    gmtime epoch_seconds and_then λ utc. check_fields utc and_then λ t. some (stamp_text t)

pub data TouchStrategy : Type 0 where
  epoch_then_fallback touch_t_only : TouchStrategy

unfoldable pub touch_epoch_command : ℤ → Bytes → Bytes
touch_epoch_command mtime path =
    codes "touch -c -d @" ++ (to_string_signed mtime ++ b' ' ∷ shell_quote path)

unfoldable pub touch_t_command : Bytes → Bytes → Bytes
touch_t_command timestamp path =
    codes "TZ=UTC touch -c -t " ++ (timestamp ++ b' ' ∷ shell_quote path)

abbrev pub touch_missing : Bytes → Bytes
touch_missing path = codes "cannot set the time of " ++ path ++ codes ": no such file or directory"

abbrev pub touch_out_of_range : Bytes
touch_out_of_range = codes "modification time is out of range"

module _ {W : Type 0} where
  -- The value, or an early return with an error.
  abbrev pub or_fail : {A : Type 0} → Option A → Bytes → Method W A
  or_fail none e = fail e
  or_fail (some a) e = pure a

module _ {W : Type 0} (client : AdbClient W) (host : Host W) where
  -- The fallback, from "Android's toybox touch has historically rejected" on.
  unfoldable pub touch_t : Bytes → ℤ → Method W (Unit {0})
  unfolding complaint_of
  touch_t wfx_remote mtime = do
    let rp = parse_wfx_path wfx_remote
    t_timestamp ← or_fail (format_touch_t_arg host.gmtime mtime) touch_out_of_range
    t_output ← outside (client.shell_command rp.serial (touch_t_command t_timestamp rp.path))
    complaint_of t_output
    invalidate_path_and_parent wfx_remote

  -- The first form, and the fallback where the device complains of it.
  unfoldable pub touch_epoch : Bytes → ℤ → Method W (Unit {0})
  unfolding touch_t
  touch_epoch wfx_remote mtime = do
    let rp = parse_wfx_path wfx_remote
    epoch_output ← outside (client.shell_command rp.serial (touch_epoch_command mtime rp.path))
    if is_empty (trim_trailing_newlines epoch_output)
        then invalidate_path_and_parent wfx_remote
        else touch_t wfx_remote mtime

  unfoldable pub touch_by : TouchStrategy → Bytes → ℤ → Method W (Unit {0})
  unfolding touch_epoch
  touch_by epoch_then_fallback = touch_epoch
  touch_by touch_t_only = touch_t

  unfoldable pub set_modification_time : Bytes → ℤ → TouchStrategy → Method W (Unit {0})
  unfolding touch_by
  set_modification_time wfx_remote mtime strategy = do
    let rp = parse_wfx_path wfx_remote
    exists ← outside (client.sync_stat rp.serial rp.path)
    info ← or_fail exists (touch_missing rp.path)
    touch_by strategy wfx_remote mtime
