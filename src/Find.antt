-- ===== src/Find.antt =====
-- The find data, the progress and the operations of fsplugin_impl.hpp, which stand between the
-- file manager's types and PluginCore.
pub mod Walk
use adb_wfx_plugin.Base.{
  ℕ, suc, ◌+◌, ◌*◌, ◌/◌, ◌%◌, ◌^◌, Bool, true, false, ◌||◌, Option, none, some, List, [], ◌∷◌,
  length, drop, ◌==◌, ltb, if◌then◌else◌, bit_and, bit_or,
}
use adb_wfx_plugin.Utf.{utf8_to_wide_buf}
use adb_wfx_plugin.FileTime.{FileTime, time_to_file_time}
use adb_wfx_plugin.Core.Interface.{ProgressFn}
use adb_wfx_plugin.Core.Listing.{FindResult}

abbrev pub transfer_percent_max : ℕ
transfer_percent_max = 100

-- `done * 100` wraps around at 64 bits.
pub compute_transfer_percent : ℕ → ℕ → ℕ
compute_transfer_percent done total =
    if total == 0
    then 0
    else let percent = done * transfer_percent_max % 2 ^ 64 / total in
      if ltb transfer_percent_max percent then transfer_percent_max else percent

-- `makeProgressFn`: `progress_proc` is the file manager's callback, if there is one, with the names
-- that it is given; it answers zero to go on.
unfoldable pub make_progress_fn : {W : Type 0} → Option (ℕ → W → ℕ × W) → ProgressFn W
unfolding compute_transfer_percent
make_progress_fn none done total w = (true, w)
make_progress_fn (some progress_proc) done total w =
    let (abort_requested, w') = progress_proc (compute_transfer_percent done total) w in
    (abort_requested == 0, w')

-- The operations of `wfxplugin.h` that change files on the device.
unfoldable pub is_write_operation : ℕ → Bool
is_write_operation operation =
    operation == 4
    || (operation == 5
        || (operation == 20
            || (operation == 6
                || (operation == 7
                    || (operation == 8
                        || (operation == 9
                            || (operation == 10 || (operation == 17 || operation == 18))))))))

abbrev pub max_path : ℕ
max_path = 260

abbrev pub file_attribute_unix_mode : ℕ
file_attribute_unix_mode = 0x80000000

abbrev pub file_attribute_directory : ℕ
file_attribute_directory = 0x10

-- `WIN32_FIND_DATAW`, as far as it is filled; the name with its terminator.
pub record FindData : Type 0 where
  pub file_name : List ℕ
  pub file_attributes : ℕ
  pub reserved0 : ℕ
  pub file_size_low : ℕ
  pub file_size_high : ℕ
  pub last_write_time : FileTime
  pub creation_time : FileTime
  pub last_access_time : FileTime

pub find_data_of : FindResult → List ℕ → FindData
find_data_of entry name =
    let write_time = time_to_file_time entry.mtime in
    record {
      file_name = name;
      file_attributes =
          if entry.is_directory
          then bit_or file_attribute_unix_mode file_attribute_directory
          else file_attribute_unix_mode;
      reserved0 = entry.unix_mode % 2 ^ 32;
      file_size_low = bit_and entry.size 0xFFFFFFFF % 2 ^ 32;
      file_size_high = entry.size / 2 ^ 32 % 2 ^ 32;
      last_write_time = write_time;
      creation_time = write_time;
      last_access_time = write_time;
    }

-- `none` where the name does not fit, and the data is zeroed.
pub fill_find_data : FindResult → Option FindData
unfolding find_data_of
fill_find_data entry =
    let (name, fits) = utf8_to_wide_buf entry.name max_path in
    if fits then some (find_data_of entry name) else none

pub record FindHandle : Type 0 where
  pub entries : List FindResult
  pub index : ℕ

-- The loop, on the entries from `index` on.
pub advance_loop : List FindResult → FindHandle → Option FindData × FindHandle
advance_loop [] handle = (none, handle)
advance_loop (entry ∷ rest) handle =
    let next = record handle { index = suc handle.index } in
    elim (fill_find_data entry) [
      | some find_data ↦ (some find_data, next)
      | none ↦ advance_loop rest next
    ]

pub advance_find_data : FindHandle → Option FindData × FindHandle
unfolding advance_loop
advance_find_data handle = advance_loop (drop handle.index handle.entries) handle
