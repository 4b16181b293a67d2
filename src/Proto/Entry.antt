-- ===== src/Proto/Entry.antt =====
-- `DirEntry`: one entry of a listing, and what its mode says.
use adb_wfx_plugin.Base.{ℕ, Bool, false, ◌&&◌, ◌||◌, [], Bytes, ◌==◌, bit_and}
use adb_wfx_plugin.Base.Int.{ℤ, pos}

abbrev pub posix_mode_type_mask : ℕ
posix_mode_type_mask = 0o170000

abbrev pub posix_mode_directory : ℕ
posix_mode_directory = 0o040000

abbrev pub posix_mode_symlink : ℕ
posix_mode_symlink = 0o120000

pub record DirEntry : Type 0 where
  pub name : Bytes
  pub mode : ℕ
  pub size : ℕ
  pub mtime : ℤ
  pub symlink_target_is_dir : Bool

-- `DirEntry{}`.
abbrev pub empty_entry : DirEntry
empty_entry = record { name = []; mode = 0; size = 0; mtime = pos 0; symlink_target_is_dir = false }

unfoldable pub is_dir : DirEntry → Bool
is_dir e = bit_and e.mode posix_mode_type_mask == posix_mode_directory

unfoldable pub is_symlink : DirEntry → Bool
is_symlink e = bit_and e.mode posix_mode_type_mask == posix_mode_symlink

unfoldable pub is_navigable_dir : DirEntry → Bool
is_navigable_dir e = is_dir e || (is_symlink e && e.symlink_target_is_dir)
