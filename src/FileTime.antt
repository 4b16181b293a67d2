-- ===== src/FileTime.antt =====
-- `timeToFileTime` and `fileTimeToTime` of utils.hpp, and `isUnsetFileTime` of fsplugin_impl.hpp.
-- `time_t` is a signed integer, `uint64_t` arithmetic wraps at 2 ^ 64, `DWORD` at 2 ^ 32.
use adb_wfx_plugin.Base.{
  ℕ, ◌+◌, ◌-◌, ◌*◌, ◌/◌, ◌%◌, ◌^◌, ◌<◌, ◌≡◌, ◌∙◌, refl, Bool, true, false, ◌&&◌, Option, none, some,
  ltb, ◌==◌, if◌then◌else◌, bit_or, arith,
}
use adb_wfx_plugin.Base.Bits.{bit_or_high}
use adb_wfx_plugin.Base.Int.{ℤ, pos, negsuc, neg, to_u64, pos_part, neg_part}

abbrev pub ticks_per_second : ℕ
ticks_per_second = 10_000_000

abbrev pub ticks_at_unix_epoch : ℕ
ticks_at_unix_epoch = 116_444_736_000_000_000

-- Seconds from 1601-01-01, the epoch of FILETIME, to 1970-01-01.
abbrev pub seconds_before_epoch : ℕ
seconds_before_epoch = 11_644_473_600

pub record FileTime : Type 0 where
  pub low : ℕ
  pub high : ℕ

pub time_to_file_time : ℤ → FileTime
time_to_file_time t =
    let ticks = (ticks_at_unix_epoch + to_u64 t * ticks_per_second % 2 ^ 64) % 2 ^ 64 in
    record { low = ticks % 2 ^ 32; high = ticks / 2 ^ 32 }

pub file_time_to_time : FileTime → ℤ
file_time_to_time ft =
    if ft.low == 0 && ft.high == 0
    then pos 0
    else let ticks = bit_or (ft.high * 2 ^ 32) ft.low in
      if ltb ticks ticks_at_unix_epoch
      then neg ((ticks_at_unix_epoch - ticks) / ticks_per_second)
      else pos ((ticks - ticks_at_unix_epoch) / ticks_per_second)

-- A null pointer is `none`.
unfoldable pub is_unset_file_time : Option FileTime → Bool
is_unset_file_time none = true
is_unset_file_time (some ft) = ft.low == 0 && ft.high == 0

-- The ticks that a FILETIME counts.
abbrev pub ticks_of : FileTime → ℕ
ticks_of ft = ft.high * 2 ^ 32 + ft.low

-- The times with ticks of their own: after 1601-01-01 00:00:00 and below 2 ^ 64 ticks.
abbrev pub InRange : ℤ → Type 0
InRange (pos n) = n * ticks_per_second + ticks_at_unix_epoch < 2 ^ 64
InRange (negsuc n) = n + 1 < seconds_before_epoch

time_ticks : (t : ℤ) → InRange t → 0 < ticks_of (time_to_file_time t)
unfolding time_to_file_time
time_ticks (pos n) h = omega arith
time_ticks (negsuc n) h = omega arith

joined : (ft : FileTime) → ft.low < 2 ^ 32 → bit_or (ft.high * 2 ^ 32) ft.low ≡ ticks_of ft
joined ft h = bit_or_high 32 ft.high ft.low h

file_time_by_ticks :
    (ft : FileTime)
    → ft.low < 2 ^ 32
    → 0 < ticks_of ft
    → file_time_to_time ft ≡ (
        if ltb (ticks_of ft) ticks_at_unix_epoch
        then neg ((ticks_at_unix_epoch - ticks_of ft) / ticks_per_second)
        else pos ((ticks_of ft - ticks_at_unix_epoch) / ticks_per_second))
unfolding file_time_to_time
file_time_by_ticks ft h p = rw (nonzero, joined ft h) refl
  where
    nonzero : (ft.low == 0 && ft.high == 0) ≡ false
    nonzero = ground arith

neg-suc : (k n : ℕ) → k ≡ n + 1 → neg k ≡ negsuc n
neg-suc k n e = ground arith

-- A time after 1601-01-01 00:00:00 and below 2 ^ 64 ticks survives the way to FILETIME and back,
-- dates before 1970 included.
file_time_to_time-time_to_file_time :
    (t : ℤ) → InRange t → file_time_to_time (time_to_file_time t) ≡ t
file_time_to_time-time_to_file_time t h =
    file_time_by_ticks (time_to_file_time t) (low t) (time_ticks t h) ∙ back t h
  where
    low : (t : ℤ) → (time_to_file_time t).low < 2 ^ 32
    low t = unfold time_to_file_time in omega arith

    back :
        (t : ℤ)
        → InRange t
        → (if ltb (ticks_of (time_to_file_time t)) ticks_at_unix_epoch
            then neg ((ticks_at_unix_epoch - ticks_of (time_to_file_time t)) / ticks_per_second)
            else pos ((ticks_of (time_to_file_time t) - ticks_at_unix_epoch) / ticks_per_second))
          ≡ t
    back (pos n) h = unfold time_to_file_time in ground arith
    back (negsuc n) h = unfold time_to_file_time in ground arith

-- Every FILETIME that is set, with a low half of 32 bits, is read within a second of its ticks: nothing wraps around, also
-- before 1970, where the code subtracts in the other direction.
pub file_time_to_time_accurate :
    (ft : FileTime)
    → ft.low < 2 ^ 32
    → is_unset_file_time (some ft) ≡ false
    → let t = file_time_to_time ft in
      (ticks_at_unix_epoch + pos_part t * ticks_per_second
        < ticks_of ft + neg_part t * ticks_per_second + ticks_per_second)
      × (ticks_of ft + neg_part t * ticks_per_second
          < ticks_at_unix_epoch + pos_part t * ticks_per_second + ticks_per_second)
unfolding is_unset_file_time
file_time_to_time_accurate ft h set = ground (arith, file_time_by_ticks ft, neg_parts)
  where
    neg_parts : (k : ℕ) → (pos_part (neg k) ≡ 0) × (neg_part (neg k) ≡ k)
    neg_parts k = ground arith

-- 1601-01-01 00:00:00 is the one time of the range's edge that is lost: its FILETIME is all zero,
-- which means "unknown".
pub time_to_file_time_edge :
    file_time_to_time (time_to_file_time (negsuc (seconds_before_epoch - 1))) ≡ pos 0
unfolding time_to_file_time file_time_to_time
time_to_file_time_edge = refl
