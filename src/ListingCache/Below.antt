-- ===== src/ListingCache/Below.antt =====
-- What `invalidate` drops, said of the paths alone.
use adb_wfx_plugin.Base.{
  ◌≡◌, refl, Bool, true, false, ◌&&◌, [], ◌∷◌, Bytes, ◌==◌, bytes_eq, starts_with, arith,
}
use adb_wfx_plugin.ListingCache.{covers}

-- The directory itself, or what follows it behind a slash; "/S/sdcardX" is not below "/S/sdcard".
unfoldable pub is_below : Bytes → Bytes → Bool
is_below [] [] = true
is_below [] (c ∷ path) = c == b'/'
is_below (x ∷ dir) [] = false
is_below (x ∷ dir) (c ∷ path) = (x == c) && is_below dir path

pub covers-is_below : (dir path : Bytes) → covers dir path ≡ is_below dir path
unfolding covers is_below bytes_eq starts_with
covers-is_below [] [] = refl
covers-is_below [] (c ∷ path) = ground arith
covers-is_below (x ∷ dir) [] = refl
covers-is_below (x ∷ dir) (c ∷ path) = ground (arith, covers-is_below dir path)
