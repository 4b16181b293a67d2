-- ===== src/ListingCache.antt =====
-- `ListingCache` of adbutils.hpp. The clock is injected in the source too: here each call is given
-- what the clock answers. The mutex serialises the calls, so that a history is their sequence.
-- `std::map` is an association list; `get` hands out a copy.
pub mod Below
pub mod History
use adb_wfx_plugin.Base.{
  ℕ, Bool, true, false, ◌||◌, Option, none, some, List, [], ◌∷◌, ◌++◌, Bytes, codes, bytes_eq,
  starts_with, if◌then◌else◌, length, not,
}
use adb_wfx_plugin.Base.Int.{ℤ, pos, ◌-ℤ◌, ltb_ℤ}
use adb_wfx_plugin.Proto.Entry.{DirEntry}

abbrev pub listing_cache_ttl_seconds : ℤ
listing_cache_ttl_seconds = pos 5

pub record Entry : Type 0 where
  pub entries : List DirEntry
  pub stored_at : ℤ

abbrev pub Table : Type 0
Table = List (Bytes × Entry)

pub record ListingCache : Type 0 where
  pub ttl_seconds : ℤ
  pub table : Table

-- `entries_.find`.
pub lookup : Bytes → Table → Option Entry
lookup k [] = none
lookup k ((j, e) ∷ t) = if bytes_eq j k then some e else lookup k t

-- `entries_[k] = e`.
pub assign : Bytes → Entry → Table → Table
assign k e [] = (k, e) ∷ []
assign k e ((j, f) ∷ t) = if bytes_eq j k then (k, e) ∷ t else (j, f) ∷ assign k e t

-- The entries whose key a test keeps, in one pass.
pub keep_keys : (Bytes → Bool) → Table → Table
keep_keys keep [] = []
keep_keys keep ((j, e) ∷ t) = if keep j then (j, e) ∷ keep_keys keep t else keep_keys keep t

-- `entries_.erase(it)` of the one entry with the key.
pub erase : Bytes → Table → Table
unfolding keep_keys
erase k = keep_keys (λ j. not (bytes_eq j k))

unfoldable pub new_cache : ℤ → ListingCache
new_cache ttl_seconds = record { ttl_seconds = ttl_seconds; table = [] }

unfoldable pub put : ListingCache → Bytes → List DirEntry → ℤ → ListingCache
unfolding assign
put c wfx_dir entries now = record c {
  table = assign wfx_dir (record { entries = entries; stored_at = now }) c.table;
}

-- An age outside [0, ttl) counts as expired.
pub is_expired : ℤ → ℤ → Entry → Bool
is_expired ttl_seconds now e =
    let age = now -ℤ e.stored_at in ltb_ℤ age (pos 0) || not (ltb_ℤ age ttl_seconds)

-- `get` at an entry that was found.
pub serve : ListingCache → Bytes → ℤ → Entry → Option (List DirEntry) × ListingCache
serve c wfx_dir now e =
    if is_expired c.ttl_seconds now e
    then (none, record c { table = erase wfx_dir c.table })
    else (some e.entries, c)

-- The listing, if there is a live one, and the cache without an expired one.
unfoldable pub get : ListingCache → Bytes → ℤ → Option (List DirEntry) × ListingCache
unfolding lookup serve erase is_expired
get c wfx_dir now = elim (lookup wfx_dir c.table) [
  | none ↦ (none, c)
  | some e ↦ serve c wfx_dir now e
]

-- The directory itself, or a path below it.
pub covers : Bytes → Bytes → Bool
covers wfx_dir key =
    let child_prefix = wfx_dir ++ codes "/" in bytes_eq key wfx_dir || starts_with child_prefix key

unfoldable pub invalidate : ListingCache → Bytes → ListingCache
unfolding covers keep_keys
invalidate c wfx_dir = record c { table = keep_keys (λ key. not (covers wfx_dir key)) c.table }

unfoldable pub clear : ListingCache → ListingCache
clear c = record c { table = [] }

unfoldable pub size : ListingCache → ℕ
size c = length c.table
