-- ===== src/ListingCache/History.antt =====
-- What the cache holds after any history of calls, and what it may serve.
use adb_wfx_plugin.Base.{
  ◌≡◌, inl, inr, refl, sym, ap, ◌∙◌, Bool, true, false, ◌||◌, not, Option, none, some, List, [],
  ◌∷◌, Bytes, bytes_eq, bytes_eq_iff, bytes_eq_comm, if◌then◌else◌, arith, Bool-cases, Option-cases,
}
use adb_wfx_plugin.Base.Int.{ℤ, pos, negsuc, ◌-ℤ◌, ltb_ℤ}
use adb_wfx_plugin.Proto.Entry.{DirEntry}
use adb_wfx_plugin.ListingCache.Below.{is_below, covers-is_below}
use adb_wfx_plugin.ListingCache.{
  Entry, Table, ListingCache, lookup, assign, keep_keys, erase, new_cache, put, is_expired, serve,
  get, covers, invalidate, clear,
}

lookup-assign :
    (k j : Bytes) (e : Entry) (t : Table)
    → lookup j (assign k e t) ≡ (if bytes_eq k j then some e else lookup j t)
unfolding lookup assign
lookup-assign k j e [] = refl
lookup-assign k j e ((i, f) ∷ t) =
    ground (arith, bytes_eq_iff k j, bytes_eq_iff i k, bytes_eq_iff i j, lookup-assign k j e t)

lookup-keep_keys :
    (keep : Bytes → Bool) (j : Bytes) (t : Table)
    → lookup j (keep_keys keep t) ≡ (if keep j then lookup j t else none)
unfolding lookup keep_keys
lookup-keep_keys keep j [] = ground arith
lookup-keep_keys keep j ((i, f) ∷ t) = elim (Bool-cases (bytes_eq i j)) [
  | inl e ↦ ground (arith, e, ap keep ((bytes_eq_iff i j).0 e), lookup-keep_keys keep j t)
  | inr e ↦ ground (arith, e, lookup-keep_keys keep j t)
]

-- One call, with the clock's answer where it reads the clock.
pub data Call : Type 0 where
  puts : Bytes → List DirEntry → ℤ → Call
  gets : Bytes → ℤ → Call
  invalidates : Bytes → Call
  clears : Call

pub step : ListingCache → Call → ListingCache
step c (puts d es now) = put c d es now
step c (gets d now) = (get c d now).1
step c (invalidates d) = invalidate c d
step c clears = clear c

-- A history is a list of calls, the latest first.
pub run : ℤ → List Call → ListingCache
unfolding step
run ttl [] = new_cache ttl
run ttl (call ∷ earlier) = step (run ttl earlier) call

-- An age from 0 up to, and not including, the time to live.
pub is_fresh : ℤ → ℤ → Bool
is_fresh ttl (pos age) = ltb_ℤ (pos age) ttl
is_fresh ttl (negsuc n) = false

by_age : (ttl age : ℤ) → (ltb_ℤ age (pos 0) || not (ltb_ℤ age ttl)) ≡ not (is_fresh ttl age)
unfolding is_fresh
by_age ttl (pos n) = ground arith
by_age ttl (negsuc n) = ground arith

is_expired-is_fresh :
    (ttl now : ℤ) (e : Entry) → is_expired ttl now e ≡ not (is_fresh ttl (now -ℤ e.stored_at))
unfolding is_expired is_fresh
is_expired-is_fresh ttl now e = by_age ttl (now -ℤ e.stored_at)

pub drop_expired : ℤ → ℤ → Option Entry → Option Entry
drop_expired ttl now none = none
drop_expired ttl now (some e) = if is_fresh ttl (now -ℤ e.stored_at) then some e else none

-- What a history leaves for the directory `k`, by the calls alone: the latest listing put there,
-- unless a later call dropped it.
pub left : ℤ → Bytes → List Call → Option Entry
unfolding drop_expired is_fresh
left ttl k [] = none
left ttl k (puts d es now ∷ earlier) =
    if bytes_eq d k then some (record { entries = es; stored_at = now }) else left ttl k earlier
left ttl k (gets d now ∷ earlier) =
    let before = left ttl k earlier in if bytes_eq d k then drop_expired ttl now before else before
left ttl k (invalidates d ∷ earlier) =
    let before = left ttl k earlier in if is_below d k then none else before
left ttl k (clears ∷ earlier) = none

abbrev pub listing_of : Option Entry → Option (List DirEntry)
listing_of none = none
listing_of (some e) = some e.entries

-- What `get` answers, and what it leaves.
get_answer :
    (c : ListingCache) (d : Bytes) (now : ℤ)
    → (get c d now).0 ≡ listing_of (drop_expired c.ttl_seconds now (lookup d c.table))
unfolding get drop_expired
get_answer c d now = elim (Option-cases (lookup d c.table)) [
  | inl h ↦ rw (h, get, drop_expired) refl
  | inr (e, h) ↦ rw (h, get, drop_expired) (ground (arith, is_expired-is_fresh c.ttl_seconds now e))
]

get_ttl : (c : ListingCache) (d : Bytes) (now : ℤ) → (get c d now).1.ttl_seconds ≡ c.ttl_seconds
unfolding get
get_ttl c d now = ground arith

get_leaves :
    (c : ListingCache) (d k : Bytes) (now : ℤ)
    → lookup k (get c d now).1.table ≡ (
        if bytes_eq d k
        then drop_expired c.ttl_seconds now (lookup k c.table)
        else lookup k c.table)
unfolding get drop_expired
get_leaves c d k now = elim (Option-cases (lookup d c.table)) [
  | inl h ↦
      rw (h, get)
        (elim (Bool-cases (bytes_eq d k)) [
          | inl e ↦ rw (e, sym (same e) ∙ h) refl
          | inr e ↦ rw e refl
        ])
  | inr (f, h) ↦
      rw (h, get)
        (elim (Bool-cases (bytes_eq d k)) [
          | inl e ↦ rw (e, sym (same e) ∙ h) (found f e (sym (same e) ∙ h))
          | inr e ↦ rw e (ground (arith, other, bytes_eq_comm d k, e))
        ])
]
  where
    same : bytes_eq d k ≡ true → lookup d c.table ≡ lookup k c.table
    same e = ap (λ j. lookup j c.table) ((bytes_eq_iff d k).0 e)

    other : lookup k (erase d c.table) ≡ (if not (bytes_eq k d) then lookup k c.table else none)
    other = unfold erase in lookup-keep_keys (λ j. not (bytes_eq j d)) k c.table

    found :
        (f : Entry)
        → bytes_eq d k ≡ true
        → lookup k c.table ≡ some f
        → lookup k (serve c d now f).1.table ≡ drop_expired c.ttl_seconds now (some f)
    found f e h = elim (Bool-cases (is_expired c.ttl_seconds now f)) [
      | inl x ↦
          rw x
            (ground (arith, other, bytes_eq_comm d k, e, is_expired-is_fresh c.ttl_seconds now f))
      | inr x ↦ rw x (h ∙ ground (arith, x, is_expired-is_fresh c.ttl_seconds now f))
    ]

run-ttl : (ttl : ℤ) (calls : List Call) → (run ttl calls).ttl_seconds ≡ ttl
unfolding run new_cache put invalidate clear
run-ttl ttl [] = refl
run-ttl ttl (puts d es now ∷ earlier) = run-ttl ttl earlier
run-ttl ttl (gets d now ∷ earlier) = get_ttl (run ttl earlier) d now ∙ run-ttl ttl earlier
run-ttl ttl (invalidates d ∷ earlier) = run-ttl ttl earlier
run-ttl ttl (clears ∷ earlier) = run-ttl ttl earlier

not_if : (b : Bool) (o : Option Entry) → (if not b then o else none) ≡ (if b then none else o)
not_if true o = refl
not_if false o = refl

pub lookup-invalidate :
    (d k : Bytes) (c : ListingCache)
    → lookup k (invalidate c d).table ≡ (if is_below d k then none else lookup k c.table)
unfolding invalidate
lookup-invalidate d k c =
    lookup-keep_keys (λ key. not (covers d key)) k c.table
    ∙ not_if (covers d k) (lookup k c.table)
    ∙ ap (λ b. if b then none else lookup k c.table) (covers-is_below d k)

pub lookup-put :
    (c : ListingCache) (d k : Bytes) (es : List DirEntry) (now : ℤ)
    → lookup k (put c d es now).table
      ≡ (if bytes_eq d k then some (record { entries = es; stored_at = now }) else lookup k c.table)
unfolding put
lookup-put c d k es now = lookup-assign d k (record { entries = es; stored_at = now }) c.table

-- After any history the table holds, under each key, what the history left there.
pub lookup-run :
    (ttl : ℤ) (k : Bytes) (calls : List Call) → lookup k (run ttl calls).table ≡ left ttl k calls
unfolding run left put invalidate
lookup-run ttl k [] = unfold new_cache lookup in refl
lookup-run ttl k (puts d es now ∷ earlier) =
    lookup-assign d k (record { entries = es; stored_at = now }) (run ttl earlier).table
    ∙ ap (λ o. if bytes_eq d k then some (record { entries = es; stored_at = now }) else o)
        (lookup-run ttl k earlier)
lookup-run ttl k (gets d now ∷ earlier) =
    get_leaves (run ttl earlier) d k now
    ∙ ap (λ o. if bytes_eq d k then drop_expired (run ttl earlier).ttl_seconds now o else o)
        (lookup-run ttl k earlier)
    ∙ ap (λ t. if bytes_eq d k then drop_expired t now (left ttl k earlier) else left ttl k earlier)
        (run-ttl ttl earlier)
lookup-run ttl k (invalidates d ∷ earlier) =
    lookup-invalidate d k (run ttl earlier)
    ∙ ap (λ o. if is_below d k then none else o) (lookup-run ttl k earlier)
lookup-run ttl k (clears ∷ earlier) = unfold clear lookup in refl

-- After any history of calls, `get` serves the listing that the history left for the directory, if
-- its age is from 0 to less than `ttl` seconds, and else nothing. A call that drops a directory drops
-- it and what follows it behind a slash, and leaves a sibling whose name only begins alike; what it
-- drops for "/" is "/" and what begins with "//", not the devices below the root.
pub get-run :
    (ttl : ℤ) (k : Bytes) (now : ℤ) (calls : List Call)
    → (get (run ttl calls) k now).0 ≡ listing_of (drop_expired ttl now (left ttl k calls))
get-run ttl k now calls =
    get_answer (run ttl calls) k now
    ∙ ap (λ t. listing_of (drop_expired t now (lookup k (run ttl calls).table))) (run-ttl ttl calls)
    ∙ ap (λ o. listing_of (drop_expired ttl now o)) (lookup-run ttl k calls)
