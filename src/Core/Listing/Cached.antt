-- ===== src/Core/Listing/Cached.antt =====
-- What listing a directory on the device leaves in the cache.
use adb_wfx_plugin.Base.{
  ◌≡◌, inl, inr, refl, ap, ◌∙◌, some, List, [], ◌∷◌, Bytes, bytes_eq, if◌then◌else◌, arith,
}
use adb_wfx_plugin.Base.Int.{ℤ}
use adb_wfx_plugin.Base.Exec.{Result, ok, err, pure, ◌>>=◌, Result-cases}
use adb_wfx_plugin.Proto.Entry.{DirEntry}
use adb_wfx_plugin.RemotePath.{RemotePath}
use adb_wfx_plugin.ListingCache.{lookup}
use adb_wfx_plugin.ListingCache.History.{lookup-put}
use adb_wfx_plugin.Core.{State, Method, outside}
use adb_wfx_plugin.Core.Interface.{AdbClient, Host}
use adb_wfx_plugin.Core.Listing.{
  check_is_directory, check_link, resolve_entry, resolve_symlink_targets, cache_put, list_uncached,
}

module _ {W : Type 0} where
  -- A method that leaves the cache alone, whether it fails or not.
  abbrev pub Keeps : {A : Type 0} → Method W A → Type 0
  Keeps m = (s : State W) → (m s).1.cache ≡ s.cache

  Keeps->>= :
      {A B : Type 0} (m : Method W A) (f : A → Method W B) (s : State W)
      → (m s).1.cache ≡ s.cache
      → ((a : A) → Keeps (f a))
      → ((m >>= f) s).1.cache ≡ s.cache
  Keeps->>= m f s h k = elim (Result-cases (m s).0) [
    | inl (a, e) ↦ rw e (k a (m s).1 ∙ h)
    | inr (x, e) ↦ rw e h
  ]

  -- Of a listing: on success the directory has the entries that were returned, and no other
  -- directory changes; a failure changes nothing.
  pub Listed : Bytes → State W → Result Bytes (List DirEntry) → State W → Type 0
  Listed wfx_dir s (err m) s' = s'.cache ≡ s.cache
  Listed wfx_dir s (ok resolved) s' =
      (now : ℤ) × ((k : Bytes)
        → lookup k s'.cache.table ≡ (
            if bytes_eq wfx_dir k
            then some (record { entries = resolved; stored_at = now })
            else lookup k s.cache.table))

  Listed->>= :
      {A : Type 0} (wfx_dir : Bytes) (s s' : State W) (m : Method W A)
      (f : A → Method W (List DirEntry))
      → (m s').1.cache ≡ s.cache
      → ((a : A) (s'' : State W) → s''.cache ≡ s.cache → Listed wfx_dir s (f a s'').0 (f a s'').1)
      → Listed wfx_dir s ((m >>= f) s').0 ((m >>= f) s').1
  unfolding Listed
  Listed->>= wfx_dir s s' m f h k = elim (Result-cases (m s').0) [
    | inl (a, e) ↦ rw e (k a (m s').1 h)
    | inr (x, e) ↦ rw e h
  ]

module _ {W : Type 0} (client : AdbClient W) where
  check_link-Keeps :
      (serial path : Bytes) (info : DirEntry) → Keeps (check_link client serial path info)
  unfolding check_link
  check_link-Keeps serial path info s = ground arith

  check_is_directory-Keeps : (serial path : Bytes) → Keeps (check_is_directory client serial path)
  unfolding check_is_directory
  check_is_directory-Keeps serial path s = ground arith

  resolve_entry-Keeps :
      (serial dir_path : Bytes) (e : DirEntry) → Keeps (resolve_entry client serial dir_path e)
  unfolding resolve_entry
  resolve_entry-Keeps serial dir_path e s = ground arith

  resolve_symlink_targets-Keeps :
      (serial dir_path : Bytes) (entries : List DirEntry)
      → Keeps (resolve_symlink_targets client serial dir_path entries)
  unfolding resolve_symlink_targets
  resolve_symlink_targets-Keeps serial dir_path [] s = refl
  resolve_symlink_targets-Keeps serial dir_path (e ∷ entries) s =
      Keeps->>= (resolve_entry client serial dir_path e)
        (λ e'. resolve_symlink_targets client serial dir_path entries >>= λ rest. pure (e' ∷ rest))
        s (resolve_entry-Keeps serial dir_path e s)
        λ e' s'.
          Keeps->>= (resolve_symlink_targets client serial dir_path entries)
            (λ rest. pure (e' ∷ rest)) s' (resolve_symlink_targets-Keeps serial dir_path entries s')
            λ rest s''. refl

module _ {W : Type 0} (client : AdbClient W) (host : Host W) where
  put_lem :
      (wfx_dir : Bytes) (s s' : State W) (resolved : List DirEntry)
      → s'.cache ≡ s.cache
      → let (r, s'') = (cache_put client host wfx_dir resolved >>= λ _. pure resolved) s' in
        Listed wfx_dir s r s''
  unfolding cache_put Listed
  put_lem wfx_dir s s' resolved e = (
    (host.clock s'.world).0,
    λ k.
        lookup-put s'.cache wfx_dir k resolved (host.clock s'.world).0
        ∙ ap
            (λ c.
              if bytes_eq wfx_dir k
              then some (record { entries = resolved; stored_at = (host.clock s'.world).0 })
              else lookup k c.table)
            e,
  )

  -- After a directory was listed on the device, the cache holds under it the entries that were
  -- returned, and under every other key what it held; after a failure it is what it was.
  pub list_uncached-Listed :
      (wfx_dir : Bytes) (rp : RemotePath) (s : State W)
      → let (result, s') = list_uncached client host wfx_dir rp s in Listed wfx_dir s result s'
  unfolding list_uncached Listed
  list_uncached-Listed wfx_dir rp s =
      Listed->>= wfx_dir s s (check_is_directory client rp.serial rp.path) _
        (check_is_directory-Keeps client rp.serial rp.path s)
        λ u s1 h1.
          Listed->>= wfx_dir s s1 (outside (client.sync_list rp.serial rp.path)) _ h1
            λ entries s2 h2.
              Listed->>= wfx_dir s s2 (resolve_symlink_targets client rp.serial rp.path entries) _
                (resolve_symlink_targets-Keeps client rp.serial rp.path entries s2 ∙ h2)
                λ resolved s3 h3. put_lem wfx_dir s s3 resolved h3
