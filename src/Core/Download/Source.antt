-- ===== src/Core/Download/Source.antt =====
-- What `getFile` does to the device: nothing, but for the deletion of a move, which comes last.
use adb_wfx_plugin.Base.{
  ℕ, ◌≡◌, inl, inr, refl, ap, ◌∙◌, Bool, true, false, not, ◌&&◌, Option, none, some, [], ◌∷◌, Bytes,
  codes, is_empty, if◌then◌else◌, Bool-cases,
}
use adb_wfx_plugin.Base.Int.{ℤ}
use adb_wfx_plugin.Base.Exec.{
  Result, ok, err, Exec, pure, fail_if, with_error, continue, Result-cases,
}
use adb_wfx_plugin.RemotePath.{RemotePath, parse_wfx_path, through_symlink, temp_download_path}
use adb_wfx_plugin.Proto.Entry.{DirEntry, is_symlink}
use adb_wfx_plugin.Core.Commands.{command_words}
use adb_wfx_plugin.ShellQuote.Words.{shell_words}
use adb_wfx_plugin.Core.{State, outside}
use adb_wfx_plugin.Core.Keeps.{
  KeptBy, KeptBy-trans, Keeping, continue-KeptBy, fail_if-Keeping, with_error-KeptBy,
}
use adb_wfx_plugin.Core.Interface.{AdbClient, Host, ProgressFn}
use adb_wfx_plugin.Core.Commands.{delete_file, rm_command}
use adb_wfx_plugin.Core.Laws.{Ran, run_mutating_shell_command-Ran}
use adb_wfx_plugin.Core.Download.{
  FileError, Transfer, has_flag, copyflags_move, copyflags_overwrite, copyflags_resume, silent,
  failed, not_supported, source_kept, local_file_exists, through_link, remote_info, require_found,
  receive, remove_and_fail, remove_local, move_into_place, stamp_local, download_to, delete_source,
  get_file, read_error, file_exists,
}

-- What is seen of the device, which neither looking at it nor a call of the local system changes.
pub record DeviceView {W : Type 0} (client : AdbClient W) (host : Host W) (D : Type 0)
    : Type 0 where
  pub device : W → D
  pub sync_stat_keeps :
      (serial path : Bytes) (w : W) → device (client.sync_stat serial path w).1 ≡ device w
  pub sync_recv_keeps :
      (serial path : Bytes) (fd size : ℕ) (progress : ProgressFn W) (w : W)
      → ((done total : ℕ) (v : W) → device (progress done total v).1 ≡ device v)
      → device (client.sync_recv serial path fd size progress w).1 ≡ device w
  pub stat_keeps : (path : Bytes) (w : W) → device (host.stat path w).1 ≡ device w
  pub open_write_keeps : (path : Bytes) (w : W) → device (host.open_write path w).1 ≡ device w
  pub close_keeps : (fd : ℕ) (w : W) → device (host.close fd w) ≡ device w
  pub unlink_keeps : (path : Bytes) (w : W) → device (host.unlink path w).1 ≡ device w
  pub rename_keeps : (from to : Bytes) (w : W) → device (host.rename from to w).1 ≡ device w
  pub set_mtime_keeps :
      (path : Bytes) (t : ℤ) (w : W) → device (host.set_mtime path t w).1 ≡ device w

module _ {W D : Type 0} (client : AdbClient W) (host : Host W)
    (view : DeviceView client host D) where
  -- Neither the device nor the cache has changed.
  abbrev pub Kept : State W → State W → Type 0
  Kept = KeptBy view.device

  abbrev Keeps : {E A : Type 0} → Exec E (State W) A → Type 0
  Keeps = Keeping view.device

  remove_and_fail-Keeps :
      (path : Bytes) (e : FileError) → Keeps (remove_and_fail client host path e)
  unfolding remove_and_fail remove_local KeptBy
  remove_and_fail-Keeps path e s = (view.unlink_keeps path s.world, refl)

  receive-Keeps :
      (rp : RemotePath) (path : Bytes) (size : ℕ) (progress : ProgressFn W)
      → ((done total : ℕ) (v : W) → view.device (progress done total v).1 ≡ view.device v)
      → Keeps (receive client host rp path size progress)
  unfolding receive remove_and_fail remove_local KeptBy
  receive-Keeps rp path size progress q s = elim (Result-cases opened.0) [
    | inr (m, e) ↦ rw e (view.open_write_keeps path s.world, refl)
    | inl (fd, e) ↦ elim (Result-cases (received fd).0) [
      | inl (u, h) ↦ rw (e, h) (closed fd, refl)
      | inr (m, h) ↦ rw (e, h) (view.unlink_keeps path _ ∙ closed fd, refl)
    ]
  ]
    where
      opened : Result Bytes ℕ × W
      opened = host.open_write path s.world

      received : ℕ → Result Bytes (Unit {0}) × W
      received fd = client.sync_recv rp.serial rp.path fd size progress opened.1

      closed : (fd : ℕ) → view.device (host.close fd (received fd).1) ≡ view.device s.world
      closed fd =
          view.close_keeps fd (received fd).1
          ∙ view.sync_recv_keeps rp.serial rp.path fd size progress opened.1 q
          ∙ view.open_write_keeps path s.world

  move_into_place-Keeps :
      (b : Bool) (from to : Bytes) → Keeps (move_into_place client host b from to)
  unfolding move_into_place remove_and_fail remove_local KeptBy
  move_into_place-Keeps false from to s = (refl, refl)
  move_into_place-Keeps true from to s = elim (Result-cases (host.rename from to s.world).0) [
    | inl (u, e) ↦ rw e (view.rename_keeps from to s.world, refl)
    | inr (m, e) ↦ rw e (view.unlink_keeps from _ ∙ view.rename_keeps from to s.world, refl)
  ]

  stamp_local-Keeps : (path : Bytes) (t : ℤ) → Keeps (stamp_local client host path t)
  unfolding stamp_local remove_and_fail remove_local KeptBy
  stamp_local-Keeps path t s = elim (Result-cases (host.set_mtime path t s.world).0) [
    | inl (u, e) ↦ rw e (view.set_mtime_keeps path t s.world, refl)
    | inr (m, e) ↦ rw e (view.unlink_keeps path _ ∙ view.set_mtime_keeps path t s.world, refl)
  ]

  download_to-Keeps :
      (rp : RemotePath) (info : DirEntry) (local_path : Bytes) (b : Bool) (progress : ProgressFn W)
      → ((done total : ℕ) (v : W) → view.device (progress done total v).1 ≡ view.device v)
      → Keeps (download_to client host rp info local_path b progress)
  unfolding download_to
  download_to-Keeps rp info local_path b progress q s =
      let write_path = if b then temp_download_path local_path host.pid else local_path in
      continue-KeptBy view.device s (receive client host rp write_path info.size progress s) _
        (receive-Keeps rp write_path info.size progress q s)
        λ _ s1.
          continue-KeptBy view.device s1 (move_into_place client host b write_path local_path s1) _
            (move_into_place-Keeps b write_path local_path s1)
            λ _ s2. stamp_local-Keeps local_path info.mtime s2

  local_file_exists-Keeps : (path : Bytes) → Keeps (local_file_exists client host path)
  unfolding local_file_exists KeptBy
  local_file_exists-Keeps path s = (view.stat_keeps path s.world, refl)

  through_link-Keeps :
      (rp : RemotePath) (info : DirEntry) → Keeps (through_link client host rp info)
  unfolding through_link KeptBy
  through_link-Keeps rp info s = elim (Bool-cases (is_symlink info)) [
    | inl e ↦ rw e (view.sync_stat_keeps rp.serial (through_symlink rp.path) s.world, refl)
    | inr e ↦ rw e (refl, refl)
  ]

  require_found-Keeps : (info : Option DirEntry) → Keeps (require_found client host info)
  unfolding KeptBy
  require_found-Keeps none s = (refl, refl)
  require_found-Keeps (some info) s = (refl, refl)

  remote_info-Keeps : (rp : RemotePath) → Keeps (remote_info client host rp)
  unfolding remote_info KeptBy
  remote_info-Keeps rp s =
      continue-KeptBy view.device s
        (with_error (failed read_error) (outside (client.sync_stat rp.serial rp.path)) s) _
        (with_error-KeptBy view.device (failed read_error) (client.sync_stat rp.serial rp.path) s
          (view.sync_stat_keeps rp.serial rp.path s.world))
        λ exists s1.
          continue-KeptBy view.device s1 (require_found client host exists s1) _
            (require_found-Keeps exists s1) (through_link-Keeps rp)

  -- What `getFile` says of a deletion.
  unfoldable pub Said : Result Bytes (Unit {0}) → Bytes → Type 0
  Said (ok u) m = m ≡ []
  Said (err e) m = (m ≡ source_kept e) × (is_empty m ≡ false)

  abbrev pub write_path : Bytes → Bool → Bytes
  write_path local_path taken = if taken then temp_download_path local_path host.pid else local_path

  -- The file was received, from a state that differs in neither the device nor the cache: the local
  -- file was opened, `syncRecv` of the file's path into it succeeded, and so did all of the download.
  unfoldable pub Fetched : RemotePath → Bytes → ProgressFn W → State W → State W → Type 0
  Fetched rp local_path progress s s1 =
      (info : DirEntry) × (taken : Bool) × (s0 : State W) × (fd : ℕ) × Kept s s0
      × (let (opened, w) = host.open_write (write_path local_path taken) s0.world in
          (opened ≡ ok fd)
          × ((client.sync_recv rp.serial rp.path fd info.size progress w).0 ≡ ok tt))
      × (download_to client host rp info local_path taken progress s0 ≡ (ok tt, s1))

  received :
      (rp : RemotePath) (path : Bytes) (size : ℕ) (progress : ProgressFn W) (s : State W)
      → (receive client host rp path size progress s).0 ≡ ok tt
      → let (opened, w) = host.open_write path s.world in
        (fd : ℕ) × (opened ≡ ok fd)
        × ((client.sync_recv rp.serial rp.path fd size progress w).0 ≡ ok tt)
  unfolding receive remove_and_fail remove_local
  received rp path size progress s = elim (Result-cases (host.open_write path s.world).0) [
    | inr (m, e) ↦ rw e (λ k. cc k)
    | inl (fd, e) ↦
        elim (Result-cases
          (client.sync_recv rp.serial rp.path fd size progress
            (host.open_write path s.world).1).0) [
              | inl (u, h) ↦ λ k. (fd, e, h)
              | inr (m, h) ↦ rw (e, h) (λ k. cc k)
            ]
  ]

  first_ok :
      {A B : Type 0} (out : Result FileError A × State W) (f : A → Transfer W B) {b : B}
      → (continue out f).0 ≡ ok b
      → (a : A) × (out.0 ≡ ok a)
  first_ok (ok a, s) f e = (a, refl)
  first_ok (err m, s) f e = cc e

  fetched :
      (rp : RemotePath) (info : DirEntry) (local_path : Bytes) (taken : Bool)
      (progress : ProgressFn W) (s s0 s1 : State W)
      → Kept s s0
      → download_to client host rp info local_path taken progress s0 ≡ (ok tt, s1)
      → Fetched rp local_path progress s s1
  unfolding Fetched
  fetched rp info local_path taken progress s s0 s1 kept e =
      let (u, h) = received_ok in
      let (fd, o, g) = received rp (write_path local_path taken) info.size progress s0 h in
      (info, taken, s0, fd, kept, (o, g), e)
    where
      received_ok :
          (u : Unit {0}) × ((receive client host rp
              (write_path local_path taken)
              info.size
              progress
              s0).0
            ≡ ok u)
      received_ok = unfold download_to in first_ok _ _ (ap (λ p. p.0) e)

  -- Once the file is received, in a state that differs in neither the device nor the cache, the shell of the device is given a
  -- command that it reads as `rm -f` of the file, and that was the last call; the text says whether the
  -- shell has complained.
  unfoldable pub Removed : Bytes → Bytes → ProgressFn W → State W → Bytes → State W → Type 0
  Removed wfx_remote local_path progress s m s' =
      let rp = parse_wfx_path wfx_remote in
      (s1 : State W) × (command : Bytes) × (r : Result Bytes (Unit {0})) × Kept s s1
      × Fetched rp local_path progress s s1
      × (shell_words command ≡ some (codes "rm" ∷ codes "-f" ∷ rp.path ∷ []))
      × (let (answer, w) = client.shell_command rp.serial command s1.world in
          Ran wfx_remote s1 answer w r s')
      × Said r m

  -- A failure has changed neither the device nor the cache, nor has a success without the move flag.
  pub Sourced :
      Bool → Bytes → Bytes → ProgressFn W → State W → Result FileError Bytes → State W → Type 0
  Sourced move wfx_remote local_path progress s (err e) s' = Kept s s'
  Sourced false wfx_remote local_path progress s (ok m) s' = (m ≡ []) × Kept s s'
  Sourced true wfx_remote local_path progress s (ok m) s' =
      Removed wfx_remote local_path progress s m s'

  deleted-Sourced :
      (wfx_remote local_path : Bytes) (progress : ProgressFn W) (s s1 : State W)
      → Kept s s1
      → Fetched (parse_wfx_path wfx_remote) local_path progress s s1
      → (r : Result Bytes (Unit {0})) (s2 : State W)
      → let rp = parse_wfx_path wfx_remote in
        let (answer, w) = client.shell_command rp.serial (rm_command rp.path) s1.world in
        Ran wfx_remote s1 answer w r s2
        → let (r', s') =
            (elim r as (λ _. Transfer W Bytes) [ ok _ ↦ pure [] | err m ↦ pure (source_kept m) ])
              s2 in
          Sourced true wfx_remote local_path progress s r' s'
  unfolding Sourced Removed Said
  deleted-Sourced wfx_remote local_path progress s s1 kept got (ok u) s2 ran =
      let path = (parse_wfx_path wfx_remote).path in
      (s1, rm_command path, ok u, kept, got, (command_words path path).0, ran, refl)
  deleted-Sourced wfx_remote local_path progress s s1 kept got (err m) s2 ran =
      let path = (parse_wfx_path wfx_remote).path in
      (s1, rm_command path, err m, kept, got, (command_words path path).0, ran, (refl, refl))

  delete_source-Sourced :
      (move : Bool) (wfx_remote local_path : Bytes) (progress : ProgressFn W) (s s1 : State W)
      → Kept s s1
      → Fetched (parse_wfx_path wfx_remote) local_path progress s s1
      → let (r, s') = delete_source client host move wfx_remote s1 in
        Sourced move wfx_remote local_path progress s r s'
  unfolding delete_source Sourced delete_file
  delete_source-Sourced false wfx_remote local_path progress s s1 kept got = (refl, kept)
  delete_source-Sourced true wfx_remote local_path progress s s1 kept got =
      let rp = parse_wfx_path wfx_remote in
      let deleted = delete_file client wfx_remote s1 in
      deleted-Sourced wfx_remote local_path progress s s1 kept got deleted.0 deleted.1
        (run_mutating_shell_command-Ran client rp (rm_command rp.path) wfx_remote s1)

  abbrev Outcome :
      Bool → Bytes → Bytes → ProgressFn W → State W → Result FileError Bytes × State W → Type 0
  Outcome move wfx_remote local_path progress s out =
      Sourced move wfx_remote local_path progress s out.0 out.1

  then-Sourced :
      {A : Type 0} (move : Bool) (wfx_remote local_path : Bytes) (progress : ProgressFn W)
      (s : State W) (out : Result FileError A × State W) (f : A → Transfer W Bytes)
      → Kept s out.1
      → ((a : A) (s' : State W)
          → out ≡ (ok a, s')
          → Kept s s'
          → Outcome move wfx_remote local_path progress s (f a s'))
      → Outcome move wfx_remote local_path progress s (continue out f)
  unfolding Sourced
  then-Sourced move wfx_remote local_path progress s (ok a, s') f h q = q a s' refl h
  then-Sourced move wfx_remote local_path progress s (err e, s') f h q = h

  -- Whatever the flags are and wherever it fails: on a failure neither the device nor the cache has
  -- changed. A success without the move flag has changed neither and has no text. A success with it has
  -- received the file with `syncRecv` and finished the download, and then given the shell of the device,
  -- as its last call, one command that is read as `rm -f` of the file. If
  -- that answers newlines only, there is no text, and the cache finds nothing at the file, at its
  -- directory and below them, and elsewhere what it found before. Else the transfer is still a success,
  -- the text says that the source is there and why, and the cache is what it was.
  pub get_file-Sourced :
      (wfx_remote local_path : Bytes) (copy_flags : ℕ) (progress : ProgressFn W) (s : State W)
      → ((done total : ℕ) (v : W) → view.device (progress done total v).1 ≡ view.device v)
      → let (r, s') = get_file client host wfx_remote local_path copy_flags progress s in
        Sourced (has_flag copy_flags copyflags_move) wfx_remote local_path progress s r s'
  unfolding get_file
  get_file-Sourced wfx_remote local_path copy_flags progress s q =
      then-Sourced move wfx_remote local_path progress s (not_resumed s) _
        (fail_if-Keeping view.device (has_flag copy_flags copyflags_resume) (silent not_supported)
          s)
        λ _ s1 _ k1.
          then-Sourced move wfx_remote local_path progress s (remote_info client host rp s1) _
            (KeptBy-trans view.device s s1 _ k1 (remote_info-Keeps rp s1))
            λ info s2 _ k2.
              then-Sourced move wfx_remote local_path progress s
                (local_file_exists client host local_path s2) _
                (KeptBy-trans view.device s s2 _ k2 (local_file_exists-Keeps local_path s2))
                λ exists s3 _ k3.
                  then-Sourced move wfx_remote local_path progress s (not_taken exists s3) _
                    (KeptBy-trans view.device s s3 _ k3 (
                      fail_if-Keeping view.device
                        (not (has_flag copy_flags copyflags_overwrite) && exists)
                        (silent file_exists) s3))
                    λ _ s4 _ k4.
                      then-Sourced move wfx_remote local_path progress s
                        (download_to client host rp info local_path exists progress s4) _
                        (KeptBy-trans view.device s s4 _ k4
                          (download_to-Keeps rp info local_path exists progress q s4))
                        λ _ s5 e5 k5.
                          delete_source-Sourced move wfx_remote local_path progress s s5 k5
                            (fetched rp info local_path exists progress s s4 s5 k4 e5)
    where
      rp : RemotePath
      rp = parse_wfx_path wfx_remote

      move : Bool
      move = has_flag copy_flags copyflags_move

      not_resumed : Transfer W (Unit {0})
      not_resumed = fail_if (has_flag copy_flags copyflags_resume) (silent not_supported)

      not_taken : Bool → Transfer W (Unit {0})
      not_taken exists =
          fail_if (not (has_flag copy_flags copyflags_overwrite) && exists) (silent file_exists)
