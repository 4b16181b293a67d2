-- ===== src/Client/Recv/Chunks.antt =====
-- What the reads of `syncRecv`, and the writing of a chunk, leave.
use adb_wfx_plugin.Base.{
  ℕ, ◌≡◌, refl, sym, ap, ◌∙◌, Bool, not, Option, none, some, ◌++◌, Bytes, codes, length, ltb,
  Bool-cases, inl, inr, ◌==◌, ◌+◌, ◌%◌, ◌^◌,
}
use adb_wfx_plugin.Base.Exec.{
  Result, ok, err, pure, fail_if, ◌>>◌, continue, Result-cases, Ends, Ends-of, Ends-map,
  continue-Ends,
}
use adb_wfx_plugin.Core.Interface.{ProgressFn}
use adb_wfx_plugin.Core.Download.{adb_cancelled}
use adb_wfx_plugin.Client.{
  Line, message, Transport, Connection, explain, or_connection_error, read_exactly, read_body,
}
use adb_wfx_plugin.Client.Sync.{
  Files, write_all_to_fd, on_file, on_world_of, read_sync_fail_message, sync_fail_message_max,
  fail_text, FileFailure, fail_sync, should_continue,
}
use adb_wfx_plugin.Client.Transfers.{
  Transfer, more, cancelled_or, cancellation_or, with_stall, counted, recv_chunk,
}
use adb_wfx_plugin.Client.Recv.Laws.{RecvLaws, Wrote, Grown, Grown-same, write_all_to_fd-Ends}

module _ {W : Type 0} {t : Transport W} {files : Files W} {x : Transfer W}
    (connection : Connection W) (laws : RecvLaws t files x connection.number) where
  abbrev pub on : ℕ → Connection W
  on done = with_stall connection x done

  -- Neither the stream nor the file has changed.
  Same : Line W → Line W → Type 0
  Same s s' =
      (laws.written s'.world ≡ laws.written s.world)
      × (laws.incoming s'.world ≡ laws.incoming s.world)

  unfoldable pub Unwritten : Line W → Line W → Type 0
  Unwritten s s' = laws.written s'.world ≡ laws.written s.world

  unfoldable pub ReadFrom : Line W → ℕ → Bytes → Line W → Type 0
  ReadFrom s n bytes s' =
      (length bytes ≡ n)
      × (laws.incoming s.world ≡ bytes ++ laws.incoming s'.world)
      × (laws.written s'.world ≡ laws.written s.world)

  pub explain-Ends :
      {A : Type 0} (Ok : A → Line W → Type 0) (Failed : Line W → Type 0) (c : Connection W)
      (what : Bytes) (out : Result (Unit {0}) A × Line W)
      → Ends Ok Failed out
      → Ends Ok Failed (cancelled_or (explain t c what out))
  unfolding Ends
  explain-Ends Ok Failed c what (ok a, s) h = h
  explain-Ends Ok Failed c what (err e, s) h = h

  pub read-Ends :
      (done n : ℕ) (s : Line W) → Ends (ReadFrom s n) (Unwritten s) (read_exactly t (on done) n s)
  unfolding ReadFrom Unwritten with_stall
  read-Ends done n s =
      Ends-of (ReadFrom s n) (Unwritten s) (read_exactly t (on done) n s)
        (λ bytes h. laws.read_ok done n s bytes h) (λ e h. laws.read_failed done n s h)

  read_kept : (done n : ℕ) (s : Line W) → Unwritten s (read_exactly t (on done) n s).1
  unfolding Unwritten with_stall
  read_kept done n s = elim (Result-cases (read_exactly t (on done) n s).0) [
    | inl (bytes, h) ↦ (laws.read_ok done n s bytes h).2
    | inr (e, h) ↦ laws.read_failed done n s h
  ]

  fail_text-state :
      (c : Connection W) (out : Result (Unit {0}) Bytes × Line W) → (fail_text t c out).1 ≡ out.1
  fail_text-state c (ok m, s) = refl
  fail_text-state c (err u, s) = refl

  fail_kept : (done len : ℕ) (s : Line W) → Unwritten s (read_sync_fail_message t (on done) len s).1
  unfolding Unwritten read_sync_fail_message read_body
  fail_kept done len s = elim (Bool-cases (ltb sync_fail_message_max len)) [
    | inl e ↦ rw e (refl)
    | inr e ↦ rw e (elim (Bool-cases (len == 0)) [
      | inl z ↦ rw z (refl)
      | inr z ↦ rw z (
          ap (λ s'. laws.written s'.world)
            (fail_text-state (on done) (read_exactly t (on done) len s))
          ∙ read_kept done len s)
    ])
  ]

  pub fail_sync-Ends :
      {A : Type 0} (Ok : A → Line W → Type 0) (done len : ℕ) (s : Line W)
      → Ends Ok (Unwritten s) (fail_sync t (on done) len s)
  unfolding Ends fail_sync
  fail_sync-Ends Ok done len s = fail_kept done len s

  on_file-Ends :
      {A : Type 0} (Ok : A → W → Type 0) (Failed : W → Type 0) (what : Bytes)
      (out : Result FileFailure A × W) (b : Bool)
      → Ends Ok Failed out
      → Ends (λ a s. Ok a s.world) (λ s. Failed s.world) (on_world_of files what out b)
  unfolding Ends
  on_file-Ends Ok Failed what (ok a, w) b h = h
  on_file-Ends Ok Failed what (err e, w) b h = h

  counted-Ends :
      (done n : ℕ) (s : Line W)
      → Ends
          (λ r s'. (r ≡ more ((done + n) % 2 ^ 64)) × Same s s')
          (Same s)
          (counted t files x done n s)
  unfolding Ends counted should_continue Same
  counted-Ends done n s = go x.progress refl
    where
      go :
          (p : Option (ProgressFn W))
          → x.progress ≡ p
          → Ends
              (λ r s'. (r ≡ more ((done + n) % 2 ^ 64)) × Same s s')
              (Same s)
              (continue (should_continue p ((done + n) % 2 ^ 64) x.total s) λ go_on.
                (fail_if (not go_on) (message adb_cancelled)) >> pure (more ((done + n) % 2 ^ 64)))
      go none h = (refl, (refl, refl))
      go (some progress) h = elim (Bool-cases (progress ((done + n) % 2 ^ 64) x.total s.world).0) [
        | inl e ↦ rw e (refl, laws.asked progress ((done + n) % 2 ^ 64) s.world h)
        | inr e ↦ rw e (laws.asked progress ((done + n) % 2 ^ 64) s.world h)
      ]

  -- What a chunk of `len` bytes leaves.
  unfoldable pub Chunk : Line W → ℕ → Line W → Type 0
  Chunk s len s' =
      (chunk : Bytes) × (length chunk ≡ len)
      × (laws.incoming s.world ≡ chunk ++ laws.incoming s'.world)
      × (laws.written s'.world ≡ laws.written s.world ++ chunk)

  unfoldable pub Grew : Line W → Line W → Type 0
  Grew s s' = Grown laws s.world s'.world

  reported-Ends :
      (done n : ℕ) (what : Bytes) (s : Line W)
      → Ends
          (ReadFrom s n)
          (Grew s)
          (cancelled_or (explain t (on done) what (read_exactly t (on done) n s)))
  unfolding Grew Unwritten
  reported-Ends done n what s =
      explain-Ends (ReadFrom s n) (Grew s) (on done) what (read_exactly t (on done) n s) (
        Ends-map (ReadFrom s n) (ReadFrom s n) (Unwritten s) (Grew s) (read_exactly t (on done) n s)
          (λ _ _ q. q) (λ _ q. Grown-same laws s.world q) (read-Ends done n s))

  -- The chunk is in the file, when `writeAllToFd` has returned true.
  Stored : Line W → Bytes → Line W → Line W → Type 0
  Stored s chunk s1 s2 =
      (laws.incoming s2.world ≡ laws.incoming s1.world)
      × (laws.written s2.world ≡ laws.written s.world ++ chunk)

  Stored-Ends :
      (fuel len : ℕ) (what chunk : Bytes) (s s1 : Line W)
      → ReadFrom s len chunk s1
      → Ends
          (λ _. Stored s chunk s1)
          (Grew s)
          (on_world_of files what
            (write_all_to_fd files fuel x.fd chunk s1.world)
            s1.stall_cancelled)
  unfolding Grew Stored ReadFrom
  Stored-Ends fuel len what chunk s s1 (l, e, k) =
      on_file-Ends
        (λ _ w.
          (laws.incoming w ≡ laws.incoming s1.world)
          × (laws.written w ≡ laws.written s.world ++ chunk))
        (Grown laws s.world) what (write_all_to_fd files fuel x.fd chunk s1.world)
        s1.stall_cancelled
        (Ends-map (λ _. Wrote laws s1.world chunk) _ (Grown laws s1.world) (Grown laws s.world)
          (write_all_to_fd files fuel x.fd chunk s1.world)
          (λ _ w q. (q.1, q.0 ∙ ap (λ a. a ++ chunk) k)) (λ w q. (q.0, q.1 ∙ ap (λ a. a ++ q.0) k))
          (write_all_to_fd-Ends laws fuel chunk s1.world))

  pub recv_chunk-Ends :
      (fuel done len : ℕ) (s : Line W)
      → Ends
          (λ r s'. (r ≡ more ((done + len) % 2 ^ 64)) × Chunk s len s')
          (Grew s)
          (recv_chunk t files fuel (on done) x done len s)
  unfolding recv_chunk cancellation_or or_connection_error on_file Grew Chunk Stored ReadFrom Same
  recv_chunk-Ends fuel done len s =
      continue-Ends (Grew s) (ReadFrom s len) _
        (cancelled_or (
          explain t (on done) (codes "failed to read DATA chunk from adb server")
            (read_exactly t (on done) len s)))
        _ (reported-Ends done len (codes "failed to read DATA chunk from adb server") s)
        λ chunk s1 q.
          continue-Ends (Grew s) (λ _. Stored s chunk s1) _
            (on_world_of files (codes "failed to write to local file")
              (write_all_to_fd files fuel x.fd chunk s1.world) s1.stall_cancelled)
            _ (Stored-Ends fuel len (codes "failed to write to local file") chunk s s1 q)
            λ _ s2 r.
              Ends-map _ _ (Same s2) (Grew s) (counted t files x done len s2)
                (λ _ s3 z.
                  (z.0, (chunk, q.0, q.1 ∙ ap (λ a. chunk ++ a) (sym (z.1.1 ∙ r.0)), z.1.0 ∙ r.1)))
                (λ s3 z. (chunk, z.0 ∙ r.1)) (counted-Ends done len s2)
