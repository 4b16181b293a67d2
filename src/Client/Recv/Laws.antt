-- ===== src/Client/Recv/Laws.antt =====
-- What `syncRecv` relies on: the transport hands on the bytes of the stream, each once and in order,
-- and `::write` appends to the file as many bytes as it answers.
use adb_wfx_plugin.Base.{
  ℕ, zero, suc, ◌≡◌, inl, inr, refl, sym, ap, ◌∙◌, some, [], ◌∷◌, ◌++◌, append_assoc, append-nil,
  Bytes, length, take, drop, take-append-drop,
}
use adb_wfx_plugin.Base.Exec.{ok, err, Ends, Ends-map}
use adb_wfx_plugin.Core.Interface.{ProgressFn}
use adb_wfx_plugin.Client.{Line, Transport}
use adb_wfx_plugin.Client.Sync.{
  Files, Errno, eintr, eagain, ewouldblock, other, moved, failed, Attempt-cases, write_all_to_fd,
}
use adb_wfx_plugin.Client.Transfers.{Transfer, stall_callback}

module _ {W : Type 0} (t : Transport W) (files : Files W) (x : Transfer W) (number : ℕ) where
  -- `incoming` is the stream that is not read yet, `written` the bytes that the file has got. The
  -- transfer's own callback changes neither.
  pub record RecvLaws : Type 0 where
    pub incoming : W → Bytes
    pub written : W → Bytes
    pub read_ok :
        (done n : ℕ) (s : Line W) (bytes : Bytes)
        → let (r, s') = t.read_exactly (stall_callback x.progress done x.total) number n s in
          r ≡ ok bytes
          → (length bytes ≡ n)
            × (incoming s.world ≡ bytes ++ incoming s'.world)
            × (written s'.world ≡ written s.world)
    pub read_failed :
        (done n : ℕ) (s : Line W)
        → let (r, s') = t.read_exactly (stall_callback x.progress done x.total) number n s in
          r ≡ err tt → written s'.world ≡ written s.world
    pub write_moved :
        (buf : Bytes) (w : W) (n : ℕ)
        → let (r, w') = files.write x.fd buf w in
          r ≡ moved n → (written w' ≡ written w ++ take n buf) × (incoming w' ≡ incoming w)
    pub write_failed :
        (buf : Bytes) (w : W) (e : Errno)
        → let (r, w') = files.write x.fd buf w in
          r ≡ failed e → (written w' ≡ written w) × (incoming w' ≡ incoming w)
    pub asked :
        (progress : ProgressFn W) (done : ℕ) (w : W)
        → x.progress ≡ some progress
        → let w' = (progress done x.total w).1 in
          (written w' ≡ written w) × (incoming w' ≡ incoming w)

module _ {W : Type 0} {t : Transport W} {files : Files W} {x : Transfer W} {number : ℕ}
    (laws : RecvLaws t files x number) where
  -- The file has got `bytes` more since, and nothing was taken from the stream.
  abbrev pub Wrote : W → Bytes → W → Type 0
  Wrote w bytes w' =
      (laws.written w' ≡ laws.written w ++ bytes) × (laws.incoming w' ≡ laws.incoming w)

  -- The file has only grown.
  abbrev pub Grown : W → W → Type 0
  Grown w w' = (bytes : Bytes) × (laws.written w' ≡ laws.written w ++ bytes)

  pub Grown-trans : (w : W) {w' w'' : W} → Grown w w' → Grown w' w'' → Grown w w''
  Grown-trans w (a, p) (b, q) = (a ++ b, q ∙ ap (λ s. s ++ b) p ∙ append_assoc (laws.written w) a b)

  pub Grown-same : (w : W) {w' : W} → laws.written w' ≡ laws.written w → Grown w w'
  Grown-same w p = ([], p ∙ sym (append-nil (laws.written w)))

  -- A whole call of `writeAllToFd` appends the buffer, or fails with a first part of it at most.
  pub write_all_to_fd-Ends :
      (fuel : ℕ) (buf : Bytes) (w : W)
      → Ends (λ _ w'. Wrote w buf w') (Grown w) (write_all_to_fd files fuel x.fd buf w)
  unfolding Ends write_all_to_fd
  write_all_to_fd-Ends fuel [] w = (sym (append-nil (laws.written w)), refl)
  write_all_to_fd-Ends zero (b ∷ buf) w = Grown-same w refl
  write_all_to_fd-Ends (suc fuel) (b ∷ buf) w =
      elim (Attempt-cases (files.write x.fd (b ∷ buf) w).0) [
        | inl (zero, h) ↦ rw (h, write_all_to_fd, Ends) ([], (laws.write_moved (b ∷ buf) w 0 h).0)
        | inl (suc n, h) ↦
            rw (h, write_all_to_fd, Ends)
              (more_left n h
                (write_all_to_fd-Ends fuel (drop n buf) (files.write x.fd (b ∷ buf) w).1))
        | inr (eintr, h) ↦
            rw (h, write_all_to_fd, Ends)
              (again h (write_all_to_fd-Ends fuel (b ∷ buf) (files.write x.fd (b ∷ buf) w).1))
        | inr (eagain, h) ↦ rw (h, write_all_to_fd, Ends) (same eagain h)
        | inr (ewouldblock, h) ↦ rw (h, write_all_to_fd, Ends) (same ewouldblock h)
        | inr (other e, h) ↦ rw (h, write_all_to_fd, Ends) (same (other e) h)
      ]
    where
      same :
          (e : Errno)
          → (files.write x.fd (b ∷ buf) w).0 ≡ failed e
          → Grown w (files.write x.fd (b ∷ buf) w).1
      same e h = Grown-same w (laws.write_failed (b ∷ buf) w e h).0

      next : W
      next = (files.write x.fd (b ∷ buf) w).1

      more_left :
          (n : ℕ)
          → (files.write x.fd (b ∷ buf) w).0 ≡ moved (suc n)
          → Ends
              (λ _ w'. Wrote next (drop n buf) w')
              (Grown next)
              (write_all_to_fd files fuel x.fd (drop n buf) next)
          → Ends
              (λ _ w'. Wrote w (b ∷ buf) w')
              (Grown w)
              (write_all_to_fd files fuel x.fd (drop n buf) next)
      more_left n h rest =
          Ends-map (λ _ w'. Wrote next (drop n buf) w') (λ _ w'. Wrote w (b ∷ buf) w') (Grown next)
            (Grown w) (write_all_to_fd files fuel x.fd (drop n buf) next)
            (λ _ w' q. (
              q.0
                  ∙ ap (λ s. s ++ drop n buf) (laws.write_moved (b ∷ buf) w (suc n) h).0
                  ∙ append_assoc (laws.written w) (take (suc n) (b ∷ buf)) (drop n buf)
                  ∙ ap (λ s. laws.written w ++ (b ∷ s)) (take-append-drop n buf),
              q.1 ∙ (laws.write_moved (b ∷ buf) w (suc n) h).1,
            ))
            (λ w' q.
              Grown-trans w (take (suc n) (b ∷ buf), (laws.write_moved (b ∷ buf) w (suc n) h).0) q)
            rest

      again :
          (files.write x.fd (b ∷ buf) w).0 ≡ failed eintr
          → Ends
              (λ _ w'. Wrote next (b ∷ buf) w')
              (Grown next)
              (write_all_to_fd files fuel x.fd (b ∷ buf) next)
          → Ends
              (λ _ w'. Wrote w (b ∷ buf) w')
              (Grown w)
              (write_all_to_fd files fuel x.fd (b ∷ buf) next)
      again h rest =
          Ends-map (λ _ w'. Wrote next (b ∷ buf) w') (λ _ w'. Wrote w (b ∷ buf) w') (Grown next)
            (Grown w) (write_all_to_fd files fuel x.fd (b ∷ buf) next)
            (λ _ w' q.
              let kept = laws.write_failed (b ∷ buf) w eintr h in
              (q.0 ∙ ap (λ s. s ++ b ∷ buf) kept.0, q.1 ∙ kept.1))
            (λ w' q. Grown-trans w (Grown-same w (laws.write_failed (b ∷ buf) w eintr h).0) q) rest
