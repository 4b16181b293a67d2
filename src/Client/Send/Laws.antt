-- ===== src/Client/Send/Laws.antt =====
-- What `syncSend` relies on: a write that has succeeded has handed on its bytes, and `::read` answers
-- the next bytes of the file.
use adb_wfx_plugin.Base.{
  ℕ, zero, suc, ◌-◌, ◌≤◌, ◌≡◌, refl, sym, ap, ◌∙◌, Bool-cases, ltb, true, some, [], ◌∷◌, ◌++◌,
  append_assoc, append-nil, inl, inr, Bytes, length, length-append, arith,
}
use adb_wfx_plugin.Base.Exec.{ok, Ends, Ends-map}
use adb_wfx_plugin.Core.Interface.{ProgressFn}
use adb_wfx_plugin.Client.{Line, Transport}
use adb_wfx_plugin.Client.Sync.{
  Files, Errno, eintr, eagain, ewouldblock, other, moved, failed, Attempt-cases, read_all_from_fd,
}
use adb_wfx_plugin.Client.Transfers.{Transfer, stall_callback}

-- Nothing is said of the state after a failure.
abbrev pub Anyhow : {S : Type 0} → S → Type 0
Anyhow s = Unit {0}

module _ {W : Type 0} (t : Transport W) (files : Files W) (x : Transfer W) (number : ℕ) where
  -- `sent` is what the peer was sent, `unread` the rest of the local file. The transfer's own callback
  -- changes neither.
  pub record SendLaws : Type 0 where
    pub sent : W → Bytes
    pub unread : W → Bytes
    pub write_ok :
        (done : ℕ) (bytes : Bytes) (s : Line W)
        → let (r, s') = t.write_all (stall_callback x.progress done x.total) number bytes s in
          r ≡ ok tt → (sent s'.world ≡ sent s.world ++ bytes) × (unread s'.world ≡ unread s.world)
    pub read_moved :
        (n : ℕ) (w : W) (bytes : Bytes)
        → let (r, w') = files.read x.fd n w in
          r ≡ moved bytes
          → (length bytes ≤ n) × (unread w ≡ bytes ++ unread w') × (sent w' ≡ sent w)
    pub read_failed :
        (n : ℕ) (w : W) (e : Errno)
        → let (r, w') = files.read x.fd n w in
          r ≡ failed e → (unread w' ≡ unread w) × (sent w' ≡ sent w)
    pub asked :
        (progress : ProgressFn W) (done : ℕ) (w : W)
        → x.progress ≡ some progress
        → let w' = (progress done x.total w).1 in (unread w' ≡ unread w) × (sent w' ≡ sent w)

module _ {W : Type 0} {t : Transport W} {files : Files W} {x : Transfer W} {number : ℕ}
    (laws : SendLaws t files x number) where
  -- `all` is the buffer, in which `bytes` stood at first.
  unfoldable pub Filled : ℕ → Bytes → W → Bytes → W → Type 0
  Filled n bytes w all w' =
      (length all ≡ n)
      × (bytes ++ laws.unread w ≡ all ++ laws.unread w')
      × (laws.sent w' ≡ laws.sent w)

  -- A whole call of `readAllFromFd` that has succeeded has read the next `n` bytes of the file.
  pub read_all_from_fd-Ends :
      (fuel n : ℕ) (bytes : Bytes) (w : W)
      → length bytes ≤ n
      → Ends (Filled n bytes w) Anyhow (read_all_from_fd files fuel x.fd n bytes w)
  unfolding Ends read_all_from_fd Filled
  read_all_from_fd-Ends zero n bytes w le = elim (Bool-cases (ltb (length bytes) n)) [
    | inl e ↦ rw (e, read_all_from_fd, Ends) tt
    | inr e ↦ rw (e, read_all_from_fd, Ends) (ground arith, refl, refl)
  ]
  read_all_from_fd-Ends (suc fuel) n bytes w le = elim (Bool-cases (ltb (length bytes) n)) [
    | inr e ↦ rw (e, read_all_from_fd, Ends) (ground arith, refl, refl)
    | inl e ↦ elim (Attempt-cases (files.read x.fd (n - length bytes) w).0) [
      | inl ([], h) ↦ rw (e, h, read_all_from_fd, Ends) tt
      | inl (b ∷ more, h) ↦
          rw (e, h, read_all_from_fd, Ends)
            (filled b more h (
              read_all_from_fd-Ends fuel n (bytes ++ b ∷ more)
                (files.read x.fd (n - length bytes) w).1 (room b more e h)))
      | inr (eintr, h) ↦
          rw (e, h, read_all_from_fd, Ends)
            (again h (
              read_all_from_fd-Ends fuel n (bytes ++ []) (files.read x.fd (n - length bytes) w).1
                (omega (arith, ap length (append-nil bytes), le))))
      | inr (eagain, h) ↦ rw (e, h, read_all_from_fd, Ends) tt
      | inr (ewouldblock, h) ↦ rw (e, h, read_all_from_fd, Ends) tt
      | inr (other c, h) ↦ rw (e, h, read_all_from_fd, Ends) tt
    ]
  ]
    where
      next : W
      next = (files.read x.fd (n - length bytes) w).1

      room :
          (b : ℕ) (more : Bytes)
          → ltb (length bytes) n ≡ true
          → (files.read x.fd (n - length bytes) w).0 ≡ moved (b ∷ more)
          → length (bytes ++ b ∷ more) ≤ n
      room b more e h = omega (
        arith,
        length-append bytes (b ∷ more),
        (laws.read_moved (n - length bytes) w (b ∷ more) h).0,
        le,
      )

      filled :
          (b : ℕ) (more : Bytes)
          → (files.read x.fd (n - length bytes) w).0 ≡ moved (b ∷ more)
          → Ends
              (Filled n (bytes ++ b ∷ more) next)
              Anyhow
              (read_all_from_fd files fuel x.fd n (bytes ++ b ∷ more) next)
          → Ends
              (Filled n bytes w)
              Anyhow
              (read_all_from_fd files fuel x.fd n (bytes ++ b ∷ more) next)
      filled b more h rest =
          let (l, u, k) = laws.read_moved (n - length bytes) w (b ∷ more) h in
          Ends-map (Filled n (bytes ++ b ∷ more) next) (Filled n bytes w) Anyhow Anyhow
            (read_all_from_fd files fuel x.fd n (bytes ++ b ∷ more) next)
            (λ out w' q. (
              q.0,
              ap (λ z. bytes ++ z) u ∙ sym (append_assoc bytes (b ∷ more) (laws.unread next)) ∙ q.1,
              q.2 ∙ k,
            ))
            (λ w' q. q) rest

      again :
          (files.read x.fd (n - length bytes) w).0 ≡ failed eintr
          → Ends
              (Filled n (bytes ++ []) next)
              Anyhow
              (read_all_from_fd files fuel x.fd n (bytes ++ []) next)
          → Ends (Filled n bytes w) Anyhow (read_all_from_fd files fuel x.fd n (bytes ++ []) next)
      again h rest =
          let (u, k) = laws.read_failed (n - length bytes) w eintr h in
          Ends-map (Filled n (bytes ++ []) next) (Filled n bytes w) Anyhow Anyhow
            (read_all_from_fd files fuel x.fd n (bytes ++ []) next)
            (λ out w' q. (
              q.0,
              ap (λ z. bytes ++ z) (sym u)
                  ∙ ap (λ z. z ++ laws.unread next) (sym (append-nil bytes))
                  ∙ q.1,
              q.2 ∙ k,
            ))
            (λ w' q. q) rest
