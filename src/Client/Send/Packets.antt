-- ===== src/Client/Send/Packets.antt =====
-- What the writes of `syncSend` and the end of a round leave.
use adb_wfx_plugin.Base.{
  ℕ, ◌+◌, ◌%◌, ◌^◌, ◌≡◌, refl, sym, ap, ◌∙◌, not, Option, none, some, [], ◌∷◌, ◌++◌, append_assoc,
  append-nil, Bytes, codes, length, is_empty, Bool-cases, inl, inr, if◌then◌else◌,
}
use adb_wfx_plugin.Base.Exec.{
  Result, ok, err, pure, fail_if, ◌>>◌, continue, Ends, Ends-of, Ends-map, continue-Ends,
}
use adb_wfx_plugin.Proto.{encode_sync_header}
use adb_wfx_plugin.Core.Interface.{ProgressFn}
use adb_wfx_plugin.Core.Download.{adb_cancelled}
use adb_wfx_plugin.Client.{Line, Transport, Connection, message, write_all}
use adb_wfx_plugin.Client.Sync.{Files, write_sync_packet, should_continue}
use adb_wfx_plugin.Client.Transfers.{
  Transfer, more, cancelled_or, with_stall, counted, broken_with, send_broken, or_broken,
}
use adb_wfx_plugin.Client.Send.Laws.{Anyhow, SendLaws}

module _ {W : Type 0} {t : Transport W} {files : Files W} {x : Transfer W}
    (connection : Connection W) (laws : SendLaws t files x connection.number) where
  abbrev pub on : ℕ → Connection W
  on done = with_stall connection x done

  -- Nothing was sent or read.
  unfoldable pub Same : Line W → Line W → Type 0
  Same s s' =
      (laws.unread s'.world ≡ laws.unread s.world) × (laws.sent s'.world ≡ laws.sent s.world)

  unfoldable pub Sent : Bytes → Line W → Line W → Type 0
  Sent bytes s s' =
      (laws.sent s'.world ≡ laws.sent s.world ++ bytes)
      × (laws.unread s'.world ≡ laws.unread s.world)

  write-Ends :
      (done : ℕ) (bytes : Bytes) (s : Line W)
      → Ends (λ _. Sent bytes s) Anyhow (write_all t (on done) bytes s)
  unfolding Sent with_stall
  write-Ends done bytes s =
      Ends-of (λ _. Sent bytes s) Anyhow (write_all t (on done) bytes s)
        (λ u h. laws.write_ok done bytes s h) (λ u h. tt)

  abbrev pub packet : Bytes → Bytes
  packet chunk = encode_sync_header (codes "DATA") (length chunk) ++ chunk

  pub sync_packet-Ends :
      (done : ℕ) (id : Bytes) (arg : ℕ) (payload : Bytes) (s : Line W)
      → Ends
          (λ _. Sent (encode_sync_header id arg ++ payload) s)
          Anyhow
          (write_sync_packet t (on done) id arg payload s)
  unfolding write_sync_packet Sent Ends
  sync_packet-Ends done id arg payload s =
      continue-Ends Anyhow (λ _. Sent header s) (λ _. Sent (header ++ payload) s)
        (write_all t (on done) header s) _ (write-Ends done header s)
        (λ _ s1 q. behind payload s1 q)
    where
      header : Bytes
      header = encode_sync_header id arg

      behind :
          (p : Bytes) (s1 : Line W)
          → Sent header s s1
          → Ends
              (λ _. Sent (header ++ p) s)
              Anyhow
              ((if is_empty p then pure tt else write_all t (on done) p) s1)
      behind [] s1 q = (q.0 ∙ ap (λ z. laws.sent s.world ++ z) (sym (append-nil header)), q.1)
      behind (b ∷ p) s1 q =
          Ends-map (λ _. Sent (b ∷ p) s1) (λ _. Sent (header ++ b ∷ p) s) Anyhow Anyhow
            (write_all t (on done) (b ∷ p) s1)
            (λ _ s2 r. (
              r.0 ∙ ap (λ z. z ++ b ∷ p) q.0 ∙ append_assoc (laws.sent s.world) header (b ∷ p),
              r.1 ∙ q.1,
            ))
            (λ _ r. r) (write-Ends done (b ∷ p) s1)

  pub write_sync_packet-Ends :
      (done : ℕ) (chunk : Bytes) (s : Line W)
      → Ends
          (λ _. Sent (packet chunk) s)
          Anyhow
          (write_sync_packet t (on done) (codes "DATA") (length chunk) chunk s)
  write_sync_packet-Ends done chunk s = sync_packet-Ends done (codes "DATA") (length chunk) chunk s

  broken-Ends :
      (Ok : Unit {0} → Line W → Type 0) (m : Bytes) (p : Option Bytes × Line W)
      → Ends Ok Anyhow (cancelled_or (broken_with t files m p))
  unfolding Ends
  broken-Ends Ok m (none, s) = tt
  broken-Ends Ok m (some text, s) = tt

  pub or_broken-Ends :
      (Ok : Unit {0} → Line W → Type 0) (c : Connection W)
      (out : Result (Unit {0}) (Unit {0}) × Line W)
      → Ends Ok Anyhow out
      → Ends Ok Anyhow (or_broken t files c out)
  unfolding Ends send_broken
  or_broken-Ends Ok c (ok u, s) h = h
  or_broken-Ends Ok c (err u, s) h = broken-Ends Ok _ _

  pub counted-Ends :
      (done n : ℕ) (s : Line W)
      → Ends
          (λ r s'. (r ≡ more ((done + n) % 2 ^ 64)) × Same s s')
          Anyhow
          (counted t files x done n s)
  unfolding Ends counted should_continue Same
  counted-Ends done n s = go x.progress refl
    where
      go :
          (p : Option (ProgressFn W))
          → x.progress ≡ p
          → Ends
              (λ r s'. (r ≡ more ((done + n) % 2 ^ 64)) × Same s s')
              Anyhow
              (continue (should_continue p ((done + n) % 2 ^ 64) x.total s) λ go_on.
                (fail_if (not go_on) (message adb_cancelled)) >> pure (more ((done + n) % 2 ^ 64)))
      go none h = (refl, (refl, refl))
      go (some progress) h = elim (Bool-cases (progress ((done + n) % 2 ^ 64) x.total s.world).0) [
        | inl e ↦ rw e (refl, laws.asked progress ((done + n) % 2 ^ 64) s.world h)
        | inr e ↦ rw e tt
      ]
