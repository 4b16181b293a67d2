-- ===== src/Client/Send/Reply.antt =====
-- The end of `syncSend`: `DONE`, and the answer.
use adb_wfx_plugin.Base.{
  ℕ, ◌≡◌, sym, ap, ◌∙◌, not, true, [], ◌++◌, Bytes, codes, Bool-cases, inl, inr, if◌then◌else◌,
}
use adb_wfx_plugin.Base.Int.{ℤ, to_u32}
use adb_wfx_plugin.Base.Exec.{
  Result, ok, err, pure, fail_if, continue, Ends, Ends-of, continue-Ends,
}
use adb_wfx_plugin.Proto.{SyncHeader, encode_sync_header, parse_sync_header, sync_id_is}
use adb_wfx_plugin.Client.{
  Line, Transport, Connection, message, explain, or_connection_error, read_exactly,
}
use adb_wfx_plugin.Client.Sync.{Files, write_sync_packet, read_sync_header, fail_sync}
use adb_wfx_plugin.Client.Transfers.{
  Transfer, stall_callback, cancelled_or, cancellation_or, with_stall, send_done,
}
use adb_wfx_plugin.Client.Send.Laws.{Anyhow, SendLaws}
use adb_wfx_plugin.Client.Send.Packets.{on, Same, Sent, sync_packet-Ends}

module _ {W : Type 0} {t : Transport W} {files : Files W} {x : Transfer W}
    (connection : Connection W) (laws : SendLaws t files x connection.number) where
  -- A read from the peer sends nothing and leaves the local file alone.
  abbrev pub ReadsKeep : Type 0
  ReadsKeep =
      (done n : ℕ) (s : Line W)
      → let (r, s') =
          t.read_exactly (stall_callback x.progress done x.total) connection.number n s in
        (laws.unread s'.world ≡ laws.unread s.world) × (laws.sent s'.world ≡ laws.sent s.world)

  -- Between the two states the answer was read, and it is `OKAY`.
  abbrev pub Okay : ℕ → Line W → Line W → Type 0
  Okay done s s' =
      (header : SyncHeader) × (read_sync_header t (on connection laws done) s ≡ (ok header, s'))
      × (sync_id_is header (codes "OKAY") ≡ true)

  pub explained-Ends :
      {A : Type 0} (Ok : A → Line W → Type 0) (c : Connection W) (what : Bytes)
      (out : Result (Unit {0}) A × Line W)
      → Ends Ok Anyhow out
      → Ends Ok Anyhow (cancelled_or (explain t c what out))
  unfolding Ends
  explained-Ends Ok c what (ok a, s) h = h
  explained-Ends Ok c what (err e, s) h = tt

  module _ (keep : ReadsKeep) where
    header-Same :
        (done : ℕ) (s : Line W)
        → Same connection laws s (read_sync_header t (on connection laws done) s).1
    unfolding read_sync_header Same with_stall
    header-Same done s = go (read_exactly t (on connection laws done) 8 s) (keep done 8 s)
      where
        go :
            (out : Result (Unit {0}) Bytes × Line W)
            → (laws.unread out.1.world ≡ laws.unread s.world)
              × (laws.sent out.1.world ≡ laws.sent s.world)
            → (laws.unread
                  (continue {B = SyncHeader} out (λ buf. pure (parse_sync_header buf))).1.world
                ≡ laws.unread s.world)
              × (laws.sent
                    (continue {B = SyncHeader} out (λ buf. pure (parse_sync_header buf))).1.world
                  ≡ laws.sent s.world)
        go (ok buf, s') h = h
        go (err e, s') h = h

    -- `DONE` with the time was sent, and then the answer was `OKAY`.
    abbrev pub Ended : ℕ → ℤ → Line W → Line W → Type 0
    Ended done mtime s s' =
        Sent connection laws (encode_sync_header (codes "DONE") (to_u32 mtime) ++ []) s s'
        × ((s1 : Line W) × (laws.sent s1.world ≡ laws.sent s'.world) × Okay done s1 s')

    pub send_done-Ends :
        (done : ℕ) (mtime : ℤ) (s : Line W)
        → Ends
            (λ _. Ended done mtime s)
            Anyhow
            (send_done t files (on connection laws done) mtime s)
    unfolding send_done cancellation_or or_connection_error fail_sync Ends Sent Same
    send_done-Ends done mtime s =
        continue-Ends Anyhow (λ _. Sent connection laws packet s) (λ _. Ended done mtime s) _ _
          (explained-Ends (λ _. Sent connection laws packet s) c _
            (write_sync_packet t c (codes "DONE") (to_u32 mtime) [] s)
            (sync_packet-Ends connection laws done (codes "DONE") (to_u32 mtime) [] s))
          (λ _ s1 q.
            continue-Ends Anyhow (Answer s1) (λ _. Ended done mtime s) _ _
              (explained-Ends (Answer s1) c _ (read_sync_header t c s1) (
                Ends-of (Answer s1) Anyhow (read_sync_header t c s1)
                  (λ header h. (ap (λ r. (r, (read_sync_header t c s1).1)) h, header-Same done s1))
                  (λ e h. tt)))
              (λ header s2 (read, same). answered header s1 s2 q read same))
      where
        c : Connection W
        c = on connection laws done

        packet : Bytes
        packet = encode_sync_header (codes "DONE") (to_u32 mtime) ++ []

        Answer : Line W → SyncHeader → Line W → Type 0
        Answer s1 header s2 =
            (read_sync_header t c s1 ≡ (ok header, s2)) × Same connection laws s1 s2

        answered :
            (header : SyncHeader) (s1 s2 : Line W)
            → Sent connection laws packet s s1
            → read_sync_header t c s1 ≡ (ok header, s2)
            → Same connection laws s1 s2
            → Ends
                (λ _. Ended done mtime s)
                Anyhow
                ((if sync_id_is header (codes "FAIL")
                    then fail_sync t c header.arg
                    else fail_if
                        (not (sync_id_is header (codes "OKAY")))
                        (message (codes "malformed final reply from adb server")))
                  s2)
        answered header s1 s2 q read same = elim (Bool-cases (sync_id_is header (codes "FAIL"))) [
          | inl f ↦ rw f tt
          | inr f ↦ elim (Bool-cases (sync_id_is header (codes "OKAY"))) [
            | inr o ↦ rw (f, o) tt
            | inl o ↦ rw (f, o) ((same.1 ∙ q.0, same.0 ∙ q.1), (s1, sym same.1, (header, read, o)))
          ]
        ]
