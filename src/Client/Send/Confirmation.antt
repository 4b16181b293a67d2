-- ===== src/Client/Send/Confirmation.antt =====
-- That `syncSend` succeeds only where the device has confirmed the whole file.
use adb_wfx_plugin.Base.{
  ℕ, ◌%◌, ◌^◌, ◌<◌, ◌≡◌, refl, sym, subst, ap, ◌∙◌, false, List, [], ◌++◌, append_assoc, append-nil,
  Bytes, codes, length, ltb, All, Bool-cases, inl, inr, arith,
}
use adb_wfx_plugin.Base.Int.{ℤ, to_u32}
use adb_wfx_plugin.Base.Exec.{Result, ok, err, Ends, Ends-map, continue-Ends}
use adb_wfx_plugin.Proto.{sync_path_max, encode_sync_header, encode_send_path_spec}
use adb_wfx_plugin.Client.{
  Line, Transport, Connection, Failure, or_connection_error, close, open_sync_transport,
}
use adb_wfx_plugin.Client.Sync.{Files, write_sync_packet}
use adb_wfx_plugin.Client.Operations.{request}
use adb_wfx_plugin.Client.Transfers.{
  Transfer, cancellation_or, send_loop, send_done, send_on, sync_send,
}
use adb_wfx_plugin.Client.Send.{data_packets, joined, IsChunk, Uploaded, send_loop-Uploaded}
use adb_wfx_plugin.Client.Send.Laws.{Anyhow, SendLaws}
use adb_wfx_plugin.Client.Send.Packets.{on, Sent, sync_packet-Ends}
use adb_wfx_plugin.Client.Send.Reply.{ReadsKeep, Okay, explained-Ends, Ended, send_done-Ends}

module _ {W : Type 0} {t : Transport W} {files : Files W} {x : Transfer W}
    (connection : Connection W) (laws : SendLaws t files x connection.number) where
  -- What the device is sent: `SEND` with the name and the mode, the chunks, `DONE` with the time.
  abbrev pub upload_stream : Bytes → ℕ → ℤ → List Bytes → Bytes
  upload_stream remote mode mtime chunks =
      let spec = encode_send_path_spec remote mode in
      encode_sync_header (codes "SEND") (length spec % 2 ^ 32)
      ++ spec
      ++ data_packets chunks
      ++ encode_sync_header (codes "DONE") (to_u32 mtime)

  -- The whole file was sent in chunks, and after all of it the device has answered `OKAY`.
  unfoldable pub Confirmed : Bytes → ℕ → ℤ → Line W → Line W → Type 0
  Confirmed remote mode mtime s s' =
      (chunks : List Bytes) × All IsChunk chunks
      × (length (joined chunks) ≡ x.total)
      × (laws.unread s.world ≡ joined chunks ++ laws.unread s'.world)
      × (laws.sent s'.world ≡ laws.sent s.world ++ upload_stream remote mode mtime chunks)
      × ((s1 : Line W) × (laws.sent s1.world ≡ laws.sent s'.world)
          × Okay connection laws x.total s1 s')

  module _ (keep : ReadsKeep connection laws) where
    regroup : (a b c d : Bytes) → a ++ b ++ c ++ (d ++ []) ≡ a ++ (b ++ c ++ d)
    regroup a b c d =
        ap (λ z. a ++ b ++ c ++ z) (append-nil d)
        ∙ ap (λ z. z ++ d) (append_assoc a b c)
        ∙ append_assoc a (b ++ c) d

    in_all :
        (remote : Bytes) (mode : ℕ) (mtime : ℤ) (done : ℕ) (s s1 s2 s3 : Line W)
        → done ≡ x.total
        → let spec = encode_send_path_spec remote mode in
          Sent connection laws
            (encode_sync_header (codes "SEND") (length spec % 2 ^ 32) ++ spec)
            s
            s1
          → Uploaded connection laws 0 s1 s2
          → Ended connection laws keep done mtime s2 s3
          → Confirmed remote mode mtime s s3
    unfolding Confirmed Uploaded Sent
    in_all remote mode mtime done s s1 s2 s3 e q (chunks, each, sum, read, sent)
          (r, (s4, same, okay)) =
        (
          chunks,
          each,
          omega (arith, sum),
          sym q.1 ∙ read ∙ ap (λ z. joined chunks ++ z) (sym r.1),
          r.0
              ∙ ap (λ z. z ++ (last_header ++ [])) (sent ∙ ap (λ z. z ++ data_packets chunks) q.0)
              ∙ regroup (laws.sent s.world) asked (data_packets chunks) last_header,
          (s4, same, subst (λ n. Okay connection laws n s4 s3) e okay),
        )
      where
        asked : Bytes
        asked =
            let spec = encode_send_path_spec remote mode in
            encode_sync_header (codes "SEND") (length spec % 2 ^ 32) ++ spec

        last_header : Bytes
        last_header = encode_sync_header (codes "DONE") (to_u32 mtime)

    pub send_on-Confirmed :
        (fuel file_fuel : ℕ) (remote : Bytes) (mode : ℕ) (mtime : ℤ) (s : Line W)
        → x.total < 2 ^ 64
        → Ends
            (λ _. Confirmed remote mode mtime s)
            Anyhow
            (send_on t files fuel file_fuel connection remote mode mtime x s)
    unfolding send_on cancellation_or or_connection_error request Ends
    send_on-Confirmed fuel file_fuel remote mode mtime s big =
        continue-Ends Anyhow (λ _. Sent connection laws asked s) Ok _ _
          (explained-Ends connection laws (λ _. Sent connection laws asked s) (on connection laws 0)
            _
            (write_sync_packet t (on connection laws 0) (codes "SEND") (length spec % 2 ^ 32) spec
              s)
            (sync_packet-Ends connection laws 0 (codes "SEND") (length spec % 2 ^ 32) spec s))
          (λ _ s1 q.
            continue-Ends Anyhow (λ done s2. (done ≡ x.total) × Uploaded connection laws 0 s1 s2) Ok
              (send_loop t files fuel file_fuel connection x 0 s1) _
              (send_loop-Uploaded connection laws fuel file_fuel 0 s1 (omega arith) big)
              (λ done s2 (e, u).
                Ends-map (λ _. Ended connection laws keep done mtime s2) Ok Anyhow Anyhow
                  (send_done t files (on connection laws done) mtime s2)
                  (λ _ s3 r. in_all remote mode mtime done s s1 s2 s3 e q u r) (λ _ r. r)
                  (send_done-Ends connection laws keep done mtime s2)))
      where
        spec : Bytes
        spec = encode_send_path_spec remote mode

        asked : Bytes
        asked = encode_sync_header (codes "SEND") (length spec % 2 ^ 32) ++ spec

        Ok : Unit {0} → Line W → Type 0
        Ok _ s' = Confirmed remote mode mtime s s'

module _ {W : Type 0} {t : Transport W} {files : Files W} {x : Transfer W}
    (laws : (c : Connection W) → SendLaws t files x c.number)
    (keep : (c : Connection W) → ReadsKeep c (laws c)) where
  answered_by : {E A S : Type 0} (out : Result E A × S) → Ends (λ a s'. out ≡ (ok a, s')) Anyhow out
  unfolding Ends
  answered_by (ok a, s) = refl
  answered_by (err e, s) = tt

  closed-Ends :
      (Ok : Unit {0} → Line W → Type 0) (c : Connection W)
      (out : Result Failure (Unit {0}) × Line W)
      → Ends (λ a s'. Ok a (close t c s')) Anyhow out
      → Ends Ok Anyhow (let (r, s') = out in (r, close t c s'))
  unfolding Ends
  closed-Ends Ok c (ok a, s) h = h
  closed-Ends Ok c (err e, s) h = tt

  -- The connection that was opened, what was done on it, and its end.
  abbrev pub SentOver : Bytes → Bytes → ℕ → ℤ → Line W → Line W → Type 0
  SentOver serial remote mode mtime s s' =
      (c : Connection W) × (s1 : Line W) × (s2 : Line W) × (open_sync_transport t serial
          (record s { stall_cancelled = false })
        ≡ (ok c, s1))
      × Confirmed c (laws c) remote mode mtime s1 s2
      × (s' ≡ close t c s2)

  -- For a file of less than 2 ^ 64 bytes: when `syncSend` succeeds, then on the connection that it has
  -- opened it has sent `SEND`, the whole file in chunks, each byte once and in order, and `DONE` with
  -- the time; the answer that was read after all of this is `OKAY`; and the connection was closed.
  pub sync_send-Confirmed :
      (fuel file_fuel : ℕ) (serial remote : Bytes) (mode : ℕ) (mtime : ℤ) (s : Line W)
      → x.total < 2 ^ 64
      → Ends
          (λ _. SentOver serial remote mode mtime s)
          Anyhow
          (sync_send t files fuel file_fuel serial remote mode mtime x s)
  unfolding sync_send Ends
  sync_send-Confirmed fuel file_fuel serial remote mode mtime s big =
      elim (Bool-cases (ltb sync_path_max (length remote))) [
        | inl long ↦ rw long tt
        | inr short ↦ rw short (
            continue-Ends Anyhow (λ c s1. open_sync_transport t serial started ≡ (ok c, s1))
              (λ _. SentOver serial remote mode mtime s) (open_sync_transport t serial started) _
              (answered_by (open_sync_transport t serial started))
              (λ c s1 o.
                closed-Ends (λ _. SentOver serial remote mode mtime s) c
                  (send_on t files fuel file_fuel c remote mode mtime x s1)
                  (Ends-map (λ _. Confirmed c (laws c) remote mode mtime s1)
                    (λ _ s2. SentOver serial remote mode mtime s (close t c s2)) Anyhow Anyhow
                    (send_on t files fuel file_fuel c remote mode mtime x s1)
                    (λ _ s2 h. (c, s1, s2, o, h, refl)) (λ _ h. h)
                    (send_on-Confirmed c (laws c) (keep c) fuel file_fuel remote mode mtime s1
                      big))))
      ]
    where
      started : Line W
      started = record s { stall_cancelled = false }
