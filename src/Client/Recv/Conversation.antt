-- ===== src/Client/Recv/Conversation.antt =====
-- The whole of `syncRecv`, on the connection that it opens.
use adb_wfx_plugin.Base.{
  ℕ, ◌≡◌, inl, inr, Bool-cases, refl, sym, subst, ap, ◌∙◌, false, [], ◌∷◌, ◌++◌, append-nil, Bytes,
  codes, length, ltb, is_empty, if◌then◌else◌, ◌%◌, ◌^◌,
}
use adb_wfx_plugin.Base.Exec.{Result, ok, err, pure, ◌>>◌, Ends, Ends-map, continue-Ends}
use adb_wfx_plugin.Proto.{encode_sync_header, sync_path_max}
use adb_wfx_plugin.Client.{
  Line, Transport, Connection, Failure, explain, or_connection_error, write_all, close,
  open_sync_transport,
}
use adb_wfx_plugin.Client.Sync.{Files, write_sync_packet}
use adb_wfx_plugin.Client.Operations.{request}
use adb_wfx_plugin.Client.Transfers.{
  Transfer, stall_callback, cancelled_or, cancellation_or, with_stall, recv_loop, sync_recv,
}
use adb_wfx_plugin.Client.Kept.{
  Kept, Untouched, continue-Kept, open_sync_transport-Opened, Opened, quiet,
}
use adb_wfx_plugin.Client.Recv.{Received, Fetched, recv_loop-Fetched}
use adb_wfx_plugin.Client.Recv.Laws.{RecvLaws, Grown}

module _ {W : Type 0} {t : Transport W} {files : Files W} {x : Transfer W} (written : W → Bytes)
    (laws : (c : Connection W) → RecvLaws t files x c.number) where
  -- What is read from the peer, and the local file.
  abbrev pub seen : Connection W → W → Bytes × Bytes
  seen c w = ((laws c).incoming w, (laws c).written w)

  -- All connections are about one local file, which only `::write` changes: no call of the transport
  -- does. A write to the peer reads nothing.
  pub record FileLaws : Type 0 where
    pub one_file : (c : Connection W) (w : W) → (laws c).written w ≡ written w
    pub untouched : Untouched t written
    pub writes_keep :
        (c : Connection W) (bytes : Bytes) (s : Line W)
        → Kept t (seen c) s (t.write_all (stall_callback x.progress 0 x.total) c.number bytes s).1

  -- What the packets on the opened connection carry is now in the file.
  abbrev pub Downloaded : Bytes → Line W → Line W → Type 0
  Downloaded serial s s' =
      (c : Connection W) × (s1 : Line W) × (bytes : Bytes) × (rest : Bytes) × (open_sync_transport t
          serial (record s { stall_cancelled = false })
        ≡ (ok c, s1))
      × Received ((laws c).incoming s1.world) bytes rest
      × (written s'.world ≡ written s.world ++ bytes)

  abbrev pub FileGrown : Line W → Line W → Type 0
  FileGrown s s' = (bytes : Bytes) × (written s'.world ≡ written s.world ++ bytes)

  module _ (file : FileLaws) where
    asked-Kept :
        (c : Connection W) (id : Bytes) (n : ℕ) (payload : Bytes) (s : Line W)
        → Kept t (seen c) s (write_sync_packet t (with_stall c x 0) id n payload s).1
    unfolding write_sync_packet with_stall
    asked-Kept c id n payload s =
        continue-Kept t (seen c) s (write_all t (with_stall c x 0) (encode_sync_header id n) s) _
          (file.writes_keep c (encode_sync_header id n) s) (λ _ s. behind payload s)
      where
        behind :
            (payload : Bytes) (s : Line W)
            → Kept t
                (seen c)
                s
                ((if is_empty payload
                    then pure {E = Unit {0}} tt
                    else write_all t (with_stall c x 0) payload)
                  s).1
        behind [] s = refl
        behind (b ∷ bytes) s = file.writes_keep c (b ∷ bytes) s

    explained :
        (c c' : Connection W) (what : Bytes) (s : Line W)
        (out : Result (Unit {0}) (Unit {0}) × Line W)
        → Kept t (seen c) s out.1
        → Ends (λ _. Kept t (seen c) s) (Kept t (seen c) s) (cancelled_or (explain t c' what out))
    unfolding Ends
    explained c c' what s (ok u, s') h = h
    explained c c' what s (err e, s') h = h

    -- What follows the opening.
    abbrev fetch : ℕ → ℕ → Bytes → Connection W → Line W → Result Failure (Unit {0}) × Line W
    fetch fuel file_fuel remote c =
        cancellation_or (
          request t (with_stall c x 0) (codes "RECV") remote (codes "failed to write RECV request"))
        >> recv_loop t files fuel file_fuel c x 0

    fetch-Ends :
        (fuel file_fuel : ℕ) (remote : Bytes) (c : Connection W) (s : Line W)
        → Ends
            (λ _. Fetched c (laws c) s)
            (λ s'. Grown (laws c) s.world s'.world)
            (fetch fuel file_fuel remote c s)
    unfolding cancellation_or request or_connection_error Fetched
    fetch-Ends fuel file_fuel remote c s =
        continue-Ends (λ s'. Grown (laws c) s.world s'.world) (λ _. Kept t (seen c) s)
          (λ _. Fetched c (laws c) s) _ (λ _. recv_loop t files fuel file_fuel c x 0)
          (Ends-map (λ _. Kept t (seen c) s) (λ _. Kept t (seen c) s) (Kept t (seen c) s)
            (λ s'. Grown (laws c) s.world s'.world) _ (λ _ _ h. h)
            (λ s' h. ([], ap (λ p. p.1) h ∙ sym (append-nil ((laws c).written s.world))))
            (explained c (with_stall c x 0) (codes "failed to write RECV request") s
              (write_sync_packet t (with_stall c x 0) (codes "RECV") (length remote % 2 ^ 32) remote
                s)
              (asked-Kept c (codes "RECV") (length remote % 2 ^ 32) remote s)))
          (λ _ s1 h.
            Ends-map (λ _. Fetched c (laws c) s1) (λ _. Fetched c (laws c) s)
              (λ s'. Grown (laws c) s1.world s'.world) (λ s'. Grown (laws c) s.world s'.world)
              (recv_loop t files fuel file_fuel c x 0 s1)
              (λ _ s' (bytes, received, grown). (
                bytes,
                subst (λ i. Received i bytes ((laws c).incoming s'.world)) (ap (λ p. p.0) h)
                    received,
                grown ∙ ap (λ f. f ++ bytes) (ap (λ p. p.1) h),
              ))
              (λ s' (bytes, grown). (bytes, grown ∙ ap (λ f. f ++ bytes) (ap (λ p. p.1) h)))
              (recv_loop-Fetched c (laws c) fuel file_fuel s1))

    closed-Ends :
        (Ok : Unit {0} → Line W → Type 0) (Failed : Line W → Type 0) (c : Connection W)
        (out : Result Failure (Unit {0}) × Line W)
        → Ends (λ a s'. Ok a (close t c s')) (λ s'. Failed (close t c s')) out
        → Ends Ok Failed (let (r, s') = out in (r, close t c s'))
    unfolding Ends
    closed-Ends Ok Failed c (ok a, s) h = h
    closed-Ends Ok Failed c (err e, s) h = h

    answered_by :
        {A : Type 0} (Ok : A → Line W → Type 0) (Failed : Line W → Type 0)
        (out : Result Failure A × Line W)
        → Ends Ok Failed out
        → Ends (λ a s'. (out ≡ (ok a, s')) × Ok a s') Failed out
    unfolding Ends
    answered_by Ok Failed (ok a, s) h = (refl, h)
    answered_by Ok Failed (err e, s) h = h

    opened :
        (serial : Bytes) (s : Line W)
        → let out = open_sync_transport t serial (record s { stall_cancelled = false }) in
          Ends (λ c s1. (out ≡ (ok c, s1)) × Kept t written s s1) (FileGrown s) out
    unfolding Opened
    opened serial s =
        let out = open_sync_transport t serial (record s { stall_cancelled = false }) in
        answered_by (λ _. Kept t written s) (FileGrown s) out
          (Ends-map (λ c s1. Kept t written s s1 × (c ≡ quiet t written file.untouched c.number))
            (λ _. Kept t written s) (Kept t written s) (FileGrown s) out (λ _ _ h. h.0)
            (λ _ h. ([], h ∙ sym (append-nil (written s.world))))
            (open_sync_transport-Opened t written file.untouched serial
              (record s { stall_cancelled = false })))

    -- When `syncRecv` succeeds, the local file has got exactly what the packets `DATA` up to `DONE` on
    -- the connection that it has opened carry, each byte once and in order. When it fails, wherever it
    -- fails, the file has only grown.
    pub sync_recv-Downloaded :
        (fuel file_fuel : ℕ) (serial remote : Bytes) (s : Line W)
        → Ends
            (λ _. Downloaded serial s)
            (FileGrown s)
            (sync_recv t files fuel file_fuel serial remote x s)
    unfolding sync_recv Ends Opened Fetched
    sync_recv-Downloaded fuel file_fuel serial remote s =
        elim (Bool-cases (ltb sync_path_max (length remote))) [
          | inl long ↦ rw long ([], sym (append-nil (written s.world)))
          | inr short ↦ rw short (
              continue-Ends (FileGrown s)
                (λ c s1. (open_sync_transport t serial started ≡ (ok c, s1)) × Kept t written s s1)
                (λ _. Downloaded serial s) (open_sync_transport t serial started) _
                (opened serial s)
                (λ c s1 (o, kept).
                  closed-Ends (λ _. Downloaded serial s) (FileGrown s) c
                    (fetch fuel file_fuel remote c s1)
                    (Ends-map (λ _. Fetched c (laws c) s1)
                      (λ _ s2. Downloaded serial s (close t c s2))
                      (λ s2. Grown (laws c) s1.world s2.world) (λ s2. FileGrown s (close t c s2))
                      (fetch fuel file_fuel remote c s1)
                      (λ _ s2 (bytes, received, grown).
                        (c, s1, bytes, _, o, received, in_file c s1 s2 bytes kept grown))
                      (λ s2 (bytes, grown). (bytes, in_file c s1 s2 bytes kept grown))
                      (fetch-Ends fuel file_fuel remote c s1))))
        ]
      where
        started : Line W
        started = record s { stall_cancelled = false }

        in_file :
            (c : Connection W) (s1 s2 : Line W) (bytes : Bytes)
            → Kept t written s s1
            → (laws c).written s2.world ≡ (laws c).written s1.world ++ bytes
            → written (close t c s2).world ≡ written s.world ++ bytes
        in_file c s1 s2 bytes kept grown =
            file.untouched.close_keeps c.number s2.world
            ∙ sym (file.one_file c s2.world)
            ∙ grown
            ∙ ap (λ f. f ++ bytes) (file.one_file c s1.world ∙ kept)
