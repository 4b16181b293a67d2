-- ===== src/Client/Recv.antt =====
-- What `syncRecv` writes to the local file: the payloads of the packets that it has read.
pub mod Laws
pub mod Chunks
pub mod Delivery
pub mod Conversation
use adb_wfx_plugin.Base.{
  ℕ, zero, suc, ◌≤◌, ◌≡◌, refl, sym, ap, ◌∙◌, Bool, true, false, not, Option, none, some, List, [],
  ◌∷◌, ◌++◌, append_assoc, append-nil, Bytes, codes, length, take, drop, take-append-drop, ltb,
  Bool-cases, subst, inl, inr, ◌==◌, ◌+◌, ◌%◌, ◌^◌, if◌then◌else◌, arith,
}
use adb_wfx_plugin.Base.Exec.{
  Result, ok, err, Exec, pure, fail_if, ◌>>◌, continue, Result-cases, Ends, Ends-of, Ends-map,
  continue-Ends, fail_if-Ends,
}
use adb_wfx_plugin.Proto.{SyncHeader, parse_sync_header, sync_id_is, sync_data_max}
use adb_wfx_plugin.Core.Interface.{ProgressFn}
use adb_wfx_plugin.Core.Download.{adb_cancelled}
use adb_wfx_plugin.Client.{
  Line, message, Transport, Connection, Failure, Talk, explain, or_connection_error, read_exactly,
  read_body,
}
use adb_wfx_plugin.Client.Sync.{
  Files, Attempt, moved, failed, write_all_to_fd, write_left, on_file, on_world_of,
  read_sync_header, read_sync_fail_message, sync_fail_message_max, fail_text, FileFailure,
  fail_sync, should_continue,
}
use adb_wfx_plugin.Client.Transfers.{
  Transfer, Round, finished, more, cancelled_or, cancellation_or, with_stall, counted, recv_chunk,
  recv_step, recv_loop,
}
use adb_wfx_plugin.Client.Recv.Laws.{
  RecvLaws, Wrote, Grown, Grown-trans, Grown-same, write_all_to_fd-Ends,
}
use adb_wfx_plugin.Client.Recv.Chunks.{
  on, Unwritten, ReadFrom, explain-Ends, read-Ends, fail_sync-Ends, Chunk, Grew, recv_chunk-Ends,
}

-- A stream that begins with packets `DATA` up to a packet `DONE`, what they carry, and the rest.
pub data Received : Bytes → Bytes → Bytes → Type 0 where
  received_done :
      (header stream rest : Bytes)
      → length header ≡ 8
      → sync_id_is (parse_sync_header header) (codes "DONE") ≡ true
      → stream ≡ header ++ rest
      → Received stream [] rest
  received_data :
      (header chunk stream middle more_data rest all_data : Bytes)
      → length header ≡ 8
      → sync_id_is (parse_sync_header header) (codes "DATA") ≡ true
      → (parse_sync_header header).arg ≡ length chunk
      → length chunk ≤ sync_data_max
      → stream ≡ header ++ (chunk ++ middle)
      → Received middle more_data rest
      → all_data ≡ chunk ++ more_data
      → Received stream all_data rest

module _ {W : Type 0} {t : Transport W} {files : Files W} {x : Transfer W}
    (connection : Connection W) (laws : RecvLaws t files x connection.number) where
  -- What a round leaves.
  Stepped : ℕ → Line W → Round → Line W → Type 0
  Stepped done s finished s' =
      (header : Bytes) × (length header ≡ 8)
      × (sync_id_is (parse_sync_header header) (codes "DONE") ≡ true)
      × (laws.incoming s.world ≡ header ++ laws.incoming s'.world)
      × (laws.written s'.world ≡ laws.written s.world)
  Stepped done s (more done') s' =
      (header : Bytes) × (chunk : Bytes) × (length header ≡ 8)
      × (sync_id_is (parse_sync_header header) (codes "DATA") ≡ true)
      × ((parse_sync_header header).arg ≡ length chunk)
      × (length chunk ≤ sync_data_max)
      × (laws.incoming s.world ≡ header ++ (chunk ++ laws.incoming s'.world))
      × (laws.written s'.world ≡ laws.written s.world ++ chunk)

  HeaderRead : Line W → SyncHeader → Line W → Type 0
  HeaderRead s h s1 =
      (header : Bytes) × (parse_sync_header header ≡ h) × ReadFrom connection laws s 8 header s1

  header-Ends :
      (done : ℕ) (what : Bytes) (s : Line W)
      → Ends (HeaderRead s) (Grew connection laws s) (
          cancelled_or (
            explain t
              (on connection laws done)
              what
              (read_sync_header t (on connection laws done) s)))
  unfolding read_sync_header HeaderRead Grew Unwritten Ends
  header-Ends done what s =
      explain-Ends connection laws (HeaderRead s) (Grew connection laws s) (on connection laws done)
        what (read_sync_header t (on connection laws done) s)
        (continue-Ends (Grew connection laws s) (ReadFrom connection laws s 8) (HeaderRead s)
          (read_exactly t (on connection laws done) 8 s) _
          (Ends-map (ReadFrom connection laws s 8) (ReadFrom connection laws s 8)
            (Unwritten connection laws s) (Grew connection laws s)
            (read_exactly t (on connection laws done) 8 s) (λ _ _ q. q)
            (λ _ q. Grown-same laws s.world q) (read-Ends connection laws done 8 s))
          (λ buf s1 q. (buf, refl, q)))

  -- What is done with a header.
  abbrev pub answer_to : ℕ → ℕ → SyncHeader → Talk W Round
  answer_to fuel done h =
      if sync_id_is h (codes "DONE")
      then pure finished
      else if sync_id_is h (codes "FAIL")
      then fail_sync t (on connection laws done) h.arg
      else (do
        fail_if (not (sync_id_is h (codes "DATA")))
            (message (codes "malformed sync reply from adb server"))
        fail_if (ltb sync_data_max h.arg)
            (message (codes "adb server sent an oversized DATA chunk"))
        recv_chunk t files fuel (on connection laws done) x done h.arg)

  read-Grew : (s s1 : Line W) (h : SyncHeader) → HeaderRead s h s1 → Grew connection laws s s1
  unfolding Grew HeaderRead ReadFrom
  read-Grew s s1 h (header, e, q) = Grown-same laws s.world q.2

  data-Ends :
      (fuel done : ℕ) (s s1 : Line W) (h : SyncHeader)
      → HeaderRead s h s1
      → sync_id_is h (codes "DATA") ≡ true
      → ltb sync_data_max h.arg ≡ false
      → Ends
          (Stepped done s)
          (Grew connection laws s)
          (recv_chunk t files fuel (on connection laws done) x done h.arg s1)
  unfolding HeaderRead ReadFrom Stepped Grew Chunk
  data-Ends fuel done s s1 h q id le =
      Ends-map (λ r s'. (r ≡ more ((done + h.arg) % 2 ^ 64)) × Chunk connection laws s1 h.arg s')
        (Stepped done s) (Grew connection laws s1) (Grew connection laws s) _
        (λ r s' z.
          subst (λ a. Stepped done s a s') (sym z.0)
            (
              q.0,
              z.1.0,
              q.2.0,
              ap (λ h'. sync_id_is h' (codes "DATA")) q.1 ∙ id,
              ap SyncHeader.arg q.1 ∙ sym z.1.1,
              fits z.1.0 z.1.1,
              q.2.1 ∙ ap (λ a. q.0 ++ a) z.1.2,
              z.1.3 ∙ ap (λ a. a ++ z.1.0) q.2.2,
            ))
        (λ s' z. Grown-trans laws s.world (read-Grew s s1 h q) z)
        (recv_chunk-Ends connection laws fuel done h.arg s1)
    where
      fits : (chunk : Bytes) → length chunk ≡ h.arg → length chunk ≤ sync_data_max
      fits chunk l = ground arith

  fail_ended :
      (s s1 : Line W) (h : SyncHeader)
      → Unwritten connection laws s s1
      → (done : ℕ)
      → Ends
          (Stepped done s)
          (Grew connection laws s)
          (fail_sync t (on connection laws done) h.arg s1)
  unfolding Grew Unwritten
  fail_ended s s1 h e done =
      Ends-map (Stepped done s) (Stepped done s) (Unwritten connection laws s1)
        (Grew connection laws s) (fail_sync t (on connection laws done) h.arg s1) (λ _ _ z. z)
        (λ s' z. Grown-same laws s.world (z ∙ e))
        (fail_sync-Ends connection laws (Stepped done s) done h.arg s1)

  after_header :
      (fuel done : ℕ) (s s1 : Line W) (h : SyncHeader)
      → HeaderRead s h s1
      → Ends (Stepped done s) (Grew connection laws s) (answer_to fuel done h s1)
  unfolding Ends Grew HeaderRead ReadFrom Unwritten Stepped
  after_header fuel done s s1 h q = elim (Bool-cases (sync_id_is h (codes "DONE"))) [
    | inl e ↦ rw e (q.0, q.2.0, ap (λ h'. sync_id_is h' (codes "DONE")) q.1 ∙ e, q.2.1, q.2.2)
    | inr e ↦ rw e (elim (Bool-cases (sync_id_is h (codes "FAIL"))) [
      | inl f ↦ rw f (fail_ended s s1 h q.2.2 done)
      | inr f ↦ rw f (elim (Bool-cases (sync_id_is h (codes "DATA"))) [
        | inr d ↦ rw d (read-Grew s s1 h q)
        | inl d ↦ rw d (elim (Bool-cases (ltb sync_data_max h.arg)) [
          | inl l ↦ rw l (read-Grew s s1 h q)
          | inr l ↦ rw l (data-Ends fuel done s s1 h q d l)
        ])
      ])
    ])
  ]

  recv_step-Ends :
      (fuel done : ℕ) (s : Line W)
      → Ends (Stepped done s) (Grew connection laws s) (recv_step t files fuel connection x done s)
  unfolding recv_step cancellation_or or_connection_error
  recv_step-Ends fuel done s =
      continue-Ends (Grew connection laws s) (HeaderRead s) (Stepped done s)
        (cancelled_or (
          explain t (on connection laws done) (codes "failed to read sync reply from adb server")
            (read_sync_header t (on connection laws done) s)))
        (answer_to fuel done)
        (header-Ends done (codes "failed to read sync reply from adb server") s)
        (λ h s1 q. after_header fuel done s s1 h q)

  -- The packets that were read, and the bytes that the file has got.
  unfoldable pub Fetched : Line W → Line W → Type 0
  Fetched s s' =
      (bytes : Bytes) × Received (laws.incoming s.world) bytes (laws.incoming s'.world)
      × (laws.written s'.world ≡ laws.written s.world ++ bytes)

  recv_loop-Ends :
      (fuel file_fuel done : ℕ) (s : Line W)
      → Ends
          (λ _. Fetched s)
          (Grew connection laws s)
          (recv_loop t files fuel file_fuel connection x done s)
  unfolding recv_loop Ends Grew Fetched Stepped
  recv_loop-Ends zero file_fuel done s = Grown-same laws s.world refl
  recv_loop-Ends (suc fuel) file_fuel done s =
      continue-Ends (Grew connection laws s) (Stepped done s) (λ _. Fetched s)
        (recv_step t files file_fuel connection x done s) _ (recv_step-Ends file_fuel done s)
        (λ round s1 q. go round s1 q (λ d. recv_loop-Ends fuel file_fuel d s1))
    where
      go :
          (round : Round) (s1 : Line W)
          → Stepped done s round s1
          → ((d : ℕ)
              → Ends
                  (λ _. Fetched s1)
                  (Grew connection laws s1)
                  (recv_loop t files fuel file_fuel connection x d s1))
          → Ends
              (λ _. Fetched s)
              (Grew connection laws s)
              ((elim round as (λ _. Talk W (Unit {0})) [
                | finished ↦ pure tt
                | more done' ↦ recv_loop t files fuel file_fuel connection x done'
              ])
                s1)
      go finished s1 (header, l, id, e, k) rest =
          ([], received_done header _ _ l id e, k ∙ sym (append-nil (laws.written s.world)))
      go (more d) s1 (header, chunk, l, id, a, le, e, k) rest =
          Ends-map (λ _. Fetched s1) (λ _. Fetched s) (Grew connection laws s1)
            (Grew connection laws s) (recv_loop t files fuel file_fuel connection x d s1)
            (λ _ s' (bytes, r, w). (
              chunk ++ bytes,
              received_data header chunk _ _ bytes _ _ l id a le e r refl,
              w ∙ ap (λ z. z ++ bytes) k ∙ append_assoc (laws.written s.world) chunk bytes,
            ))
            (λ s' z. Grown-trans laws s.world (chunk, k) z) (rest d)

  -- However the device splits the file into packets and however `::write` falls short: when the loop
  -- has succeeded, the stream began with packets `DATA` of at most 64 KB up to one `DONE`, the file
  -- has got what they carry, each byte once and in order, and the rest of the stream was not read.
  -- When it has failed, the file has only grown.
  pub recv_loop-Fetched :
      (fuel file_fuel : ℕ) (s : Line W)
      → let (result, s') = recv_loop t files fuel file_fuel connection x 0 s in
        Ends (λ _. Fetched s) (λ s'. Grown laws s.world s'.world) (result, s')
  unfolding Grew
  recv_loop-Fetched fuel file_fuel s = recv_loop-Ends fuel file_fuel 0 s
