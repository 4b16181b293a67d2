-- ===== src/Client/Send.antt =====
-- What `syncSend` sends: the local file, in packets.
pub mod Laws
pub mod Packets
pub mod Delivery
pub mod Confirmation
pub mod Reply
use adb_wfx_plugin.Base.{
  ℕ, zero, suc, ◌+◌, ◌-◌, ◌%◌, ◌^◌, ◌≤◌, ◌<◌, ◌≡◌, refl, sym, ap, ◌∙◌, subst, Bool, true, false,
  not, Option, none, some, List, [], ◌∷◌, ◌++◌, append_assoc, append-nil, Bytes, codes, length,
  length-append, min, ltb, is_empty, All, Bool-cases, inl, inr, if◌then◌else◌, arith,
}
use adb_wfx_plugin.Base.Exec.{
  Result, ok, err, Exec, pure, fail_if, ◌>>=◌, ◌>>◌, continue, Ends, Ends-of, Ends-map,
  continue-Ends,
}
use adb_wfx_plugin.Proto.{encode_sync_header, sync_data_max}
use adb_wfx_plugin.Core.Interface.{ProgressFn}
use adb_wfx_plugin.Core.Download.{adb_cancelled}
use adb_wfx_plugin.Client.{Line, Transport, Connection, Failure, message, Talk, write_all}
use adb_wfx_plugin.Client.Sync.{
  Files, FileFailure, read_all_from_fd, on_file, on_world_of, write_sync_packet, should_continue,
}
use adb_wfx_plugin.Client.Transfers.{
  Transfer, Round, finished, more, cancelled_or, with_stall, counted, broken_with, send_broken,
  or_broken, send_chunk, send_step, send_loop,
}
use adb_wfx_plugin.Client.Send.Laws.{Anyhow, SendLaws, Filled, read_all_from_fd-Ends}
use adb_wfx_plugin.Client.Send.Packets.{
  on, Same, Sent, packet, write_sync_packet-Ends, or_broken-Ends, counted-Ends,
}

-- Packets `DATA` with the chunks, and the bytes that they carry.
unfoldable pub data_packets : List Bytes → Bytes
data_packets [] = []
data_packets (chunk ∷ chunks) =
    encode_sync_header (codes "DATA") (length chunk) ++ (chunk ++ data_packets chunks)

unfoldable pub joined : List Bytes → Bytes
joined [] = []
joined (chunk ∷ chunks) = chunk ++ joined chunks

abbrev pub IsChunk : Bytes → Type 0
IsChunk chunk = (0 < length chunk) × (length chunk ≤ sync_data_max)

module _ {W : Type 0} {t : Transport W} {files : Files W} {x : Transfer W}
    (connection : Connection W) (laws : SendLaws t files x connection.number) where
  -- One chunk of the file is sent.
  unfoldable pub Passed : ℕ → Line W → Round → Line W → Type 0
  Passed done s r s' =
      (chunk : Bytes) × (r ≡ more ((done + length chunk) % 2 ^ 64))
      × (length chunk ≡ min (x.total - done) sync_data_max)
      × (laws.unread s.world ≡ chunk ++ laws.unread s'.world)
      × (laws.sent s'.world ≡ laws.sent s.world ++ packet connection laws chunk)

  -- The next bytes of the file are in the buffer.
  Loaded : ℕ → Line W → Bytes → Line W → Type 0
  Loaded n s chunk s' = Filled laws n [] s.world chunk s'.world

  Loaded-Ends :
      (fuel n : ℕ) (what : Bytes) (s : Line W)
      → Ends
          (Loaded n s)
          Anyhow
          (on_world_of files what (read_all_from_fd files fuel x.fd n [] s.world) s.stall_cancelled)
  unfolding Loaded Filled Ends
  Loaded-Ends fuel n what s =
      on_world what (read_all_from_fd files fuel x.fd n [] s.world) s.stall_cancelled
        (read_all_from_fd-Ends laws fuel n [] s.world (omega arith))
    where
      on_world :
          (what : Bytes) (out : Result FileFailure Bytes × W) (b : Bool)
          → Ends (Filled laws n [] s.world) Anyhow out
          → Ends
              (λ chunk s'. Filled laws n [] s.world chunk s'.world)
              Anyhow
              (on_world_of files what out b)
      on_world what (ok chunk, w) b h = h
      on_world what (err e, w) b h = tt

  pub send_step-Ends :
      (fuel done : ℕ) (s : Line W)
      → Ends (Passed done s) Anyhow (send_step t files fuel connection x done s)
  unfolding send_step on_file Loaded Filled Passed Sent Same send_chunk
  send_step-Ends fuel done s =
      continue-Ends Anyhow (Loaded n s) (Passed done s)
        (on_world_of files (codes "failed to read from local file")
          (read_all_from_fd files fuel x.fd n [] s.world) s.stall_cancelled)
        _ (Loaded-Ends fuel n (codes "failed to read from local file") s)
        λ chunk s1 q.
          continue-Ends Anyhow (λ _. Sent connection laws (packet connection laws chunk) s1)
            (Passed done s) (send_chunk t files (on connection laws done) chunk s1) _
            (or_broken-Ends connection laws
              (λ _. Sent connection laws (packet connection laws chunk) s1)
              (on connection laws done) _ (write_sync_packet-Ends connection laws done chunk s1))
            λ _ s2 r.
              Ends-map (λ z s3. (z ≡ more ((done + n) % 2 ^ 64)) × Same connection laws s2 s3)
                (Passed done s) Anyhow Anyhow (counted t files x done n s2)
                (λ z s3 k. (
                  chunk,
                  k.0 ∙ ap (λ l. more ((done + l) % 2 ^ 64)) (sym q.0),
                  q.0,
                  q.1 ∙ ap (λ u. chunk ++ u) (sym (k.1.0 ∙ r.1)),
                  k.1.1 ∙ r.0 ∙ ap (λ u. u ++ packet connection laws chunk) q.2,
                ))
                (λ _ k. k) (counted-Ends connection laws done n s2)
    where
      n : ℕ
      n = min (x.total - done) sync_data_max

  -- The bytes of the file from `done` on, which were sent in packets.
  pub Uploaded : ℕ → Line W → Line W → Type 0
  Uploaded done s s' =
      (chunks : List Bytes) × All IsChunk chunks
      × (done + length (joined chunks) ≡ x.total)
      × (laws.unread s.world ≡ joined chunks ++ laws.unread s'.world)
      × (laws.sent s'.world ≡ laws.sent s.world ++ data_packets chunks)

  abbrev Whole : ℕ → Line W → ℕ → Line W → Type 0
  Whole done s done' s' = (done' ≡ x.total) × Uploaded done s s'

  nothing_left :
      (done : ℕ) (s : Line W) → done ≤ x.total → ltb done x.total ≡ false → Whole done s done s
  unfolding Uploaded joined data_packets
  nothing_left done s le e = (
    omega (arith, all_done),
    ([], tt, omega (arith, all_done), refl, sym (append-nil (laws.sent s.world))),
  )
    where
      all_done : done ≡ x.total
      all_done = ground arith

  pub new_count :
      (done len : ℕ)
      → x.total < 2 ^ 64
      → ltb done x.total ≡ true
      → len ≡ min (x.total - done) sync_data_max
      → ((done + len) % 2 ^ 64 ≡ done + len)
        × (done + len ≤ x.total)
        × (0 < len)
        × (len ≤ sync_data_max)
  new_count done len big lt e = (
    omega (arith, below, e, big),
    omega (arith, below, e),
    omega (arith, below, e),
    omega (arith, e),
  )
    where
      below : done < x.total
      below = ground arith

  another :
      (done : ℕ) (s : Line W) (r : Round) (s1 : Line W) (loop : ℕ → Talk W ℕ)
      → x.total < 2 ^ 64
      → ltb done x.total ≡ true
      → Passed done s r s1
      → ((d : ℕ) → d ≤ x.total → Ends (Whole d s1) Anyhow (loop d s1))
      → Ends
          (Whole done s)
          Anyhow
          ((elim r as (λ _. Talk W ℕ) [ finished ↦ pure done | more done' ↦ loop done' ]) s1)
  unfolding Passed Uploaded joined data_packets
  another done s finished s1 loop big lt (chunk, e, _, _, _) rest = absurd (never e)
    where
      never : finished ≡ more ((done + length chunk) % 2 ^ 64) → ⊥
      never e = cc
  another done s (more d) s1 loop big lt (chunk, e, l, u, k) rest =
      let (w, le, pos_len, max_len) = new_count done (length chunk) big lt l in
      Ends-map (Whole d s1) (Whole done s) Anyhow Anyhow (loop d s1)
        (λ d' s' (t', (chunks, all, sum, u', k')). (
          t',
          (
            chunk ∷ chunks,
            ((pos_len, max_len), all),
            omega (arith, sum, w, same e, length-append chunk (joined chunks)),
            u
                ∙ ap (λ z. chunk ++ z) u'
                ∙ sym (append_assoc chunk (joined chunks) (laws.unread s'.world)),
            k'
                ∙ ap (λ z. z ++ data_packets chunks) k
                ∙ append_assoc (laws.sent s.world) (packet connection laws chunk)
                    (data_packets chunks)
                ∙ ap (λ z. laws.sent s.world ++ z)
                    (append_assoc (encode_sync_header (codes "DATA") (length chunk)) chunk
                      (data_packets chunks)),
          ),
        ))
        (λ _ z. z) (rest d (omega (arith, same e, w, le)))
    where
      same : more d ≡ more ((done + length chunk) % 2 ^ 64) → d ≡ (done + length chunk) % 2 ^ 64
      same e = cc

  -- For a file of less than 2 ^ 64 bytes: when the loop has succeeded, `done` is the size, and just as
  -- many of the file's next bytes were read and sent, each once and in order, in packets `DATA` of 1
  -- to 65536 bytes that are headed by their length.
  pub send_loop-Uploaded :
      (fuel file_fuel done : ℕ) (s : Line W)
      → done ≤ x.total
      → x.total < 2 ^ 64
      → Ends
          (λ done' s'. (done' ≡ x.total) × Uploaded done s s')
          Anyhow
          (send_loop t files fuel file_fuel connection x done s)
  unfolding send_loop Ends
  send_loop-Uploaded zero file_fuel done s le big = elim (Bool-cases (ltb done x.total)) [
    | inl e ↦ rw (e, send_loop, Ends) tt
    | inr e ↦ rw (e, send_loop, Ends) (nothing_left done s le e)
  ]
  send_loop-Uploaded (suc fuel) file_fuel done s le big = elim (Bool-cases (ltb done x.total)) [
    | inr e ↦ rw (e, send_loop, Ends) (nothing_left done s le e)
    | inl e ↦
        rw (e, send_loop, Ends)
          (continue-Ends Anyhow (Passed done s) (Whole done s)
            (send_step t files file_fuel connection x done s) _ (send_step-Ends file_fuel done s)
            (λ r s1 q.
              another done s r s1 (send_loop t files fuel file_fuel connection x) big e q
                (λ d le'. send_loop-Uploaded fuel file_fuel d s1 le' big)))
  ]
