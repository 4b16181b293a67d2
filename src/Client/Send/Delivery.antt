-- ===== src/Client/Send/Delivery.antt =====
-- That the loop of `syncSend` comes to its end, when nothing fails.
use adb_wfx_plugin.Base.{
  ℕ, zero, suc, ◌+◌, ◌-◌, ◌%◌, ◌^◌, ◌≤◌, ◌<◌, ◌≡◌, refl, ap, ◌∙◌, Bool, true, false, not, Option,
  none, some, [], ◌∷◌, ◌++◌, Bytes, codes, length, length-append, min, ltb, Bool-cases, inl, inr,
  arith,
}
use adb_wfx_plugin.Base.Exec.{Result, ok, err, pure, fail_if, ◌>>◌, continue, continue-ok, Ends-ok}
use adb_wfx_plugin.Proto.{encode_sync_header, sync_data_max}
use adb_wfx_plugin.Core.Interface.{ProgressFn}
use adb_wfx_plugin.Core.Download.{adb_cancelled}
use adb_wfx_plugin.Client.{Line, Transport, Connection, message, Talk, write_all}
use adb_wfx_plugin.Client.Sync.{
  Files, moved, FileFailure, read_all_from_fd, on_file, on_world_of, write_sync_packet,
  should_continue,
}
use adb_wfx_plugin.Client.Transfers.{
  Transfer, finished, more, stall_callback, with_stall, counted, or_broken, send_chunk, send_step,
  send_loop,
}
use adb_wfx_plugin.Client.Send.{Passed, send_step-Ends, new_count}
use adb_wfx_plugin.Client.Send.Packets.{on}
use adb_wfx_plugin.Client.Send.Laws.{SendLaws, Anyhow}

module _ {W : Type 0} {t : Transport W} {files : Files W} {x : Transfer W}
    (connection : Connection W) (laws : SendLaws t files x connection.number) where
  -- Nothing fails: each write succeeds, `::read` answers something while there is more of the file, and
  -- the user does not cancel.
  pub record Delivers : Type 0 where
    pub arrives :
        (done : ℕ) (bytes : Bytes) (s : Line W)
        → (t.write_all (stall_callback x.progress done x.total) connection.number bytes s).0 ≡ ok tt
    pub reads :
        (n : ℕ) (w : W)
        → 0 < n
        → 0 < length (laws.unread w)
        → (b : ℕ) × (more : Bytes) × ((files.read x.fd n w).0 ≡ moved (b ∷ more))
    pub goes_on :
        (progress : ProgressFn W) (done : ℕ) (w : W)
        → x.progress ≡ some progress
        → (progress done x.total w).0 ≡ true

  module _ (nothing_fails : Delivers) where
    read_all_from_fd-ok :
        (fuel n : ℕ) (bytes : Bytes) (w : W)
        → length bytes ≤ n
        → n ≤ length bytes + length (laws.unread w)
        → n ≤ length bytes + fuel
        → (all : Bytes) × ((read_all_from_fd files fuel x.fd n bytes w).0 ≡ ok all)
    unfolding read_all_from_fd
    read_all_from_fd-ok zero n bytes w le here enough = (bytes, rw (full bytes n le enough) refl)
      where
        full :
            (bytes : Bytes) (n : ℕ)
            → length bytes ≤ n
            → n ≤ length bytes + 0
            → ltb (length bytes) n ≡ false
        full bytes n le enough = ground arith
    read_all_from_fd-ok (suc fuel) n bytes w le here enough =
        elim (Bool-cases (ltb (length bytes) n)) [
          | inr e ↦ (bytes, rw (e, read_all_from_fd) refl)
          | inl e ↦
              let (b, next_bytes, h) =
                nothing_fails.reads (n - length bytes) w (left e) (there e) in
              let (l, u, k) = laws.read_moved (n - length bytes) w (b ∷ next_bytes) h in
              let (all, r) =
                read_all_from_fd-ok fuel n (bytes ++ b ∷ next_bytes)
                  (files.read x.fd (n - length bytes) w).1
                  (omega (arith, length-append bytes (b ∷ next_bytes), l, le, left e))
                  (omega (
                    arith,
                    length-append bytes (b ∷ next_bytes),
                    ap length u,
                    length-append (b ∷ next_bytes)
                        (laws.unread (files.read x.fd (n - length bytes) w).1),
                    here,
                  ))
                  (omega (arith, length-append bytes (b ∷ next_bytes), enough)) in
              (all, rw (e, h, read_all_from_fd) r)
        ]
      where
        left : ltb (length bytes) n ≡ true → 0 < n - length bytes
        left e = ground arith

        there : ltb (length bytes) n ≡ true → 0 < length (laws.unread w)
        there e = omega (arith, left e, here)

    write_sync_packet-ok :
        (done : ℕ) (id : Bytes) (arg : ℕ) (payload : Bytes) (s : Line W)
        → (write_sync_packet t (on connection laws done) id arg payload s).0 ≡ ok tt
    unfolding write_sync_packet with_stall
    write_sync_packet-ok done id arg [] s =
        ap (λ out. out.0)
          (continue-ok (write_all t (on connection laws done) (encode_sync_header id arg) s)
            (λ _. pure tt) tt (nothing_fails.arrives done (encode_sync_header id arg) s))
    write_sync_packet-ok done id arg (b ∷ payload) s =
        ap (λ out. out.0)
          (continue-ok (write_all t (on connection laws done) (encode_sync_header id arg) s)
            (λ _. write_all t (on connection laws done) (b ∷ payload)) tt
            (nothing_fails.arrives done (encode_sync_header id arg) s))
        ∙ nothing_fails.arrives done (b ∷ payload) _

    or_broken-ok :
        (c : Connection W) (out : Result (Unit {0}) (Unit {0}) × Line W)
        → out.0 ≡ ok tt
        → (or_broken t files c out).0 ≡ ok tt
    or_broken-ok c (ok u, s) e = refl
    or_broken-ok c (err u, s) e = cc

    counted-ok :
        (done n : ℕ) (s : Line W) → (counted t files x done n s).0 ≡ ok (more ((done + n) % 2 ^ 64))
    unfolding counted should_continue
    counted-ok done n s = go x.progress refl
      where
        go :
            (p : Option (ProgressFn W))
            → x.progress ≡ p
            → (continue (should_continue p ((done + n) % 2 ^ 64) x.total s) λ go_on.
                (fail_if (not go_on) (message adb_cancelled))
                >> pure (more ((done + n) % 2 ^ 64))).0
              ≡ ok (more ((done + n) % 2 ^ 64))
        go none h = refl
        go (some progress) h =
            rw (nothing_fails.goes_on progress ((done + n) % 2 ^ 64) s.world h) refl

    on_world-ok :
        (what : Bytes) (out : Result FileFailure Bytes × W) (b : Bool) (all : Bytes)
        → out.0 ≡ ok all
        → (on_world_of files what out b).0 ≡ ok all
    on_world-ok what (ok a, w) b all e = ap (λ z. ok z) {x = a} {y = all} cc
    on_world-ok what (err f, w) b all e = cc

    send_step-ok :
        (fuel done : ℕ) (s : Line W)
        → min (x.total - done) sync_data_max ≤ length (laws.unread s.world)
        → sync_data_max ≤ fuel
        → (send_step t files fuel connection x done s).0
          ≡ ok (more ((done + min (x.total - done) sync_data_max) % 2 ^ 64))
    unfolding send_step on_file send_chunk
    send_step-ok fuel done s here enough =
        let (all, r) =
          read_all_from_fd-ok fuel n [] s.world (omega arith) (omega (arith, here))
            (omega (arith, enough)) in
        ap (λ out. out.0)
          (continue-ok
            (on_world_of files (codes "failed to read from local file")
              (read_all_from_fd files fuel x.fd n [] s.world) s.stall_cancelled)
            (λ chunk.
              send_chunk t files (on connection laws done) chunk >> counted t files x done n)
            all
            (on_world-ok (codes "failed to read from local file")
              (read_all_from_fd files fuel x.fd n [] s.world) s.stall_cancelled all r))
        ∙ sent all _
      where
        n : ℕ
        n = min (x.total - done) sync_data_max

        sent :
            (chunk : Bytes) (s1 : Line W)
            → ((send_chunk t files (on connection laws done) chunk >> counted t files x done n)
                s1).0
              ≡ ok (more ((done + n) % 2 ^ 64))
        sent chunk s1 =
            ap (λ out. out.0)
              (continue-ok (send_chunk t files (on connection laws done) chunk s1)
                (λ _. counted t files x done n) tt
                (or_broken-ok (on connection laws done) _
                  (write_sync_packet-ok done (codes "DATA") (length chunk) chunk s1)))
            ∙ counted-ok done n _

    -- On a round for each byte that is left and 64 K of them for each chunk, with as much in the file as
    -- the size says: the loop succeeds, and its result is the size.
    pub send_loop-ok :
        (fuel file_fuel done : ℕ) (s : Line W)
        → done ≤ x.total
        → x.total < 2 ^ 64
        → x.total - done ≤ fuel
        → sync_data_max ≤ file_fuel
        → x.total - done ≤ length (laws.unread s.world)
        → (send_loop t files fuel file_fuel connection x done s).0 ≡ ok x.total
    unfolding send_loop Passed
    send_loop-ok zero file_fuel done s le big rounds enough here =
        rw (finished_count done le rounds) (ap (λ d. ok d) (omega (arith, le, rounds)))
      where
        finished_count : (done : ℕ) → done ≤ x.total → x.total - done ≤ 0 → ltb done x.total ≡ false
        finished_count done le rounds = ground arith
    send_loop-ok (suc fuel) file_fuel done s le big rounds enough here =
        elim (Bool-cases (ltb done x.total)) [
          | inr e ↦ rw (e, send_loop) (ap (λ d. ok d) (at_end e))
          | inl e ↦
              let out = send_step t files file_fuel connection x done s in
              let h = send_step-ok file_fuel done s (omega (arith, here)) enough in
              let (chunk, same, l, u, k) =
                Ends-ok (Passed connection laws done s) Anyhow out _
                  (send_step-Ends connection laws file_fuel done s) h in
              let (w, le', some_bytes, most) = new_count connection laws done n big e refl in
              let rest =
                send_loop-ok fuel file_fuel ((done + n) % 2 ^ 64) out.1 (omega (arith, w, le')) big
                  (omega (arith, w, rounds, some_bytes)) enough
                  (omega (
                    arith,
                    w,
                    here,
                    ap length u,
                    length-append chunk (laws.unread out.1.world),
                    l,
                  )) in
              rw (e, send_loop)
                (ap (λ z. z.0)
                    (continue-ok out
                      (λ r. elim r as (λ _. Talk W ℕ) [
                        | finished ↦ pure done
                        | more done' ↦ send_loop t files fuel file_fuel connection x done'
                      ])
                      (more ((done + n) % 2 ^ 64)) h)
                  ∙ rest)
        ]
      where
        n : ℕ
        n = min (x.total - done) sync_data_max

        at_end : ltb done x.total ≡ false → done ≡ x.total
        at_end e = ground arith
