-- ===== src/Client/Recv/Delivery.antt =====
-- That `syncRecv` brings a file over, when nothing fails.
use adb_wfx_plugin.Base.{
  ℕ, zero, suc, ◌+◌, ◌%◌, ◌^◌, ◌≤◌, ◌<◌, ◌≡◌, refl, sym, ap, subst, ◌∙◌, Bool, true, false, not,
  Option, none, some, [], ◌∷◌, ◌++◌, append_assoc, append-nil, Bytes, codes, length, length-append,
  length-drop, drop, ltb, arith,
}
use adb_wfx_plugin.Base.Exec.{Result, ok, err, pure, fail_if, ◌>>◌, continue, continue-ok, Ends-ok}
use adb_wfx_plugin.Proto.{SyncHeader, parse_sync_header, sync_id_is, sync_data_max}
use adb_wfx_plugin.Core.Interface.{ProgressFn}
use adb_wfx_plugin.Core.Download.{adb_cancelled}
use adb_wfx_plugin.Client.{
  Line, Transport, Connection, Failure, message, Talk, explain, or_connection_error, read_exactly,
}
use adb_wfx_plugin.Client.Sync.{
  Files, moved, FileFailure, write_all_to_fd, on_file, on_world_of, read_sync_header,
  should_continue,
}
use adb_wfx_plugin.Client.Transfers.{
  Transfer, Round, finished, more, stall_callback, cancelled_or, cancellation_or, with_stall,
  counted, recv_chunk, recv_step, recv_loop,
}
use adb_wfx_plugin.Client.Recv.{Received, received_done, received_data, answer_to}
use adb_wfx_plugin.Client.Stalls.{data_id}
use adb_wfx_plugin.Client.Recv.Laws.{RecvLaws}
use adb_wfx_plugin.Client.Recv.Chunks.{on, Chunk, Grew, recv_chunk-Ends}

append-injective :
    (xs xs' ys ys' : Bytes)
    → length xs ≡ length xs'
    → xs ++ ys ≡ xs' ++ ys'
    → (xs ≡ xs') × (ys ≡ ys')
append-injective [] [] ys ys' l e = (refl, e)
append-injective [] (x ∷ xs') ys ys' l e = absurd (omega (arith, l))
append-injective (x ∷ xs) [] ys ys' l e = absurd (omega (arith, l))
append-injective (x ∷ xs) (x' ∷ xs') ys ys' l e =
    let rest = append-injective xs xs' ys ys' (omega (arith, l)) cc in (cc, rest.1)

module _ {W : Type 0} {t : Transport W} {files : Files W} {x : Transfer W}
    (connection : Connection W) (laws : RecvLaws t files x connection.number) where
  -- Nothing fails: bytes of the stream that are asked for arrive, `::write` takes some of what it is
  -- given, and the user does not cancel.
  pub record Delivers : Type 0 where
    pub arrives :
        (done n : ℕ) (s : Line W)
        → n ≤ length (laws.incoming s.world)
        → (bytes : Bytes) × ((t.read_exactly
              (stall_callback x.progress done x.total)
              connection.number
              n
              s).0
            ≡ ok bytes)
    pub takes :
        (b : ℕ) (buf : Bytes) (w : W) → (n : ℕ) × ((files.write x.fd (b ∷ buf) w).0 ≡ moved (suc n))
    pub goes_on :
        (progress : ProgressFn W) (done : ℕ) (w : W)
        → x.progress ≡ some progress
        → (progress done x.total w).0 ≡ true

  explain-ok :
      {A : Type 0} (c : Connection W) (what : Bytes) (out : Result (Unit {0}) A × Line W) (a : A)
      → out.0 ≡ ok a
      → cancelled_or (explain t c what out) ≡ (ok a, out.1)
  explain-ok c what (ok b, s) a e = ap (λ z. (ok z, s)) {x = b} {y = a} cc
  explain-ok c what (err u, s) a e = cc

  on_file-ok :
      (what : Bytes) (out : Result FileFailure (Unit {0}) × W) (b : Bool)
      → out.0 ≡ ok tt
      → on_world_of files what out b ≡ (ok tt, record { world = out.1; stall_cancelled = b })
  on_file-ok what (ok u, w) b e = refl
  on_file-ok what (err f, w) b e = cc

  module _ (nothing_fails : Delivers) where
    write_all_to_fd-ok :
        (fuel : ℕ) (buf : Bytes) (w : W)
        → length buf ≤ fuel
        → (write_all_to_fd files fuel x.fd buf w).0 ≡ ok tt
    unfolding write_all_to_fd
    write_all_to_fd-ok fuel [] w le = refl
    write_all_to_fd-ok zero (b ∷ buf) w le = absurd (omega arith)
    write_all_to_fd-ok (suc fuel) (b ∷ buf) w le =
        let (n, h) = nothing_fails.takes b buf w in
        rw (h, write_all_to_fd)
          (write_all_to_fd-ok fuel (drop n buf) _ (omega (arith, length-drop n buf)))

    counted-ok :
        (done n : ℕ) (s : Line W) → (counted t files x done n s).0 ≡ ok (more ((done + n) % 2 ^ 64))
    unfolding counted should_continue
    counted-ok done n s = go x.progress refl
      where
        go :
            (p : Option (ProgressFn W))
            → x.progress ≡ p
            → (continue (should_continue p ((done + n) % 2 ^ 64) x.total s) λ go_on.
                (fail_if (not go_on) (message adb_cancelled))
                >> pure (more ((done + n) % 2 ^ 64))).0
              ≡ ok (more ((done + n) % 2 ^ 64))
        go none h = refl
        go (some progress) h =
            rw (nothing_fails.goes_on progress ((done + n) % 2 ^ 64) s.world h) refl

    -- What is done with a chunk that was read.
    abbrev store : ℕ → ℕ → ℕ → Bytes → Talk W Round
    store fuel done len chunk =
        on_file files (codes "failed to write to local file")
          (write_all_to_fd files fuel x.fd chunk)
        >> counted t files x done len

    recv_chunk-ok :
        (fuel done len : ℕ) (s : Line W)
        → len ≤ length (laws.incoming s.world)
        → len ≤ fuel
        → (recv_chunk t files fuel (on connection laws done) x done len s).0
          ≡ ok (more ((done + len) % 2 ^ 64))
    unfolding recv_chunk cancellation_or or_connection_error on_file with_stall
    recv_chunk-ok fuel done len s here le =
        let (bytes, h) = nothing_fails.arrives done len s here in
        ap (λ out. (continue out (store fuel done len)).0)
          (explain-ok (on connection laws done) (codes "failed to read DATA chunk from adb server")
            (read_exactly t (on connection laws done) len s) bytes h)
        ∙ ap (λ out. (continue out λ _. counted t files x done len).0)
            (on_file-ok (codes "failed to write to local file")
              (write_all_to_fd files fuel x.fd bytes _) _
              (write_all_to_fd-ok fuel bytes _
                (omega (arith, (laws.read_ok done len s bytes h).0))))
        ∙ counted-ok done len _

    header-ok :
        (done : ℕ) (what : Bytes) (s : Line W) (header rest : Bytes)
        → length header ≡ 8
        → laws.incoming s.world ≡ header ++ rest
        → (s1 : Line W) × (cancelled_or (
              explain t
                (on connection laws done)
                what
                (read_sync_header t (on connection laws done) s))
            ≡ (ok (parse_sync_header header), s1))
          × (laws.incoming s1.world ≡ rest)
          × (laws.written s1.world ≡ laws.written s.world)
    unfolding read_sync_header with_stall
    header-ok done what s header rest l e =
        let (bytes, h) =
          nothing_fails.arrives done 8 s
            (omega (arith, ap length e, length-append header rest, l)) in
        let (n, stream, kept) = laws.read_ok done 8 s bytes h in
        let same = append-injective bytes header _ rest (n ∙ sym l) (sym stream ∙ e) in
        (
          (read_exactly t (on connection laws done) 8 s).1,
          ap (λ out. cancelled_or (explain t (on connection laws done) what out))
                (continue-ok (read_exactly t (on connection laws done) 8 s)
                  (λ buf. pure (parse_sync_header buf)) bytes h)
              ∙ ap
                  (λ b.
                    (ok (parse_sync_header b), (read_exactly t (on connection laws done) 8 s).1))
                  same.0,
          same.1,
          kept,
        )

    -- A round has answered `round`, and taken so much from the stream to the file.
    Moved : Line W → Round → Bytes → Bytes → Result Failure Round × Line W → Type 0
    Moved s round bytes rest out =
        (out.0 ≡ ok round)
        × (laws.incoming out.1.world ≡ rest)
        × (laws.written out.1.world ≡ laws.written s.world ++ bytes)

    answer-done :
        (fuel done : ℕ) (h : SyncHeader) (s : Line W)
        → sync_id_is h (codes "DONE") ≡ true
        → answer_to connection laws fuel done h s ≡ (ok finished, s)
    answer-done fuel done h s id = rw id refl

    answer-data :
        (fuel done : ℕ) (h : SyncHeader) (s : Line W)
        → sync_id_is h (codes "DATA") ≡ true
        → ltb sync_data_max h.arg ≡ false
        → answer_to connection laws fuel done h s
          ≡ recv_chunk t files fuel (on connection laws done) x done h.arg s
    answer-data fuel done h s id fits = rw ((data_id h id).0, (data_id h id).1, id, fits) refl

    recv_step-done :
        (fuel done : ℕ) (s : Line W) (header rest : Bytes)
        → length header ≡ 8
        → sync_id_is (parse_sync_header header) (codes "DONE") ≡ true
        → laws.incoming s.world ≡ header ++ rest
        → Moved s finished [] rest (recv_step t files fuel connection x done s)
    unfolding recv_step cancellation_or or_connection_error Moved
    recv_step-done fuel done s header rest l id e =
        let (s1, q, i, w) =
          header-ok done (codes "failed to read sync reply from adb server") s header rest l e in
        subst (Moved s finished [] rest)
          (sym (
            ap (λ out. continue out (answer_to connection laws fuel done)) q
            ∙ answer-done fuel done (parse_sync_header header) s1 id))
          (refl, i, w ∙ sym (append-nil (laws.written s.world)))

    chunk-Moved :
        (fuel done : ℕ) (s : Line W) (len : ℕ) (chunk rest : Bytes)
        → len ≡ length chunk
        → len ≤ fuel
        → laws.incoming s.world ≡ chunk ++ rest
        → (d : ℕ) × Moved s
            (more d)
            chunk
            rest
            (recv_chunk t files fuel (on connection laws done) x done len s)
    unfolding Moved Chunk
    chunk-Moved fuel done s len chunk rest l le e =
        let out = recv_chunk t files fuel (on connection laws done) x done len s in
        let h =
          recv_chunk-ok fuel done len s (omega (arith, ap length e, length-append chunk rest, l))
            le in
        let (same_round, (got, n, stream, file)) =
          Ends-ok _ (Grew connection laws s) out _ (recv_chunk-Ends connection laws fuel done len s)
            h in
        let same = append-injective got chunk _ rest (n ∙ l) (sym stream ∙ e) in
        ((done + len) % 2 ^ 64, (h, same.1, file ∙ ap (λ b. laws.written s.world ++ b) same.0))

    recv_step-data :
        (fuel done : ℕ) (s : Line W) (header chunk rest : Bytes)
        → length header ≡ 8
        → sync_id_is (parse_sync_header header) (codes "DATA") ≡ true
        → (parse_sync_header header).arg ≡ length chunk
        → length chunk ≤ sync_data_max
        → sync_data_max ≤ fuel
        → laws.incoming s.world ≡ header ++ (chunk ++ rest)
        → (d : ℕ) × Moved s (more d) chunk rest (recv_step t files fuel connection x done s)
    unfolding recv_step cancellation_or or_connection_error Moved
    recv_step-data fuel done s header chunk rest l id arg le enough e =
        let (s1, q, i, w) =
          header-ok done (codes "failed to read sync reply from adb server") s header
            (chunk ++ rest) l e in
        let h = parse_sync_header header in
        let (d, (r, i', w')) =
          chunk-Moved fuel done s1 h.arg chunk rest arg (omega (arith, arg, le, enough)) i in
        (
          d,
          subst (Moved s (more d) chunk rest)
              (sym (
                ap (λ out. continue out (answer_to connection laws fuel done)) q
                ∙ answer-data fuel done h s1 id (fits arg le)))
              (r, i', w' ∙ ap (λ b. b ++ chunk) w),
        )
      where
        fits :
            (parse_sync_header header).arg ≡ length chunk
            → length chunk ≤ sync_data_max
            → ltb sync_data_max (parse_sync_header header).arg ≡ false
        fits arg le = ground arith

    abbrev next_round : ℕ → ℕ → Round → Talk W (Unit {0})
    next_round fuel file_fuel round = elim round as (λ _. Talk W (Unit {0})) [
      | finished ↦ pure tt
      | more done' ↦ recv_loop t files fuel file_fuel connection x done'
    ]

    -- The whole of a stream has come over.
    pub Delivered : Line W → Bytes → Bytes → Result Failure (Unit {0}) × Line W → Type 0
    Delivered s bytes rest out =
        (out.0 ≡ ok tt)
        × (laws.written out.1.world ≡ laws.written s.world ++ bytes)
        × (laws.incoming out.1.world ≡ rest)

    -- For any stream that begins with packets `DATA` of at most 64 KB up to a `DONE`, on more rounds than
    -- it has bytes and 64 K of them for each chunk: the loop succeeds, the file has got what the packets
    -- carry, each byte once and in order, and what follows `DONE` is still to be read.
    pub recv_loop-Delivered :
        (stream bytes rest : Bytes)
        → Received stream bytes rest
        → (fuel file_fuel done : ℕ) (s : Line W) → laws.incoming s.world ≡ stream
        → length stream < fuel
        → sync_data_max ≤ file_fuel
        → Delivered s bytes rest (recv_loop t files fuel file_fuel connection x done s)
    unfolding recv_loop Delivered Moved
    recv_loop-Delivered stream bytes rest r zero file_fuel done s i lt le = absurd (omega arith)
    recv_loop-Delivered _ _ _ (received_done header stream rest l id e) (suc fuel) file_fuel done s
          i lt le =
        let (r, i', w) = recv_step-done file_fuel done s header rest l id (i ∙ e) in
        subst (Delivered s [] rest)
          (sym (
            continue-ok (recv_step t files file_fuel connection x done s)
              (next_round fuel file_fuel) finished r))
          (refl, w, i')
    recv_loop-Delivered _ _ _
          (received_data header chunk stream middle more_data rest bytes l id arg max e
            more_received all)
          (suc fuel) file_fuel done s i lt le =
        let (d, (r, i', w)) =
          recv_step-data file_fuel done s header chunk middle l id arg max le (i ∙ e) in
        let s1 = (recv_step t files file_fuel connection x done s).1 in
        let (r', w', i'') =
          recv_loop-Delivered middle more_data rest more_received fuel file_fuel d s1 i'
            (omega (
              arith,
              lt,
              ap length e,
              length-append header (chunk ++ middle),
              length-append chunk middle,
              l,
            ))
            le in
        subst (Delivered s bytes rest)
          (sym (
            continue-ok (recv_step t files file_fuel connection x done s)
              (next_round fuel file_fuel) (more d) r))
          (
            r',
            w'
                ∙ ap (λ b. b ++ more_data) w
                ∙ append_assoc (laws.written s.world) chunk more_data
                ∙ ap (λ b. laws.written s.world ++ b) (sym all),
            i'',
          )
