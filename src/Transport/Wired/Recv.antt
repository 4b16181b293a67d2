-- ===== src/Transport/Wired/Recv.antt =====
-- A download over a socket, down to `recv` and `::write`.
use adb_wfx_plugin.Base.{
  ℕ, Bool-cases, inl, inr, ◌≡◌, refl, sym, ap, subst, ◌∙◌, Bool, true, false, Option, none, some,
  ◌++◌, Bytes, length, take,
}
use adb_wfx_plugin.Base.Exec.{ok, Exec, Ends}
use adb_wfx_plugin.Core.Interface.{ProgressFn}
use adb_wfx_plugin.Client.{StallFn, Line, Connection}
use adb_wfx_plugin.Client.Sync.{Errno, moved, failed, Files}
use adb_wfx_plugin.Client.Transfers.{Transfer, stall_callback, recv_loop}
use adb_wfx_plugin.Client.Recv.{Received, Fetched, recv_loop-Fetched}
use adb_wfx_plugin.Client.Recv.Laws.{RecvLaws}
use adb_wfx_plugin.Transport.{
  Outcome, answered, no_fuel, stall_should_keep_waiting, Tcp, Socket, read_exactly,
}
use adb_wfx_plugin.Transport.Loops.{SocketLaws}
use adb_wfx_plugin.Transport.Kept.{read_exactly-kept}
use adb_wfx_plugin.Transport.Fill.{Unread, Filled, read_exactly-Filled}
use adb_wfx_plugin.Transport.Wired.{
  to_tcp, of_tcp, on_connection, on_line_socket, in_buffer, tcp_transport, beside, files_beside,
  progress_beside,
}

module _ {W : Type 0} (socket : Socket W) (laws : SocketLaws socket) (files : Files W) (fd : ℕ)
    (progress : Option (ProgressFn W)) where
  -- `written` is what the file has got. A call of one kind does not touch what the other is about: the
  -- socket's leave the file alone, the file's the socket, and the callback both.
  pub record DiskLaws : Type 0 where
    pub written : W → Bytes
    pub recv_keeps : (n : ℕ) (w : W) → written (socket.recv n w).1 ≡ written w
    pub write_moved :
        (buf : Bytes) (w : W) (n : ℕ)
        → let (r, w') = files.write fd buf w in
          r ≡ moved n
          → (written w' ≡ written w ++ take n buf) × (laws.incoming w' ≡ laws.incoming w)
    pub write_failed :
        (buf : Bytes) (w : W) (e : Errno)
        → let (r, w') = files.write fd buf w in
          r ≡ failed e → (written w' ≡ written w) × (laws.incoming w' ≡ laws.incoming w)
    pub asked :
        (callback : ProgressFn W) (done total : ℕ) (w : W)
        → progress ≡ some callback
        → let w' = (callback done total w).1 in
          (written w' ≡ written w) × (laws.incoming w' ≡ laws.incoming w)

  abbrev on_line_laws : SocketLaws (on_line_socket socket)
  on_line_laws = record {
    sent = λ l. laws.sent l.world;
    incoming = λ l. laws.incoming l.world;
    send_moves = λ b l k h. laws.send_moves b l.world k h;
    send_failed = λ b l e h. laws.send_failed b l.world e h;
    recv_moves = λ n l b h. laws.recv_moves n l.world b h;
    recv_failed = λ n l e h. laws.recv_failed n l.world e h;
  }

  module _ (disk : DiskLaws) (fuel number total : ℕ) (connect : Exec Bytes (Tcp W) ℕ)
      (close : ℕ → Tcp W → Tcp W) where
    abbrev pub transfer : Transfer (Tcp W)
    transfer = record { fd = fd; total = total; progress = progress_beside progress }

    -- The callback, as it is installed on the connection.
    abbrev callback : ℕ → StallFn (Tcp (Line W))
    callback done = on_connection (stall_callback (progress_beside progress) done total)

    callback-quiet :
        (done : ℕ) (v : Tcp (Line W))
        → let v' = (stall_should_keep_waiting (callback done) v).1 in
          (disk.written v'.world.world ≡ disk.written v.world.world)
          × (laws.incoming v'.world.world ≡ laws.incoming v.world.world)
          × (v'.buffer ≡ v.buffer)
    unfolding stall_should_keep_waiting stall_callback
    callback-quiet done v = go progress refl
      where
        go :
            (p : Option (ProgressFn W))
            → progress ≡ p
            → let v' =
                (stall_should_keep_waiting
                  (on_connection (stall_callback (progress_beside p) done total))
                  v).1 in
              (disk.written v'.world.world ≡ disk.written v.world.world)
              × (laws.incoming v'.world.world ≡ laws.incoming v.world.world)
              × (v'.buffer ≡ v.buffer)
        go none e = (refl, refl, refl)
        go (some ask) e = elim (Bool-cases (ask done total v.world.world).0) [
          | inl b ↦ rw b (kept.0, kept.1, refl)
          | inr b ↦ rw b (kept.0, kept.1, refl)
        ]
          where
            kept :
                (disk.written (ask done total v.world.world).1 ≡ disk.written v.world.world)
                × (laws.incoming (ask done total v.world.world).1 ≡ laws.incoming v.world.world)
            kept = disk.asked ask done total v.world.world e

    -- A call of `readExactly` that has succeeded.
    read_buffer :
        (n : ℕ) (v : Tcp (Line W)) (out : Outcome Bool × Tcp (Line W)) (bytes : Bytes)
        → Filled (on_line_socket socket) on_line_laws n v out
        → disk.written out.1.world.world ≡ disk.written v.world.world
        → (in_buffer out).0 ≡ ok bytes
        → (length bytes ≡ n)
          × (laws.incoming v.world.world ≡ bytes ++ laws.incoming (in_buffer out).1.world.world)
          × (disk.written (in_buffer out).1.world.world ≡ disk.written v.world.world)
    unfolding Filled
    read_buffer n v (answered true, v') bytes (l, e) k h =
        (ap length (sym same) ∙ l, e ∙ ap (λ b. b ++ laws.incoming v'.world.world) same, k)
      where
        same : v'.buffer ≡ bytes
        same = cc
    read_buffer n v (answered false, v') bytes f k h = cc
    read_buffer n v (no_fuel, v') bytes f k h = cc

    in_buffer-state : (out : Outcome Bool × Tcp (Line W)) → (in_buffer out).1 ≡ of_tcp out.1
    in_buffer-state (answered true, v) = refl
    in_buffer-state (answered false, v) = refl
    in_buffer-state (no_fuel, v) = refl

    read_keeps :
        (done n : ℕ) (v : Tcp (Line W))
        → disk.written (read_exactly (on_line_socket socket) (callback done) fuel n v).1.world.world
          ≡ disk.written v.world.world
    read_keeps done n v =
        read_exactly-kept (on_line_socket socket) (λ l. disk.written l.world)
          (λ m l. disk.recv_keeps m l.world) (callback done) (λ u. (callback-quiet done u).0) fuel n
          v

    asked_beside :
        (p : Option (ProgressFn W))
        → progress ≡ p
        → (ask : ProgressFn (Tcp W)) (done : ℕ) (v : Tcp W) → progress_beside p ≡ some ask
        → let v' = (ask done total v).1 in
          (disk.written v'.world ≡ disk.written v.world)
          × (laws.incoming v'.world ≡ laws.incoming v.world)
    asked_beside none e ask done v h = cc
    asked_beside (some p) e ask done v h =
        subst
          (λ q.
            let v' = (q done total v).1 in
            (disk.written v'.world ≡ disk.written v.world)
            × (laws.incoming v'.world ≡ laws.incoming v.world))
          same (disk.asked p done total v.world e)
      where
        same : (λ d n. beside (p d n)) ≡ ask
        same = cc

    -- A stream over the socket and a file on the disk are what `syncRecv` relies on.
    tcp-RecvLaws :
        RecvLaws (tcp_transport socket fuel connect close) (files_beside files) transfer number
    unfolding tcp_transport Unread
    tcp-RecvLaws = record {
      incoming = λ v. laws.incoming v.world;
      written = λ v. disk.written v.world;
      read_ok = λ done n s bytes h.
          read_buffer n (to_tcp s)
            (read_exactly (on_line_socket socket) (callback done) fuel n (to_tcp s)) bytes
            (read_exactly-Filled (on_line_socket socket) on_line_laws (callback done) fuel n
              (to_tcp s) (λ u. let q = callback-quiet done u in (q.1, q.2)))
            (read_keeps done n (to_tcp s)) h;
      read_failed = λ done n s h.
          ap (λ l. disk.written l.world.world)
            (in_buffer-state
              (read_exactly (on_line_socket socket) (callback done) fuel n (to_tcp s)))
          ∙ read_keeps done n (to_tcp s);
      write_moved = λ buf v n h. disk.write_moved buf v.world n h;
      write_failed = λ buf v e h. disk.write_failed buf v.world e h;
      asked = λ ask done v h. asked_beside progress refl ask done v h;
    }

    -- What the file has got is what the packets at the front of the stream carry.
    pub Brought : Line (Tcp W) → Line (Tcp W) → Type 0
    Brought s s' =
        (bytes : Bytes) × Received (laws.incoming s.world.world) bytes
          (laws.incoming s'.world.world)
        × (disk.written s'.world.world ≡ disk.written s.world.world ++ bytes)

    -- The loop of `syncRecv` on a TCP connection, down to `recv` and `::write`, which both may fall short
    -- or be interrupted, and with a stall callback: on success the file has got exactly what the
    -- packets `DATA` of the stream carry up to `DONE`, each byte once and in order; after a failure it has
    -- only grown.
    pub tcp_recv_loop-Brought :
        (rounds file_fuel : ℕ) (on_stall : StallFn (Line (Tcp W))) (s : Line (Tcp W))
        → let connection : Connection (Tcp W) = record { number = number; on_stall = on_stall } in
          Ends
            (λ _. Brought s)
            (λ s'.
              (bytes : Bytes) × (disk.written s'.world.world ≡ disk.written s.world.world ++ bytes))
            (recv_loop
              (tcp_transport socket fuel connect close)
              (files_beside files)
              rounds
              file_fuel
              connection
              transfer
              0
              s)
    unfolding Brought Fetched tcp-RecvLaws
    tcp_recv_loop-Brought rounds file_fuel on_stall s =
        recv_loop-Fetched (record { number = number; on_stall = on_stall }) tcp-RecvLaws rounds
          file_fuel s
