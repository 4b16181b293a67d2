-- ===== src/Tests/Wired.antt =====
-- A download over a socket that gives and a disk that takes two bytes at a time.
use adb_wfx_plugin.Base.{
  ℕ, ◌≤◌, ◌≡◌, refl, sym, ap, ◌∙◌, none, some, [], ◌++◌, Bytes, length, length-take, take, drop,
  take-append-drop, min, arith, false,
}
use adb_wfx_plugin.Base.Exec.{Result, ok, Ends}
use adb_wfx_plugin.Core.Interface.{ProgressFn}
use adb_wfx_plugin.Client.{Line, Connection}
use adb_wfx_plugin.Client.Sync.{eintr, moved, failed, Files}
use adb_wfx_plugin.Client.Transfers.{recv_loop}
use adb_wfx_plugin.Transport.{stall_should_keep_waiting, Tcp, Socket, read_exactly}
use adb_wfx_plugin.Transport.Loops.{SocketLaws}
use adb_wfx_plugin.Transport.Fill.{Unread, KeepsIncoming, Filled, read_exactly-Filled}
use adb_wfx_plugin.Transport.Wired.{tcp_transport, files_beside}
use adb_wfx_plugin.Transport.Wired.Recv.{DiskLaws, transfer, Brought, tcp_recv_loop-Brought}
use adb_wfx_plugin.Tests.Client.{sent_stream}

-- What is to come over the socket, and the local file.
abbrev World : Type 0
World = Bytes × Bytes

abbrev wire : Socket World
wire = record {
  send = λ bytes w. (failed eintr, w);
  recv = λ n w. (moved (take (min 2 n) w.0), (drop (min 2 n) w.0, w.1));
  strerror = λ e. [];
}

abbrev platter : Files World
platter = record {
  write = λ fd buf w. (moved (min 2 (length buf)), (w.0, w.1 ++ take (min 2 (length buf)) buf));
  read = λ fd n w. (moved [], w);
  strerror = λ e. [];
}

received :
    (n : ℕ) (w : World) (bytes : Bytes)
    → (wire.recv n w).0 ≡ moved bytes
    → (length bytes ≤ n) × (w.0 ≡ bytes ++ (wire.recv n w).1.0)
received n w bytes h = (
  omega (arith, ap length same, length-take (min 2 n) w.0),
  sym (take-append-drop (min 2 n) w.0) ∙ ap (λ b. b ++ drop (min 2 n) w.0) same,
)
  where
    same : take (min 2 n) w.0 ≡ bytes
    same = cc

wire_laws : SocketLaws wire
wire_laws = record {
  sent = λ w. [];
  incoming = λ w. w.0;
  send_moves = λ bytes w n h. cc;
  send_failed = λ bytes w e h. refl;
  recv_moves = received;
  recv_failed = λ n w e h. cc;
}

stored :
    (buf : Bytes) (w : World) (n : ℕ)
    → (platter.write 3 buf w).0 ≡ moved n
    → (platter.write 3 buf w).1.1 ≡ w.1 ++ take n buf
stored buf w n h = ap (λ k. w.1 ++ take k buf) same
  where
    same : min 2 (length buf) ≡ n
    same = cc

no_callback : (p : ProgressFn World) → none ≡ some p → ⊥
no_callback p h = cc

platter_laws : DiskLaws wire wire_laws platter 3 none
unfolding wire_laws
platter_laws = record {
  written = λ w. w.1;
  recv_keeps = λ n w. refl;
  write_moved = λ buf w n h. (stored buf w n h, refl);
  write_failed = λ buf w e h. cc;
  asked = λ p done total w h. absurd (no_callback p h);
}

abbrev idle : Tcp World
idle = record { world = (sent_stream, []); last_error = []; buffer = [] }

quiet : KeepsIncoming wire wire_laws none
unfolding stall_should_keep_waiting Unread
quiet v = (refl, refl)

read_exactly-Filled_example : Filled wire wire_laws 5 idle (read_exactly wire none 9 5 idle)
read_exactly-Filled_example = read_exactly-Filled wire wire_laws none 9 5 idle quiet

abbrev begun : Line (Tcp World)
begun = record { world = idle; stall_cancelled = false }

abbrev no_connect : Tcp World → Result Bytes ℕ × Tcp World
no_connect v = (ok 0, v)

tcp_recv_loop-Brought_example :
    let connection : Connection (Tcp World) = record { number = 0; on_stall = none } in
    Ends
      (λ _. Brought wire wire_laws platter 3 none platter_laws 99 0 4 no_connect (λ n v. v) begun)
      (λ s'.
        (bytes : Bytes) × (platter_laws.written s'.world.world
          ≡ platter_laws.written begun.world.world ++ bytes))
      (recv_loop
        (tcp_transport wire 99 no_connect (λ n v. v))
        (files_beside platter)
        9
        65536
        connection
        (transfer wire wire_laws platter 3 none platter_laws 99 0 4 no_connect (λ n v. v))
        0
        begun)
tcp_recv_loop-Brought_example =
    tcp_recv_loop-Brought wire wire_laws platter 3 none platter_laws 99 0 4 no_connect (λ n v. v) 9
      65536 none begun
