-- ===== src/Transport/Wired.antt =====
-- `TcpTransport` as the `Transport` of the client: one connection, whose state is part of the world.
pub mod Recv
use adb_wfx_plugin.Base.{ℕ, Bool, true, false, Option, none, some, Bytes}
use adb_wfx_plugin.Base.Exec.{Result, ok, err, Exec}
use adb_wfx_plugin.Core.Interface.{ProgressFn}
use adb_wfx_plugin.Client.{StallFn, Line, Transport}
use adb_wfx_plugin.Client.Sync.{Attempt, moved, failed, Files}
use adb_wfx_plugin.Transport.{
  Outcome, answered, no_fuel, Tcp, Socket, write_all, read_exactly, read_some,
}

module _ {W : Type 0} where
  -- The state of a conversation, with the flag in the world outside the connection.
  abbrev pub to_tcp : Line (Tcp W) → Tcp (Line W)
  to_tcp s = record {
    world = record { world = s.world.world; stall_cancelled = s.stall_cancelled };
    last_error = s.world.last_error;
    buffer = s.world.buffer;
  }

  abbrev pub of_tcp : Tcp (Line W) → Line (Tcp W)
  of_tcp v = record {
    world = record { world = v.world.world; last_error = v.last_error; buffer = v.buffer };
    stall_cancelled = v.world.stall_cancelled;
  }

  abbrev pub on_connection : StallFn (Line (Tcp W)) → StallFn (Tcp (Line W))
  on_connection none = none
  on_connection (some on_stall) = some (λ v. let (go, s) = on_stall (of_tcp v) in (go, to_tcp s))

  abbrev pub with_flag : {A : Type 0} → (W → A × W) → Line W → A × Line W
  with_flag call l = let (a, w) = call l.world in (a, record l { world = w })

  -- The calls on a socket leave the flag alone.
  abbrev pub on_line_socket : Socket W → Socket (Line W)
  on_line_socket socket = record {
    send = λ bytes. with_flag (socket.send bytes);
    recv = λ n. with_flag (socket.recv n);
    strerror = socket.strerror;
  }

  -- True is a success; false, or a loop without fuel, is a failure.
  abbrev pub succeeded : Outcome Bool × Tcp (Line W) → Result (Unit {0}) (Unit {0}) × Line (Tcp W)
  succeeded (answered true, v) = (ok tt, of_tcp v)
  succeeded (answered false, v) = (err tt, of_tcp v)
  succeeded (no_fuel, v) = (err tt, of_tcp v)

  -- The same, with what the buffer holds.
  abbrev pub in_buffer : Outcome Bool × Tcp (Line W) → Result (Unit {0}) Bytes × Line (Tcp W)
  in_buffer (answered true, v) = (ok v.buffer, of_tcp v)
  in_buffer (answered false, v) = (err tt, of_tcp v)
  in_buffer (no_fuel, v) = (err tt, of_tcp v)

  -- A negative result is a failure.
  abbrev pub read_result :
      Outcome (Attempt Bytes) × Tcp (Line W) → Result (Unit {0}) Bytes × Line (Tcp W)
  read_result (answered (moved bytes), v) = (ok bytes, of_tcp v)
  read_result (answered (failed e), v) = (err tt, of_tcp v)
  read_result (no_fuel, v) = (err tt, of_tcp v)

  -- `connect` and `close` stand for `connectTo` and `close` on the world.
  unfoldable pub tcp_transport :
      Socket W → ℕ → Exec Bytes (Tcp W) ℕ → (ℕ → Tcp W → Tcp W) → Transport (Tcp W)
  unfolding write_all read_exactly read_some
  tcp_transport socket fuel connect close = record {
    connect = connect;
    write_all = λ on_stall number bytes s.
        succeeded
          (write_all (on_line_socket socket) (on_connection on_stall) fuel bytes (to_tcp s));
    read_exactly = λ on_stall number n s.
        in_buffer (read_exactly (on_line_socket socket) (on_connection on_stall) fuel n (to_tcp s));
    read_some = λ on_stall number n s.
        read_result (read_some (on_line_socket socket) (on_connection on_stall) fuel n (to_tcp s));
    close = close;
    last_error = λ number v. v.last_error;
  }

  -- What works on the world works on it beside a connection.
  abbrev pub beside : {A : Type 0} → (W → A × W) → Tcp W → A × Tcp W
  beside call v = let (a, w) = call v.world in (a, record v { world = w })

  abbrev pub files_beside : Files W → Files (Tcp W)
  files_beside files = record {
    write = λ fd buf. beside (files.write fd buf);
    read = λ fd n. beside (files.read fd n);
    strerror = files.strerror;
  }

  abbrev pub progress_beside : Option (ProgressFn W) → Option (ProgressFn (Tcp W))
  progress_beside none = none
  progress_beside (some progress) = some (λ done total. beside (progress done total))
