-- ===== src/Tests/System.antt =====
-- The theorems on sockets and processes at concrete inputs.
use adb_wfx_plugin.Base.{
  Bool, false, ℕ, ◌≡◌, refl, ap, true, Option, none, some, List, [], ◌∷◌, codes,
}
use adb_wfx_plugin.Base.Exec.{Result, ok, Holds}
use adb_wfx_plugin.Transport.Connect.{
  Sockets, Sockopt, so_rcvtimeo, so_sndtimeo, so_nosigpipe, Timeval, connect_to,
}
use adb_wfx_plugin.Transport.Connect.Descriptors.{
  SocketsLaws, Connected, Closed, connect_to-Connected,
}
use adb_wfx_plugin.Server.Start.{
  exited, Processes, ProcessLaws, Reaped, start_adb_server, start_adb_server-Reaped,
}

-- The open descriptors, and the options of the newest.
record World : Type 0 where
  fds : List ℕ
  receive : Option Timeval
  send : Option Timeval
  no_sigpipe : Bool

abbrev rest_of : List ℕ → List ℕ
rest_of [] = []
rest_of (fd ∷ fds) = fds

abbrev set_on : Sockopt → World → World
set_on (so_rcvtimeo timeout) w = record w { receive = some timeout }
set_on (so_sndtimeo timeout) w = record w { send = some timeout }
set_on so_nosigpipe w = record w { no_sigpipe = true }

abbrev sockets : Sockets World
sockets = record {
  socket = λ w. (ok 3, record w { fds = 3 ∷ w.fds });
  inet_pton = λ host. some host;
  connect = λ fd address port w. (ok tt, w);
  setsockopt = λ fd option w. (ok tt, set_on option w);
  close = λ fd w. record w { fds = rest_of w.fds };
  strerror = λ e. [];
}

new_descriptor :
    (w : World) (fd : ℕ) → (sockets.socket w).0 ≡ ok fd → (sockets.socket w).1.fds ≡ fd ∷ w.fds
new_descriptor w fd h = ap (λ n. n ∷ w.fds) same
  where
    same : 3 ≡ fd
    same = cc

set_on_keeps : (option : Sockopt) (w : World) → (set_on option w).fds ≡ w.fds
set_on_keeps (so_rcvtimeo timeout) w = refl
set_on_keeps (so_sndtimeo timeout) w = refl
set_on_keeps so_nosigpipe w = refl

sockets_laws : SocketsLaws sockets
sockets_laws = record {
  open_descriptors = λ w. w.fds;
  receive_timeout = λ w fd. w.receive;
  send_timeout = λ w fd. w.send;
  socket_ok = new_descriptor;
  socket_failed = λ w e h. cc;
  connect_keeps = λ fd address port w. refl;
  setsockopt_keeps = λ fd option w. set_on_keeps option w;
  close_closes = λ fd fds w h. ap rest_of h;
  receive_set = λ fd timeout w h. refl;
  send_set = λ fd timeout w h. (refl, refl);
  raises_no_sigpipe = λ w fd. w.no_sigpipe;
  nosigpipe_set = λ fd w h. refl;
  nosigpipe_keeps = λ fd w. (refl, refl);
}

abbrev nothing_open : World
nothing_open = record { fds = []; receive = none; send = none; no_sigpipe = false }

connect_to-Connected_example :
    Holds
      (Connected sockets sockets_laws true (sockets_laws.open_descriptors nothing_open) 1500)
      (Closed sockets sockets_laws (sockets_laws.open_descriptors nothing_open))
      (connect_to sockets true 9 (codes "127.0.0.1") 5037 1500 nothing_open)
connect_to-Connected_example =
    connect_to-Connected sockets sockets_laws true 9 (codes "127.0.0.1") 5037 1500 nothing_open

-- The world is the list of the children.
abbrev processes : Processes (List ℕ)
processes = record {
  spawn = λ binary arguments w. (ok 7, 7 ∷ w);
  waitpid = λ pid w. (ok (exited 0), rest_of w);
}

new_child :
    (w : List ℕ) (pid : ℕ) → (let r : Result (Unit {0}) ℕ = ok 7 in r ≡ ok pid) → 7 ∷ w ≡ pid ∷ w
new_child w pid h = ap (λ n. n ∷ w) same
  where
    same : 7 ≡ pid
    same = cc

process_laws : ProcessLaws processes
process_laws = record {
  children = λ w. w;
  spawn_ok = λ binary arguments w pid h. new_child w pid h;
  spawn_failed = λ binary arguments w h. cc;
  wait_ok = λ pid pids w status h g. ap rest_of h;
  wait_failed = λ pid w e h. cc;
}

start_adb_server-Reaped_example :
    let (r, w') = start_adb_server processes 9 (codes "/usr/bin/adb") [] in
    Reaped processes process_laws (process_laws.children []) r w'
start_adb_server-Reaped_example =
    start_adb_server-Reaped processes process_laws 9 (codes "/usr/bin/adb") []
