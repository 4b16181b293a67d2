-- ===== src/Transport/Connect.antt =====
-- `TcpTransport::connectTo` and `close`.
pub mod Descriptors
use adb_wfx_plugin.Base.{
  ℕ, zero, suc, ◌*◌, ◌/◌, ◌%◌, ◌^◌, Bool, true, false, Option, none, some, ◌++◌, Bytes, codes,
}
use adb_wfx_plugin.Base.Exec.{Result, ok, err, Exec, pure, fail, modify, try, ◌>>=◌, ◌>>◌}
use adb_wfx_plugin.Client.{Failure, message, out_of_fuel}
use adb_wfx_plugin.Client.Sync.{Errno, eintr, eagain, ewouldblock, other}

-- SOCKET_TIMEOUT_MS.
abbrev pub socket_timeout_ms : ℕ
socket_timeout_ms = 30000

abbrev pub milliseconds_per_second : ℕ
milliseconds_per_second = 1000

abbrev pub microseconds_per_millisecond : ℕ
microseconds_per_millisecond = 1000

-- `struct timeval`.
pub record Timeval : Type 0 where
  pub tv_sec : ℕ
  pub tv_usec : ℕ

pub data Sockopt : Type 0 where
  so_rcvtimeo so_sndtimeo : Timeval → Sockopt
  so_nosigpipe : Sockopt

-- The calls of the system. `inet_pton` answers the address, where the text is one.
pub record Sockets (W : Type 0) : Type 0 where
  pub socket : Exec Errno W ℕ
  pub inet_pton : Bytes → Option Bytes
  pub connect : ℕ → Bytes → ℕ → Exec Errno W (Unit {0})
  pub setsockopt : ℕ → Sockopt → Exec Errno W (Unit {0})
  pub close : ℕ → W → W
  pub strerror : Errno → Bytes

-- The timeout of `connectTo`, as the system takes it.
unfoldable pub timeval_of : ℕ → Timeval
timeval_of timeout_ms = record {
  tv_sec = timeout_ms / milliseconds_per_second;
  tv_usec = timeout_ms % milliseconds_per_second * microseconds_per_millisecond;
}

abbrev pub timeout_options : Bytes
timeout_options = codes "setsockopt(SO_RCVTIMEO/SO_SNDTIMEO)"

module _ {W : Type 0} (sockets : Sockets W) where
  -- The text of `setErrnoMessage`.
  abbrev pub errno_message : Bytes → Errno → Failure
  errno_message what e = message (what ++ codes ": " ++ sockets.strerror e)

  -- A failure after which the descriptor is closed.
  abbrev pub close_and_fail : {A : Type 0} → ℕ → Failure → Exec Failure W A
  close_and_fail fd e w = (err e, sockets.close fd w)

  -- What follows a call of the system: on an error the descriptor is closed.
  abbrev pub or_close : {A : Type 0} → ℕ → Bytes → Result Errno A × W → Result Failure A × W
  or_close fd what (ok a, w) = (ok a, w)
  or_close fd what (err e, w) = close_and_fail fd (errno_message what e) w

  -- The `do` loop, given the result of a call; `again` is the next round.
  abbrev pub after_connect :
      ℕ → Exec Failure W (Unit {0}) → Result Errno (Unit {0}) × W → Result Failure (Unit {0}) × W
  after_connect fd again (ok u, w) = (ok u, w)
  after_connect fd again (err eintr, w) = again w
  after_connect fd again (err eagain, w) =
      close_and_fail fd (errno_message (codes "connect") eagain) w
  after_connect fd again (err ewouldblock, w) =
      close_and_fail fd (errno_message (codes "connect") ewouldblock) w
  after_connect fd again (err (other e), w) =
      close_and_fail fd (errno_message (codes "connect") (other e)) w

  unfoldable pub connect_loop : ℕ → ℕ → Bytes → ℕ → Exec Failure W (Unit {0})
  connect_loop zero fd address port w = (err out_of_fuel, w)
  connect_loop (suc fuel) fd address port w =
      after_connect fd (connect_loop fuel fd address port) (sockets.connect fd address port w)

  unfoldable pub set_option : ℕ → Bytes → Sockopt → Exec Failure W (Unit {0})
  set_option fd what option w = or_close fd what (sockets.setsockopt fd option w)

  -- `has_nosigpipe` is `#ifdef SO_NOSIGPIPE`.
  unfoldable pub guard_sigpipe : Bool → ℕ → Exec Failure W (Unit {0})
  unfolding set_option
  guard_sigpipe false fd = pure tt
  guard_sigpipe true fd = set_option fd (codes "setsockopt(SO_NOSIGPIPE)") so_nosigpipe

  -- The address, or the end of the attempt.
  abbrev pub address_or_close : ℕ → Bytes → Option Bytes → Exec Failure W Bytes
  address_or_close fd host none =
      close_and_fail fd (message (codes "invalid host address: " ++ host))
  address_or_close fd host (some address) = pure address

  -- What is done with a new descriptor.
  unfoldable pub connect_with : Bool → ℕ → Bytes → ℕ → ℕ → ℕ → Exec Failure W ℕ
  unfolding connect_loop set_option guard_sigpipe timeval_of
  connect_with has_nosigpipe fuel host port timeout_ms fd = do
    address ← address_or_close fd host (sockets.inet_pton host)
    connect_loop fuel fd address (port % 2 ^ 16)
    set_option fd timeout_options (so_rcvtimeo (timeval_of timeout_ms))
    set_option fd timeout_options (so_sndtimeo (timeval_of timeout_ms))
    guard_sigpipe has_nosigpipe fd
    pure fd

  abbrev pub socket_or_message : Result Errno ℕ × W → Result Failure ℕ × W
  socket_or_message (ok fd, w) = (ok fd, w)
  socket_or_message (err e, w) = (err (errno_message (codes "socket") e), w)

  abbrev pub new_socket : Exec Failure W ℕ
  new_socket w = socket_or_message (sockets.socket w)

  unfoldable pub connect_to : Bool → ℕ → Bytes → ℕ → ℕ → Exec Failure W ℕ
  unfolding connect_with
  connect_to has_nosigpipe fuel host port timeout_ms = do
    fd ← new_socket
    connect_with has_nosigpipe fuel host port timeout_ms fd

  -- `close`, on `fd_`, where -1 is no descriptor.
  unfoldable pub close : Option ℕ → W → Option ℕ × W
  close none w = (none, w)
  close (some fd) w = (none, sockets.close fd w)
