-- ===== src/Client.antt =====
-- adbclient.hpp: the conversations with the adb server. This file has the connection and the
-- requests that every conversation begins with.
--
-- `W` is everything outside the client; `stall_cancelled` is the local of that name in a transfer,
-- which the stall callback sets.
pub mod Sync
pub mod Operations
pub mod Transfers
pub mod Recv
pub mod Send
pub mod Stalls
pub mod Peer
pub mod Kept
use adb_wfx_plugin.Base.{
  ℕ, Bool, true, false, Option, none, some, List, [], ◌++◌, Bytes, codes, ◌==◌, bytes_eq, is_empty,
  if◌then◌else◌,
}
use adb_wfx_plugin.Base.Exec.{Result, ok, err, Exec, pure, fail, fail_if, try, modify, ◌>>=◌, ◌>>◌}
use adb_wfx_plugin.Proto.{AdbStatus, encode_host_request, parse_status, parse_hex_length}

-- `StallFn`, where one is installed: it is asked while a call waits for the peer, and false gives up.
abbrev pub StallFn : Type 0 → Type 0
StallFn S = Option (S → Bool × S)

pub record Line (W : Type 0) : Type 0 where
  pub world : W
  pub stall_cancelled : Bool

-- The class `Transport` and the factory. A connection is a number. A failed call has its text in
-- `last_error`; `read_some` answers no bytes at the end of the stream.
pub record Transport (W : Type 0) : Type 0 where
  pub connect : Exec Bytes W ℕ
  pub write_all : StallFn (Line W) → ℕ → Bytes → Exec (Unit {0}) (Line W) (Unit {0})
  pub read_exactly : StallFn (Line W) → ℕ → ℕ → Exec (Unit {0}) (Line W) Bytes
  pub read_some : StallFn (Line W) → ℕ → ℕ → Exec (Unit {0}) (Line W) Bytes
  pub close : ℕ → W → W
  pub last_error : ℕ → W → Bytes

-- The message of an `AdbError`, or a loop that has used up its fuel.
pub data Failure : Type 0 where
  message : Bytes → Failure
  out_of_fuel : Failure

abbrev pub Talk : Type 0 → Type 0 → Type 0
Talk W A = Exec Failure (Line W) A

-- A connection with the callback that is installed on it.
pub record Connection (W : Type 0) : Type 0 where
  pub number : ℕ
  pub on_stall : StallFn (Line W)

abbrev pub fail_message : {W A : Type 0} → Bytes → Talk W A
fail_message m = fail (message m)

abbrev pub or_fail_message : {W A : Type 0} → Option A → Bytes → Talk W A
or_fail_message none m = fail_message m
or_fail_message (some a) m = pure a

module _ {W : Type 0} (t : Transport W) where
  abbrev pub write_all : Connection W → Bytes → Exec (Unit {0}) (Line W) (Unit {0})
  write_all c = t.write_all c.on_stall c.number

  abbrev pub read_exactly : Connection W → ℕ → Exec (Unit {0}) (Line W) Bytes
  read_exactly c = t.read_exactly c.on_stall c.number

  abbrev pub read_some : Connection W → ℕ → Exec (Unit {0}) (Line W) Bytes
  read_some c = t.read_some c.on_stall c.number

  abbrev pub close : Connection W → Line W → Line W
  close c s = record s { world = t.close c.number s.world }

  -- The text of `connectionError`.
  abbrev pub connection_message : Connection W → Bytes → Line W → Bytes
  connection_message c what s =
      let detail = t.last_error c.number s.world in
      if is_empty detail then what else what ++ codes ": " ++ detail

  -- A failed call of the transport, reported by `connectionError`.
  abbrev pub explain :
      {A : Type 0} → Connection W → Bytes → Result (Unit {0}) A × Line W → Result Failure A × Line W
  explain c what (ok a, s) = (ok a, s)
  explain c what (err u, s) = (err (message (connection_message c what s)), s)

  unfoldable pub or_connection_error :
      {A : Type 0} → Connection W → Bytes → Exec (Unit {0}) (Line W) A → Talk W A
  or_connection_error c what m s = explain c what (m s)

  -- `if (len > 0 && !t->readExactly(…, len))`.
  unfoldable pub read_body : Connection W → ℕ → Exec (Unit {0}) (Line W) Bytes
  read_body c len = if len == 0 then pure [] else read_exactly c len

  unfoldable pub read_length_prefixed_message : Connection W → Talk W Bytes
  unfolding or_connection_error read_body
  read_length_prefixed_message c = do
    len_buf ←
        or_connection_error c (codes "failed to read message length from adb server")
          (read_exactly c 4)
    len ←
        or_fail_message (parse_hex_length len_buf) (codes "malformed length prefix from adb server")
    or_connection_error c (codes "failed to read message from adb server") (read_body c len)

  -- What follows the status of a request.
  unfoldable pub after_status : Connection W → AdbStatus → Talk W (Unit {0})
  unfolding read_length_prefixed_message
  after_status c AdbStatus.okay = pure tt
  after_status c AdbStatus.fail = do m ← read_length_prefixed_message c; fail_message m
  after_status c AdbStatus.malformed = fail_message (codes "malformed response from adb server")

  unfoldable pub send_request_and_check_status : Connection W → Bytes → Talk W (Unit {0})
  unfolding or_connection_error after_status
  send_request_and_check_status c service = do
    let request = encode_host_request service
    fail_if (is_empty request) (message (codes "request too long for the adb protocol"))
    or_connection_error c (codes "failed to write request to adb server") (write_all c request)
    status_buf ←
        or_connection_error c (codes "failed to read status from adb server") (read_exactly c 4)
    after_status c (parse_status status_buf)

  -- A failure closes the connection before it is handed on.
  abbrev pub closed_on_failure :
      {A : Type 0} → Connection W → Result Failure A × Line W → Result Failure A × Line W
  closed_on_failure c (ok a, s) = (ok a, s)
  closed_on_failure c (err e, s) = (err e, close c s)

  abbrev pub close_on_failure : {A : Type 0} → Connection W → Talk W A → Talk W A
  close_on_failure c m s = closed_on_failure c (m s)

  -- Every way out of a conversation closes the connection.
  abbrev pub closing : {A : Type 0} → Connection W → Talk W A → Talk W A
  closing c m s = let (r, s') = m s in (r, close c s')

  -- The factory's call; an empty text gets one of its own.
  abbrev pub connected : Result Bytes ℕ × W → Bool → Result Failure (Connection W) × Line W
  connected (ok number, w) b =
      (ok (record { number = number; on_stall = none }), record { world = w; stall_cancelled = b })
  connected (err m, w) b = (
    err (message (if is_empty m then codes "failed to create transport" else m)),
    record { world = w; stall_cancelled = b },
  )

  unfoldable pub open_transport : Talk W (Connection W)
  open_transport s = connected (t.connect s.world) s.stall_cancelled

  unfoldable pub open_device_transport : Bytes → Talk W (Connection W)
  unfolding open_transport send_request_and_check_status
  open_device_transport serial = do
    c ← open_transport
    close_on_failure c (send_request_and_check_status c (codes "host:transport:" ++ serial))
    pure c

  unfoldable pub open_sync_transport : Bytes → Talk W (Connection W)
  unfolding open_device_transport send_request_and_check_status
  open_sync_transport serial = do
    c ← open_device_transport serial
    close_on_failure c (send_request_and_check_status c (codes "sync:"))
    pure c
