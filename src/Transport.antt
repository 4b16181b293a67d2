-- ===== src/Transport.antt =====
-- transport.hpp: the loops over the raw calls of a socket, and `TcpTransport` on them.
--
-- A raw call answers how much it has moved, or an `errno`. `V` is what the calls and the stall
-- callback change. The loops run on fuel, one unit for each call.
pub mod Loops
pub mod Exact
pub mod Kept
pub mod Fill
pub mod Wired
pub mod Connect
use adb_wfx_plugin.Base.{
  ℕ, zero, suc, ◌+◌, ◌-◌, Bool, true, false, Option, none, some, [], ◌++◌, Bytes, codes, ◌==◌, ltb,
  length, take, drop, if◌then◌else◌,
}
use adb_wfx_plugin.Client.{StallFn}
use adb_wfx_plugin.Client.Sync.{Errno, eintr, eagain, ewouldblock, other, Attempt, moved, failed}

-- What a loop of raw calls comes to.
pub data Outcome (A : Type 0) : Type 0 where
  answered : A → Outcome A
  no_fuel : Outcome A

unfoldable pub is_timeout_errno : Errno → Bool
is_timeout_errno eintr = false
is_timeout_errno eagain = true
is_timeout_errno ewouldblock = true
is_timeout_errno (other e) = false

unfoldable pub is_eintr : Errno → Bool
is_eintr eintr = true
is_eintr eagain = false
is_eintr ewouldblock = false
is_eintr (other e) = false

unfoldable pub stall_should_keep_waiting : {V : Type 0} → StallFn V → V → Bool × V
stall_should_keep_waiting none v = (true, v)
stall_should_keep_waiting (some on_stall) v = on_stall v

-- Whether a call that failed is made again: at once after a signal, after a timeout if the callback
-- says so.
unfoldable pub should_retry : {V : Type 0} → StallFn V → Errno → V → Bool × V
unfolding is_timeout_errno is_eintr stall_should_keep_waiting
should_retry on_stall e v =
    if is_eintr e
    then (true, v)
    else if is_timeout_errno e
    then stall_should_keep_waiting on_stall v
    else (false, v)

module _ {V : Type 0} where
  -- A failed call is made again, or the loop is given up.
  abbrev pub again : {B : Type 0} → (V → B × V) → B → Bool × V → B × V
  again loop gave_up (true, v) = loop v
  again loop gave_up (false, v) = (gave_up, v)

  -- The rest of a round of `loopTransfer`, given what the raw call answered; `loop` is the loop from
  -- a count on.
  unfoldable pub after_raw :
      (ℕ → V → Outcome Bool × V) → StallFn V → ℕ → Outcome (Attempt ℕ) × V → Outcome Bool × V
  unfolding should_retry
  after_raw loop on_stall done (no_fuel, v) = (no_fuel, v)
  after_raw loop on_stall done (answered (moved zero), v) = (answered false, v)
  after_raw loop on_stall done (answered (moved (suc k)), v) = loop (done + suc k) v
  after_raw loop on_stall done (answered (failed e), v) =
      again (loop done) (answered false) (should_retry on_stall e v)

  -- `loopTransfer`, from `done` on.
  unfoldable pub loop_transfer :
      (ℕ → ℕ → V → Outcome (Attempt ℕ) × V) → StallFn V → ℕ → ℕ → ℕ → V → Outcome Bool × V
  unfolding after_raw
  loop_transfer raw_transfer on_stall zero n done v =
      (if ltb done n then no_fuel else answered true, v)
  loop_transfer raw_transfer on_stall (suc fuel) n done v = elim (ltb done n) [
    | false ↦ (answered true, v)
    | true ↦
        after_raw (loop_transfer raw_transfer on_stall fuel n) on_stall done
          (raw_transfer done (n - done) v)
  ]

  -- The same for `retryOnEintr`.
  unfoldable pub after_attempt :
      {A : Type 0}
      → (V → Outcome (Attempt A) × V)
      → StallFn V
      → Attempt A × V
      → Outcome (Attempt A) × V
  unfolding should_retry
  after_attempt loop on_stall (moved a, v) = (answered (moved a), v)
  after_attempt loop on_stall (failed e, v) =
      again loop (answered (failed e)) (should_retry on_stall e v)

  -- `retryOnEintr`.
  unfoldable pub retry_on_eintr :
      {A : Type 0} → (V → Attempt A × V) → StallFn V → ℕ → V → Outcome (Attempt A) × V
  unfolding after_attempt
  retry_on_eintr raw_attempt on_stall zero v = (no_fuel, v)
  retry_on_eintr raw_attempt on_stall (suc fuel) v =
      after_attempt (retry_on_eintr raw_attempt on_stall fuel) on_stall (raw_attempt v)

-- A `TcpTransport` in the world, with its last error and, while it reads, the part of the buffer that
-- is filled.
pub record Tcp (W : Type 0) : Type 0 where
  pub world : W
  pub last_error : Bytes
  pub buffer : Bytes

-- `send` and `recv` on the socket, and `strerror`.
pub record Socket (W : Type 0) : Type 0 where
  pub send : Bytes → W → Attempt ℕ × W
  pub recv : ℕ → W → Attempt Bytes × W
  pub strerror : Errno → Bytes

abbrev pub stall_cancelled_message : Bytes
stall_cancelled_message = codes "transfer cancelled while waiting for the device"

module _ {W : Type 0} (socket : Socket W) where
  -- The text for an `errno` of `writeAll` or `readSome`.
  unfoldable pub set_error : Bytes → Errno → Tcp W → Tcp W
  unfolding is_timeout_errno
  set_error what e v = record v {
    last_error =
        if is_timeout_errno e
        then stall_cancelled_message
        else what ++ codes ": " ++ socket.strerror e;
  }

  -- `sendNoSignal` and what is noted of its result.
  abbrev pub noted : Attempt ℕ → Tcp W → Outcome (Attempt ℕ) × Tcp W
  noted (moved zero) v =
      (answered (moved zero), record v { last_error = codes "write: connection closed" })
  noted (moved (suc n)) v = (answered (moved (suc n)), v)
  noted (failed e) v =
      (answered (failed e), if is_eintr e then v else set_error (codes "write") e v)

  unfoldable pub write_raw : Bytes → ℕ → ℕ → Tcp W → Outcome (Attempt ℕ) × Tcp W
  unfolding set_error is_eintr
  write_raw buf offset remaining v =
      let (result, w) = socket.send (take remaining (drop offset buf)) v.world in
      noted result (record v { world = w })

  unfoldable pub write_all : StallFn (Tcp W) → ℕ → Bytes → Tcp W → Outcome Bool × Tcp W
  unfolding write_raw loop_transfer
  write_all on_stall fuel buf v = loop_transfer (write_raw buf) on_stall fuel (length buf) 0 v

  abbrev pub recv_raw : ℕ → Tcp W → Attempt Bytes × Tcp W
  recv_raw n v = let (result, w) = socket.recv n v.world in (result, record v { world = w })

  abbrev pub read_noted : Outcome (Attempt Bytes) × Tcp W → Outcome (Attempt Bytes) × Tcp W
  read_noted (no_fuel, v) = (no_fuel, v)
  read_noted (answered (moved bytes), v) = (answered (moved bytes), v)
  read_noted (answered (failed e), v) = (answered (failed e), set_error (codes "read") e v)

  unfoldable pub read_some : StallFn (Tcp W) → ℕ → ℕ → Tcp W → Outcome (Attempt Bytes) × Tcp W
  unfolding retry_on_eintr set_error
  read_some on_stall fuel n v = read_noted (retry_on_eintr (recv_raw n) on_stall fuel v)

  -- The raw call of `readExactly`: `readSome`, into the buffer from `offset` on.
  abbrev pub filled : ℕ → Outcome (Attempt Bytes) × Tcp W → Outcome (Attempt ℕ) × Tcp W
  filled offset (no_fuel, v) = (no_fuel, v)
  filled offset (answered (failed e), v) = (answered (failed e), v)
  filled offset (answered (moved bytes), v) =
      (answered (moved (length bytes)), record v { buffer = take offset v.buffer ++ bytes })

  unfoldable pub read_raw : StallFn (Tcp W) → ℕ → ℕ → ℕ → Tcp W → Outcome (Attempt ℕ) × Tcp W
  unfolding read_some
  read_raw on_stall fuel offset remaining v = filled offset (read_some on_stall fuel remaining v)

  unfoldable pub read_exactly : StallFn (Tcp W) → ℕ → ℕ → Tcp W → Outcome Bool × Tcp W
  unfolding read_raw loop_transfer
  read_exactly on_stall fuel n v =
      loop_transfer (read_raw on_stall fuel) on_stall fuel n 0 (record v { buffer = [] })
