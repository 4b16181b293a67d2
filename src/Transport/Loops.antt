-- ===== src/Transport/Loops.antt =====
-- What is moved by `writeAll` and `readExactly`, however the raw calls fall short.
use adb_wfx_plugin.Base.{
  ℕ, zero, suc, ◌+◌, ◌-◌, ◌≤◌, ◌<◌, ◌≡◌, Bool, true, false, ◌++◌, Bytes, length, take, arith, ltb,
  Bool-cases, inl, inr, subst,
}
use adb_wfx_plugin.Client.{StallFn}
use adb_wfx_plugin.Client.Sync.{Errno, eintr, eagain, ewouldblock, other, Attempt, moved, failed}
use adb_wfx_plugin.Transport.{
  Outcome, answered, no_fuel, is_eintr, is_timeout_errno, stall_should_keep_waiting, should_retry,
  again, after_raw, loop_transfer, Socket,
}

module _ {V : Type 0} (P : ℕ → V → Type 0) where
  -- `P` at the count that a raw call leaves.
  unfoldable pub After : ℕ → Outcome (Attempt ℕ) × V → Type 0
  After done (no_fuel, v) = P done v
  After done (answered (moved k), v) = P (done + k) v
  After done (answered (failed e), v) = P done v

  -- `P` at the end of the loop: at `n` if that answers true.
  unfoldable pub Looped : ℕ → Outcome Bool × V → Type 0
  Looped n (answered true, v) = P n v
  Looped n (answered false, v) = (done : ℕ) × P done v
  Looped n (no_fuel, v) = (done : ℕ) × P done v

  abbrev pub KeptBy : StallFn V → Type 0
  KeptBy on_stall = (done : ℕ) (v : V) → P done v → P done (stall_should_keep_waiting on_stall v).1

  pub should_retry-P :
      (on_stall : StallFn V) (e : Errno) (done : ℕ) (v : V)
      → KeptBy on_stall
      → P done v
      → P done (should_retry on_stall e v).1
  unfolding should_retry is_eintr is_timeout_errno
  should_retry-P on_stall eintr done v keep h = h
  should_retry-P on_stall eagain done v keep h = keep done v h
  should_retry-P on_stall ewouldblock done v keep h = keep done v h
  should_retry-P on_stall (other e) done v keep h = h

  after_raw-Looped :
      (loop : ℕ → V → Outcome Bool × V) (on_stall : StallFn V) (n done : ℕ)
      → ((d : ℕ) (v : V) → P d v → Looped n (loop d v))
      → KeptBy on_stall
      → (result : Outcome (Attempt ℕ)) (v : V) → After done (result, v)
      → Looped n (after_raw loop on_stall done (result, v))
  unfolding after_raw Looped After
  after_raw-Looped loop on_stall n done rest keep no_fuel v h = (done, h)
  after_raw-Looped loop on_stall n done rest keep (answered (moved zero)) v h = (done + 0, h)
  after_raw-Looped loop on_stall n done rest keep (answered (moved (suc k))) v h =
      rest (done + suc k) v h
  after_raw-Looped loop on_stall n done rest keep (answered (failed e)) v h =
      retried (should_retry on_stall e v) (should_retry-P on_stall e done v keep h)
    where
      retried : (r : Bool × V) → P done r.1 → Looped n (again (loop done) (answered false) r)
      retried (true, v') h' = rest done v' h'
      retried (false, v') h' = (done, h')

  at_end : (n done : ℕ) (v : V) → done ≤ n → ltb done n ≡ false → P done v → P n v
  at_end n done v le e h = subst (λ d. P d v) {x = done} {y = n} (ground (arith, le, e)) h

  pub loop_transfer-Looped :
      (raw : ℕ → ℕ → V → Outcome (Attempt ℕ) × V) (on_stall : StallFn V) (n : ℕ)
      → ((done : ℕ) (v : V) → P done v → done ≤ n)
      → ((done : ℕ) (v : V) → done < n → P done v → After done (raw done (n - done) v))
      → KeptBy on_stall
      → (fuel done : ℕ) (v : V) → P done v
      → Looped n (loop_transfer raw on_stall fuel n done v)
  unfolding loop_transfer Looped
  loop_transfer-Looped raw on_stall n bound step keep zero done v h =
      elim (Bool-cases (ltb done n)) [
        | inl e ↦ rw e (done, h)
        | inr e ↦ rw e (at_end n done v (bound done v h) e h)
      ]
  loop_transfer-Looped raw on_stall n bound step keep (suc fuel) done v h =
      elim (Bool-cases (ltb done n)) [
        | inl e ↦
            rw (e, loop_transfer)
              (after_raw-Looped (loop_transfer raw on_stall fuel n) on_stall n done
                (λ d v' h'. loop_transfer-Looped raw on_stall n bound step keep fuel d v' h') keep
                (raw done (n - done) v).0 (raw done (n - done) v).1
                (step done v (ground (arith, e)) h))
        | inr e ↦ rw (e, loop_transfer) (at_end n done v (bound done v h) e h)
      ]

module _ {W : Type 0} (socket : Socket W) where
  -- What the socket documents: `send` takes a first part of the bytes, and `recv` gives a first part
  -- of those that are to come; a failed call moves nothing.
  pub record SocketLaws : Type 0 where
    pub sent : W → Bytes
    pub incoming : W → Bytes
    pub send_moves :
        (b : Bytes) (w : W) (k : ℕ)
        → (socket.send b w).0 ≡ moved k
        → (k ≤ length b) × (sent (socket.send b w).1 ≡ sent w ++ take k b)
    pub send_failed :
        (b : Bytes) (w : W) (e : Errno)
        → (socket.send b w).0 ≡ failed e
        → sent (socket.send b w).1 ≡ sent w
    pub recv_moves :
        (n : ℕ) (w : W) (b : Bytes)
        → (socket.recv n w).0 ≡ moved b
        → (length b ≤ n) × (incoming w ≡ b ++ incoming (socket.recv n w).1)
    pub recv_failed :
        (n : ℕ) (w : W) (e : Errno)
        → (socket.recv n w).0 ≡ failed e
        → incoming (socket.recv n w).1 ≡ incoming w
