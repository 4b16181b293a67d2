-- ===== src/Transport/Fill.antt =====
-- What `readExactly` puts into the buffer: the next bytes of the stream.
use adb_wfx_plugin.Base.{
  ℕ, zero, suc, ◌-◌, ◌≤◌, ◌<◌, ◌≡◌, refl, sym, ap, ◌∙◌, Bool, true, false, [], ◌++◌, append_assoc,
  Bytes, length, length-append, take, take_all, arith,
}
use adb_wfx_plugin.Client.{StallFn}
use adb_wfx_plugin.Client.Sync.{Errno, Attempt, moved, failed}
use adb_wfx_plugin.Transport.{
  Outcome, answered, no_fuel, stall_should_keep_waiting, should_retry, again, after_attempt,
  retry_on_eintr, set_error, Tcp, Socket, recv_raw, read_noted, read_some, filled, read_raw,
  read_exactly,
}
use adb_wfx_plugin.Transport.Loops.{After, Looped, loop_transfer-Looped, should_retry-P, SocketLaws}

module _ {W : Type 0} (socket : Socket W) (laws : SocketLaws socket) where
  -- Nothing was read, into the buffer or else.
  unfoldable pub Unread : Tcp W → Tcp W → Type 0
  Unread v v' = (laws.incoming v'.world ≡ laws.incoming v.world) × (v'.buffer ≡ v.buffer)

  -- A callback that does not read.
  abbrev pub KeepsIncoming : StallFn (Tcp W) → Type 0
  KeepsIncoming on_stall = (v : Tcp W) → Unread v (stall_should_keep_waiting on_stall v).1

  -- What one call of `readSome` comes to.
  unfoldable pub ReadOnce : ℕ → Tcp W → Outcome (Attempt Bytes) × Tcp W → Type 0
  ReadOnce n v (no_fuel, v') = Unread v v'
  ReadOnce n v (answered (failed e), v') = Unread v v'
  ReadOnce n v (answered (moved bytes), v') =
      (length bytes ≤ n)
      × (laws.incoming v.world ≡ bytes ++ laws.incoming v'.world)
      × (v'.buffer ≡ v.buffer)

  Unread-trans : (v v' v'' : Tcp W) → Unread v v' → Unread v' v'' → Unread v v''
  unfolding Unread
  Unread-trans v v' v'' p q = (q.0 ∙ p.0, q.1 ∙ p.1)

  after-ReadOnce :
      (n : ℕ) (v v' : Tcp W) (out : Outcome (Attempt Bytes) × Tcp W)
      → Unread v v'
      → ReadOnce n v' out
      → ReadOnce n v out
  unfolding ReadOnce Unread
  after-ReadOnce n v v' (no_fuel, v'') p q = Unread-trans v v' v'' p q
  after-ReadOnce n v v' (answered (failed e), v'') p q = Unread-trans v v' v'' p q
  after-ReadOnce n v v' (answered (moved bytes), v'') p (le, e, b) = (le, sym p.0 ∙ e, b ∙ p.1)

  retry_on_eintr-ReadOnce :
      (n : ℕ) (on_stall : StallFn (Tcp W)) (fuel : ℕ) (v : Tcp W)
      → KeepsIncoming on_stall
      → ReadOnce n v (retry_on_eintr (recv_raw socket n) on_stall fuel v)
  unfolding retry_on_eintr after_attempt ReadOnce Unread
  retry_on_eintr-ReadOnce n on_stall zero v q = (refl, refl)
  retry_on_eintr-ReadOnce n on_stall (suc fuel) v q =
      received (socket.recv n v.world).0 (socket.recv n v.world).1 (laws.recv_moves n v.world)
        (laws.recv_failed n v.world) (λ v'. retry_on_eintr-ReadOnce n on_stall fuel v' q)
    where
      at : W → Tcp W
      at w = record v { world = w }

      retried :
          (e : Errno) (r : Bool × Tcp W)
          → Unread v r.1
          → ((v' : Tcp W) → ReadOnce n v' (retry_on_eintr (recv_raw socket n) on_stall fuel v'))
          → ReadOnce n v
              (again (retry_on_eintr (recv_raw socket n) on_stall fuel) (answered (failed e)) r)
      retried e (true, v') u rest = after-ReadOnce n v v' _ u (rest v')
      retried e (false, v') u rest = u

      received :
          (r : Attempt Bytes) (w : W)
          → ((b : Bytes)
              → r ≡ moved b
              → (length b ≤ n) × (laws.incoming v.world ≡ b ++ laws.incoming w))
          → ((e : Errno) → r ≡ failed e → laws.incoming w ≡ laws.incoming v.world)
          → ((v' : Tcp W) → ReadOnce n v' (retry_on_eintr (recv_raw socket n) on_stall fuel v'))
          → ReadOnce n v
              (after_attempt (retry_on_eintr (recv_raw socket n) on_stall fuel) on_stall (r, at w))
      received (moved b) w p f rest = ((p b refl).0, (p b refl).1, refl)
      received (failed e) w p f rest =
          retried e (should_retry on_stall e (at w))
            (should_retry-P (λ _ v'. Unread v v') on_stall e 0 (at w)
              (λ _ v' u. Unread-trans v v' (stall_should_keep_waiting on_stall v').1 u (q v'))
              (f e refl, refl))
            rest

  noted-ReadOnce :
      (n : ℕ) (v : Tcp W) (out : Outcome (Attempt Bytes) × Tcp W)
      → ReadOnce n v out
      → ReadOnce n v (read_noted socket out)
  unfolding ReadOnce Unread set_error
  noted-ReadOnce n v (no_fuel, v') h = h
  noted-ReadOnce n v (answered (failed e), v') h = h
  noted-ReadOnce n v (answered (moved bytes), v') h = h

  pub read_some-ReadOnce :
      (on_stall : StallFn (Tcp W)) (fuel n : ℕ) (v : Tcp W)
      → KeepsIncoming on_stall
      → ReadOnce n v (read_some socket on_stall fuel n v)
  unfolding read_some
  read_some-ReadOnce on_stall fuel n v q =
      noted-ReadOnce n v (retry_on_eintr (recv_raw socket n) on_stall fuel v)
        (retry_on_eintr-ReadOnce n on_stall fuel v q)

  ReadSoFar : ℕ → Tcp W → ℕ → Tcp W → Type 0
  ReadSoFar n v done v' =
      (done ≤ n)
      × (length v'.buffer ≡ done)
      × (laws.incoming v.world ≡ v'.buffer ++ laws.incoming v'.world)

  filled-After :
      (n : ℕ) (v : Tcp W) (done : ℕ) (v' : Tcp W) (out : Outcome (Attempt Bytes) × Tcp W)
      → done < n
      → ReadSoFar n v done v'
      → ReadOnce (n - done) v' out
      → After (ReadSoFar n v) done (filled socket done out)
  unfolding After ReadSoFar ReadOnce Unread
  filled-After n v done v' (no_fuel, v'') lt (le, l, e) (i, b) = (
    le,
    ap length b ∙ l,
    e ∙ ap (λ z. z ++ laws.incoming v'.world) (sym b) ∙ ap (λ z. v''.buffer ++ z) (sym i),
  )
  filled-After n v done v' (answered (failed x), v'') lt (le, l, e) (i, b) = (
    le,
    ap length b ∙ l,
    e ∙ ap (λ z. z ++ laws.incoming v'.world) (sym b) ∙ ap (λ z. v''.buffer ++ z) (sym i),
  )
  filled-After n v done v' (answered (moved bytes), v'') lt (le, l, e) (more, i, b) = (
    omega (arith, more, lt),
    omega (arith, ap length whole, length-append v'.buffer bytes, l),
    e
        ∙ ap (λ z. v'.buffer ++ z) i
        ∙ sym (append_assoc v'.buffer bytes (laws.incoming v''.world))
        ∙ ap (λ z. z ++ laws.incoming v''.world) (sym whole),
  )
    where
      whole : take done v''.buffer ++ bytes ≡ v'.buffer ++ bytes
      whole =
          ap (λ z. take done z ++ bytes) b
          ∙ ap (λ z. z ++ bytes) (take_all done v'.buffer (omega (arith, l)))

  -- The buffer holds the next bytes of the stream: all that were asked for, or a first part of them.
  unfoldable pub Filled : ℕ → Tcp W → Outcome Bool × Tcp W → Type 0
  Filled n v (answered true, v') =
      (length v'.buffer ≡ n) × (laws.incoming v.world ≡ v'.buffer ++ laws.incoming v'.world)
  Filled n v (answered false, v') =
      (length v'.buffer ≤ n) × (laws.incoming v.world ≡ v'.buffer ++ laws.incoming v'.world)
  Filled n v (no_fuel, v') =
      (length v'.buffer ≤ n) × (laws.incoming v.world ≡ v'.buffer ++ laws.incoming v'.world)

  Filled-end :
      (n : ℕ) (v : Tcp W) (out : Outcome Bool × Tcp W)
      → Looped (ReadSoFar n v) n out
      → Filled n v out
  unfolding Looped Filled ReadSoFar
  Filled-end n v (answered true, v') (le, l, e) = (l, e)
  Filled-end n v (answered false, v') (d, (le, l, e)) = (omega (arith, le, l), e)
  Filled-end n v (no_fuel, v') (d, (le, l, e)) = (omega (arith, le, l), e)

  -- However few bytes `recv` gives at a time, is interrupted or stalls, and whatever the callback says as
  -- long as it does not read itself: on success the buffer holds exactly the next `n` bytes of the
  -- stream, each once and in order, and else a first part of them; the rest is still to be read.
  pub read_exactly-Filled :
      (on_stall : StallFn (Tcp W)) (fuel n : ℕ) (v : Tcp W)
      → KeepsIncoming on_stall
      → Filled n v (read_exactly socket on_stall fuel n v)
  unfolding read_exactly read_raw ReadSoFar Unread
  read_exactly-Filled on_stall fuel n v q = Filled-end n v (read_exactly socket on_stall fuel n v) (
      loop_transfer-Looped (ReadSoFar n v) (read_raw socket on_stall fuel) on_stall n
        (λ done v' h. h.0)
        (λ done v' lt h.
          filled-After n v done v' (read_some socket on_stall fuel (n - done) v') lt h
            (read_some-ReadOnce on_stall fuel (n - done) v' q))
        (λ done v' h.
          let (i, b) = q v' in
          (
            h.0,
            ap length b ∙ h.1,
            h.2
                ∙ ap (λ z. z ++ laws.incoming v'.world) (sym b)
                ∙ ap (λ z. (stall_should_keep_waiting on_stall v').1.buffer ++ z) (sym i),
          ))
        fuel 0 (record v { buffer = [] }) (omega arith, refl, refl))
