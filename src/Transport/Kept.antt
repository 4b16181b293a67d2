-- ===== src/Transport/Kept.antt =====
-- What `readExactly` leaves alone: all that neither `recv` nor the callback touches.
use adb_wfx_plugin.Base.{
  ℕ, zero, suc, ◌+◌, ◌-◌, ◌≡◌, refl, ◌∙◌, Bool, true, false, [], Bytes, ltb, Bool-cases, inl, inr,
}
use adb_wfx_plugin.Client.{StallFn}
use adb_wfx_plugin.Client.Sync.{Errno, Attempt, moved, failed}
use adb_wfx_plugin.Transport.{
  Outcome, answered, no_fuel, stall_should_keep_waiting, should_retry, again, after_raw,
  loop_transfer, after_attempt, retry_on_eintr, set_error, Tcp, Socket, recv_raw, read_noted,
  read_some, filled, read_raw, read_exactly,
}
use adb_wfx_plugin.Transport.Loops.{should_retry-P}

module _ {V D : Type 0} (f : V → D) (on_stall : StallFn V)
    (quiet : (v : V) → f (stall_should_keep_waiting on_stall v).1 ≡ f v) where
  should_retry-kept : (e : Errno) (v : V) → f (should_retry on_stall e v).1 ≡ f v
  should_retry-kept e v =
      should_retry-P (λ _ v'. f v' ≡ f v) on_stall e 0 v (λ _ v' h. quiet v' ∙ h) refl

  again-kept :
      {B : Type 0} (loop : V → B × V) (gave_up : B) (v : V) (r : Bool × V)
      → f r.1 ≡ f v
      → ((v' : V) → f (loop v').1 ≡ f v')
      → f (again loop gave_up r).1 ≡ f v
  again-kept loop gave_up v (true, v') h rest = rest v' ∙ h
  again-kept loop gave_up v (false, v') h rest = h

  pub loop_transfer-kept :
      (raw : ℕ → ℕ → V → Outcome (Attempt ℕ) × V)
      → ((done left : ℕ) (v : V) → f (raw done left v).1 ≡ f v)
      → (fuel n done : ℕ) (v : V) → f (loop_transfer raw on_stall fuel n done v).1 ≡ f v
  unfolding loop_transfer after_raw
  loop_transfer-kept raw keep zero n done v = refl
  loop_transfer-kept raw keep (suc fuel) n done v = elim (Bool-cases (ltb done n)) [
    | inr e ↦ rw (e, loop_transfer) refl
    | inl e ↦
        rw (e, loop_transfer)
          (after (raw done (n - done) v).0 (raw done (n - done) v).1 (keep done (n - done) v)
            (λ d v'. loop_transfer-kept raw keep fuel n d v'))
  ]
    where
      after :
          (r : Outcome (Attempt ℕ)) (v' : V)
          → f v' ≡ f v
          → ((d : ℕ) (w : V) → f (loop_transfer raw on_stall fuel n d w).1 ≡ f w)
          → f (after_raw (loop_transfer raw on_stall fuel n) on_stall done (r, v')).1 ≡ f v
      after no_fuel v' h rest = h
      after (answered (moved zero)) v' h rest = h
      after (answered (moved (suc k))) v' h rest = rest (done + suc k) v' ∙ h
      after (answered (failed e)) v' h rest =
          again-kept (loop_transfer raw on_stall fuel n done) (answered false) v
            (should_retry on_stall e v') (should_retry-kept e v' ∙ h) (rest done)

  retry_on_eintr-kept :
      {A : Type 0} (raw : V → Attempt A × V)
      → ((v : V) → f (raw v).1 ≡ f v)
      → (fuel : ℕ) (v : V) → f (retry_on_eintr raw on_stall fuel v).1 ≡ f v
  unfolding retry_on_eintr after_attempt
  retry_on_eintr-kept raw keep zero v = refl
  retry_on_eintr-kept {A} raw keep (suc fuel) v =
      after (raw v).0 (raw v).1 (keep v) (retry_on_eintr-kept raw keep fuel)
    where
      after :
          (r : Attempt A) (v' : V)
          → f v' ≡ f v
          → ((w : V) → f (retry_on_eintr raw on_stall fuel w).1 ≡ f w)
          → f (after_attempt (retry_on_eintr raw on_stall fuel) on_stall (r, v')).1 ≡ f v
      after (moved a) v' h rest = h
      after (failed e) v' h rest =
          again-kept (retry_on_eintr raw on_stall fuel) (answered (failed e)) v
            (should_retry on_stall e v') (should_retry-kept e v' ∙ h) rest

module _ {W D : Type 0} (socket : Socket W) (f : W → D)
    (recv_keeps : (n : ℕ) (w : W) → f (socket.recv n w).1 ≡ f w) (on_stall : StallFn (Tcp W))
    (quiet : (v : Tcp W) → f (stall_should_keep_waiting on_stall v).1.world ≡ f v.world) where
  noted-kept :
      (out : Outcome (Attempt Bytes) × Tcp W) → f (read_noted socket out).1.world ≡ f out.1.world
  unfolding set_error
  noted-kept (no_fuel, v) = refl
  noted-kept (answered (moved bytes), v) = refl
  noted-kept (answered (failed e), v) = refl

  filled-kept :
      (done : ℕ) (out : Outcome (Attempt Bytes) × Tcp W)
      → f (filled socket done out).1.world ≡ f out.1.world
  filled-kept done (no_fuel, v) = refl
  filled-kept done (answered (failed e), v) = refl
  filled-kept done (answered (moved bytes), v) = refl

  pub read_exactly-kept :
      (fuel n : ℕ) (v : Tcp W) → f (read_exactly socket on_stall fuel n v).1.world ≡ f v.world
  unfolding read_exactly read_raw read_some
  read_exactly-kept fuel n v =
      loop_transfer-kept (λ v'. f v'.world) on_stall quiet (read_raw socket on_stall fuel)
        (λ done left v'.
          filled-kept done (read_some socket on_stall fuel left v')
          ∙ noted-kept (retry_on_eintr (recv_raw socket left) on_stall fuel v')
          ∙ retry_on_eintr-kept (λ u. f u.world) on_stall quiet (recv_raw socket left)
              (λ u. recv_keeps left u.world) fuel v')
        fuel n 0 (record v { buffer = [] })
