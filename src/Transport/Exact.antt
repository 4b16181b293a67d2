-- ===== src/Transport/Exact.antt =====
-- `TcpTransport` moves exactly the bytes it is asked for, in their order, or says that it did not.
use adb_wfx_plugin.Base.{
  ℕ, zero, suc, ◌+◌, ◌-◌, ◌≤◌, ◌<◌, ◌≡◌, refl, sym, ap, ◌∙◌, Bool, true, false, [], ◌∷◌, ◌++◌,
  append_assoc, append-nil, Bytes, length, length-take, length-drop, take, drop, take_all, arith,
  inl, inr, if◌then◌else◌, codes,
}
use adb_wfx_plugin.Client.{StallFn}
use adb_wfx_plugin.Client.Sync.{Errno, eintr, eagain, ewouldblock, other, moved, Attempt-cases}
use adb_wfx_plugin.Transport.{
  Outcome, answered, no_fuel, is_eintr, stall_should_keep_waiting, set_error, Tcp, Socket,
  write_raw, write_all,
}
use adb_wfx_plugin.Transport.Loops.{After, Looped, loop_transfer-Looped, SocketLaws}

take_nil : (k : ℕ) → take {A = ℕ} k [] ≡ []
take_nil zero = refl
take_nil (suc k) = refl

take_add : (n k : ℕ) (xs : Bytes) → take n xs ++ take k (drop n xs) ≡ take (n + k) xs
take_add zero k xs = ap (λ j. take j xs) (omega arith)
take_add (suc n) k [] = take_nil k ∙ sym (take_nil (suc n + k))
take_add (suc n) k (x ∷ xs) =
    ap (◌∷◌ x) (take_add n k xs) ∙ ap (λ j. take j (x ∷ xs)) {x = suc (n + k)} (omega arith)

take-take : (k n : ℕ) (xs : Bytes) → k ≤ n → take k (take n xs) ≡ take k xs
take-take zero n xs h = refl
take-take (suc k) zero xs h = absurd (omega arith)
take-take (suc k) (suc n) [] h = refl
take-take (suc k) (suc n) (x ∷ xs) h = ap (◌∷◌ x) (take-take k n xs (omega arith))

module _ {W : Type 0} (socket : Socket W) (laws : SocketLaws socket) where
  -- A callback that sends nothing.
  abbrev pub KeepsSent : StallFn (Tcp W) → Type 0
  KeepsSent on_stall =
      (v : Tcp W) → laws.sent (stall_should_keep_waiting on_stall v).1.world ≡ laws.sent v.world

  -- All of the buffer was sent, or a first part of it.
  pub Written : Bytes → Tcp W → Outcome Bool × Tcp W → Type 0
  Written buf v (answered true, v') = laws.sent v'.world ≡ laws.sent v.world ++ buf
  Written buf v (answered false, v') =
      (n : ℕ) × (n ≤ length buf) × (laws.sent v'.world ≡ laws.sent v.world ++ take n buf)
  Written buf v (no_fuel, v') =
      (n : ℕ) × (n ≤ length buf) × (laws.sent v'.world ≡ laws.sent v.world ++ take n buf)

  SentSoFar : Bytes → Tcp W → ℕ → Tcp W → Type 0
  SentSoFar buf v done v' =
      (done ≤ length buf) × (laws.sent v'.world ≡ laws.sent v.world ++ take done buf)

  write_step :
      (buf : Bytes) (v : Tcp W) (done : ℕ) (v' : Tcp W)
      → done < length buf
      → SentSoFar buf v done v'
      → After (SentSoFar buf v) done (write_raw socket buf done (length buf - done) v')
  unfolding write_raw After SentSoFar set_error is_eintr
  write_step buf v done v' lt (le, e) = elim (Attempt-cases (socket.send part v'.world).0) [
    | inl (zero, h) ↦
        rw h ((omega arith), sent 0 h ∙ ap (λ j. laws.sent v.world ++ take j buf) (omega arith))
    | inl (suc k, h) ↦ rw h (bound (suc k) h, sent (suc k) h)
    | inr (x, h) ↦ rw h (le, ap laws.sent (note x) ∙ laws.send_failed part v'.world x h ∙ e)
  ]
    where
      part : Bytes
      part = take (length buf - done) (drop done buf)

      note :
          (x : Errno)
          → (if is_eintr x
              then record v' { world = (socket.send part v'.world).1 }
              else set_error socket
                  (codes "write")
                  x
                  (record v' { world = (socket.send part v'.world).1 })).world
            ≡ (socket.send part v'.world).1
      note eintr = refl
      note eagain = refl
      note ewouldblock = refl
      note (other x) = refl

      bound : (k : ℕ) → (socket.send part v'.world).0 ≡ moved k → done + k ≤ length buf
      bound k h =
          omega (arith, (laws.send_moves part v'.world k h).0, length-take {0}, length-drop {0})

      sent :
          (k : ℕ)
          → (socket.send part v'.world).0 ≡ moved k
          → laws.sent (socket.send part v'.world).1 ≡ laws.sent v.world ++ take (done + k) buf
      sent k h =
          (laws.send_moves part v'.world k h).1
          ∙ ap (λ s. s ++ take k part) e
          ∙ append_assoc (laws.sent v.world) (take done buf) (take k part)
          ∙ ap (λ s. laws.sent v.world ++ s)
              (ap (λ s. take done buf ++ s)
                  (take-take k (length buf - done) (drop done buf) (omega (arith, bound k h)))
                ∙ take_add done k buf)

  sent_end :
      (buf : Bytes) (v : Tcp W) (out : Outcome Bool × Tcp W)
      → Looped (SentSoFar buf v) (length buf) out
      → Written buf v out
  unfolding Looped Written SentSoFar
  sent_end buf v (answered true, v') (le, e) =
      e ∙ ap (λ s. laws.sent v.world ++ s) (take_all (length buf) buf (omega arith))
  sent_end buf v (answered false, v') (n, (le, e)) = (n, le, e)
  sent_end buf v (no_fuel, v') (n, (le, e)) = (n, le, e)

  -- However the socket falls short, is interrupted or stalls, and whatever the callback says as long
  -- as it sends nothing itself: on success exactly the buffer was sent, and else a first part of it.
  pub write_all-Written :
      (on_stall : StallFn (Tcp W)) (fuel : ℕ) (buf : Bytes) (v : Tcp W)
      → KeepsSent on_stall
      → Written buf v (write_all socket on_stall fuel buf v)
  unfolding write_all Written SentSoFar
  write_all-Written on_stall fuel buf v q = sent_end buf v (write_all socket on_stall fuel buf v) (
      loop_transfer-Looped (SentSoFar buf v) (write_raw socket buf) on_stall (length buf)
        (λ done v' h. h.0) (λ done v' lt h. write_step buf v done v' lt h)
        (λ done v' h. (h.0, q v' ∙ h.1)) fuel 0 v
        (omega arith, sym (append-nil (laws.sent v.world))))
