-- ===== src/Transport/Connect/Descriptors.antt =====
-- Which descriptors `connectTo` leaves open, and with which timeouts.
use adb_wfx_plugin.Base.{
  ℕ, zero, suc, ◌*◌, ◌+◌, ◌%◌, ◌^◌, ◌≡◌, refl, ◌∙◌, Bool, true, false, Option, none, some, List,
  ◌∷◌, Bytes, codes, arith,
}
use adb_wfx_plugin.Base.Exec.{Result, ok, err, Holds, continue-Holds}
use adb_wfx_plugin.Client.{Failure, message, out_of_fuel}
use adb_wfx_plugin.Client.Sync.{Errno, eintr, eagain, ewouldblock, other}
use adb_wfx_plugin.Transport.Connect.{
  Sockets, Sockopt, so_rcvtimeo, so_sndtimeo, so_nosigpipe, Timeval, timeval_of, connect_loop,
  after_connect, or_close, set_option, guard_sigpipe, address_or_close, connect_with, connect_to,
  new_socket, socket_or_message, timeout_options,
}

module _ {W : Type 0} (sockets : Sockets W) where
  -- What the system documents: `socket` opens a descriptor, `close` closes it, the other calls open and
  -- close none, and `setsockopt` sets the option that it is given. `open_descriptors` has the newest
  -- first.
  pub record SocketsLaws : Type 0 where
    pub open_descriptors : W → List ℕ
    pub receive_timeout : W → ℕ → Option Timeval
    pub send_timeout : W → ℕ → Option Timeval
    pub socket_ok :
        (w : W) (fd : ℕ)
        → let (r, w') = sockets.socket w in
          r ≡ ok fd → open_descriptors w' ≡ fd ∷ open_descriptors w
    pub socket_failed :
        (w : W) (e : Errno)
        → let (r, w') = sockets.socket w in r ≡ err e → open_descriptors w' ≡ open_descriptors w
    pub connect_keeps :
        (fd : ℕ) (address : Bytes) (port : ℕ) (w : W)
        → open_descriptors (sockets.connect fd address port w).1 ≡ open_descriptors w
    pub setsockopt_keeps :
        (fd : ℕ) (option : Sockopt) (w : W)
        → open_descriptors (sockets.setsockopt fd option w).1 ≡ open_descriptors w
    pub close_closes :
        (fd : ℕ) (fds : List ℕ) (w : W)
        → open_descriptors w ≡ fd ∷ fds
        → open_descriptors (sockets.close fd w) ≡ fds
    pub receive_set :
        (fd : ℕ) (timeout : Timeval) (w : W)
        → let (r, w') = sockets.setsockopt fd (so_rcvtimeo timeout) w in
          r ≡ ok tt → receive_timeout w' fd ≡ some timeout
    pub send_set :
        (fd : ℕ) (timeout : Timeval) (w : W)
        → let (r, w') = sockets.setsockopt fd (so_sndtimeo timeout) w in
          r ≡ ok tt
          → (send_timeout w' fd ≡ some timeout) × (receive_timeout w' fd ≡ receive_timeout w fd)
    pub raises_no_sigpipe : W → ℕ → Bool
    pub nosigpipe_set :
        (fd : ℕ) (w : W)
        → let (r, w') = sockets.setsockopt fd so_nosigpipe w in
          r ≡ ok tt → raises_no_sigpipe w' fd ≡ true
    pub nosigpipe_keeps :
        (fd : ℕ) (w : W)
        → let (r, w') = sockets.setsockopt fd so_nosigpipe w in
          (receive_timeout w' fd ≡ receive_timeout w fd) × (send_timeout w' fd ≡ send_timeout w fd)

-- The time that a timeval stands for, in microseconds.
abbrev pub microseconds : Timeval → ℕ
microseconds t = t.tv_sec * 1000000 + t.tv_usec

-- It is the number of milliseconds that was given.
timeval_of_lem : (timeout_ms : ℕ) → microseconds (timeval_of timeout_ms) ≡ timeout_ms * 1000
unfolding timeval_of
timeval_of_lem timeout_ms = omega arith

module _ {W : Type 0} (sockets : Sockets W) (laws : SocketsLaws sockets) where
  -- Both timeouts of a descriptor are so many milliseconds.
  unfoldable pub Timed : ℕ → ℕ → W → Type 0
  Timed fd timeout_ms w =
      ((r : Timeval) × (laws.receive_timeout w fd ≡ some r) × (microseconds r ≡ timeout_ms * 1000))
      × ((t : Timeval) × (laws.send_timeout w fd ≡ some t) × (microseconds t ≡ timeout_ms * 1000))

  -- The failed attempt has closed what it opened; only one that is still at it has not.
  unfoldable pub Closed : List ℕ → Failure → W → Type 0
  Closed fds (message m) w = laws.open_descriptors w ≡ fds
  Closed fds out_of_fuel w = (fd : ℕ) × (laws.open_descriptors w ≡ fd ∷ fds)

  Opened : List ℕ → ℕ → W → Type 0
  Opened fds fd w = laws.open_descriptors w ≡ fd ∷ fds

  or_close-Holds :
      {A : Type 0} (fds : List ℕ) (fd : ℕ) (what : Bytes) (Ok : A → W → Type 0)
      (out : Result Errno A × W)
      → Opened fds fd out.1
      → ((a : A) → out.0 ≡ ok a → Ok a out.1)
      → Holds Ok (Closed fds) (or_close sockets fd what out)
  unfolding Holds Closed Opened
  or_close-Holds fds fd what Ok (ok a, w) h q = q a refl
  or_close-Holds fds fd what Ok (err e, w) h q = laws.close_closes fd fds w h

  connect_loop-Holds :
      (fuel fd : ℕ) (address : Bytes) (port : ℕ) (fds : List ℕ) (w : W)
      → Opened fds fd w
      → Holds (λ _. Opened fds fd) (Closed fds) (connect_loop sockets fuel fd address port w)
  unfolding Holds Closed Opened connect_loop
  connect_loop-Holds zero fd address port fds w h = (fd, h)
  connect_loop-Holds (suc fuel) fd address port fds w h =
      answered (sockets.connect fd address port w).0 (sockets.connect fd address port w).1
        (laws.connect_keeps fd address port w ∙ h) (connect_loop-Holds fuel fd address port fds)
    where
      answered :
          (r : Result Errno (Unit {0})) (w' : W)
          → Opened fds fd w'
          → ((v : W)
              → Opened fds fd v
              → Holds
                  (λ _. Opened fds fd)
                  (Closed fds)
                  (connect_loop sockets fuel fd address port v))
          → Holds
              (λ _. Opened fds fd)
              (Closed fds)
              (after_connect sockets fd (connect_loop sockets fuel fd address port) (r, w'))
      answered (ok u) w' h' again = h'
      answered (err eintr) w' h' again = again w' h'
      answered (err eagain) w' h' again = laws.close_closes fd fds w' h'
      answered (err ewouldblock) w' h' again = laws.close_closes fd fds w' h'
      answered (err (other e)) w' h' again = laws.close_closes fd fds w' h'

  -- A descriptor with its receive timeout.
  Listening : List ℕ → ℕ → ℕ → W → Type 0
  Listening fds fd timeout_ms w =
      Opened fds fd w × (laws.receive_timeout w fd ≡ some (timeval_of timeout_ms))

  Ready : List ℕ → ℕ → ℕ → W → Type 0
  Ready fds fd timeout_ms w =
      Listening fds fd timeout_ms w × (laws.send_timeout w fd ≡ some (timeval_of timeout_ms))

  receive_timeout-Holds :
      (fds : List ℕ) (fd timeout_ms : ℕ) (w : W)
      → Opened fds fd w
      → Holds
          (λ _. Listening fds fd timeout_ms)
          (Closed fds)
          (set_option sockets fd timeout_options (so_rcvtimeo (timeval_of timeout_ms)) w)
  unfolding set_option Listening Opened
  receive_timeout-Holds fds fd timeout_ms w h =
      or_close-Holds fds fd timeout_options (λ _. Listening fds fd timeout_ms)
        (sockets.setsockopt fd (so_rcvtimeo (timeval_of timeout_ms)) w)
        (laws.setsockopt_keeps fd _ w ∙ h)
        λ u e. (laws.setsockopt_keeps fd _ w ∙ h, laws.receive_set fd (timeval_of timeout_ms) w e)

  send_timeout-Holds :
      (fds : List ℕ) (fd timeout_ms : ℕ) (w : W)
      → Listening fds fd timeout_ms w
      → Holds
          (λ _. Ready fds fd timeout_ms)
          (Closed fds)
          (set_option sockets fd timeout_options (so_sndtimeo (timeval_of timeout_ms)) w)
  unfolding set_option Listening Ready Opened
  send_timeout-Holds fds fd timeout_ms w h =
      or_close-Holds fds fd timeout_options (λ _. Ready fds fd timeout_ms)
        (sockets.setsockopt fd (so_sndtimeo (timeval_of timeout_ms)) w)
        (laws.setsockopt_keeps fd _ w ∙ h.0)
        λ u e.
          let (t, r) = laws.send_set fd (timeval_of timeout_ms) w e in
          ((laws.setsockopt_keeps fd _ w ∙ h.0, r ∙ h.1), t)

  -- Where the system has `SO_NOSIGPIPE`, it is on.
  Guarded : Bool → ℕ → W → Type 0
  Guarded false fd w = Unit {0}
  Guarded true fd w = laws.raises_no_sigpipe w fd ≡ true

  guard_sigpipe-Holds :
      (b : Bool) (fds : List ℕ) (fd timeout_ms : ℕ) (w : W)
      → Ready fds fd timeout_ms w
      → Holds
          (λ _ w'. Ready fds fd timeout_ms w' × Guarded b fd w')
          (Closed fds)
          (guard_sigpipe sockets b fd w)
  unfolding guard_sigpipe set_option Listening Ready Opened Holds Guarded
  guard_sigpipe-Holds false fds fd timeout_ms w h = (h, tt)
  guard_sigpipe-Holds true fds fd timeout_ms w h =
      or_close-Holds fds fd (codes "setsockopt(SO_NOSIGPIPE)")
        (λ _ w'. Ready fds fd timeout_ms w' × Guarded true fd w')
        (sockets.setsockopt fd so_nosigpipe w) (laws.setsockopt_keeps fd _ w ∙ h.0.0)
        λ u e.
          let (r, t) = laws.nosigpipe_keeps fd w in
          (
            ((laws.setsockopt_keeps fd _ w ∙ h.0.0, r ∙ h.0.1), t ∙ h.1),
            laws.nosigpipe_set fd w (cc),
          )

  address-Holds :
      (fds : List ℕ) (fd : ℕ) (host : Bytes) (a : Option Bytes) (w : W)
      → Opened fds fd w
      → Holds (λ _. Opened fds fd) (Closed fds) (address_or_close sockets fd host a w)
  unfolding Holds Closed Opened
  address-Holds fds fd host none w h = laws.close_closes fd fds w h
  address-Holds fds fd host (some a) w h = h

  connect_with-Holds :
      (b : Bool) (fuel : ℕ) (host : Bytes) (port timeout_ms fd : ℕ) (fds : List ℕ) (w : W)
      → Opened fds fd w
      → Holds
          (λ fd' w'. Ready fds fd' timeout_ms w' × Guarded b fd' w')
          (Closed fds)
          (connect_with sockets b fuel host port timeout_ms fd w)
  unfolding connect_with Holds
  connect_with-Holds b fuel host port timeout_ms fd fds w h =
      continue-Holds (Closed fds) (λ _. Opened fds fd)
        (λ fd' w'. Ready fds fd' timeout_ms w' × Guarded b fd' w')
        (address_or_close sockets fd host (sockets.inet_pton host) w) _
        (address-Holds fds fd host (sockets.inet_pton host) w h)
        λ address w1 h1.
          continue-Holds (Closed fds) (λ _. Opened fds fd)
            (λ fd' w'. Ready fds fd' timeout_ms w' × Guarded b fd' w')
            (connect_loop sockets fuel fd address (port % 2 ^ 16) w1) _
            (connect_loop-Holds fuel fd address (port % 2 ^ 16) fds w1 h1)
            λ _ w2 h2.
              continue-Holds (Closed fds) (λ _. Listening fds fd timeout_ms)
                (λ fd' w'. Ready fds fd' timeout_ms w' × Guarded b fd' w')
                (set_option sockets fd timeout_options (so_rcvtimeo (timeval_of timeout_ms)) w2) _
                (receive_timeout-Holds fds fd timeout_ms w2 h2)
                λ _ w3 h3.
                  continue-Holds (Closed fds) (λ _. Ready fds fd timeout_ms)
                    (λ fd' w'. Ready fds fd' timeout_ms w' × Guarded b fd' w')
                    (set_option sockets fd timeout_options (so_sndtimeo (timeval_of timeout_ms)) w3)
                    _ (send_timeout-Holds fds fd timeout_ms w3 h3)
                    λ _ w4 h4.
                      continue-Holds (Closed fds)
                        (λ _ w'. Ready fds fd timeout_ms w' × Guarded b fd w')
                        (λ fd' w'. Ready fds fd' timeout_ms w' × Guarded b fd' w')
                        (guard_sigpipe sockets b fd w4) _
                        (guard_sigpipe-Holds b fds fd timeout_ms w4 h4) (λ _ w5 h5. h5)

  -- A connection: one descriptor more is open, with both timeouts, and no `SIGPIPE` where it can be
  -- kept off.
  pub Connected : Bool → List ℕ → ℕ → ℕ → W → Type 0
  Connected has_nosigpipe fds timeout_ms fd w =
      (laws.open_descriptors w ≡ fd ∷ fds)
      × Timed fd timeout_ms w
      × (has_nosigpipe ≡ true → laws.raises_no_sigpipe w fd ≡ true)

  -- For any host, port and timeout, and whichever call fails: a failed attempt leaves just the
  -- descriptors open that were open, unless it is still interrupted in `connect`. On success one more
  -- is open, the one returned, a receive and a send on it time out after `timeout_ms`, and it raises no
  -- `SIGPIPE` where the system has `SO_NOSIGPIPE`.
  pub connect_to-Connected :
      (has_nosigpipe : Bool) (fuel : ℕ) (host : Bytes) (port timeout_ms : ℕ) (w : W)
      → Holds
          (Connected has_nosigpipe (laws.open_descriptors w) timeout_ms)
          (Closed (laws.open_descriptors w))
          (connect_to sockets has_nosigpipe fuel host port timeout_ms w)
  unfolding connect_to Holds Opened Closed Ready Listening Connected Timed Guarded
  connect_to-Connected b fuel host port timeout_ms w =
      continue-Holds (Closed fds) (Opened fds) (Connected b fds timeout_ms) (new_socket sockets w) _
        (made (sockets.socket w).0 (sockets.socket w).1 (laws.socket_ok w) (laws.socket_failed w))
        λ fd w1 h1.
          timed (connect_with sockets b fuel host port timeout_ms fd w1)
            (connect_with-Holds b fuel host port timeout_ms fd fds w1 h1)
    where
      fds : List ℕ
      fds = laws.open_descriptors w

      made :
          (r : Result Errno ℕ) (w' : W)
          → ((fd : ℕ) → r ≡ ok fd → laws.open_descriptors w' ≡ fd ∷ fds)
          → ((e : Errno) → r ≡ err e → laws.open_descriptors w' ≡ fds)
          → Holds (Opened fds) (Closed fds) (socket_or_message sockets (r, w'))
      made (ok fd) w' p q = p fd refl
      made (err e) w' p q = q e refl

      guarded :
          (b : Bool) (fd : ℕ) (v : W)
          → Guarded b fd v
          → b ≡ true
          → laws.raises_no_sigpipe v fd ≡ true
      guarded true fd v g e = g
      guarded false fd v g e = cc

      timed :
          (out : Result Failure ℕ × W)
          → Holds (λ fd w'. Ready fds fd timeout_ms w' × Guarded b fd w') (Closed fds) out
          → Holds (Connected b fds timeout_ms) (Closed fds) out
      timed (ok fd, v) (((o, r), s), g) = (
        o,
        (
          (timeval_of timeout_ms, r, timeval_of_lem timeout_ms),
          (timeval_of timeout_ms, s, timeval_of_lem timeout_ms),
        ),
        guarded b fd v g,
      )
      timed (err e, v) h = h
