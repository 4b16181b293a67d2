-- ===== src/Server/Start.antt =====
-- `startAdbServer` of adbserver.hpp.
use adb_wfx_plugin.Base.{
  ℕ, zero, suc, ◌≡◌, ◌⊎◌, inl, inr, refl, ap, ◌∙◌, Bool, true, false, List, [], ◌∷◌, Bytes, codes,
  ◌==◌,
}
use adb_wfx_plugin.Base.Exec.{Result, ok, err, Exec}
use adb_wfx_plugin.Client.Sync.{Errno, eintr, eagain, ewouldblock, other}
use adb_wfx_plugin.Transport.{is_eintr}

-- How a child has ended: the status is the number of `WEXITSTATUS`, where `WIFEXITED` holds.
pub data Status : Type 0 where
  exited : ℕ → Status
  killed : Status

-- `posix_spawn` of a program with its arguments, and `waitpid`.
pub record Processes (W : Type 0) : Type 0 where
  pub spawn : Bytes → List Bytes → Exec (Unit {0}) W ℕ
  pub waitpid : ℕ → Exec Errno W Status

-- Whether the server was started, or a `waitpid` that is still interrupted.
pub data Start : Type 0 where
  started : Bool → Start
  interrupted : Start

unfoldable pub exited_well : Status → Bool
exited_well (exited code) = code == 0
exited_well killed = false

module _ {W : Type 0} (processes : Processes W) where
  -- The `while` loop, given the result of a call; `again` is the next round.
  abbrev pub after_wait : (W → Start × W) → Result Errno Status × W → Start × W
  after_wait again (ok status, w) = (started (exited_well status), w)
  after_wait again (err eintr, w) = again w
  after_wait again (err eagain, w) = (started false, w)
  after_wait again (err ewouldblock, w) = (started false, w)
  after_wait again (err (other e), w) = (started false, w)

  unfoldable pub wait_loop : ℕ → ℕ → W → Start × W
  unfolding exited_well
  wait_loop zero pid w = (interrupted, w)
  wait_loop (suc fuel) pid w = after_wait (wait_loop fuel pid) (processes.waitpid pid w)

  abbrev pub after_spawn : ℕ → Result (Unit {0}) ℕ × W → Start × W
  after_spawn fuel (ok pid, w) = wait_loop fuel pid w
  after_spawn fuel (err u, w) = (started false, w)

  unfoldable pub start_adb_server : ℕ → Bytes → W → Start × W
  unfolding wait_loop
  start_adb_server fuel adb_binary w =
      after_spawn fuel (processes.spawn adb_binary (adb_binary ∷ codes "start-server" ∷ []) w)

  -- `children` are the processes that were spawned and not waited for. `waitpid` reaps the child that
  -- it answers for; one that fails, after a signal or else, reaps none.
  pub record ProcessLaws : Type 0 where
    pub children : W → List ℕ
    pub spawn_ok :
        (binary : Bytes) (arguments : List Bytes) (w : W) (pid : ℕ)
        → let (r, w') = processes.spawn binary arguments w in
          r ≡ ok pid → children w' ≡ pid ∷ children w
    pub spawn_failed :
        (binary : Bytes) (arguments : List Bytes) (w : W)
        → let (r, w') = processes.spawn binary arguments w in r ≡ err tt → children w' ≡ children w
    pub wait_ok :
        (pid : ℕ) (pids : List ℕ) (w : W) (status : Status)
        → children w ≡ pid ∷ pids
        → let (r, w') = processes.waitpid pid w in r ≡ ok status → children w' ≡ pids
    pub wait_failed :
        (pid : ℕ) (w : W) (e : Errno)
        → let (r, w') = processes.waitpid pid w in r ≡ err e → children w' ≡ children w

module _ {W : Type 0} (processes : Processes W) (laws : ProcessLaws processes) where
  -- True leaves no child behind. False leaves none either, unless `waitpid` has failed for good.
  pub Reaped : List ℕ → Start → W → Type 0
  Reaped pids (started true) w = laws.children w ≡ pids
  Reaped pids (started false) w =
      (laws.children w ≡ pids)
      ⊎ ((pid : ℕ) × (e : Errno) × (v : W) × ((processes.waitpid pid v).0 ≡ err e)
          × (is_eintr e ≡ false)
          × (w ≡ (processes.waitpid pid v).1))
  Reaped pids interrupted w = (pid : ℕ) × (laws.children w ≡ pid ∷ pids)

  wait_loop-Reaped :
      (fuel pid : ℕ) (pids : List ℕ) (w : W)
      → laws.children w ≡ pid ∷ pids
      → let (r, w') = wait_loop processes fuel pid w in Reaped pids r w'
  unfolding wait_loop Reaped exited_well is_eintr
  wait_loop-Reaped zero pid pids w h = (pid, h)
  wait_loop-Reaped (suc fuel) pid pids w h =
      answered (processes.waitpid pid w).0 (processes.waitpid pid w).1 refl refl
        (wait_loop-Reaped fuel pid pids)
    where
      reaped : (b : Bool) (w' : W) → laws.children w' ≡ pids → Reaped pids (started b) w'
      reaped true w' e = e
      reaped false w' e = inl e

      answered :
          (r : Result Errno Status) (w' : W)
          → (processes.waitpid pid w).0 ≡ r
          → w' ≡ (processes.waitpid pid w).1
          → ((v : W)
              → laws.children v ≡ pid ∷ pids
              → let (a, v') = wait_loop processes fuel pid v in Reaped pids a v')
          → let (a, v') = after_wait processes (wait_loop processes fuel pid) (r, w') in
            Reaped pids a v'
      answered (ok status) w' e f again =
          reaped (exited_well status) w' (ap laws.children f ∙ laws.wait_ok pid pids w status h e)
      answered (err eintr) w' e f again =
          again w' (ap laws.children f ∙ laws.wait_failed pid w eintr e ∙ h)
      answered (err eagain) w' e f again = inr (pid, eagain, w, e, refl, f)
      answered (err ewouldblock) w' e f again = inr (pid, ewouldblock, w, e, refl, f)
      answered (err (other c)) w' e f again = inr (pid, other c, w, e, refl, f)

  -- However the binary runs: no child is left unreaped when `startAdbServer` returns, unless `waitpid`
  -- has failed with an error other than an interruption, and then the result is false.
  pub start_adb_server-Reaped :
      (fuel : ℕ) (adb_binary : Bytes) (w : W)
      → let (r, w') = start_adb_server processes fuel adb_binary w in Reaped (laws.children w) r w'
  unfolding start_adb_server Reaped
  start_adb_server-Reaped fuel adb_binary w =
      spawned (processes.spawn adb_binary arguments w).0 (processes.spawn adb_binary arguments w).1
        (laws.spawn_ok adb_binary arguments w) (laws.spawn_failed adb_binary arguments w)
    where
      arguments : List Bytes
      arguments = adb_binary ∷ codes "start-server" ∷ []

      spawned :
          (r : Result (Unit {0}) ℕ) (w' : W)
          → ((pid : ℕ) → r ≡ ok pid → laws.children w' ≡ pid ∷ laws.children w)
          → (r ≡ err tt → laws.children w' ≡ laws.children w)
          → let (a, v') = after_spawn processes fuel (r, w') in Reaped (laws.children w) a v'
      spawned (ok pid) w' p q = wait_loop-Reaped fuel pid (laws.children w) w' (p pid refl)
      spawned (err u) w' p q = inl (q refl)
