-- ===== src/Tests/Upload.antt =====
-- The theorem on what is sent at a concrete input: a file that is read two bytes at a time, and a peer
-- that takes everything and answers `OKAY`.
use adb_wfx_plugin.Base.{
  zero, suc, ◌∷◌, ℕ, ◌≤◌, ◌<◌, ◌≡◌, refl, sym, ap, ◌∙◌, false, none, some, [], ◌++◌, Bytes, codes,
  length, length-take, take, drop, take-append-drop, min, arith,
}
use adb_wfx_plugin.Base.Exec.{ok, Ends}
use adb_wfx_plugin.Core.Interface.{ProgressFn}
use adb_wfx_plugin.Client.{Line, Transport, Connection}
use adb_wfx_plugin.Client.Sync.{Errno, moved, failed, Files}
use adb_wfx_plugin.Client.Transfers.{Transfer, send_loop, sync_send}
use adb_wfx_plugin.Base.Int.{pos}
use adb_wfx_plugin.Client.Send.Confirmation.{SentOver, sync_send-Confirmed}
use adb_wfx_plugin.Client.Send.Delivery.{Delivers, send_loop-ok}
use adb_wfx_plugin.Client.Send.Laws.{SendLaws, Anyhow}

-- What was sent, and the rest of the local file.
abbrev World : Type 0
World = Bytes × Bytes

-- A status, and a header of the sync protocol.
abbrev okay : Bytes
okay = codes "OKAY" ++ 0 ∷ 0 ∷ 0 ∷ 0 ∷ []

abbrev sink : Transport World
sink = record {
  connect = λ w. (ok 0, w);
  write_all = λ on_stall c bytes s. (ok tt, record s { world = (s.world.0 ++ bytes, s.world.1) });
  read_exactly = λ on_stall c n s. (ok (take n okay), s);
  read_some = λ on_stall c n s. (ok [], s);
  close = λ c w. w;
  last_error = λ c w. [];
}

abbrev disk : Files World
disk = record {
  write = λ fd buf w. (moved 0, w);
  read = λ fd n w. (moved (take (min 2 n) w.1), (w.0, drop (min 2 n) w.1));
  strerror = λ e. [];
}

abbrev upload : Transfer World
upload = record { fd = 3; total = 5; progress = none }

abbrev line : Connection World
line = record { number = 0; on_stall = none }

read_two :
    (n : ℕ) (w : World) (bytes : Bytes)
    → (disk.read 3 n w).0 ≡ moved bytes
    → (length bytes ≤ n) × (w.1 ≡ bytes ++ (disk.read 3 n w).1.1) × ((disk.read 3 n w).1.0 ≡ w.0)
read_two n w bytes h = (
  omega (arith, ap length same, length-take (min 2 n) w.1),
  sym (take-append-drop (min 2 n) w.1) ∙ ap (λ b. b ++ drop (min 2 n) w.1) same,
  refl,
)
  where
    same : take (min 2 n) w.1 ≡ bytes
    same = cc

never_fails :
    (n : ℕ) (w : World) (e : Errno)
    → (disk.read 3 n w).0 ≡ failed e
    → ((disk.read 3 n w).1.1 ≡ w.1) × ((disk.read 3 n w).1.0 ≡ w.0)
never_fails n w e h = cc

no_callback : (progress : ProgressFn World) → upload.progress ≡ some progress → ⊥
no_callback progress h = cc

abbrev laws_of : (number : ℕ) → SendLaws sink disk upload number
laws_of number = record {
  sent = λ w. w.0;
  unread = λ w. w.1;
  write_ok = λ done bytes s h. (refl, refl);
  read_moved = read_two;
  read_failed = never_fails;
  asked = λ progress done w h. absurd (no_callback progress h);
}

abbrev upload_laws : SendLaws sink disk upload 0
upload_laws = laws_of 0

abbrev at_start : Line World
at_start = record { world = ([], codes "hello, world"); stall_cancelled = false }

next_two :
    (n : ℕ) (w : World)
    → 0 < n
    → 0 < length w.1
    → (b : ℕ) × (rest : Bytes) × ((disk.read 3 n w).0 ≡ moved (b ∷ rest))
next_two n (sent, []) lt there = absurd (omega (arith, there))
next_two zero (sent, b ∷ rest) lt there = absurd (omega (arith, lt))
next_two (suc n) (sent, b ∷ rest) lt there =
    (b, take (min 1 n) rest, ap (λ k. moved (take k (b ∷ rest))) two)
  where
    two : min 2 (suc n) ≡ suc (min 1 n)
    two = omega arith

no_failures : Delivers line upload_laws
no_failures = record {
  arrives = λ done bytes s. refl;
  reads = next_two;
  goes_on = λ progress done w h. absurd (no_callback progress h);
}

send_loop-ok_example : (send_loop sink disk 5 65536 line upload 0 at_start).0 ≡ ok 5
send_loop-ok_example =
    send_loop-ok line upload_laws no_failures 5 65536 0 at_start (omega arith) (omega arith)
      (omega arith) (omega arith) (omega arith)

sync_send-Confirmed_example :
    Ends
      (λ _.
        SentOver
          (λ c. laws_of c.number)
          (λ c done n s. (refl, refl))
          (codes "AB")
          (codes "/sdcard/a")
          0o100644
          (pos 9)
          at_start)
      Anyhow
      (sync_send sink disk 5 9 (codes "AB") (codes "/sdcard/a") 0o100644 (pos 9) upload at_start)
sync_send-Confirmed_example =
    sync_send-Confirmed (λ c. laws_of c.number) (λ c done n s. (refl, refl)) 5 9 (codes "AB")
      (codes "/sdcard/a") 0o100644 (pos 9) at_start (omega arith)
