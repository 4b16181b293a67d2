-- ===== src/Tests/Client.antt =====
-- The theorems on the client and the transport at concrete inputs: a peer that has sent a file in two
-- packets, a disk that takes two bytes at a time, and a socket that does the same.
use adb_wfx_plugin.Base.{
  bytes_eq, ℕ, ◌≤◌, ◌≡◌, refl, sym, ap, ◌∙◌, Bool, true, false, none, some, [], ◌∷◌, ◌++◌, Bytes,
  codes, length, length-take, take, drop, take-append-drop, ltb, not, min, arith,
}
use adb_wfx_plugin.Base.Exec.{Result, ok, err, Ends}
use adb_wfx_plugin.Core.Interface.{ProgressFn}
use adb_wfx_plugin.Client.{Line, Transport, Connection}
use adb_wfx_plugin.Client.Sync.{Errno, failed, moved, Files}
use adb_wfx_plugin.Client.Transfers.{Transfer, recv_loop, sync_recv}
use adb_wfx_plugin.Proto.{parse_sync_header, sync_id_is, read_u32_le}
use adb_wfx_plugin.Client.Recv.{Received, received_done, received_data}
use adb_wfx_plugin.Client.Recv.Conversation.{FileLaws, Downloaded, FileGrown, sync_recv-Downloaded}
use adb_wfx_plugin.Client.Recv.Delivery.{Delivers, Delivered, recv_loop-Delivered}
use adb_wfx_plugin.Client.Recv.Laws.{RecvLaws}

-- The stream that is not read yet, and the local file.
abbrev World : Type 0
World = Bytes × Bytes

hand_on : Bool → ℕ → Line World → Result (Unit {0}) Bytes × Line World
hand_on true n s = (ok (take n s.world.0), record s { world = (drop n s.world.0, s.world.1) })
hand_on false n s = (err tt, s)

abbrev peer : Transport World
peer = record {
  connect = λ w. (ok 0, w);
  write_all = λ on_stall c bytes s. (ok tt, s);
  read_exactly = λ on_stall c n s. hand_on (not (ltb (length s.world.0) n)) n s;
  read_some = λ on_stall c n s. hand_on true n s;
  close = λ c w. w;
  last_error = λ c w. [];
}

abbrev disk : Files World
disk = record {
  write = λ fd buf w. (moved (min 2 (length buf)), (w.0, w.1 ++ take (min 2 (length buf)) buf));
  read = λ fd n w. (moved [], w);
  strerror = λ e. [];
}

abbrev transfer : Transfer World
transfer = record { fd = 3; total = 4; progress = none }

abbrev connection : Connection World
connection = record { number = 0; on_stall = none }

handed :
    (b : Bool) (n : ℕ) (s : Line World) (bytes : Bytes)
    → (b ≡ true → n ≤ length s.world.0)
    → (hand_on b n s).0 ≡ ok bytes
    → (length bytes ≡ n)
      × (s.world.0 ≡ bytes ++ (hand_on b n s).1.world.0)
      × ((hand_on b n s).1.world.1 ≡ s.world.1)
unfolding hand_on
handed true n s bytes p h = (
  omega (arith, ap length same, length-take n s.world.0, p refl),
  sym (take-append-drop n s.world.0) ∙ ap (λ a. a ++ drop n s.world.0) same,
  refl,
)
  where
    same : take n s.world.0 ≡ bytes
    same = cc
handed false n s bytes p h = cc

kept : (b : Bool) (n : ℕ) (s : Line World) → (hand_on b n s).1.world.1 ≡ s.world.1
unfolding hand_on
kept true n s = refl
kept false n s = refl

abbrev not_short : ℕ → Line World → Bool
not_short n s = not (ltb (length s.world.0) n)

enough : (n : ℕ) (s : Line World) → not_short n s ≡ true → n ≤ length s.world.0
enough n s e = ground arith

stored :
    (buf : Bytes) (w : World) (n : ℕ)
    → (disk.write 3 buf w).0 ≡ moved n
    → (disk.write 3 buf w).1.1 ≡ w.1 ++ take n buf
stored buf w n h = ap (λ k. w.1 ++ take k buf) same
  where
    same : min 2 (length buf) ≡ n
    same = cc

no_failure :
    (buf : Bytes) (w : World) (e : Errno)
    → (disk.write 3 buf w).0 ≡ failed e
    → ((disk.write 3 buf w).1.1 ≡ w.1) × ((disk.write 3 buf w).1.0 ≡ w.0)
no_failure buf w e h = cc

no_callback : (progress : ProgressFn World) → transfer.progress ≡ some progress → ⊥
no_callback progress h = cc

abbrev laws_of : (number : ℕ) → RecvLaws peer disk transfer number
laws_of number = record {
  incoming = λ w. w.0;
  written = λ w. w.1;
  read_ok = λ done n s bytes h. handed (not_short n s) n s bytes (enough n s) h;
  read_failed = λ done n s h. kept (not_short n s) n s;
  write_moved = λ buf w n h. (stored buf w n h, refl);
  write_failed = no_failure;
  asked = λ progress done w h. absurd (no_callback progress h);
}

abbrev laws : RecvLaws peer disk transfer 0
laws = laws_of 0

-- `DATA` with "abc", `DATA` with "d", `DONE`, and a byte more.
abbrev pub sent_stream : Bytes
sent_stream =
    codes "DATA"
    ++ (3 ∷ 0 ∷ 0 ∷ 0 ∷ codes "abc")
    ++ (codes "DATA" ++ (1 ∷ 0 ∷ 0 ∷ 0 ∷ codes "d"))
    ++ (codes "DONE" ++ (0 ∷ 0 ∷ 0 ∷ 0 ∷ 7 ∷ []))

abbrev begun : Line World
begun = record { world = (sent_stream, []); stall_cancelled = false }

arrived : (b : Bool) (n : ℕ) (s : Line World) → b ≡ true → (hand_on b n s).0 ≡ ok (take n s.world.0)
unfolding hand_on
arrived true n s e = refl
arrived false n s e = cc

not_short_lem : (n : ℕ) (s : Line World) → n ≤ length s.world.0 → not_short n s ≡ true
not_short_lem n s le = ground arith

nothing_fails : Delivers connection laws
nothing_fails = record {
  arrives = λ done n s le. (take n s.world.0, arrived (not_short n s) n s (not_short_lem n s le));
  takes = λ b buf w. (min 1 (length buf), ap moved (omega arith));
  goes_on = λ progress done w h. cc;
}

sent_stream-Received : Received sent_stream (codes "abcd") (7 ∷ [])
unfolding parse_sync_header sync_id_is bytes_eq read_u32_le
sent_stream-Received =
    received_data (codes "DATA" ++ 3 ∷ 0 ∷ 0 ∷ 0 ∷ []) (codes "abc") _ _ (codes "d") _ _ refl refl
      refl (omega arith) refl
      (received_data (codes "DATA" ++ 1 ∷ 0 ∷ 0 ∷ 0 ∷ []) (codes "d") _ _ [] _ _ refl refl refl
        (omega arith) refl
        (received_done (codes "DONE" ++ 0 ∷ 0 ∷ 0 ∷ 0 ∷ []) _ (7 ∷ []) refl refl refl) refl)
      refl

recv_loop-Delivered_example :
    Delivered connection laws nothing_fails begun
      (codes "abcd")
      (7 ∷ [])
      (recv_loop peer disk 40 65536 connection transfer 0 begun)
recv_loop-Delivered_example =
    recv_loop-Delivered connection laws nothing_fails sent_stream (codes "abcd") (7 ∷ [])
      sent_stream-Received 40 65536 0 begun refl (omega arith) (omega arith)

abbrev file_laws : FileLaws (λ w. w.1) (λ c. laws_of c.number)
file_laws = record {
  one_file = λ c w. refl;
  untouched = record {
    connect_keeps = λ w. refl;
    write_keeps = λ number bytes s. refl;
    read_keeps = λ number n s. kept (not_short n s) n s;
    close_keeps = λ number w. refl;
  };
  writes_keep = λ c bytes s. refl;
}

-- The server knows the device and the protocol.
abbrev greeted : Line World
greeted = record {
  world = (codes "OKAY" ++ (codes "OKAY" ++ sent_stream), codes "");
  stall_cancelled = false;
}

sync_recv-Downloaded_example :
    Ends
      (λ _. Downloaded (λ w. w.1) (λ c. laws_of c.number) (codes "AB") greeted)
      (FileGrown (λ w. w.1) (λ c. laws_of c.number) greeted)
      (sync_recv peer disk 3 65536 (codes "AB") (codes "/sdcard/a") transfer greeted)
sync_recv-Downloaded_example =
    sync_recv-Downloaded (λ w. w.1) (λ c. laws_of c.number) file_laws 3 65536 (codes "AB")
      (codes "/sdcard/a") greeted
