-- ===== src/Tests/Transport.antt =====
-- The theorems on the socket and on the exported functions at concrete inputs.
use adb_wfx_plugin.Base.{
  ℕ, ◌≤◌, ◌≡◌, refl, ap, Option, bytes_eq, if◌then◌else◌, true, false, not, none, some, [], ◌++◌,
  ◌==◌, ◌&&◌, Bytes, codes, length, take, min, arith,
}
use adb_wfx_plugin.Utf.{wide_c_str_to_utf8}
use adb_wfx_plugin.Client.Sync.{eintr, moved, failed}
use adb_wfx_plugin.Transport.{stall_should_keep_waiting, Tcp, Socket, write_all}
use adb_wfx_plugin.Transport.Loops.{SocketLaws}
use adb_wfx_plugin.Transport.Exact.{Written, KeepsSent, write_all-Written}
use adb_wfx_plugin.Core.Move.Refusals.{same_device, in_the_way}
use adb_wfx_plugin.Shim.{Plugin, enter, fs_ren_mov_file}
use adb_wfx_plugin.Shim.Codes.{exists_code, not_supported_code, fs_ren_mov_file-codes}
use adb_wfx_plugin.Server.Binary.{offered, adb_binary_candidates, find_adb_binary}
use adb_wfx_plugin.Server.Binary.Candidates.{first_offers, Chosen, find_adb_binary-Chosen}
use adb_wfx_plugin.Tests.Core.{client, host, start}

-- Two bytes at a time; the world is what was sent.
abbrev slow : Socket Bytes
slow = record {
  send = λ bytes w. (moved (min 2 (length bytes)), w ++ take (min 2 (length bytes)) bytes);
  recv = λ n w. (failed eintr, w);
  strerror = λ e. [];
}

taken :
    (bytes w : Bytes) (n : ℕ)
    → (slow.send bytes w).0 ≡ moved n
    → (n ≤ length bytes) × ((slow.send bytes w).1 ≡ w ++ take n bytes)
taken bytes w n h = (omega (arith, same), ap (λ k. w ++ take k bytes) same)
  where
    same : min 2 (length bytes) ≡ n
    same = cc

slow_laws : SocketLaws slow
slow_laws = record {
  sent = λ w. w;
  incoming = λ w. w;
  send_moves = taken;
  send_failed = λ bytes w e h. cc;
  recv_moves = λ n w bytes h. cc;
  recv_failed = λ n w e h. refl;
}

abbrev fresh : Tcp Bytes
fresh = record { world = []; last_error = []; buffer = [] }

quiet : KeepsSent slow slow_laws none
unfolding stall_should_keep_waiting
quiet w = refl

write_all-Written_example :
    Written slow slow_laws (codes "hello") fresh (write_all slow none 9 (codes "hello") fresh)
write_all-Written_example = write_all-Written slow slow_laws none 9 (codes "hello") fresh quiet

abbrev pub plugin : Plugin ℕ
plugin = record {
  world = 0;
  manager = record { progress_proc = none; log_proc = none; request_proc = none };
  core = some (record { port = 5037; cache = start.cache });
}

fs_ren_mov_file-codes_example :
    let wfx_from = wide_c_str_to_utf8 (codes "/AB/a") in
    let wfx_to = wide_c_str_to_utf8 (codes "/AB/b") in
    let (code, p') =
      fs_ren_mov_file (λ port. client) host (codes "/AB/a") (codes "/AB/b") true false plugin in
    ((code == not_supported_code) ≡ not (same_device wfx_from wfx_to))
    × ((code == exists_code) ≡ (
        same_device wfx_from wfx_to
        && in_the_way client wfx_to false
            (enter plugin (record { port = 5037; cache = start.cache }))))
fs_ren_mov_file-codes_example =
    fs_ren_mov_file-codes (λ port. client) host (codes "/AB/a") (codes "/AB/b") true false plugin
      (record { port = 5037; cache = start.cache }) refl

abbrev env : Bytes → Option Bytes
env name = if bytes_eq name (codes "PATH") then some (codes "/bin:/usr/bin:/bin") else none

find_adb_binary-Chosen_example :
    let candidates = adb_binary_candidates env in
    (candidates ≡ first_offers (offered env))
    × Chosen
        (λ c. bytes_eq c (codes "/usr/bin/adb"))
        candidates
        (find_adb_binary env (λ c. bytes_eq c (codes "/usr/bin/adb")))
find_adb_binary-Chosen_example = find_adb_binary-Chosen env (λ c. bytes_eq c (codes "/usr/bin/adb"))
