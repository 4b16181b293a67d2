-- ===== src/Client/Peer.antt =====
-- A conversation with an adb server that answers: what the client says and hears, in order.
pub mod Requests
pub mod Openings
pub mod Listing
pub mod Replies
pub mod Refusals
use adb_wfx_plugin.Base.{
  ℕ, zero, ◌<◌, suc, arith, ◌==◌, ◌≡◌, refl, sym, subst, ap, ◌∙◌, Bool, true, false, none, [], ◌∷◌,
  ◌++◌, append_assoc, append-nil, Bytes, length, is_empty, if◌then◌else◌,
}
use adb_wfx_plugin.Base.Exec.{Result, ok, err, Exec, continue, continue-ok, fail_if}
use adb_wfx_plugin.Client.{
  Line, Transport, Connection, Failure, Talk, explain, or_connection_error, read_exactly, write_all,
  read_body, connected, closed_on_failure,
}
use adb_wfx_plugin.Client.Sync.{write_sync_packet}
use adb_wfx_plugin.Proto.{encode_sync_header}

module _ {W : Type 0} (t : Transport W) where
  -- A connection to a server whose answers have arrived: `heard` is what is left of them, `said` what
  -- was sent. A read takes the bytes that are there, as many as it pleases where it may, none only at
  -- their end; a write hands over all that it is given.
  pub record Peer : Type 0 where
    pub heard : W → Bytes
    pub said : W → Bytes
    pub connects :
        (w : W)
        → let (r, w') = t.connect w in
          (n : ℕ) × (r ≡ ok n) × (heard w' ≡ heard w) × (said w' ≡ said w)
    pub arrives :
        (number : ℕ) (bytes rest : Bytes) (s : Line W)
        → heard s.world ≡ bytes ++ rest
        → let (r, s') = t.read_exactly none number (length bytes) s in
          (r ≡ ok bytes) × (heard s'.world ≡ rest) × (said s'.world ≡ said s.world)
    pub flows :
        (number n : ℕ) (s : Line W)
        → 0 < n
        → let (r, s') = t.read_some none number n s in
          (bytes : Bytes) × (r ≡ ok bytes)
          × (heard s.world ≡ bytes ++ heard s'.world)
          × (said s'.world ≡ said s.world)
          × (bytes ≡ [] → heard s'.world ≡ [])
    pub takes :
        (number : ℕ) (bytes : Bytes) (s : Line W)
        → let (r, s') = t.write_all none number bytes s in
          (r ≡ ok tt) × (heard s'.world ≡ heard s.world) × (said s'.world ≡ said s.world ++ bytes)
    pub closes :
        (number : ℕ) (w : W)
        → (heard (t.close number w) ≡ heard w) × (said (t.close number w) ≡ said w)

module _ {W : Type 0} {t : Transport W} (peer : Peer t) where
  -- Where a conversation stands: what is left to hear, and what was said.
  abbrev pub At : Bytes → Bytes → Line W → Type 0
  At h d s = (peer.heard s.world ≡ h) × (peer.said s.world ≡ d)

  -- The result, and where the conversation stands then.
  abbrev pub Says : {E A : Type 0} → Result E A → Bytes → Bytes → Result E A × Line W → Type 0
  Says r h d out = (out.0 ≡ r) × At h d out.1

  pub continue-Says :
      {E A B : Type 0} {a : A} {r : Result E B} {h d h' d' : Bytes} (out : Result E A × Line W)
      (f : A → Exec E (Line W) B)
      → Says (ok a) h d out
      → ((s : Line W) → At h d s → Says r h' d' (f a s))
      → Says r h' d' (continue out f)
  continue-Says {a = a} {r = r} {h' = h'} {d' = d'} out f p q =
      subst (Says r h' d') (sym (continue-ok out f a p.0)) (q out.1 p.1)

  -- An answer of the server under `connectionError`.
  pub explain-Says :
      {A : Type 0} {a : A} {h d : Bytes} (c : Connection W) (what : Bytes)
      (out : Result (Unit {0}) A × Line W)
      → Says (ok a) h d out
      → Says (ok a) h d (explain t c what out)
  explain-Says {a = a} c what (ok b, s) (e, p) = (ap ok {x = b} {y = a} cc, p)
  explain-Says c what (err u, s) (e, p) = cc

  -- A connection without a callback.
  abbrev pub quiet : ℕ → Connection W
  quiet number = record { number = number; on_stall = none }

  pub read_exactly-Says :
      (number : ℕ) (bytes rest d : Bytes) (s : Line W)
      → At (bytes ++ rest) d s
      → Says (ok bytes) rest d (read_exactly t (quiet number) (length bytes) s)
  read_exactly-Says number bytes rest d s (h, g) =
      let (e, h', g') = peer.arrives number bytes rest s h in (e, (h', g' ∙ g))

  pub read_count-Says :
      (number n : ℕ) (bytes rest d : Bytes) (s : Line W)
      → length bytes ≡ n
      → At (bytes ++ rest) d s
      → Says (ok bytes) rest d (read_exactly t (quiet number) n s)
  read_count-Says number n bytes rest d s e p =
      subst (λ n. Says (ok bytes) rest d (read_exactly t (quiet number) n s)) e
        (read_exactly-Says number bytes rest d s p)

  pub write_all-Says :
      (number : ℕ) (bytes h d : Bytes) (s : Line W)
      → At h d s
      → Says (ok tt) h (d ++ bytes) (write_all t (quiet number) bytes s)
  write_all-Says number bytes h d s (p, q) =
      let (e, p', q') = peer.takes number bytes s in (e, (p' ∙ p, q' ∙ ap (λ x. x ++ bytes) q))

  pub read_body-Says :
      (number : ℕ) (bytes rest d : Bytes) (s : Line W)
      → At (bytes ++ rest) d s
      → Says (ok bytes) rest d (read_body t (quiet number) (length bytes) s)
  unfolding read_body
  read_body-Says number [] rest d s p = (refl, p)
  read_body-Says number (b ∷ bytes) rest d s p =
      rw (not_empty, read_body) (read_exactly-Says number (b ∷ bytes) rest d s p)
    where
      not_empty : (suc (length bytes) == 0) ≡ false
      not_empty = ground arith

  pub write_sync_packet-Says :
      (number : ℕ) (id : Bytes) (arg : ℕ) (payload h d : Bytes) (s : Line W)
      → At h d s
      → Says
          (ok tt)
          h
          (d ++ (encode_sync_header id arg ++ payload))
          (write_sync_packet t (quiet number) id arg payload s)
  unfolding write_sync_packet
  write_sync_packet-Says number id arg payload h d s p =
      continue-Says (write_all t (quiet number) (encode_sync_header id arg) s) _
        (write_all-Says number (encode_sync_header id arg) h d s p) (behind payload)
    where
      behind :
          (payload : Bytes) (s : Line W)
          → At h (d ++ encode_sync_header id arg) s
          → Says {E = Unit {0}} (ok tt) h (d ++ (encode_sync_header id arg ++ payload)) (
              (if is_empty payload then (λ s. (ok tt, s)) else write_all t (quiet number) payload)
                s)
      behind [] s (q, r) =
          (refl, (q, r ∙ ap (λ x. d ++ x) (sym (append-nil (encode_sync_header id arg)))))
      behind (b ∷ bytes) s q =
          let (e, (q', r)) =
            write_all-Says number (b ∷ bytes) h (d ++ encode_sync_header id arg) s q in
          (e, (q', r ∙ append_assoc d (encode_sync_header id arg) (b ∷ bytes)))

  -- A method whose failure would close the connection.
  pub closed_on_failure-Says :
      {A : Type 0} {a : A} {h d : Bytes} (c : Connection W) (out : Result Failure A × Line W)
      → Says (ok a) h d out
      → Says (ok a) h d (closed_on_failure t c out)
  closed_on_failure-Says c (ok b, s) p = p
  closed_on_failure-Says c (err f, s) (e, p) = cc

  -- An early return that is not taken.
  pub fail_if-Says :
      {E : Type 0} {h d : Bytes} (b : Bool) (e : E) (s : Line W)
      → b ≡ false
      → At h d s
      → Says (ok tt) h d (fail_if b e s)
  fail_if-Says true e s f p = cc
  fail_if-Says false e s f p = (refl, p)
