-- ===== src/Client/Kept.antt =====
-- What the opening of a connection leaves alone: something that is observed of the world.
use adb_wfx_plugin.Base.{
  ℕ, ◌≡◌, refl, sym, subst, ◌∙◌, Bool, true, false, Option, none, some, [], ◌++◌, Bytes, codes,
  ◌==◌, is_empty, if◌then◌else◌,
}
use adb_wfx_plugin.Base.Exec.{Result, ok, err, Exec, continue, fail_if, Ends, continue-Ends}
use adb_wfx_plugin.Proto.{AdbStatus, encode_host_request, parse_status, parse_hex_length}
use adb_wfx_plugin.Client.{
  Line, Transport, Connection, Failure, explain, or_connection_error, or_fail_message, read_exactly,
  write_all, read_body, connected, closed_on_failure, open_transport, open_device_transport,
  open_sync_transport, send_request_and_check_status, after_status, read_length_prefixed_message,
}

module _ {W D : Type 0} (t : Transport W) (observe : W → D) where
  abbrev pub Kept : Line W → Line W → Type 0
  Kept s s' = observe s'.world ≡ observe s.world

  -- The calls of the transport, where no callback is installed.
  pub record Untouched : Type 0 where
    pub connect_keeps : (w : W) → observe (t.connect w).1 ≡ observe w
    pub write_keeps :
        (number : ℕ) (bytes : Bytes) (s : Line W) → Kept s (t.write_all none number bytes s).1
    pub read_keeps : (number n : ℕ) (s : Line W) → Kept s (t.read_exactly none number n s).1
    pub close_keeps : (number : ℕ) (w : W) → observe (t.close number w) ≡ observe w

  pub continue-Kept :
      {E A B : Type 0} (s : Line W) (out : Result E A × Line W) (f : A → Exec E (Line W) B)
      → Kept s out.1
      → ((a : A) (s' : Line W) → Kept s' (f a s').1)
      → Kept s (continue out f).1
  continue-Kept s (ok a, s') f h q = q a s' ∙ h
  continue-Kept s (err e, s') f h q = h

  explain-Kept :
      {A : Type 0} (s : Line W) (c : Connection W) (what : Bytes)
      (out : Result (Unit {0}) A × Line W)
      → Kept s out.1
      → Kept s (explain t c what out).1
  explain-Kept s c what (ok a, s') h = h
  explain-Kept s c what (err u, s') h = h

  fail_if-Kept : {E : Type 0} (b : Bool) (e : E) (s : Line W) → Kept s (fail_if b e s).1
  fail_if-Kept true e s = refl
  fail_if-Kept false e s = refl

  or_fail_message-Kept :
      {A : Type 0} (o : Option A) (m : Bytes) (s : Line W) → Kept s (or_fail_message o m s).1
  or_fail_message-Kept none m s = refl
  or_fail_message-Kept (some a) m s = refl

  module _ (untouched : Untouched) where
    abbrev pub quiet : ℕ → Connection W
    quiet number = record { number = number; on_stall = none }

    read_body-Kept : (number n : ℕ) (s : Line W) → Kept s (read_body t (quiet number) n s).1
    unfolding read_body
    read_body-Kept number n s = chosen (n == 0)
      where
        chosen :
            (b : Bool)
            → Kept s ((if b then (λ s. (ok [], s)) else read_exactly t (quiet number) n) s).1
        chosen true = refl
        chosen false = untouched.read_keeps number n s

    read_length_prefixed_message-Kept :
        (number : ℕ) (s : Line W) → Kept s (read_length_prefixed_message t (quiet number) s).1
    unfolding read_length_prefixed_message or_connection_error
    read_length_prefixed_message-Kept number s =
        continue-Kept s (explain t (quiet number) _ (read_exactly t (quiet number) 4 s)) _
          (explain-Kept s (quiet number) _ _ (untouched.read_keeps number 4 s))
          (λ buf s.
            continue-Kept s (or_fail_message (parse_hex_length buf) _ s) _
              (or_fail_message-Kept (parse_hex_length buf) _ s)
              (λ n s.
                explain-Kept s (quiet number) _ (read_body t (quiet number) n s)
                  (read_body-Kept number n s)))

    after_status-Kept :
        (number : ℕ) (status : AdbStatus) (s : Line W)
        → Kept s (after_status t (quiet number) status s).1
    unfolding after_status
    after_status-Kept number AdbStatus.okay s = refl
    after_status-Kept number AdbStatus.fail s =
        continue-Kept s (read_length_prefixed_message t (quiet number) s) _
          (read_length_prefixed_message-Kept number s) (λ m s. refl)
    after_status-Kept number AdbStatus.malformed s = refl

    send_request-Kept :
        (number : ℕ) (service : Bytes) (s : Line W)
        → Kept s (send_request_and_check_status t (quiet number) service s).1
    unfolding send_request_and_check_status or_connection_error
    send_request-Kept number service s =
        continue-Kept s (fail_if (is_empty (encode_host_request service)) _ s) _
          (fail_if-Kept _ _ s)
          (λ _ s.
            continue-Kept s
              (explain t (quiet number) _
                (write_all t (quiet number) (encode_host_request service) s))
              _ (explain-Kept s (quiet number) _ _ (untouched.write_keeps number _ s))
              (λ _ s.
                continue-Kept s (explain t (quiet number) _ (read_exactly t (quiet number) 4 s)) _
                  (explain-Kept s (quiet number) _ _ (untouched.read_keeps number 4 s))
                  (λ buf s. after_status-Kept number (parse_status buf) s)))

    -- A connection without a callback, or a failure.
    unfoldable pub Opened : Line W → Result Failure (Connection W) × Line W → Type 0
    Opened s = Ends (λ c s'. Kept s s' × (c ≡ quiet c.number)) (Kept s)

    open_transport-Opened : (s : Line W) → Opened s (open_transport t s)
    unfolding open_transport Opened Ends
    open_transport-Opened s = go (t.connect s.world) (untouched.connect_keeps s.world)
      where
        go :
            (out : Result Bytes ℕ × W)
            → observe out.1 ≡ observe s.world
            → Opened s (connected t out s.stall_cancelled)
        go (ok n, w) h = (h, refl)
        go (err m, w) h = h

    -- One more request on a connection.
    served-Opened :
        (s s1 : Line W) (c : Connection W) (service : Bytes)
        → Kept s s1
        → c ≡ quiet c.number
        → Opened s (
            continue
              (closed_on_failure t c (send_request_and_check_status t c service s1))
              (λ _ s. (ok c, s)))
    unfolding Opened Ends
    served-Opened s s1 c service kept same = go (send_request_and_check_status t c service s1) (
        subst (λ c. Kept s1 (send_request_and_check_status t c service s1).1) (sym same)
          (send_request-Kept c.number service s1))
      where
        go :
            (out : Result Failure (Unit {0}) × Line W)
            → Kept s1 out.1
            → Opened s (continue (closed_on_failure t c out) (λ _ s. (ok c, s)))
        go (ok u, s2) h = (h ∙ kept, same)
        go (err e, s2) h = untouched.close_keeps c.number s2.world ∙ h ∙ kept

    open_device_transport-Opened :
        (serial : Bytes) (s : Line W) → Opened s (open_device_transport t serial s)
    unfolding open_device_transport Opened
    open_device_transport-Opened serial s =
        continue-Ends (Kept s) (λ c s'. Kept s s' × (c ≡ quiet c.number))
          (λ c s'. Kept s s' × (c ≡ quiet c.number)) (open_transport t s) _
          (open_transport-Opened s)
          (λ c s1 (kept, same). served-Opened s s1 c (codes "host:transport:" ++ serial) kept same)

    pub open_sync_transport-Opened :
        (serial : Bytes) (s : Line W) → Opened s (open_sync_transport t serial s)
    unfolding open_sync_transport Opened
    open_sync_transport-Opened serial s =
        continue-Ends (Kept s) (λ c s'. Kept s s' × (c ≡ quiet c.number))
          (λ c s'. Kept s s' × (c ≡ quiet c.number)) (open_device_transport t serial s) _
          (open_device_transport-Opened serial s)
          (λ c s1 (kept, same). served-Opened s s1 c (codes "sync:") kept same)
