-- ===== src/Client/Peer/Listing.antt =====
-- The listing of a directory over the sync protocol: `syncList` reads back what the device sends.
use adb_wfx_plugin.Base.{
  ℕ, zero, ◌+◌, suc, arith, ◌≡◌, ◌≤◌, ◌<◌, ◌^◌, refl, sym, subst, ap, ◌∙◌, Bool, true, false, some,
  List, [], ◌∷◌, ◌++◌, append_assoc, append-nil, Bytes, bytes_eq, codes, length, drop, ltb,
  if◌then◌else◌,
}
use adb_wfx_plugin.Base.Int.{pos}
use adb_wfx_plugin.Base.Exec.{Result, ok, pure, fail_if, ◌>>=◌}
use adb_wfx_plugin.Proto.{
  host_request_max_size, write_u32_le, read_u32_le, parse_dent_body, dent_fixed_header_size,
  sync_path_max,
}
use adb_wfx_plugin.Proto.Entry.{DirEntry, empty_entry}
use adb_wfx_plugin.Proto.Packets.{dent_body, parse_dent_body-dent_body, read_u32_le-write_u32_le}
use adb_wfx_plugin.Client.{
  Line, Transport, Failure, Talk, explain, or_connection_error, read_exactly, read_body,
  or_fail_message,
}
use adb_wfx_plugin.Client.Sync.{ListReply, dent, last_entry, read_list_body, read_list_entry}
use adb_wfx_plugin.Client.Operations.{list_loop, sync_list}
use adb_wfx_plugin.Client.Peer.{
  Peer, At, Says, quiet, continue-Says, explain-Says, read_exactly-Says, read_count-Says,
  read_body-Says, fail_if-Says,
}
use adb_wfx_plugin.Client.Peer.Requests.{or_fail_message-Says, device_service}
use adb_wfx_plugin.Client.Peer.Openings.{asked, conversation-Says}

-- An entry as a device sends it.
pub record Sent : Type 0 where
  pub name : Bytes
  pub mode : ℕ
  pub size : ℕ
  pub mtime : ℕ

abbrev pub entry_of : Sent → DirEntry
entry_of x = record empty_entry { name = x.name; mode = x.mode; size = x.size; mtime = pos x.mtime }

abbrev pub entries_of : List Sent → List DirEntry
entries_of [] = []
entries_of (x ∷ xs) = entry_of x ∷ entries_of xs

-- Fields of 32 bits, and a name that is no longer than the protocol has it.
abbrev pub Fits : Sent → Type 0
Fits x =
    (x.mode < 2 ^ 32) × (x.size < 2 ^ 32) × (x.mtime < 2 ^ 32) × (length x.name ≤ sync_path_max)

abbrev pub AllFit : List Sent → Type 0
AllFit [] = Unit {0}
AllFit (x ∷ xs) = Fits x × AllFit xs

-- The reply of a device: a `DENT` for each entry, and the `DONE` of the same shape.
unfoldable pub listing : List Sent → Bytes
listing [] = codes "DONE" ++ dent_body empty_entry 0
listing (x ∷ xs) = codes "DENT" ++ (dent_body (entry_of x) x.mtime ++ listing xs)

fixed : DirEntry → ℕ → Bytes
fixed e mtime =
    write_u32_le e.mode
    ++ (write_u32_le e.size ++ (write_u32_le mtime ++ write_u32_le (length e.name)))

module _ (e : DirEntry) (mtime : ℕ) where
  fixed_name : fixed e mtime ++ e.name ≡ dent_body e mtime
  unfolding fixed dent_body write_u32_le
  fixed_name = refl

  length-fixed : length (fixed e mtime) ≡ dent_fixed_header_size
  unfolding fixed write_u32_le
  length-fixed = refl

  behind_three : drop 12 (fixed e mtime) ≡ write_u32_le (length e.name) ++ []
  unfolding fixed write_u32_le
  behind_three = refl

  namelen : length e.name ≤ sync_path_max → read_u32_le (drop 12 (fixed e mtime)) ≡ length e.name
  namelen fits =
      ap read_u32_le behind_three
      ∙ read_u32_le-write_u32_le (length e.name) [] (omega (arith, fits))

short_name : (x : Sent) → Fits x → length x.name ≤ sync_path_max
short_name x (mode, size, mtime, name) = name

parsed :
    (x : Sent)
    → Fits x
    → parse_dent_body (fixed (entry_of x) x.mtime ++ x.name) empty_entry
      ≡ some (entry_of x, dent_fixed_header_size + length x.name)
parsed x (mode, size, mtime, name) =
    ap (λ p. parse_dent_body p empty_entry)
      (fixed_name (entry_of x) x.mtime ∙ sym (append-nil (dent_body (entry_of x) x.mtime)))
    ∙ parse_dent_body-dent_body (entry_of x) x.mtime [] empty_entry mode size mtime
        (omega (arith, name))

module _ {W : Type 0} {t : Transport W} (peer : Peer t) (number : ℕ) where
  -- What becomes of a body.
  abbrev reply_of : Bool → DirEntry → ℕ → Talk W ListReply
  reply_of true e mtime = pure last_entry
  reply_of false e mtime = do
    (entry, consumed) ←
        or_fail_message (parse_dent_body (fixed e mtime ++ e.name) empty_entry)
          (codes "malformed DENT entry from adb server")
    pure (dent entry)

  -- The body up to its end, whatever then becomes of it.
  body-Says :
      (is_done : Bool) (e : DirEntry) (mtime : ℕ) (r : Result Failure ListReply) (rest d : Bytes)
      (s : Line W)
      → length e.name ≤ sync_path_max
      → ((s : Line W) → At peer rest d s → Says peer r rest d (reply_of is_done e mtime s))
      → At peer (dent_body e mtime ++ rest) d s
      → Says peer r rest d (read_list_body t (quiet peer number) is_done s)
  unfolding read_list_body or_connection_error
  body-Says is_done e mtime r rest d s fits answer p =
      continue-Says peer
        (explain t (quiet peer number) _
          (read_exactly t (quiet peer number) dent_fixed_header_size s))
        _
        (explain-Says peer (quiet peer number) _ _ (
          read_count-Says peer number dent_fixed_header_size (fixed e mtime) (e.name ++ rest) d s
            (length-fixed e mtime) (at_fixed p)))
        (λ s p.
          continue-Says peer
            (fail_if (ltb sync_path_max (read_u32_le (drop 12 (fixed e mtime)))) _ s) _
            (fail_if-Says peer _ _ s short p)
            (λ s p.
              continue-Says peer
                (explain t (quiet peer number) _ (read_body t (quiet peer number) _ s)) _
                (explain-Says peer (quiet peer number) _ _ (
                  subst (λ n. Says peer (ok e.name) rest d (read_body t (quiet peer number) n s))
                    (sym (namelen e mtime fits)) (read_body-Says peer number e.name rest d s p)))
                (λ s p. chosen is_done s (answer s p))))
    where
      at_fixed :
          At peer (dent_body e mtime ++ rest) d s → At peer (fixed e mtime ++ (e.name ++ rest)) d s
      at_fixed (h, g) = (
        h
            ∙ ap (λ x. x ++ rest) (sym (fixed_name e mtime))
            ∙ append_assoc (fixed e mtime) e.name rest,
        g,
      )

      chosen :
          (b : Bool) (s : Line W)
          → Says peer r rest d (reply_of b e mtime s)
          → Says peer r rest d (
              (if b then pure last_entry else (do
                (entry, consumed) ←
                    or_fail_message
                      (parse_dent_body (fixed e mtime ++ e.name) empty_entry)
                      (codes "malformed DENT entry from adb server")
                pure (dent entry)))
                s)
      chosen true s p = p
      chosen false s p = p

      short : ltb sync_path_max (read_u32_le (drop 12 (fixed e mtime))) ≡ false
      short = rw (namelen e mtime fits) (ground (arith, fits))

  entry-Says :
      (x : Sent) (rest d : Bytes) (s : Line W)
      → Fits x
      → At peer (codes "DENT" ++ (dent_body (entry_of x) x.mtime ++ rest)) d s
      → Says peer (ok (dent (entry_of x))) rest d (read_list_entry t (quiet peer number) s)
  unfolding read_list_entry or_connection_error bytes_eq
  entry-Says x rest d s fits p =
      continue-Says peer (explain t (quiet peer number) _ (read_exactly t (quiet peer number) 4 s))
        _
        (explain-Says peer (quiet peer number) _ _
          (read_exactly-Says peer number (codes "DENT") _ d s p))
        (λ s p.
          body-Says false (entry_of x) x.mtime (ok (dent (entry_of x))) rest d s (short_name x fits)
            (λ s p.
              continue-Says peer (or_fail_message (parse_dent_body _ empty_entry) _ s) _
                (or_fail_message-Says peer _ _ _ rest d s (parsed x fits) p) (λ s p. (refl, p)))
            p)

  done-Says :
      (rest d : Bytes) (s : Line W)
      → At peer (codes "DONE" ++ (dent_body empty_entry 0 ++ rest)) d s
      → Says peer (ok last_entry) rest d (read_list_entry t (quiet peer number) s)
  unfolding read_list_entry or_connection_error bytes_eq
  done-Says rest d s p =
      continue-Says peer (explain t (quiet peer number) _ (read_exactly t (quiet peer number) 4 s))
        _
        (explain-Says peer (quiet peer number) _ _
          (read_exactly-Says peer number (codes "DONE") _ d s p))
        (λ s p.
          body-Says true empty_entry 0 (ok last_entry) rest d s (omega arith) (λ s p. (refl, p)) p)

  loop-Says :
      (fuel : ℕ) (xs : List Sent) (out : List DirEntry) (rest d : Bytes) (s : Line W)
      → length xs < fuel
      → AllFit xs
      → At peer (listing xs ++ rest) d s
      → Says peer (ok (out ++ entries_of xs)) rest d (list_loop t fuel (quiet peer number) out s)
  unfolding list_loop listing
  loop-Says zero xs out rest d s enough fits p = absurd (omega (arith, enough))
  loop-Says (suc fuel) [] out rest d s enough fits (h, g) =
      continue-Says peer (read_list_entry t (quiet peer number) s) _ (done-Says rest d s (h, g))
        (λ s p. (ap ok (sym (append-nil out)), p))
  loop-Says (suc fuel) (x ∷ xs) out rest d s enough (one, fits) (h, g) =
      continue-Says peer (read_list_entry t (quiet peer number) s) _
        (entry-Says x (listing xs ++ rest) d s one (
          h
              ∙ ap (λ z. codes "DENT" ++ z)
                  (append_assoc (dent_body (entry_of x) x.mtime) (listing xs) rest),
          g,
        ))
        (λ s p.
          subst
            (λ z.
              Says peer (ok z) rest d
                (list_loop t fuel (quiet peer number) (out ++ entry_of x ∷ []) s))
            (append_assoc out (entry_of x ∷ []) (entries_of xs))
            (loop-Says fuel xs (out ++ entry_of x ∷ []) rest d s (omega (arith, enough)) fits p))

module _ {W : Type 0} {t : Transport W} (peer : Peer t) where
  -- `syncList` says what the protocol wants and reads back the entries that the device sends, in order,
  -- whatever follows them, within one round more than there are entries.
  pub sync_list-listing :
      (fuel : ℕ) (serial path : Bytes) (xs : List Sent) (rest d : Bytes) (s : Line W)
      → length xs < fuel
      → AllFit xs
      → length path ≤ sync_path_max
      → length (device_service serial) ≤ host_request_max_size
      → At peer (codes "OKAY" ++ (codes "OKAY" ++ (listing xs ++ rest))) d s
      → Says peer
          (ok (entries_of xs))
          rest
          (d ++ asked serial (codes "LIST") path)
          (sync_list t fuel serial path s)
  unfolding sync_list
  sync_list-listing fuel serial path xs rest d s enough fits short fits_host p =
      conversation-Says peer serial (codes "LIST") path (codes "failed to write LIST request")
        (listing xs ++ rest) rest d (ok (entries_of xs)) (λ c. list_loop t fuel c []) s short
        fits_host (λ number d s p. loop-Says peer number fuel xs [] rest d s enough fits p) p
