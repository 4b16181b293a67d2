-- ===== src/RemotePath/Names.antt =====
-- Names cut between characters, and the temporary name of a download.
use adb_wfx_plugin.Base.{
  ℕ, zero, suc, ◌+◌, ◌-◌, ◌/◌, ◌%◌, ◌≤◌, ◌<◌, ◌≡◌, ◌⊎◌, inl, inr, refl, sym, ap, subst, ◌∙◌, Bool,
  false, List, [], ◌∷◌, ◌++◌, append_assoc, append-nil, Bytes, leb, ltb, ◌==◌, Lacks, All, length,
  length-append, take, drop, get_or, arith, length-take, take_all, Bool-cases, bit_and,
}
use adb_wfx_plugin.RemotePath.{
  slash, back_up, utf8_truncated_length, max_file_name_bytes, temp_download_suffix, temp_budget,
  shortened, temp_base, temp_download_path,
}
use adb_wfx_plugin.RemotePath.Split.{find_last-append}
use adb_wfx_plugin.Utf.Bits.{is_cont}
use adb_wfx_plugin.Utf.Scalar.{IsScalar, utf8, utf8_all, length-utf8}

-- The cut of `utf8_truncated_length` on well-formed text.
at_cont : Bytes → ℕ → Bool
at_cont s n = bit_and (get_or s n 0) 0xC0 == 0x80

get_or-append : (x y : Bytes) (k : ℕ) → get_or (x ++ y) (length x + k) 0 ≡ get_or y k 0
get_or-append [] y k = ap (λ j. get_or y j 0) {x = 0 + k} (omega arith)
get_or-append (c ∷ x) y k =
    ap (λ j. get_or (c ∷ x ++ y) j 0) {y = suc (length x + k)} (omega arith) ∙ get_or-append x y k

-- Inside one character the loop goes back to its first byte.
back_up_inside :
    (n m : ℕ) (t : Bytes) → IsScalar n → m < length (utf8 n) → back_up (utf8 n ++ t) m ≡ 0
unfolding back_up utf8
back_up_inside n zero t h lt = refl
back_up_inside n (suc zero) t h lt =
    ground
      (arith, is_cont (0x80 + n % 64), is_cont (0x80 + n / 64 % 64), is_cont (0x80 + n / 4096 % 64))
back_up_inside n (suc (suc zero)) t h lt =
    ground
      (arith, is_cont (0x80 + n % 64), is_cont (0x80 + n / 64 % 64), is_cont (0x80 + n / 4096 % 64))
back_up_inside n (suc (suc (suc zero))) t h lt =
    ground
      (arith, is_cont (0x80 + n % 64), is_cont (0x80 + n / 64 % 64), is_cont (0x80 + n / 4096 % 64))
back_up_inside n (suc (suc (suc (suc m)))) t h lt = absurd (omega (arith, length-utf8 n))

-- Behind a character it stops at the next one's first byte.
back_up_behind :
    (x y : Bytes) (k : ℕ)
    → 0 < length x
    → (bit_and (get_or y 0 0) 0xC0 == 0x80) ≡ false
    → back_up (x ++ y) (length x + k) ≡ length x + back_up y k
unfolding back_up
back_up_behind x y zero h e = at_seam x y h e
  where
    at_seam :
        (x y : Bytes)
        → 0 < length x
        → (bit_and (get_or y 0 0) 0xC0 == 0x80) ≡ false
        → back_up (x ++ y) (length x + 0) ≡ length x + 0
    at_seam [] y h e = absurd (omega arith)
    at_seam (c ∷ x) y h e = ground (arith, get_or-append (c ∷ x) y 0)
back_up_behind x y (suc k) h e =
    rw (later k) (
      ground
        (arith, later k, rw (later k) at (get_or-append x y (suc k)), back_up_behind x y k h e))
  where
    later : (k : ℕ) → length x + suc k ≡ suc (length x + k)
    later k = omega arith

utf8-first :
    (n : ℕ) (t : Bytes) → IsScalar n → (bit_and (get_or (utf8 n ++ t) 0 0) 0xC0 == 0x80) ≡ false
unfolding utf8
utf8-first n t h = ground (
  arith,
  is_cont n,
  is_cont (0xC0 + n / 64),
  is_cont (0xE0 + n / 4096),
  is_cont (0xF0 + n / 262144),
)

utf8_all-first :
    (ns : List ℕ) (k : ℕ)
    → All IsScalar ns
    → k < length (utf8_all ns)
    → (bit_and (get_or (utf8_all ns) 0 0) 0xC0 == 0x80) ≡ false
unfolding utf8_all
utf8_all-first [] k h lt = absurd (omega arith)
utf8_all-first (n ∷ ns) k h lt = utf8-first n (utf8_all ns) h.0

take-append_add : (x y : Bytes) (k : ℕ) → take (length x + k) (x ++ y) ≡ x ++ take k y
take-append_add [] y k = ap (λ j. take j y) {x = 0 + k} (omega arith)
take-append_add (c ∷ x) y k =
    ap (λ j. take j (c ∷ x ++ y)) {y = suc (length x + k)} (omega arith)
    ∙ ap (◌∷◌ c) (take-append_add x y k)

-- A cut before the end of well-formed text falls between two of its characters, at most three
-- bytes before the limit.
back_up-utf8_all :
    (ns : List ℕ) (m : ℕ)
    → All IsScalar ns
    → m < length (utf8_all ns)
    → (ms : List ℕ) × (rest : List ℕ) × (ns ≡ ms ++ rest)
      × (take (back_up (utf8_all ns) m) (utf8_all ns) ≡ utf8_all ms)
      × (back_up (utf8_all ns) m ≤ m)
      × (m ≤ back_up (utf8_all ns) m + 3)
unfolding utf8_all
back_up-utf8_all [] m h lt = absurd (omega arith)
back_up-utf8_all (n ∷ ns) m h lt = elim (Bool-cases (ltb m (length (utf8 n)))) [
  | inl inside ↦
      rw (back_up_inside n m (utf8_all ns) h.0 (ground (arith, inside)))
        ([], n ∷ ns, refl, refl, omega arith, ground (arith, inside, length-utf8 n))
  | inr behind ↦
      let k = m - length (utf8 n) in
      let len = length-append (utf8 n) (utf8_all ns) in
      let lt' : k < length (utf8_all ns) = ground (arith, behind, len, lt) in
      let (ms, rest, split, kept, le, ge) = back_up-utf8_all ns k h.1 lt' in
      let e =
        back_up_behind (utf8 n) (utf8_all ns) k (omega (arith, length-utf8 n))
          (utf8_all-first ns k h.1 lt') in
      let at : length (utf8 n) + k ≡ m = ground (arith, behind) in
      let e' : back_up (utf8 n ++ utf8_all ns) m ≡ length (utf8 n) + back_up (utf8_all ns) k =
        subst (λ j. back_up (utf8 n ++ utf8_all ns) j ≡ length (utf8 n) + back_up (utf8_all ns) k)
          at e in
      (
        n ∷ ms,
        rest,
        ap (◌∷◌ n) split,
        rw e' (
            take-append_add (utf8 n) (utf8_all ns) (back_up (utf8_all ns) k)
            ∙ ap (◌++◌ (utf8 n)) kept),
        omega (arith, e', le, at),
        omega (arith, e', ge, at),
      )
]

-- A name in well-formed UTF-8 is cut to at most the limit and between two characters: the whole name if it fits, else
-- all of its characters but those behind a point at most three bytes before the limit.
pub utf8_truncated_length-utf8_all :
    (ns : List ℕ) (max_bytes : ℕ)
    → All IsScalar ns
    → let n = utf8_truncated_length (utf8_all ns) max_bytes in
      (ms : List ℕ) × (rest : List ℕ) × (ns ≡ ms ++ rest)
      × (take n (utf8_all ns) ≡ utf8_all ms)
      × (n ≤ max_bytes)
      × ((rest ≡ []) ⊎ (max_bytes ≤ n + 3))
unfolding utf8_truncated_length
utf8_truncated_length-utf8_all ns max_bytes h =
    elim (Bool-cases (leb (length (utf8_all ns)) max_bytes)) [
      | inl fits ↦ rw fits (
        ns,
        [],
        sym (append-nil ns),
        take_all (length (utf8_all ns)) (utf8_all ns) (omega arith),
        ground (arith, fits),
        inl refl,
      )
      | inr long ↦
          let (ms, rest, split, kept, le, ge) =
            back_up-utf8_all ns max_bytes h (ground (arith, long)) in
          rw long (ms, rest, split, kept, le, inr ge)
    ]

back_up-le : (s : Bytes) (n : ℕ) → back_up s n ≤ n
unfolding back_up
back_up-le s zero = omega arith
back_up-le s (suc n) = ground (arith, back_up-le s n)

utf8_truncated_length-le : (s : Bytes) (n : ℕ) → utf8_truncated_length s n ≤ n
unfolding utf8_truncated_length
utf8_truncated_length-le s n = ground (arith, back_up-le s n)

length-shortened : (base : Bytes) (budget : ℕ) → length (shortened base budget) ≤ budget
unfolding shortened
length-shortened base budget = ground (
  arith,
  length-take (utf8_truncated_length base budget) base,
  utf8_truncated_length-le base budget,
)

-- The temporary name stays within the limit of a path component, whatever the target's name is, if
-- the process id has at most 242 digits.
length-temp_base :
    (base pid : Bytes) → length pid ≤ 242 → length (temp_base base pid) ≤ max_file_name_bytes
unfolding temp_base temp_budget
length-temp_base base pid h =
    let suffix = temp_download_suffix ++ pid in
    ground (
      arith,
      length-append temp_download_suffix pid,
      length-append (shortened base (temp_budget suffix)) suffix,
      length-shortened base (temp_budget suffix),
    )

-- Given a target whose name has no slash in it, the temporary file stands in the target's own
-- directory, under the temporary name of the target's.
temp_download_path-append :
    (dir base pid : Bytes)
    → Lacks slash base
    → temp_download_path (dir ++ slash ∷ base) pid ≡ dir ++ slash ∷ temp_base base pid
unfolding temp_download_path
temp_download_path-append dir base pid h =
    rw (find_last-append slash dir base h, temp_download_path)
      (rw (seam dir, behind dir) refl ∙ append_assoc dir (slash ∷ []) (temp_base base pid))
  where
    seam : (dir : Bytes) → take (length dir + 1) (dir ++ slash ∷ base) ≡ dir ++ slash ∷ []
    seam dir = take-append_add dir (slash ∷ base) 1

    behind : (dir : Bytes) → drop (length dir + 1) (dir ++ slash ∷ base) ≡ base
    behind [] = refl
    behind (c ∷ dir) =
        ap (λ j. drop j (c ∷ dir ++ slash ∷ base)) {y = suc (length dir + 1)} (omega arith)
        ∙ behind dir
