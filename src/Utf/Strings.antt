-- ===== src/Utf/Strings.antt =====
-- `wideToUtf8` and `utf8ToWide` on whole texts.
use adb_wfx_plugin.Base.{
  ℕ, zero, suc, ◌+◌, ◌≤◌, ◌<◌, ◌≡◌, inl, inr, refl, sym, ap, ◌∙◌, List, [], ◌∷◌, ◌++◌, append_assoc,
  append-nil, Bytes, arith, length, length-append, drop, drop-append_length, All, IsByte,
  Bool-cases, length-drop,
}
use adb_wfx_plugin.Utf.{
  Utf8Decode, decode_wide, wide_loop, wide_to_utf8, utf8_loop, utf8_to_wide, decode_utf8,
  append_wide, append_utf8,
}
use adb_wfx_plugin.Utf.Scalar.{IsScalar, utf8, utf16, utf8_all, utf16_all, length-utf8}
use adb_wfx_plugin.Utf.Encode.{append_utf8-utf8, append_wide-utf16}
use adb_wfx_plugin.Utf.Decode.{decode_utf8-utf8, decode_utf8-Decodes, Decodes}

utf8_loop_step :
    (fuel : ℕ) (src : Bytes) (out : List ℕ)
    → 1 ≤ length src
    → utf8_loop (suc fuel) src out
      ≡ utf8_loop fuel
          (drop (decode_utf8 src).consumed src)
          (append_wide out (decode_utf8 src).codepoint)
unfolding utf8_loop
utf8_loop_step fuel [] out h = absurd (omega arith)
utf8_loop_step fuel (c ∷ src) out h = refl

utf8_loop-utf8_all :
    (ns : List ℕ) (fuel : ℕ) (out : List ℕ)
    → All IsScalar ns
    → length (utf8_all ns) ≤ fuel
    → utf8_loop fuel (utf8_all ns) out ≡ out ++ utf16_all ns
unfolding utf8_all utf16_all
utf8_loop-utf8_all [] zero out hs h = unfold utf8_loop in sym (append-nil out)
utf8_loop-utf8_all [] (suc fuel) out hs h = unfold utf8_loop in sym (append-nil out)
utf8_loop-utf8_all (n ∷ ns) zero out hs h =
    absurd (omega (arith, length-append (utf8 n) (utf8_all ns), length-utf8 n))
utf8_loop-utf8_all (n ∷ ns) (suc fuel) out hs h =
    utf8_loop_step fuel (utf8 n ++ utf8_all ns) out (omega (arith, len, length-utf8 n))
    ∙ rw
        (
          decode_utf8-utf8 n (utf8_all ns) hs.0,
          drop-append_length (utf8 n) (utf8_all ns),
          append_wide-utf16 out n hs.0.0,
        )
        (utf8_loop-utf8_all ns fuel (out ++ utf16 n) hs.1 (omega (arith, len, length-utf8 n))
          ∙ append_assoc out (utf16 n) (utf16_all ns))
  where
    len : length (utf8 n ++ utf8_all ns) ≡ length (utf8 n) + length (utf8_all ns)
    len = length-append (utf8 n) (utf8_all ns)

-- Well-formed UTF-8 becomes the UTF-16 of the same code points, with the terminator behind it.
pub utf8_to_wide-utf8_all :
    (ns : List ℕ) → All IsScalar ns → utf8_to_wide (utf8_all ns) ≡ utf16_all ns ++ 0 ∷ []
unfolding utf8_to_wide
utf8_to_wide-utf8_all ns h = ap (λ w. w ++ 0 ∷ []) (utf8_loop-utf8_all ns _ [] h (omega arith))

abbrev pub IsUnit : ℕ → Type 0
IsUnit u = u < 65536

-- One code point's units, in front of any text, are read in one round.
wide_loop-utf16 :
    (n : ℕ) (rest : List ℕ) (out : Bytes)
    → IsScalar n
    → wide_loop (utf16 n ++ rest) out ≡ wide_loop rest (append_utf8 out n)
unfolding wide_loop decode_wide utf16
wide_loop-utf16 n [] out h = ground arith
wide_loop-utf16 n (next ∷ rest) out h = ground arith

wide_loop-utf16_all :
    (ns : List ℕ) (out : Bytes)
    → All IsScalar ns
    → wide_loop (utf16_all ns) out ≡ out ++ utf8_all ns
unfolding utf16_all utf8_all
wide_loop-utf16_all [] out h = unfold wide_loop in sym (append-nil out)
wide_loop-utf16_all (n ∷ ns) out h =
    wide_loop-utf16 n (utf16_all ns) out h.0
    ∙ rw (append_utf8-utf8 out n h.0.0)
        (wide_loop-utf16_all ns (out ++ utf8 n) h.1 ∙ append_assoc out (utf8 n) (utf8_all ns))

-- Well-formed UTF-16 becomes the UTF-8 of the same code points.
pub wide_to_utf8-utf16_all :
    (ns : List ℕ) → All IsScalar ns → wide_to_utf8 (utf16_all ns) ≡ utf8_all ns
unfolding wide_to_utf8
wide_to_utf8-utf16_all ns h = wide_loop-utf16_all ns [] h

decode_wide-IsScalar :
    (unit next : ℕ) → IsUnit unit → IsUnit next → IsScalar (decode_wide unit next).codepoint
unfolding decode_wide
decode_wide-IsScalar unit next h k = ground arith

wide_loop_total :
    (src : List ℕ) (out : Bytes)
    → All IsUnit src
    → (ns : List ℕ) × All IsScalar ns × (wide_loop src out ≡ out ++ utf8_all ns)
unfolding wide_loop utf8_all
wide_loop_total [] out h = ([], tt, sym (append-nil out))
wide_loop_total (unit ∷ []) out h =
    let s = decode_wide-IsScalar unit 0 h.0 (omega arith) in
    (
      (decode_wide unit 0).codepoint ∷ [],
      (s, tt),
      append_utf8-utf8 out _ s.0 ∙ ap (◌++◌ out) (sym (append-nil _)),
    )
wide_loop_total (unit ∷ next ∷ rest) out h =
    let s = decode_wide-IsScalar unit next h.0 h.1.0 in
    let n = (decode_wide unit next).codepoint in
    elim (Bool-cases (decode_wide unit next).pair) [
      | inl e ↦
          let (ns, all, eq) = wide_loop_total rest (append_utf8 out n) h.1.1 in
          (
            n ∷ ns,
            (s, all),
            rw (e, wide_loop)
                (eq
                  ∙ ap (λ t. t ++ utf8_all ns) (append_utf8-utf8 out n s.0)
                  ∙ append_assoc out (utf8 n) (utf8_all ns)),
          )
      | inr e ↦
          let (ns, all, eq) = wide_loop_total (next ∷ rest) (append_utf8 out n) h.1 in
          (
            n ∷ ns,
            (s, all),
            rw (e, wide_loop)
                (eq
                  ∙ ap (λ t. t ++ utf8_all ns) (append_utf8-utf8 out n s.0)
                  ∙ append_assoc out (utf8 n) (utf8_all ns)),
          )
    ]

-- Any units at all, unpaired surrogates included, become well-formed UTF-8.
pub wide_to_utf8_total :
    (src : List ℕ)
    → All IsUnit src
    → (ns : List ℕ) × All IsScalar ns × (wide_to_utf8 src ≡ utf8_all ns)
unfolding wide_to_utf8
wide_to_utf8_total src h = wide_loop_total src [] h

All-drop : (n : ℕ) (s : Bytes) → All IsByte s → All IsByte (drop n s)
All-drop zero s h = h
All-drop (suc n) [] h = h
All-drop (suc n) (c ∷ s) h = All-drop n s h.1

-- `ns` is read off `src` from front to back, and nothing of `src` is left over: each code point is
-- what one decode of the bytes still unread answers.
pub data Reads : Bytes → List ℕ → Type 0 where
  done : Reads [] []
  more :
      {c : ℕ} {rest : Bytes} {ns : List ℕ} (d : Utf8Decode)
      → Decodes (c ∷ rest) d
      → Reads (drop d.consumed (c ∷ rest)) ns
      → Reads (c ∷ rest) (d.codepoint ∷ ns)

pub Reads-IsScalar : {src : Bytes} {ns : List ℕ} → Reads src ns → All IsScalar ns
Reads-IsScalar done = tt
Reads-IsScalar (more d g r) = (g.is_scalar, Reads-IsScalar r)

utf8_loop_total :
    (fuel : ℕ) (src : Bytes) (out : List ℕ)
    → All IsByte src
    → length src ≤ fuel
    → (ns : List ℕ) × Reads src ns × (utf8_loop fuel src out ≡ out ++ utf16_all ns)
unfolding utf8_loop utf16_all
utf8_loop_total zero [] out h fits = ([], done, sym (append-nil out))
utf8_loop_total zero (c ∷ src) out h fits = absurd (omega arith)
utf8_loop_total (suc fuel) [] out h fits = ([], done, sym (append-nil out))
utf8_loop_total (suc fuel) (c ∷ src) out h fits =
    let d = decode_utf8 (c ∷ src) in
    let good = decode_utf8-Decodes c src h in
    let rest = drop d.consumed (c ∷ src) in
    let (ns, reads, eq) =
      utf8_loop_total fuel rest (append_wide out d.codepoint) (All-drop d.consumed (c ∷ src) h)
        (omega (arith, length-drop d.consumed (c ∷ src), good.progress)) in
    (
      d.codepoint ∷ ns,
      more d good reads,
      eq
          ∙ ap (λ t. t ++ utf16_all ns) (append_wide-utf16 out d.codepoint good.is_scalar.0)
          ∙ append_assoc out (utf16 d.codepoint) (utf16_all ns),
    )

-- Any bytes at all are read to their end, and become the well-formed UTF-16 of what was read.
pub utf8_to_wide_total :
    (src : Bytes)
    → All IsByte src
    → (ns : List ℕ) × Reads src ns × (utf8_to_wide src ≡ utf16_all ns ++ 0 ∷ [])
unfolding utf8_to_wide
utf8_to_wide_total src h =
    let (ns, reads, eq) = utf8_loop_total (length src) src [] h (omega arith) in
    (ns, reads, ap (λ w. w ++ 0 ∷ []) eq)
