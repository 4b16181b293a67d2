-- ===== src/Utf/Buffer.antt =====
-- `utf8ToWideBuf`: what fits the buffer, and where a longer text is cut.
use adb_wfx_plugin.Base.{
  ℕ, zero, suc, ◌+◌, ◌-◌, ◌/◌, ◌%◌, ◌≤◌, ◌<◌, ◌≡◌, ◌⊎◌, inl, inr, refl, ap, ◌∙◌, List, [], ◌∷◌,
  ◌++◌, Bytes, leb, arith, Bool, true, false, length, length-append, take, take-append_length,
  length-take, All, IsByte, Bool-cases,
}
use adb_wfx_plugin.Utf.{copy_units, utf8_to_wide, utf8_to_wide_buf, is_high}
use adb_wfx_plugin.Utf.Scalar.{IsScalar, utf16, utf16_all}
use adb_wfx_plugin.Utf.Strings.{Reads, Reads-IsScalar, utf8_to_wide_total}

-- What a truncated copy keeps of the text `w`.
abbrev kept_units : List ℕ → ℕ → List ℕ
kept_units w m = take (copy_units w m) w

copy_units_later :
    (u : ℕ) (w : List ℕ) (m : ℕ) → copy_units (u ∷ w) (suc (suc m)) ≡ suc (copy_units w (suc m))
unfolding copy_units
copy_units_later u w m = ground arith

copy_units-le : (w : List ℕ) (m : ℕ) → copy_units w m ≤ m
unfolding copy_units
copy_units-le w m = ground arith

copy_units_none : (w : List ℕ) → copy_units w 0 ≡ 0
unfolding copy_units
copy_units_none w = refl

-- A unit that is no high surrogate is kept, and the cut goes on behind it.
kept_units_plain :
    (u : ℕ) (w : List ℕ) (m : ℕ)
    → is_high u ≡ false
    → kept_units (u ∷ w) (suc m) ≡ u ∷ kept_units w m
kept_units_plain u w zero h = rw (plain, copy_units_none w) refl
  where
    plain : copy_units (u ∷ w) 1 ≡ 1
    plain = unfold copy_units in rw h refl
kept_units_plain u w (suc m) h = rw (copy_units_later u w m) refl

-- A surrogate pair is kept or dropped as a whole.
kept_units_half : (u : ℕ) (w : List ℕ) → is_high u ≡ true → kept_units (u ∷ w) 1 ≡ []
kept_units_half u w h = rw half refl
  where
    half : copy_units (u ∷ w) 1 ≡ 0
    half = unfold copy_units in rw h refl

kept_units_pair :
    (u v : ℕ) (w : List ℕ) (m : ℕ)
    → is_high v ≡ false
    → kept_units (u ∷ v ∷ w) (suc (suc m)) ≡ u ∷ v ∷ kept_units w m
kept_units_pair u v w m h =
    rw (copy_units_later u (v ∷ w) m) (ap (◌∷◌ u) (kept_units_plain v w m h))

-- `kept` encodes the first code points of `ns`.
abbrev pub Cut : List ℕ → List ℕ → Type 0
Cut ns kept = (ms : List ℕ) × (rest : List ℕ) × (ns ≡ ms ++ rest) × (kept ≡ utf16_all ms)

Cut-nothing : (ns : List ℕ) → Cut ns []
unfolding utf16_all
Cut-nothing ns = ([], ns, refl, refl)

Cut-first :
    (n : ℕ) (ns : List ℕ) {kept kept' : List ℕ}
    → kept' ≡ utf16 n ++ kept
    → Cut ns kept
    → Cut (n ∷ ns) kept'
unfolding utf16_all
Cut-first n ns e (ms, rest, split, k) = (n ∷ ms, rest, ap (◌∷◌ n) split, e ∙ ap (◌++◌ (utf16 n)) k)

-- One code point's units: one plain unit, or a high surrogate and one that is not high.
utf16_shape :
    (n : ℕ)
    → IsScalar n
    → ((utf16 n ≡ n ∷ []) × (is_high n ≡ false))
      ⊎ ((u : ℕ) × (v : ℕ) × (utf16 n ≡ u ∷ v ∷ []) × (is_high u ≡ true) × (is_high v ≡ false))
unfolding utf16
utf16_shape n h = elim (Bool-cases (leb n 0xFFFF)) [
  | inl small ↦ inl (rw small refl, ground arith)
  | inr big ↦
      inr
        (0xD800 + (n - 0x10000) / 1024, 0xDC00 + n % 1024, rw big refl, ground arith, ground arith)
]

kept_units-Cut :
    (ns tail : List ℕ) (m : ℕ)
    → All IsScalar ns
    → m ≤ length (utf16_all ns)
    → Cut ns (kept_units (utf16_all ns ++ tail) m)
unfolding utf16_all
kept_units-Cut ns tail zero h fits = rw (copy_units_none (utf16_all ns ++ tail)) (Cut-nothing ns)
kept_units-Cut [] tail (suc m) h fits = absurd (omega arith)
kept_units-Cut (n ∷ ns) tail (suc m) h fits = elim (utf16_shape n h.0) [
  | inl (e, plain) ↦ one e plain (kept_units-Cut ns tail m h.1)
  | inr (u, v, e, high, low) ↦ two u v e high low m fits (λ k. kept_units-Cut ns tail k h.1)
]
  where
    one :
        utf16 n ≡ n ∷ []
        → is_high n ≡ false
        → (m ≤ length (utf16_all ns) → Cut ns (kept_units (utf16_all ns ++ tail) m))
        → Cut (n ∷ ns) (kept_units ((utf16 n ++ utf16_all ns) ++ tail) (suc m))
    one e plain ih =
        Cut-first n ns (rw e (kept_units_plain n (utf16_all ns ++ tail) m plain))
          (ih (omega (arith, ap length e, length-append (utf16 n) (utf16_all ns))))

    two :
        (u v : ℕ)
        → utf16 n ≡ u ∷ v ∷ []
        → is_high u ≡ true
        → is_high v ≡ false
        → (k : ℕ) → suc k ≤ length (utf16 n ++ utf16_all ns)
        → ((j : ℕ) → j ≤ length (utf16_all ns) → Cut ns (kept_units (utf16_all ns ++ tail) j))
        → Cut (n ∷ ns) (kept_units ((utf16 n ++ utf16_all ns) ++ tail) (suc k))
    two u v e high low zero le ih =
        rw (e, kept_units_half u (v ∷ utf16_all ns ++ tail) high) (Cut-nothing (n ∷ ns))
    two u v e high low (suc k) le ih =
        Cut-first n ns (rw e (kept_units_pair u v (utf16_all ns ++ tail) k low))
          (ih k (omega (arith, ap length e, length-append (utf16 n) (utf16_all ns))))

-- The whole text, or as many of its code points as fit: at most one unit stays free.
pub data Fills (ns : List ℕ) (max_units : ℕ) : List ℕ × Bool → Type 0 where
  whole :
      {dest : List ℕ}
      → dest ≡ utf16_all ns ++ 0 ∷ []
      → length (utf16_all ns) ≤ max_units
      → Fills ns max_units (dest, true)
  truncated :
      {dest : List ℕ} (ms rest : List ℕ)
      → ns ≡ ms ++ rest
      → dest ≡ utf16_all ms ++ 0 ∷ []
      → length (utf16_all ms) ≤ max_units
      → max_units ≤ length (utf16_all ms) + 1
      → max_units < length (utf16_all ns)
      → Fills ns max_units (dest, false)

length-kept_units :
    (w : List ℕ) (m : ℕ)
    → m ≤ length w
    → (length (kept_units w m) ≤ m) × (m ≤ length (kept_units w m) + 1)
unfolding copy_units
length-kept_units w m h = ground (arith, length-take (copy_units w m) w)

fill :
    (src : Bytes) (max_units : ℕ) (ns : List ℕ)
    → All IsScalar ns
    → utf8_to_wide src ≡ utf16_all ns ++ 0 ∷ []
    → Fills ns max_units (utf8_to_wide_buf src (suc max_units))
unfolding utf8_to_wide_buf
fill src max_units ns all e = rw e (elim (Bool-cases (leb (length wide - 1) max_units)) [
  | inl fits ↦ rw fits (
      whole
        (ap (λ w. w ++ 0 ∷ [])
          (ap (λ k. take k wide) {x = length wide - 1} (omega (arith, len))
            ∙ take-append_length (utf16_all ns) (0 ∷ [])))
        (ground (arith, len)))
  | inr long ↦
      let (ms, rest, split, kept) =
        kept_units-Cut ns (0 ∷ []) max_units all (ground (arith, len, long)) in
      let size = length-kept_units wide max_units (ground (arith, len, long)) in
      rw long (
        truncated ms rest split (ap (λ w. w ++ 0 ∷ []) kept) (omega (arith, size, ap length kept))
          (omega (arith, size, ap length kept)) (ground (arith, len, long)))
])
  where
    wide : List ℕ
    wide = utf16_all ns ++ 0 ∷ []

    len : length (utf16_all ns ++ 0 ∷ []) ≡ length (utf16_all ns) + 1
    len = length-append (utf16_all ns) (0 ∷ [])

-- For any bytes and any buffer of at least one unit, `dest` is terminated and holds the encoding of
-- whole code points only; the result is `true` exactly when these are all that the bytes hold.
pub utf8_to_wide_buf-Fills :
    (src : Bytes) (max_units : ℕ)
    → All IsByte src
    → (ns : List ℕ) × Reads src ns × Fills ns max_units (utf8_to_wide_buf src (suc max_units))
utf8_to_wide_buf-Fills src max_units h =
    let (ns, reads, e) = utf8_to_wide_total src h in
    (ns, reads, fill src max_units ns (Reads-IsScalar reads) e)
