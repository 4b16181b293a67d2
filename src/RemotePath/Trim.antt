-- ===== src/RemotePath/Trim.antt =====
-- What `trimTrailingNewlines` leaves and what it cuts off.
use adb_wfx_plugin.Base.{
  ℕ, zero, suc, ◌+◌, ◌-◌, ◌≤◌, ◌<◌, ◌≡◌, ◌⊎◌, inl, inr, refl, sym, ap, ◌∙◌, Bool, true, false, ◌||◌,
  [], ◌∷◌, ◌++◌, Bytes, ◌==◌, All, length, drop, get_or, arith, take, subst, take-append-drop,
  length-drop, Bool-cases,
}
use adb_wfx_plugin.RemotePath.{trim_end, trim_trailing_newlines}

abbrev pub is_newline : ℕ → Bool
is_newline c = c == b'\n' || c == b'\r'

trim_end-le : (s : Bytes) (n : ℕ) → trim_end s n ≤ n
unfolding trim_end
trim_end-le s zero = omega arith
trim_end-le s (suc n) = ground (arith, trim_end-le s n)

-- What is left ends in no newline.
trim_end_stops :
    (s : Bytes) (n : ℕ)
    → (trim_end s n ≡ 0)
      ⊎ ((0 < trim_end s n) × (is_newline (get_or s (trim_end s n - 1) 0) ≡ false))
unfolding trim_end
trim_end_stops s zero = inl refl
trim_end_stops s (suc n) = elim (Bool-cases (is_newline (get_or s n 0))) [
  | inl e ↦ rw e (trim_end_stops s n)
  | inr e ↦ rw e (inr (omega arith, rw (one_less n) e))
]
  where
    one_less : (n : ℕ) → suc n - 1 ≡ n
    one_less n = omega arith

-- What is cut off is newlines only.
trim_end_cuts : (s : Bytes) (n i : ℕ) → trim_end s n ≤ i → i < n → is_newline (get_or s i 0) ≡ true
unfolding trim_end
trim_end_cuts s zero i lo hi = absurd (omega arith)
trim_end_cuts s (suc n) i lo hi = elim (Bool-cases (is_newline (get_or s n 0))) [
  | inl e ↦ elim (Bool-cases (i == n)) [
    | inl same ↦ ground (arith, e)
    | inr other ↦ trim_end_cuts s n i (rw e at lo) (ground (arith, other))
  ]
  | inr e ↦ absurd (omega (arith, (rw e at lo)))
]

All-by_index :
    (s : Bytes)
    → ((i : ℕ) → i < length s → is_newline (get_or s i 0) ≡ true)
    → All (λ c. is_newline c ≡ true) s
All-by_index [] h = tt
All-by_index (c ∷ s) h = (h 0 (omega arith), All-by_index s (λ i lt. h (suc i) (omega arith)))

get_or-drop : (n i : ℕ) (s : Bytes) → get_or (drop n s) i 0 ≡ get_or s (n + i) 0
get_or-drop zero i s = ap (λ k. get_or s k 0) (omega arith)
get_or-drop (suc n) i [] = refl
get_or-drop (suc n) i (c ∷ s) =
    get_or-drop n i s ∙ ap (λ k. get_or (c ∷ s) k 0) {x = suc (n + i)} (omega arith)

take-snoc : (n : ℕ) (s : Bytes) → n < length s → take (suc n) s ≡ take n s ++ get_or s n 0 ∷ []
take-snoc n [] lt = absurd (omega (arith, lt))
take-snoc zero (c ∷ s) lt = refl
take-snoc (suc n) (c ∷ s) lt = ap (◌∷◌ c) (take-snoc n s (omega (arith, lt)))

-- `text` is `output` without the newlines at its end.
pub IsTrimmed : Bytes → Bytes → Type 0
IsTrimmed output text =
    ((newlines : Bytes) × (output ≡ text ++ newlines) × All (λ c. is_newline c ≡ true) newlines)
    × ((text ≡ [])
        ⊎ ((front : Bytes) × (c : ℕ) × (text ≡ front ++ c ∷ []) × (is_newline c ≡ false)))

-- The text is what is left and newlines behind it, and what is left, if anything, ends in a byte
-- that is no newline.
trim_trailing_newlines_lem :
    (s : Bytes)
    → let e = trim_end s (length s) in
      (s ≡ trim_trailing_newlines s ++ drop e s)
      × All (λ c. is_newline c ≡ true) (drop e s)
      × ((e ≡ 0) ⊎ ((0 < e) × (is_newline (get_or s (e - 1) 0) ≡ false)))
unfolding trim_trailing_newlines
trim_trailing_newlines_lem s =
    let e = trim_end s (length s) in
    (
      sym (take-append-drop e s),
      All-by_index (drop e s) (λ i lt.
          ap is_newline (get_or-drop e i s)
          ∙ trim_end_cuts s (length s) (e + i) (omega arith) (omega (arith, lt, length-drop e s))),
      trim_end_stops s (length s),
    )

pub trim_trailing_newlines-IsTrimmed : (s : Bytes) → IsTrimmed s (trim_trailing_newlines s)
unfolding IsTrimmed trim_trailing_newlines
trim_trailing_newlines-IsTrimmed s =
    let (whole, newlines, stops) = trim_trailing_newlines_lem s in
    (
      (drop (trim_end s (length s)) s, whole, newlines),
      ends (trim_end s (length s)) (trim_end-le s (length s)) stops,
    )
  where
    ends :
        (e : ℕ)
        → e ≤ length s
        → (e ≡ 0) ⊎ ((0 < e) × (is_newline (get_or s (e - 1) 0) ≡ false))
        → (take e s ≡ [])
          ⊎ ((front : Bytes) × (c : ℕ) × (take e s ≡ front ++ c ∷ []) × (is_newline c ≡ false))
    ends zero le h = inl refl
    ends (suc n) le (inl h) = absurd (omega (arith, h))
    ends (suc n) le (inr (lt, h)) = inr (
      take n s,
      get_or s n 0,
      take-snoc n s (omega (arith, le)),
      ap (λ k. is_newline (get_or s k 0)) {x = n} {y = suc n - 1} (omega arith) ∙ h,
    )

-- Nothing is left of a text of newlines only.
pub only_newlines :
    (output text : Bytes)
    → IsTrimmed output text
    → text ≡ []
    → All (λ c. is_newline c ≡ true) output
unfolding IsTrimmed
only_newlines output text ((newlines, whole, each), stops) e =
    subst (All (λ c. is_newline c ≡ true)) (sym (whole ∙ ap (λ t. t ++ newlines) e)) each
