-- ===== src/Find/Walk.antt =====
-- What a file manager sees that asks for one entry after the other, and the bounds of the percentage.
use adb_wfx_plugin.Base.{
  ℕ, zero, suc, ◌+◌, ◌*◌, ◌/◌, ◌^◌, ◌≤◌, ◌<◌, ◌≡◌, ◌⊎◌, inl, inr, refl, sym, ap, ◌∙◌, Option, none,
  some, List, [], ◌∷◌, length, drop, arith, Option-cases,
}
use native.Mathlib.Nat.{div-mul-le_self, lt-div-mul-add, div-lt_iff_lt-mul, mod-eq_of_lt}
use adb_wfx_plugin.Core.Listing.{FindResult}
use adb_wfx_plugin.Find.{
  FindData, FindHandle, fill_find_data, advance_loop, advance_find_data, compute_transfer_percent,
}

-- Up to `2 ^ 64 / 100` bytes, the percentage of a transfer is rounded down, and never above 100.
compute_transfer_percent-percent :
    (done total : ℕ)
    → 0 < total
    → done ≤ total
    → done * 100 < 2 ^ 64
    → let percent = compute_transfer_percent done total in
      (percent * total ≤ done * 100) × (done * 100 < percent * total + total) × (percent ≤ 100)
compute_transfer_percent-percent done total pos le small =
    rw same (div-mul-le_self (done * 100) total, lt-div-mul-add pos, bound)
  where
    bound : done * 100 / total ≤ 100
    bound =
        omega
          (arith, (div-lt_iff_lt-mul {k = total} {x = done * 100} {y = 101} pos).1 (omega arith))

    same : compute_transfer_percent done total ≡ done * 100 / total
    same = unfold compute_transfer_percent in ground (arith, mod-eq_of_lt small, bound)

-- What `advanceFindData` answers in up to `fuel` calls.
unfoldable pub walk : ℕ → FindHandle → List FindData
unfolding advance_find_data
walk zero handle = []
walk (suc fuel) handle = elim (advance_find_data handle).0 [
  | none ↦ []
  | some find_data ↦ find_data ∷ walk fuel (advance_find_data handle).1
]

-- The data of the entries that have any.
pub all_find_data : List FindResult → List FindData
all_find_data [] = []
all_find_data (entry ∷ rest) = elim (fill_find_data entry) [
  | none ↦ all_find_data rest
  | some find_data ↦ find_data ∷ all_find_data rest
]

drop-suc :
    {A : Type 0} (n : ℕ) (xs : List A) (x : A) (rest : List A)
    → drop n xs ≡ x ∷ rest
    → drop (suc n) xs ≡ rest
drop-suc zero [] x rest h = ground arith
drop-suc zero (y ∷ ys) x rest h = ground arith
drop-suc (suc n) [] x rest h = ground arith
drop-suc (suc n) (y ∷ ys) x rest h = drop-suc n ys x rest h

-- What is left for a handle to look at.
abbrev left : FindHandle → List FindResult
left handle = drop handle.index handle.entries

abbrev passed : FindHandle → FindHandle
passed handle = record handle { index = suc handle.index }

left-passed :
    (entry : FindResult) (rest : List FindResult) (handle : FindHandle)
    → left handle ≡ entry ∷ rest
    → left (passed handle) ≡ rest
left-passed entry rest handle h = drop-suc handle.index handle.entries entry rest h

-- One call: the listing is at its end, or the first entry that has data is passed.
Advanced : List FindResult → Option FindData × FindHandle → Type 0
Advanced rest (answer, next) =
    ((answer ≡ none) × (all_find_data rest ≡ []))
    ⊎ ((find_data : FindData) × (answer ≡ some find_data)
        × (all_find_data rest ≡ find_data ∷ all_find_data (left next))
        × (length (left next) < length rest))

advance_loop-Advanced :
    (rest : List FindResult) (handle : FindHandle)
    → left handle ≡ rest
    → Advanced rest (advance_loop rest handle)
unfolding advance_loop all_find_data Advanced
advance_loop-Advanced [] handle h = inl (refl, refl)
advance_loop-Advanced (entry ∷ rest) handle h = elim (Option-cases (fill_find_data entry)) [
  | inl e ↦ elim (advance_loop-Advanced rest (passed handle) (left-passed entry rest handle h)) [
    | inl (a, b) ↦ rw (e, advance_loop, all_find_data) (inl (a, b))
    | inr (find_data, a, b, c) ↦
        rw (e, advance_loop, all_find_data) (inr (find_data, a, b, omega arith))
  ]
  | inr (find_data, e) ↦
      rw (e, advance_loop, all_find_data)
        (inr (
          find_data,
          refl,
          ap (λ xs. find_data ∷ all_find_data xs) (sym (left-passed entry rest handle h)),
          rw (left-passed entry rest handle h) (omega arith),
        ))
]

pub walk-all_find_data :
    (fuel : ℕ) (handle : FindHandle)
    → length (left handle) < fuel
    → walk fuel handle ≡ all_find_data (left handle)
unfolding walk Advanced
walk-all_find_data zero handle lt = absurd (omega arith)
walk-all_find_data (suc fuel) handle lt = elim (advanced handle) [
  | inl (a, b) ↦ rw (a, walk) (sym b)
  | inr (find_data, a, b, c) ↦
      rw (a, walk)
        (ap (◌∷◌ find_data) (walk-all_find_data fuel (advance_find_data handle).1 (omega arith))
          ∙ sym b)
]
  where
    advanced : (handle : FindHandle) → Advanced (left handle) (advance_find_data handle)
    advanced handle = unfold advance_find_data in advance_loop-Advanced (left handle) handle refl
