-- ===== src/Shim/RootName.antt =====
-- The name of the file system, in the manager's buffer.
use adb_wfx_plugin.Base.{
  ℕ, zero, suc, ◌-◌, ◌≤◌, ◌<◌, ◌≡◌, refl, false, [], ◌∷◌, ◌++◌, ltb, length, take, length-append,
  length-take, ◌==◌, Bool-cases, inl, inr, arith,
}
use adb_wfx_plugin.Base.Int.{ℤ, pos, negsuc}
use adb_wfx_plugin.Shim.Session.{fs_get_def_root_name, root_name}

-- The characters that there is room for.
abbrev pub room : ℤ → ℕ
room (pos n) = n
room (negsuc n) = 0

-- Whatever `maxlen` the manager passes, no more is written than it says; if that is anything at all,
-- it is a first part of the name and a terminator, and the whole name where it fits.
fs_get_def_root_name-fits :
    (maxlen : ℤ)
    → (length (fs_get_def_root_name maxlen) ≤ room maxlen)
      × (0 < room maxlen
          → (k : ℕ) × (fs_get_def_root_name maxlen ≡ take k root_name ++ 0 ∷ [])
            × (3 < room maxlen → k ≡ 3))
unfolding fs_get_def_root_name
fs_get_def_root_name-fits (negsuc n) = (omega arith, λ h. absurd (omega arith))
fs_get_def_root_name-fits (pos zero) = (omega arith, λ h. absurd (omega arith))
fs_get_def_root_name-fits (pos (suc n)) = elim (Bool-cases (ltb 3 (suc n - 1))) [
  | inl e ↦ rw (positive, e) (ground arith, λ h. (3, refl, λ g. refl))
  | inr e ↦
      rw (positive, e)
        (
          ground (
            arith,
            length-append (take (suc n - 1) root_name) (0 ∷ []),
            length-take (suc n - 1) root_name,
          ),
          λ h. (suc n - 1, refl, λ g. ground arith),
        )
]
  where
    positive : (suc n == 0) ≡ false
    positive = ground arith
