-- ===== src/Core/Move/Refusals.antt =====
-- When `renameOrMove` refuses, which flag it sets, and what it has done by then.
use adb_wfx_plugin.Base.{
  ◌≡◌, ◌⊎◌, inl, inr, refl, ap, ◌∙◌, none, Bool, true, false, not, ◌&&◌, Option, Bytes, bytes_eq,
  Bool-cases, Option-cases, if◌then◌else◌,
}
use adb_wfx_plugin.Base.Exec.{Result, ok, err, rename_error, with_error, continue, Result-cases}
use adb_wfx_plugin.RemotePath.{parse_wfx_path}
use adb_wfx_plugin.Proto.Entry.{DirEntry}
use adb_wfx_plugin.Core.{State, Method}
use adb_wfx_plugin.Core.Interface.{AdbClient, Host}
use adb_wfx_plugin.Core.Move.{
  MoveError, plain_error, rename_or_move, refuse_existing, run_device_move, run_device_copy,
  is_some,
}

-- The two paths are on one device.
abbrev pub same_device : Bytes → Bytes → Bool
same_device wfx_from wfx_to =
    bytes_eq (parse_wfx_path wfx_from).serial (parse_wfx_path wfx_to).serial

-- The answer of `STAT` says that the path is there.
abbrev pub is_there : Result Bytes (Option DirEntry) → Bool
is_there (ok info) = is_some info
is_there (err m) = false

module _ {W : Type 0} (client : AdbClient W) where
  abbrev pub probe : Bytes → State W → Result Bytes (Option DirEntry) × W
  probe wfx_to s = let rp = parse_wfx_path wfx_to in client.sync_stat rp.serial rp.path s.world

  -- The target stands in the way.
  abbrev pub in_the_way : Bytes → Bool → State W → Bool
  in_the_way wfx_to overwrite s = not overwrite && is_there (probe wfx_to s).0

  -- The target may be overwritten, or `STAT` was answered, and finds none.
  abbrev pub Free : Bytes → Bool → State W → Type 0
  Free wfx_to overwrite s = (overwrite ≡ true) ⊎ ((probe wfx_to s).0 ≡ ok none)

  pub Free-clear :
      (wfx_to : Bytes) (overwrite : Bool) (s : State W)
      → Free wfx_to overwrite s
      → in_the_way wfx_to overwrite s ≡ false
  Free-clear wfx_to true s h = refl
  Free-clear wfx_to false s (inl e) = cc
  Free-clear wfx_to false s (inr e) = ap is_there e

  -- Success is on one device with a free target. A failure has each flag exactly in its own case,
  -- and in that case nothing was done but, for the target, to look.
  unfoldable pub Judged :
      Bytes → Bytes → Bool → State W → Result MoveError (Unit {0}) → State W → Type 0
  Judged wfx_from wfx_to overwrite s (ok u) s' =
      (same_device wfx_from wfx_to ≡ true) × Free wfx_to overwrite s
  Judged wfx_from wfx_to overwrite s (err e) s' =
      (e.cross_device ≡ not (same_device wfx_from wfx_to))
      × (e.target_exists ≡ (same_device wfx_from wfx_to && in_the_way wfx_to overwrite s))
      × ((e.cross_device ≡ false) ⊎ (s' ≡ s))
      × ((e.target_exists ≡ false) ⊎ (s' ≡ record s { world = (probe wfx_to s).1 }))

  Judged-rest :
      (wfx_from wfx_to : Bytes) (overwrite : Bool) (s : State W)
      → same_device wfx_from wfx_to ≡ true
      → in_the_way wfx_to overwrite s ≡ false
      → Free wfx_to overwrite s
      → (r : Result Bytes (Unit {0})) (s' : State W)
      → let (result, s'') = rename_error plain_error (r, s') in
        Judged wfx_from wfx_to overwrite s result s''
  unfolding Judged
  Judged-rest wfx_from wfx_to overwrite s same clear free (ok u) s' = (same, free)
  Judged-rest wfx_from wfx_to overwrite s same clear free (err e) s' =
      (rw same refl, rw (same, clear) refl, inl refl, inl refl)

module _ {W : Type 0} (client : AdbClient W) (host : Host W) where
  -- From the check of the target on, whatever the rest of the method does.
  Judged-checked :
      (wfx_from wfx_to : Bytes) (overwrite : Bool) (s : State W) (rest : Method W (Unit {0}))
      → same_device wfx_from wfx_to ≡ true
      → let (result, s') =
          continue
            (refuse_existing client host (parse_wfx_path wfx_to) overwrite s)
            λ _. with_error plain_error rest in
        Judged client wfx_from wfx_to overwrite s result s'
  unfolding refuse_existing Judged
  Judged-checked wfx_from wfx_to true s rest same =
      Judged-rest client wfx_from wfx_to true s same refl (inl refl) (rest s).0 (rest s).1
  Judged-checked wfx_from wfx_to false s rest same = elim (Result-cases (probe client wfx_to s).0) [
    | inr (m, h) ↦ rw h (rw same refl, rw (h, same) refl, inl refl, inl refl)
    | inl (a, h) ↦ elim (Option-cases a) [
      | inl g ↦
          rw (h, g)
            (let looked : State W = record s { world = (probe client wfx_to s).1 } in
              Judged-rest client wfx_from wfx_to false s same (rw (h, g) refl) (inr (h ∙ ap ok g))
                (rest looked).0 (rest looked).1)
      | inr (info, g) ↦ rw (h, g) (rw same refl, rw (h, g, same) refl, inl refl, inr refl)
    ]
  ]

  -- For any two paths and flags: on success the two are on one device, and `overwrite` is set or
  -- the `STAT` was answered and found no target. On a failure `cross_device` says exactly that the devices differ,
  -- and then the state is untouched; `target_exists` says exactly that they do not and the `STAT`
  -- found a target without `overwrite`, and then only that `STAT` was run.
  pub rename_or_move-Judged :
      (wfx_from wfx_to : Bytes) (move overwrite : Bool) (s : State W)
      → let (result, s') = rename_or_move client host wfx_from wfx_to move overwrite s in
        Judged client wfx_from wfx_to overwrite s result s'
  unfolding rename_or_move Judged
  rename_or_move-Judged wfx_from wfx_to move overwrite s =
      elim (Bool-cases (same_device wfx_from wfx_to)) [
        | inr e ↦ rw e (rw e refl, rw e refl, inr refl, inl refl)
        | inl e ↦ rw e (
            Judged-checked wfx_from wfx_to overwrite s
              (if move
                then run_device_move client host (parse_wfx_path wfx_from) (parse_wfx_path wfx_to)
                    wfx_from wfx_to
                else run_device_copy client host (parse_wfx_path wfx_from) (parse_wfx_path wfx_to)
                    wfx_to)
              e)
      ]
