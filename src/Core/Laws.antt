-- ===== src/Core/Laws.antt =====
-- What `runMutatingShellCommand` promises on every branch, and the methods that are one such call.
use adb_wfx_plugin.Base.{
  ◌≡◌, inl, inr, refl, true, false, ap, ◌∙◌, All, ◌||◌, Option, none, [], ◌∷◌, Bytes, is_empty,
  if◌then◌else◌, arith, Bool-cases,
}
use adb_wfx_plugin.Base.Exec.{Result, ok, err, continue}
use adb_wfx_plugin.RemotePath.{RemotePath, trim_trailing_newlines, parent_wfx_dir}
use adb_wfx_plugin.RemotePath.Parents.{IsParent, parent_wfx_dir-IsParent}
use adb_wfx_plugin.RemotePath.Trim.{
  is_newline, IsTrimmed, trim_trailing_newlines-IsTrimmed, only_newlines,
}
use adb_wfx_plugin.ListingCache.Below.{is_below}
use adb_wfx_plugin.ListingCache.{Entry, lookup, invalidate}
use adb_wfx_plugin.ListingCache.History.{lookup-invalidate}
use adb_wfx_plugin.Core.Interface.{AdbClient}
use adb_wfx_plugin.Core.{
  State, run_mutating_shell_command, invalidate_path_and_parent, complaint_of,
}

empty_lem : (xs : Bytes) → is_empty xs ≡ true → xs ≡ []
empty_lem [] e = refl
empty_lem (x ∷ xs) e = ground arith

module _ {W : Type 0} where
  -- What the cache holds under a directory once a path and its parent are dropped.
  unfoldable pub left_under : Bytes → Bytes → Bytes → State W → Option Entry
  left_under wfx_path parent k s =
      if is_below wfx_path k || is_below parent k then none else lookup k s.cache.table

  -- The cache finds nothing at the path, at the directory that it stands in and below them, and
  -- elsewhere what it found.
  unfoldable pub Forgot : Bytes → State W → State W → Type 0
  Forgot wfx_path s s' =
      (parent : Bytes) × IsParent wfx_path parent
      × ((k : Bytes) → lookup k s'.cache.table ≡ left_under wfx_path parent k s)

  -- What the shell answered, and the result and the state after it.
  unfoldable pub Ran :
      Bytes → State W → Result Bytes Bytes → W → Result Bytes (Unit {0}) → State W → Type 0
  Ran wfx_path s (ok output) w (ok u) s' =
      (s'.world ≡ w) × All (λ c. is_newline c ≡ true) output × Forgot wfx_path s s'
  Ran wfx_path s (ok output) w (err m) s' =
      (s' ≡ record s { world = w }) × IsTrimmed output m × (is_empty m ≡ false)
  Ran wfx_path s (err e) w (ok u) s' = ⊥
  Ran wfx_path s (err e) w (err m) s' = (s' ≡ record s { world = w }) × (m ≡ e)

  abbrev Ended :
      Bytes → State W → Result Bytes Bytes → W → Result Bytes (Unit {0}) × State W → Type 0
  Ended wfx_path s answer w out = Ran wfx_path s answer w out.0 out.1

  -- It does not matter what the world is.
  pub Forgot-from :
      (wfx_path : Bytes) (s s1 s2 : State W)
      → s1.cache ≡ s.cache
      → Forgot wfx_path s1 s2
      → Forgot wfx_path s s2
  unfolding Forgot left_under
  Forgot-from wfx_path s s1 s2 e (parent, above, held) = (
    parent,
    above,
    λ k. held k ∙ ap (λ c. left_under wfx_path parent k (record s1 { cache = c })) e,
  )

  pub invalidated-Forgot :
      (E : Type 0) (wfx_path : Bytes) (s : State W)
      → Forgot wfx_path s (invalidate_path_and_parent {E = E} wfx_path s).1
  unfolding invalidate_path_and_parent left_under Forgot
  invalidated-Forgot E wfx_path s = (
    parent_wfx_dir wfx_path,
    parent_wfx_dir-IsParent wfx_path,
    λ k. ground (
      arith,
      lookup-invalidate wfx_path k s.cache,
      lookup-invalidate (parent_wfx_dir wfx_path) k (invalidate s.cache wfx_path),
    ),
  )

  -- The two calls that follow the shell.
  abbrev rest : Bytes → Bytes → State W → Result Bytes (Unit {0}) × State W
  rest wfx_path output s = continue (complaint_of output s) λ _. invalidate_path_and_parent wfx_path

  rest_lem :
      (wfx_path output : Bytes) (w : W) (s : State W)
      → Ended wfx_path s (ok output) w (rest wfx_path output (record s { world = w }))
  unfolding Ran complaint_of invalidate_path_and_parent Forgot left_under
  rest_lem wfx_path output w s = elim (Bool-cases (is_empty (trim_trailing_newlines output))) [
    | inl e ↦ rw e (
      refl,
      only_newlines output (trim_trailing_newlines output) trimmed
          (empty_lem (trim_trailing_newlines output) e),
      invalidated-Forgot Bytes wfx_path (record s { world = w }),
    )
    | inr e ↦ rw e (refl, trimmed, e)
  ]
    where
      trimmed : IsTrimmed output (trim_trailing_newlines output)
      trimmed = trim_trailing_newlines-IsTrimmed output

  answered :
      (wfx_path : Bytes) (s : State W) (answer : Result Bytes Bytes) (w : W)
      → Ended wfx_path s answer w (continue (answer, record s { world = w }) (rest wfx_path))
  unfolding Ran
  answered wfx_path s (ok output) w = rest_lem wfx_path output w s
  answered wfx_path s (err e) w = (refl, refl)

module _ {W : Type 0} (client : AdbClient W) where
  -- Whatever the shell answers: the method succeeds exactly when that is a text of newlines only, and
  -- then a lookup in the cache finds nothing at the path, at the directory in front of its last slash,
  -- and at what follows one of the two behind a slash, and elsewhere what it found before; that
  -- directory is "/" where nothing is in front, and then "/" is dropped and what begins with "//". On
  -- any failure the state is what it was, but for the world that the shell left, and the message is
  -- the client's error or the text without the newlines at its end.
  pub run_mutating_shell_command-Ran :
      (rp : RemotePath) (command wfx_path : Bytes) (s : State W)
      → let (answer, w) = client.shell_command rp.serial command s.world in
        let (result, s') = run_mutating_shell_command client rp command wfx_path s in
        Ran wfx_path s answer w result s'
  unfolding run_mutating_shell_command
  run_mutating_shell_command-Ran rp command wfx_path s =
      answered wfx_path s (client.shell_command rp.serial command s.world).0
        (client.shell_command rp.serial command s.world).1
