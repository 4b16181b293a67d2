-- ===== src/Core/Keeps.antt =====
-- What the methods of PluginCore leave alone: something that is observed of the world, and the cache.
use adb_wfx_plugin.Base.{◌≡◌, refl, ◌∙◌, Bool, true, false}
use adb_wfx_plugin.Base.Exec.{Result, ok, err, Exec, fail_if, with_error, rename_error, continue}
use adb_wfx_plugin.Core.{State, outside}

module _ {W D : Type 0} (observe : W → D) where
  -- Neither what is observed nor the cache has changed.
  unfoldable pub KeptBy : State W → State W → Type 0
  KeptBy s s' = (observe s'.world ≡ observe s.world) × (s'.cache ≡ s.cache)

  pub KeptBy-trans : (s s' s'' : State W) → KeptBy s s' → KeptBy s' s'' → KeptBy s s''
  unfolding KeptBy
  KeptBy-trans s s' s'' p q = (q.0 ∙ p.0, q.1 ∙ p.1)

  -- A method that keeps both, whatever it answers.
  abbrev pub Keeping : {E A : Type 0} → Exec E (State W) A → Type 0
  Keeping m = (s : State W) → KeptBy s (m s).1

  pub continue-KeptBy :
      {E A B : Type 0} (s : State W) (out : Result E A × State W) (f : A → Exec E (State W) B)
      → KeptBy s out.1
      → ((a : A) → Keeping (f a))
      → KeptBy s (continue out f).1
  continue-KeptBy s (ok a, s') f h q = KeptBy-trans s s' _ h (q a s')
  continue-KeptBy s (err e, s') f h q = h

  pub fail_if-Keeping : {E : Type 0} (b : Bool) (e : E) → Keeping (fail_if b e)
  unfolding KeptBy
  fail_if-Keeping true e s = (refl, refl)
  fail_if-Keeping false e s = (refl, refl)

  -- A call of the world, whose error has got another name.
  pub with_error-KeptBy :
      {E F A : Type 0} (f : E → F) (m : Exec E W A) (s : State W)
      → observe (m s.world).1 ≡ observe s.world
      → KeptBy s (with_error f (outside m) s).1
  unfolding KeptBy
  with_error-KeptBy {E} {F} {A} f m s h = renamed (m s.world).0 (m s.world).1 h
    where
      renamed :
          (r : Result E A) (w : W)
          → observe w ≡ observe s.world
          → KeptBy s (rename_error f (r, record s { world = w })).1
      renamed (ok a) w h = (h, refl)
      renamed (err e) w h = (h, refl)
