-- ===== src/Base/Exec.antt =====
-- Methods that change a state and may fail; what was changed before a failure stays changed.
use mathlib.Core.Path.{◌≡◌, refl, ap, subst}
use mathlib.Core.Logic.{◌⊎◌, inl, inr}
use mathlib.Core.Bool.{Bool, true, false}

-- A value, or the error that the method reports.
pub data Result (E A : Type 0) : Type 0 where
  ok : A → Result E A
  err : E → Result E A

abbrev pub Exec : Type 0 → Type 0 → Type 0 → Type 0
Exec E S A = S → Result E A × S

module _ {E S : Type 0} where
  abbrev pub pure : {A : Type 0} → A → Exec E S A
  pure a s = (ok a, s)

  abbrev pub fail : {A : Type 0} → E → Exec E S A
  fail e s = (err e, s)

  abbrev pub continue : {A B : Type 0} → Result E A × S → (A → Exec E S B) → Result E B × S
  continue (ok a, s) f = f a s
  continue (err e, s) f = (err e, s)

  infixl 5 ◌>>=◌ ◌>>◌
  abbrev pub ◌>>=◌ : {A B : Type 0} → Exec E S A → (A → Exec E S B) → Exec E S B
  ◌>>=◌ m f s = continue (m s) f

  abbrev pub ◌>>◌ : {A B : Type 0} → Exec E S A → Exec E S B → Exec E S B
  m >> n = m >>= λ _. n

  -- An early return with an error, if the test holds.
  abbrev pub fail_if : Bool → E → Exec E S (Unit {0})
  fail_if true e = fail e
  fail_if false e = pure tt

  -- The error is handed on as a value.
  abbrev pub try : {F A : Type 0} → Exec E S A → Exec F S (Result E A)
  try m s = let (r, s') = m s in (ok r, s')

  -- The error under another name.
  abbrev pub rename_error : {F A : Type 0} → (E → F) → Result E A × S → Result F A × S
  rename_error f (ok a, s) = (ok a, s)
  rename_error f (err e, s) = (err (f e), s)

  abbrev pub with_error : {F A : Type 0} → (E → F) → Exec E S A → Exec F S A
  with_error f m s = rename_error f (m s)

  abbrev pub modify : (S → S) → Exec E S (Unit {0})
  modify f s = (ok tt, f s)

pub Result-cases :
    {E A : Type 0} (r : Result E A) → ((a : A) × (r ≡ ok a)) ⊎ ((e : E) × (r ≡ err e))
Result-cases (ok a) = inl (a, refl)
Result-cases (err e) = inr (e, refl)

-- What holds of the value and the state after a success, and of the state after a failure.
unfoldable pub Ends : {E S A : Type 0} → (A → S → Type 0) → (S → Type 0) → Result E A × S → Type 0
Ends Ok Failed (ok a, s) = Ok a s
Ends Ok Failed (err e, s) = Failed s

pub Ends-of :
    {E S A : Type 0} (Ok : A → S → Type 0) (Failed : S → Type 0) (out : Result E A × S)
    → ((a : A) → out.0 ≡ ok a → Ok a out.1)
    → ((e : E) → out.0 ≡ err e → Failed out.1)
    → Ends Ok Failed out
unfolding Ends
Ends-of Ok Failed (ok a, s) p q = p a refl
Ends-of Ok Failed (err e, s) p q = q e refl

ok-injective : {E A : Type 0} {b a : A} → (let r : Result E A = ok b in r ≡ ok a) → b ≡ a
ok-injective e = cc

pub Ends-ok :
    {E S A : Type 0} (Ok : A → S → Type 0) (Failed : S → Type 0) (out : Result E A × S) (a : A)
    → Ends Ok Failed out
    → out.0 ≡ ok a
    → Ok a out.1
unfolding Ends
Ends-ok Ok Failed (ok b, s) a h e = subst (λ z. Ok z s) (ok-injective e) h
Ends-ok Ok Failed (err f, s) a h e = cc

pub continue-ok :
    {E S A B : Type 0} (out : Result E A × S) (f : A → Exec E S B) (a : A)
    → out.0 ≡ ok a
    → continue out f ≡ f a out.1
continue-ok (ok b, s) f a e = ap (λ z. f z s) (ok-injective e)
continue-ok (err d, s) f a e = cc

-- Weaker conclusions.
pub Ends-map :
    {E S A : Type 0} (Ok Ok' : A → S → Type 0) (Failed Failed' : S → Type 0) (out : Result E A × S)
    → ((a : A) (s : S) → Ok a s → Ok' a s)
    → ((s : S) → Failed s → Failed' s)
    → Ends Ok Failed out
    → Ends Ok' Failed' out
unfolding Ends
Ends-map Ok Ok' Failed Failed' (ok a, s) p q h = p a s h
Ends-map Ok Ok' Failed Failed' (err e, s) p q h = q s h

module _ {E S : Type 0} (Failed : S → Type 0) where
  -- A method after another.
  pub continue-Ends :
      {A B : Type 0} (Middle : A → S → Type 0) (Ok : B → S → Type 0) (out : Result E A × S)
      (f : A → Exec E S B)
      → Ends Middle Failed out
      → ((a : A) (s : S) → Middle a s → Ends Ok Failed (f a s))
      → Ends Ok Failed (continue out f)
  unfolding Ends
  continue-Ends Middle Ok (ok a, s) f h q = q a s h
  continue-Ends Middle Ok (err e, s) f h q = h

  -- An early return.
  pub fail_if-Ends :
      (Ok : Unit {0} → S → Type 0) (b : Bool) (e : E) (s : S)
      → (b ≡ false → Ok tt s)
      → Failed s
      → Ends Ok Failed (fail_if b e s)
  unfolding Ends
  fail_if-Ends Ok true e s p h = h
  fail_if-Ends Ok false e s p h = p refl

-- The same, with the error.
unfoldable pub Holds :
    {E S A : Type 0} → (A → S → Type 0) → (E → S → Type 0) → Result E A × S → Type 0
Holds Ok Failed (ok a, s) = Ok a s
Holds Ok Failed (err e, s) = Failed e s

-- What a method does to the state, whatever it answers.
pub Holds-state :
    {E S A : Type 0} (P : S → Type 0) (out : Result E A × S) → P out.1 → Holds (λ _. P) (λ _. P) out
unfolding Holds
Holds-state P (ok a, s) h = h
Holds-state P (err e, s) h = h

module _ {E S : Type 0} (Failed : E → S → Type 0) where
  pub continue-Holds :
      {A B : Type 0} (Middle : A → S → Type 0) (Ok : B → S → Type 0) (out : Result E A × S)
      (f : A → Exec E S B)
      → Holds Middle Failed out
      → ((a : A) (s : S) → Middle a s → Holds Ok Failed (f a s))
      → Holds Ok Failed (continue out f)
  unfolding Holds
  continue-Holds Middle Ok (ok a, s) f h q = q a s h
  continue-Holds Middle Ok (err e, s) f h q = h

  pub rename_error-Holds :
      {F A : Type 0} (Ok : A → S → Type 0) (f : F → E) (out : Result F A × S)
      → Holds Ok (λ e. Failed (f e)) out
      → Holds Ok Failed (rename_error f out)
  unfolding Holds
  rename_error-Holds Ok f (ok a, s) h = h
  rename_error-Holds Ok f (err e, s) h = h

  pub fail_if-Holds :
      (Ok : Unit {0} → S → Type 0) (b : Bool) (e : E) (s : S)
      → (b ≡ false → Ok tt s)
      → (b ≡ true → Failed e s)
      → Holds Ok Failed (fail_if b e s)
  unfolding Holds
  fail_if-Holds Ok true e s p h = h refl
  fail_if-Holds Ok false e s p h = p refl
