-- ===== src/Server/Binary/Candidates.antt =====
-- The candidates for the adb binary, and the one that is taken.
use adb_wfx_plugin.Base.{
  ◌≡◌, refl, sym, ap, ◌∙◌, append_assoc, append-nil, if◌then◌else◌, Bool, true, false, ◌||◌, ◌⊎◌,
  inl, inr, Option, List, [], ◌∷◌, ◌++◌, Bytes, bytes_eq, bytes_eq_iff, subst, All, Bool-cases,
  arith,
}
use adb_wfx_plugin.Server.Binary.{
  is_seen, add_candidate, add_all, offered, adb_binary_candidates, first_executable,
  find_adb_binary,
}

-- The paths other than one.
unfoldable pub others : Bytes → List Bytes → List Bytes
others c [] = []
others c (x ∷ xs) = if bytes_eq c x then others c xs else x ∷ others c xs

-- Each path where it is offered first.
unfoldable pub first_offers : List Bytes → List Bytes
unfolding others
first_offers [] = []
first_offers (c ∷ offers) = c ∷ others c (first_offers offers)

-- The paths that are not in a list.
unfoldable unseen : List Bytes → List Bytes → List Bytes
unseen cs [] = []
unseen cs (x ∷ xs) = if is_seen cs x then unseen cs xs else x ∷ unseen cs xs

is_seen-append :
    (xs ys : List Bytes) (c : Bytes) → is_seen (xs ++ ys) c ≡ (is_seen xs c || is_seen ys c)
unfolding is_seen
is_seen-append [] ys c = refl
is_seen-append (x ∷ xs) ys c = ground (arith, is_seen-append xs ys c)

unseen-others_seen :
    (cs : List Bytes) (c : Bytes) (xs : List Bytes)
    → is_seen cs c ≡ true
    → unseen cs (others c xs) ≡ unseen cs xs
unfolding unseen others
unseen-others_seen cs c [] h = refl
unseen-others_seen cs c (x ∷ xs) h = elim (Bool-cases (bytes_eq c x)) [
  | inl e ↦
      rw (e, subst (λ y. is_seen cs y ≡ true) ((bytes_eq_iff c x).0 e) h)
        (unseen-others_seen cs c xs h)
  | inr e ↦ rw (e, unseen, unseen-others_seen cs c xs h) refl
]

unseen-snoc :
    (cs : List Bytes) (c : Bytes) (xs : List Bytes)
    → unseen (cs ++ c ∷ []) xs ≡ unseen cs (others c xs)
unfolding unseen others is_seen
unseen-snoc cs c [] = refl
unseen-snoc cs c (x ∷ xs) = elim (Bool-cases (bytes_eq c x)) [
  | inl e ↦
      rw (is_seen-append cs (c ∷ []) x, e)
        (elim (Bool-cases (is_seen cs x)) [
          | inl q ↦ rw q (unseen-snoc cs c xs)
          | inr q ↦ rw q (unseen-snoc cs c xs)
        ])
  | inr e ↦
      rw (is_seen-append cs (c ∷ []) x, e)
        (elim (Bool-cases (is_seen cs x)) [
          | inl q ↦ rw q (unseen-snoc cs c xs)
          | inr q ↦ rw (q) (ap (◌∷◌ x) (unseen-snoc cs c xs))
        ])
]

add_all-first_offers :
    (cs offers : List Bytes) → add_all cs offers ≡ cs ++ unseen cs (first_offers offers)
unfolding add_all add_candidate first_offers unseen
add_all-first_offers cs [] = sym (append-nil cs)
add_all-first_offers cs (c ∷ offers) = elim (Bool-cases (is_seen cs c)) [
  | inl e ↦ rw e (
      add_all-first_offers cs offers
      ∙ ap (λ xs. cs ++ xs) (sym (unseen-others_seen cs c (first_offers offers) e)))
  | inr e ↦ rw e (
      add_all-first_offers (cs ++ c ∷ []) offers
      ∙ append_assoc cs (c ∷ []) (unseen (cs ++ c ∷ []) (first_offers offers))
      ∙ ap (λ xs. cs ++ c ∷ xs) (unseen-snoc cs c (first_offers offers)))
]

unseen-nothing : (xs : List Bytes) → unseen [] xs ≡ xs
unfolding unseen is_seen
unseen-nothing [] = refl
unseen-nothing (x ∷ xs) = ap (◌∷◌ x) (unseen-nothing xs)

-- The first path that is executable, or nothing where none is.
pub Chosen : (Bytes → Bool) → List Bytes → Bytes → Type 0
Chosen is_executable cs r =
    ((before : List Bytes) × (after : List Bytes) × (cs ≡ before ++ r ∷ after)
      × (is_executable r ≡ true)
      × All (λ c. is_executable c ≡ false) before)
    ⊎ ((r ≡ []) × All (λ c. is_executable c ≡ false) cs)

Chosen-after :
    (is_executable : Bytes → Bool) (c : Bytes) (cs : List Bytes) (r : Bytes)
    → is_executable c ≡ false
    → Chosen is_executable cs r
    → Chosen is_executable (c ∷ cs) r
unfolding Chosen
Chosen-after is_executable c cs r h (inl (before, after, e, x, none_before)) =
    inl (c ∷ before, after, ap (◌∷◌ c) e, x, (h, none_before))
Chosen-after is_executable c cs r h (inr (e, none_at_all)) = inr (e, (h, none_at_all))

first_executable-Chosen :
    (is_executable : Bytes → Bool) (cs : List Bytes)
    → Chosen is_executable cs (first_executable is_executable cs)
unfolding first_executable Chosen
first_executable-Chosen is_executable [] = inr (refl, tt)
first_executable-Chosen is_executable (c ∷ cs) = elim (Bool-cases (is_executable c)) [
  | inl e ↦ subst (Chosen is_executable (c ∷ cs)) (sym (taken e)) (inl ([], cs, refl, e, tt))
  | inr e ↦
      subst (Chosen is_executable (c ∷ cs)) (sym (passed e))
        (Chosen-after is_executable c cs _ e (first_executable-Chosen is_executable cs))
]
  where
    taken : is_executable c ≡ true → first_executable is_executable (c ∷ cs) ≡ c
    taken e = rw e refl

    passed :
        is_executable c ≡ false
        → first_executable is_executable (c ∷ cs) ≡ first_executable is_executable cs
    passed e = rw e refl

-- For any environment and any test of files: the candidates are what the environment and the fixed
-- places offer, in the order of the offers, each path where it is offered first; and the binary is the
-- first of them that is executable, or no text where none is.
pub find_adb_binary-Chosen :
    (get_env : Bytes → Option Bytes) (is_executable : Bytes → Bool)
    → let candidates = adb_binary_candidates get_env in
      (candidates ≡ first_offers (offered get_env))
      × Chosen is_executable candidates (find_adb_binary get_env is_executable)
unfolding find_adb_binary adb_binary_candidates
find_adb_binary-Chosen get_env is_executable = (
  add_all-first_offers [] (offered get_env) ∙ unseen-nothing (first_offers (offered get_env)),
  first_executable-Chosen is_executable (add_all [] (offered get_env)),
)
