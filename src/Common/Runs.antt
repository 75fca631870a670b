-- ===== src/Common/Runs.antt =====
-- Runs of a state machine: events one after another, as long as each is possible.
use Prim.Native.Nat.{ℕ, ◌+◌, ◌≤◌}
use mathlib.Core.Path.{◌≡◌, refl}
use mathlib.Core.Logic.{inl, inr}
use mathlib.Core.Option.{Option, none, some, some-injective}
use mathlib.Core.List.{List, [], ◌∷◌, ◌++◌}
use native.Mathlib.Omega.{arith}
use advanced_flex_server.Common.Logic.{Option-cases}
use advanced_flex_server.Common.Lists.{length}

module _ {E S : Type 0} (step : E → S → Option S) where
  -- `none`: some event was not possible where it came.
  unfoldable pub run_all : List E → S → Option S
  run_all [] s = some s
  run_all (e ∷ es) s = elim (step e s) [ none ↦ none | some s' ↦ run_all es s' ]

  pub run_all-step :
      (e : E) (es : List E) (s s' : S) → step e s ≡ some s' → run_all (e ∷ es) s ≡ run_all es s'
  unfolding run_all
  run_all-step e es s s' h = rw (h, run_all) refl

  -- The first step of a run, and the rest.
  pub run_all-split :
      (e : E) (es : List E) (s t : S)
      → run_all (e ∷ es) s ≡ some t
      → (s' : S) × (step e s ≡ some s') × (run_all es s' ≡ some t)
  unfolding run_all
  run_all-split e es s t h = elim (Option-cases (step e s)) [
    | inl missing ↦ ground (arith, missing)
    | inr (s', found) ↦ (s', found, rw (found, run_all) at h)
  ]

  pub run_all-snoc :
      (es : List E) (e : E) (s t u : S)
      → run_all es s ≡ some t
      → step e t ≡ some u
      → run_all (es ++ e ∷ []) s ≡ some u
  unfolding run_all
  run_all-snoc [] e s t u h k =
      let same : s ≡ t = some-injective _ _ h in rw same (run_all-step e [] t u k)
  run_all-snoc (x ∷ es) e s t u h k =
      let (s', found, rest) = run_all-split x es s t h in
      rw (found, run_all) (run_all-snoc es e s' t u rest k)

  -- What each step keeps, a run keeps.
  pub run_all-keeps :
      (P : S → Type 0)
      → ((e : E) (s s' : S) → P s → step e s ≡ some s' → P s')
      → (es : List E) (s t : S) → P s
      → run_all es s ≡ some t
      → P t
  unfolding run_all
  run_all-keeps P keep [] s t p h = let same : s ≡ t = some-injective _ _ h in rw (← same) p
  run_all-keeps P keep (e ∷ es) s t p h =
      let (s', found, rest) = run_all-split e es s t h in
      run_all-keeps P keep es s' t (keep e s s' p found) rest

  -- A number that each step lessens bounds the length of a run.
  pub run_all-length :
      (P : S → Type 0) (measure : S → ℕ)
      → ((e : E) (s s' : S) → P s → step e s ≡ some s' → P s' × (measure s' + 1 ≤ measure s))
      → (es : List E) (s t : S) → P s
      → run_all es s ≡ some t
      → length es + measure t ≤ measure s
  unfolding run_all
  run_all-length P measure less [] s t p h =
      let same : s ≡ t = some-injective _ _ h in rw same (omega arith)
  run_all-length P measure less (e ∷ es) s t p h =
      let (s', found, rest) = run_all-split e es s t h in
      let (p', fall) = less e s s' p found in
      omega (arith, fall, run_all-length P measure less es s' t p' rest)
