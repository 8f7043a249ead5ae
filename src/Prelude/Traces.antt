-- ===== src/Prelude/Traces.antt =====
-- State machines given by a partial step: the runs over a sequence of events, and the invariants
-- that the steps keep.
use mathlib.Core.Path.{◌≡◌}
use mathlib.Core.List.{List, [], ◌∷◌}
use mathlib.Core.Option.{Option, some}
use mathlib.Core.Path.{subst}
use devilz_den.Prelude.Tests.{and_then, and_then-eq-some, some-inj}

module _ {ℓ} {S E : Type ℓ} (step : S → E → Option S) where
  -- `none` where an event of the sequence cannot happen.
  unfoldable pub run : S → List E → Option S
  run s [] = some s
  run s (e ∷ es) = and_then (step s e) (λ t. run t es)

  pub run-invariant {κ} :
      (P : S → Type κ)
      → ((s t : S) (e : E) → P s → step s e ≡ some t → P t)
      → (s t : S) (es : List E) → P s
      → run s es ≡ some t
      → P t
  unfolding run
  run-invariant P keep s t [] p h = subst P (some-inj h) p
  run-invariant P keep s t (e ∷ es) p h =
      let (u, n, m) = and_then-eq-some (step s e) (λ x. run x es) h in
      run-invariant P keep u t es (keep s u e p n) m
