-- ===== src/Targets/Coordinator/Unsupported.antt =====
-- The registered target set against the build registry.
use devilz_den.Prelude.{
  some-inj, none-some, ℕ, ◌≡◌, refl, ap, sym, ◌∙◌, List, [], ◌∷◌, true, false, ◌||◌, arith, Option,
  none, some, inl, inr, Bool-cases, ◌==◌, All, map, codes, ℕ_discrete, ite, subst,
}
use devilz_den.Prelude.Map
use devilz_den.Prelude.Map.{find-insert_or_assign, find-insert_or_assign_self, insert_or_assign}
use devilz_den.Backend.Error.{Error, success, failure, >>=-eq-success, success-inj}
use devilz_den.Targets.Status.{TargetId, game_state, same_id, TargetStatus, TargetState}
use devilz_den.Targets.Evidence.{TargetDefinition, TargetSet}
use devilz_den.Targets.Validators.{supported_fingerprint}
use devilz_den.Targets.Builds.{
  new_registry, apply_status, apply_statuses, apply_target_statuses, is_supported, initial_targets,
  find, register, recalculate,
}
use devilz_den.Targets.Builds.Support.{IsMet, apply_reports, is_supported-apply_reports, Qualifies}
use devilz_den.Targets.Resolver.Verdict.{resolve-id}
use devilz_den.Targets.Resolver.{Environment, Resolution, unresolved, resolve}
use devilz_den.Targets.Coordinator.{
  resolve_set, resolve_all, coordinate, target_registry, Report, game_state_target, other_targets,
  builtin_targets, register_set,
}

-- Overwriting targets by statuses of other ids leaves the first target.
apply_statuses-head :
    (t : TargetStatus) (ts ss : List TargetStatus)
    → All (λ s. same_id t.id s.id ≡ false) ss
    → (us : List TargetStatus) × (apply_statuses (t ∷ ts) ss ≡ t ∷ us)
unfolding apply_statuses apply_status
apply_statuses-head t ts [] a = (ts, refl)
apply_statuses-head t ts (s ∷ ss) a =
    rw (a.0, apply_statuses) (apply_statuses-head t (apply_status ts s) ss a.1)

abbrev pub statuses : List Resolution → List TargetStatus
statuses rs = map (λ r. r.status) rs

pub resolve_all-others :
    (env : Environment) (pid fingerprint : ℕ) (id : TargetId) (ds : List TargetDefinition)
    (rs : List Resolution)
    → resolve_all env pid fingerprint ds ≡ success rs
    → All (λ d. same_id id d.id ≡ false) ds
    → All (λ s. same_id id s.id ≡ false) (statuses rs)
unfolding resolve_all
resolve_all-others env pid fingerprint id [] rs e a = rw (sym (success-inj e)) tt
resolve_all-others env pid fingerprint id (d ∷ ds) rs e a =
    let (first, f, g) = >>=-eq-success (resolve env pid fingerprint d) _ e in
    let (rest, h, k) = >>=-eq-success (resolve_all env pid fingerprint ds) _ g in
    rw (sym (success-inj k)) (
      rw (resolve-id env pid fingerprint d first f) a.0,
      resolve_all-others env pid fingerprint id ds rest h a.1,
    )

pub apply_statuses-overwritten :
    (t g : TargetStatus) (ts rest : List TargetStatus)
    → same_id t.id g.id ≡ true
    → All (λ s. same_id g.id s.id ≡ false) rest
    → (us : List TargetStatus) × (apply_statuses (t ∷ ts) (g ∷ rest) ≡ g ∷ us)
unfolding apply_statuses apply_status
apply_statuses-overwritten t g ts rest q a =
    rw (q, apply_statuses) (apply_statuses-head g ts rest a)

-- A target without a pattern stays unknown.
pub resolve_without_pattern :
    (env : Environment) (pid fingerprint : ℕ) (d : TargetDefinition)
    → d.pattern ≡ []
    → resolve env pid fingerprint d
      ≡ success
          (unresolved d TargetState.unknown "No verified pattern is registered for this target" [])
unfolding resolve
resolve_without_pattern env pid fingerprint d e = ground (arith, e)

-- The first target and the others of the registered set.
abbrev pub game_status : TargetStatus
game_status = record {
  id = game_state;
  state = TargetState.unknown;
  required = true;
  name = codes "GameState";
  detail = codes "No verified pattern is registered for this target";
}

pub other_targets-others : All (λ d. same_id game_state d.id ≡ false) other_targets
unfolding other_targets
other_targets-others = (refl, (refl, (refl, (refl, (refl, (refl, (refl, tt)))))))

builtin-statuses :
    (env : Environment) (pid fingerprint : ℕ) (rs : List Resolution)
    → resolve_all env pid fingerprint builtin_targets ≡ success rs
    → (us : List TargetStatus) × (apply_statuses initial_targets (statuses rs) ≡ game_status ∷ us)
unfolding resolve_all initial_targets
builtin-statuses env pid fingerprint rs e =
    let (first, f, g) = >>=-eq-success (resolve env pid fingerprint game_state_target) _ e in
    let (rest, h, k) = >>=-eq-success (resolve_all env pid fingerprint other_targets) _ g in
    let same =
      success-inj (sym (resolve_without_pattern env pid fingerprint game_state_target refl) ∙ f) in
    rw (sym (success-inj k), sym same)
      (apply_statuses-overwritten _ game_status _ (statuses rest) refl (
        resolve_all-others env pid fingerprint game_state other_targets rest h
          other_targets-others))

find-target_registry :
    (fingerprint : ℕ)
    → Map.find ℕ_discrete fingerprint target_registry
      ≡ ite
          (ℕ_discrete supported_fingerprint fingerprint)
          (some (record { fingerprint = supported_fingerprint; targets = builtin_targets }))
          none
unfolding target_registry register_set Map.find insert_or_assign
find-target_registry fingerprint = refl

resolve_set-found :
    (env : Environment) (pid fingerprint : ℕ) (report : Report) (o : Option TargetSet)
    → resolve_set env pid fingerprint o ≡ success report
    → (set : TargetSet) × (o ≡ some set)
      × (resolve_all env pid fingerprint set.targets ≡ success report.targets)
unfolding resolve_set
resolve_set-found env pid fingerprint report none e = cc
resolve_set-found env pid fingerprint report (some set) e =
    let (targets, f, g) = >>=-eq-success (resolve_all env pid fingerprint set.targets) _ e in
    (set, refl, f ∙ ap success (ap (λ r. r.targets) (success-inj g)))

pub coordinate-found :
    (env : Environment) (pid fingerprint : ℕ) (report : Report)
    → coordinate env target_registry pid fingerprint ≡ success report
    → (supported_fingerprint ≡ fingerprint)
      × (resolve_all env pid fingerprint builtin_targets ≡ success report.targets)
unfolding coordinate
coordinate-found env pid fingerprint report e = elim (Bool-cases (pid == 0 || fingerprint == 0)) [
  | inl q ↦ absurd (refused _ (rw q at e))
  | inr q ↦
      let (set, f, g) =
        resolve_set-found env pid fingerprint report
          (Map.find ℕ_discrete fingerprint target_registry) (rw q at e) in
      decided (ℕ_discrete supported_fingerprint fingerprint) set
        (sym (find-target_registry fingerprint) ∙ f) g
]
  where
    refused : (x : Error) → failure x ≡ success report → ⊥
    refused x h = cc

    builtin_set : TargetSet
    builtin_set = record { fingerprint = supported_fingerprint; targets = builtin_targets }

    decided :
        (d : Dec (supported_fingerprint ≡ fingerprint)) (set : TargetSet)
        → ite d (some builtin_set) none ≡ some set
        → resolve_all env pid fingerprint set.targets ≡ success report.targets
        → (supported_fingerprint ≡ fingerprint)
          × (resolve_all env pid fingerprint builtin_targets ≡ success report.targets)
    decided (yes p) set f g = (p, rw (sym (some-inj f)) at g)
    decided (no p) set f g = absurd (none-some f)

-- The targets of the registered build after one report.
reported :
    (ss us : List TargetStatus)
    → apply_statuses initial_targets ss ≡ game_status ∷ us
    → Qualifies
        (find (apply_reports new_registry ((supported_fingerprint, ss) ∷ [])) supported_fingerprint)
    → ⊥
unfolding apply_reports apply_target_statuses new_registry register Map.find insert_or_assign
    recalculate ℕ_discrete
reported ss us e (required, met) = unmet (subst (All IsMet) e met)
  where
    refuted : false ≡ true → ⊥
    refuted h = cc

    unmet : All IsMet (game_status ∷ us) → ⊥
    unmet m = refuted (m.0 refl)

-- Whatever the process looks like, a build is never supported after the report that the registered
-- target set gives has been applied to the registry: no pattern is registered for `GameState`,
-- which is a required target.
coordinate-unsupported :
    (env : Environment) (pid fingerprint : ℕ) (report : Report)
    → coordinate env target_registry pid fingerprint ≡ success report
    → is_supported
        (apply_target_statuses new_registry fingerprint (statuses report.targets)).0
        fingerprint
      ≡ false
unfolding apply_reports
coordinate-unsupported env pid fingerprint report e =
    let (known, resolved) = coordinate-found env pid fingerprint report e in
    let (us, overwritten) = builtin-statuses env pid fingerprint report.targets resolved in
    let reports = (fingerprint, statuses report.targets) ∷ [] in
    elim (Bool-cases (is_supported (apply_reports new_registry reports) fingerprint)) [
      | inl q ↦ absurd (
          reported (statuses report.targets) us overwritten (
            subst
              (λ f.
                Qualifies (find (apply_reports new_registry ((f, statuses report.targets) ∷ [])) f))
              (sym known) ((is_supported-apply_reports reports fingerprint).0 q)))
      | inr q ↦ q
    ]
