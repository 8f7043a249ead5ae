-- ===== src/Runtime/ModuleManager/Unverified.antt =====
-- The verdict of GTA_Module_Manager.cpp over any number of refreshes with the registered targets.
use devilz_den.Prelude.{
  ℕ, ◌≡◌, ◌≢◌, refl, sym, ap, ◌∙◌, subst, List, [], ◌∷◌, Bool, true, false, none, some, arith,
  Bool-cases, Option-cases, inl, inr, ◌⊎◌, some-inj, none-some, All, codes, ℕ_discrete, ite,
}
use devilz_den.Prelude.Map
use devilz_den.Prelude.Map.{has_value, find-insert_or_assign, insert_or_assign, find-nil}
use devilz_den.Backend.Error.{Result, success, failure, >>=-eq-success, success-inj}
use devilz_den.Natives.Manager.{BuildInfo}
use devilz_den.Targets.Status.{game_state, same_id, TargetStatus, is_validated}
use devilz_den.Targets.Builds.{
  Profile, Registry, runtime_supported, find, is_known, apply_target_statuses, apply_statuses,
  new_registry, recalculate, register, initial_targets, unknown,
}
use devilz_den.Targets.Builds.Support.{
  IsMet, IsValid, verification_of-supported, new_registry-IsValid, apply_target_statuses-IsValid,
}
use devilz_den.Targets.Validators.{supported_fingerprint}
use devilz_den.Targets.Resolver.{Environment, Resolution, resolve}
use devilz_den.Targets.Coordinator.{
  target_registry, Report, coordinate, resolve_all, game_state_target, other_targets,
  builtin_targets,
}
use devilz_den.Targets.Coordinator.Unsupported.{
  statuses, coordinate-found, apply_statuses-overwritten, resolve_without_pattern,
  resolve_all-others, other_targets-others, game_status,
}
use devilz_den.Runtime.Detector.{ProcessInfo, detect}
use devilz_den.Runtime.ModuleManager.{
  supported, ModuleManager, World, new_module_manager, equal_insensitive, apply_report,
  resolve_targets, identify, inspect, refresh,
}
use devilz_den.Runtime.ModuleManager.Refreshes.{SaysOf, refresh-IsCoherent}

-- The first target of a build is `GameState`, which is required, and it is not validated.
record IsUnmet (ts : List TargetStatus) : Type 0 where
  first : TargetStatus
  rest : List TargetStatus
  split : ts ≡ first ∷ rest
  is_game_state : same_id first.id game_state ≡ true
  required : first.required ≡ true
  unvalidated : is_validated first.state ≡ false

-- Every build of a registry is so.
abbrev AllUnmet : Registry → Type 0
AllUnmet r = (f : ℕ) (p : Profile) → Map.find ℕ_discrete f r ≡ some p → IsUnmet p.targets

resolve_all-IsUnmet :
    (env : Environment) (pid fingerprint : ℕ) (rs : List Resolution) (ts : List TargetStatus)
    → resolve_all env pid fingerprint builtin_targets ≡ success rs
    → IsUnmet ts
    → IsUnmet (apply_statuses ts (statuses rs))
unfolding resolve_all
resolve_all-IsUnmet env pid fingerprint rs ts e u =
    let (first, f, g) = >>=-eq-success (resolve env pid fingerprint game_state_target) _ e in
    let (rest, h, k) = >>=-eq-success (resolve_all env pid fingerprint other_targets) _ g in
    let same =
      success-inj (sym (resolve_without_pattern env pid fingerprint game_state_target refl) ∙ f) in
    let (us, over) =
      apply_statuses-overwritten u.first game_status u.rest (statuses rest) u.is_game_state (
        resolve_all-others env pid fingerprint game_state other_targets rest h
          other_targets-others) in
    record {
      first = game_status;
      rest = us;
      split = rw (u.split, sym (success-inj k), sym same) over;
      is_game_state = refl;
      required = refl;
      unvalidated = refl;
    }

-- An entry after a report is an old one or the one that the report is applied to.
find-apply_target_statuses :
    (r : Registry) (fingerprint : ℕ) (ss : List TargetStatus) (f : ℕ) (q : Profile)
    → Map.find ℕ_discrete f (apply_target_statuses r fingerprint ss).0 ≡ some q
    → (Map.find ℕ_discrete f r ≡ some q)
      ⊎ ((p : Profile) × (Map.find ℕ_discrete fingerprint r ≡ some p)
          × (q.targets ≡ apply_statuses p.targets ss))
unfolding apply_target_statuses recalculate
find-apply_target_statuses r fingerprint ss f q e =
    elim (Option-cases (Map.find ℕ_discrete fingerprint r)) [
      | inl n ↦ inl (ground (arith, n, e))
      | inr (p, n) ↦
          entry p n (ℕ_discrete fingerprint f)
            (sym (find-insert_or_assign ℕ_discrete f fingerprint (updated p) r) ∙ changed p n)
    ]
  where
    updated : Profile → Profile
    updated p = recalculate (record {
      fingerprint = p.fingerprint;
      label = p.label;
      verification = p.verification;
      targets = apply_statuses p.targets ss;
    })

    changed :
        (p : Profile)
        → Map.find ℕ_discrete fingerprint r ≡ some p
        → Map.find ℕ_discrete f (insert_or_assign ℕ_discrete fingerprint (updated p) r) ≡ some q
    changed p n = ground (arith, n, e)

    entry :
        (p : Profile)
        → Map.find ℕ_discrete fingerprint r ≡ some p
        → (d : Dec (fingerprint ≡ f)) → ite d (some (updated p)) (Map.find ℕ_discrete f r) ≡ some q
        → (Map.find ℕ_discrete f r ≡ some q)
          ⊎ ((p : Profile) × (Map.find ℕ_discrete fingerprint r ≡ some p)
              × (q.targets ≡ apply_statuses p.targets ss))
    entry p n (yes d) h = inr (p, n, ap (λ x. x.targets) (sym (some-inj h)))
    entry p n (no d) h = inl h

apply_target_statuses-AllUnmet :
    (r : Registry) (fingerprint : ℕ) (ss : List TargetStatus)
    → ((ts : List TargetStatus) → IsUnmet ts → IsUnmet (apply_statuses ts ss))
    → AllUnmet r
    → AllUnmet (apply_target_statuses r fingerprint ss).0
apply_target_statuses-AllUnmet r fingerprint ss step a f q e =
    elim (find-apply_target_statuses r fingerprint ss f q e) [
      | inl h ↦ a f q h
      | inr (p, h, k) ↦ rw k (step p.targets (a fingerprint p h))
    ]

new_registry-AllUnmet : AllUnmet new_registry
unfolding new_registry register recalculate insert_or_assign initial_targets Map.find ℕ_discrete
new_registry-AllUnmet f p e = entry (ℕ_discrete supported_fingerprint f) e
  where
    registered : Profile
    registered = recalculate (record {
      fingerprint = supported_fingerprint;
      label = codes "PE-1783601142-95948800";
      verification = unknown;
      targets = initial_targets;
    })

    entry :
        (d : Dec (supported_fingerprint ≡ f))
        → ite d (some registered) none ≡ some p
        → IsUnmet p.targets
    entry (yes d) h = rw (sym (some-inj h)) (record {
      first = _;
      rest = _;
      split = refl;
      is_game_state = refl;
      required = refl;
      unvalidated = refl;
    })
    entry (no d) h = absurd (none-some h)

-- A registry that refreshes keep.
record IsUnverified (r : Registry) : Type 0 where
  unmet : AllUnmet r
  valid : IsValid r

apply_report-registry :
    (p : ProcessInfo) (build : BuildInfo) (report : Report) (x : Registry × Bool)
    → (apply_report p build report x).0 ≡ x.0
unfolding apply_report
apply_report-registry p build report (registry, false) = refl
apply_report-registry p build report (registry, true) = refl

resolve_targets-IsUnverified :
    (env : Environment) (registry : Registry) (p : ProcessInfo) (build : BuildInfo)
    (r : Result Report)
    → coordinate env target_registry p.pid build.fingerprint ≡ r
    → IsUnverified registry
    → IsUnverified (resolve_targets registry p build r).0
unfolding resolve_targets
resolve_targets-IsUnverified env registry p build (failure x) e u = u
resolve_targets-IsUnverified env registry p build (success report) e u =
    let (known, resolved) = coordinate-found env p.pid build.fingerprint report e in
    let ss = statuses report.targets in
    rw (apply_report-registry p build report (apply_target_statuses registry build.fingerprint ss))
      (record {
        unmet =
            apply_target_statuses-AllUnmet registry build.fingerprint ss
              (λ ts k. resolve_all-IsUnmet env p.pid build.fingerprint report.targets ts resolved k)
              u.unmet;
        valid = apply_target_statuses-IsValid registry build.fingerprint ss u.valid;
      })

identify-IsUnverified :
    (env : Environment) (registry : Registry) (p : ProcessInfo) (r : Result BuildInfo)
    → IsUnverified registry
    → IsUnverified (identify env registry target_registry p r).0
unfolding identify
identify-IsUnverified env registry p (failure x) u = u
identify-IsUnverified env registry p (success build) u =
    elim (Bool-cases (is_known registry build.fingerprint)) [
      | inl h ↦ rw h (
          resolve_targets-IsUnverified env registry p build
            (coordinate env target_registry p.pid build.fingerprint) refl u)
      | inr h ↦ rw h u
    ]

inspect-IsUnverified :
    (w : World) (registry : Registry) (r : Result ProcessInfo)
    → IsUnverified registry
    → IsUnverified (inspect w registry target_registry r).0
unfolding inspect
inspect-IsUnverified w registry (failure x) u = u
inspect-IsUnverified w registry (success p) u =
    elim (Bool-cases (equal_insensitive p.executable_name (codes "GTA5_Enhanced.exe"))) [
      | inl h ↦ rw h (identify-IsUnverified w.environment registry p (detect w.image p) u)
      | inr h ↦ rw h u
    ]

-- Any number of refreshes, each in a world of its own.
unfoldable pub refresh_all : ModuleManager → List World → ModuleManager
refresh_all m [] = m
refresh_all m (w ∷ ws) = refresh_all (refresh m w).0 ws

-- A module manager as the refreshes leave it.
record IsKept (m : ModuleManager) : Type 0 where
  registry : IsUnverified m.build_registry
  builtin : m.targets ≡ target_registry

refresh-IsKept : (m : ModuleManager) (w : World) → IsKept m → IsKept (refresh m w).0
unfolding refresh
refresh-IsKept m w k = record {
  registry = rw k.builtin (inspect-IsUnverified w m.build_registry w.current k.registry);
  builtin = k.builtin;
}

refresh_all-IsKept : (m : ModuleManager) (ws : List World) → IsKept m → IsKept (refresh_all m ws)
unfolding refresh_all
refresh_all-IsKept m [] k = k
refresh_all-IsKept m (w ∷ ws) k = refresh_all-IsKept (refresh m w).0 ws (refresh-IsKept m w k)

-- An unverified registry has no supported build.
IsUnverified-unsupported :
    (r : Registry) (f : ℕ) (p : Profile)
    → IsUnverified r
    → find r f ≡ some p
    → runtime_supported p ≡ true
    → ⊥
IsUnverified-unsupported r f p u e q =
    let unmet = u.unmet f p e in
    let (required, met) = (verification_of-supported p (u.valid f p e).recalculated).0 q in
    let first = (subst (All IsMet) unmet.split met).0 unmet.required in
    apart (sym unmet.unvalidated ∙ first)
  where
    apart : false ≡ true → ⊥
    apart e = cc

-- However often a new manager is refreshed, and whatever the process, its image and its memory are
-- each time, its status is never `Supported`: no pattern is registered for `GameState`, which is a
-- required target of the one registered build.
pub refresh-unsupported :
    (ws : List World) (w : World)
    → (refresh (refresh_all new_module_manager ws) w).0.status.state ≢ supported
refresh-unsupported ws w e =
    let m = refresh_all new_module_manager ws in
    let start : IsKept new_module_manager = record {
      registry = record { unmet = new_registry-AllUnmet; valid = new_registry-IsValid };
      builtin = refl;
    } in
    let kept = refresh-IsKept m w (refresh_all-IsKept new_module_manager ws start) in
    let profile =
      subst (SaysOf (refresh m w).0.build_registry (refresh m w).0.status) e
        (refresh-IsCoherent m w).0 in
    IsUnverified-unsupported (refresh m w).0.build_registry profile.build.fingerprint
      profile.profile kept.registry profile.entry profile.supports
