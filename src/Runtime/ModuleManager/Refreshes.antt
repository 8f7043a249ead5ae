-- ===== src/Runtime/ModuleManager/Refreshes.antt =====
-- Any number of refreshes of GTA_Module_Manager.cpp: what the status says of the registry, and what
-- the registered targets allow.
use devilz_den.Prelude.{
  ◌≡◌, refl, Bool, true, false, Option, none, some, map, arith, Bool-cases, inl, inr, codes,
}
use devilz_den.Prelude.Map.{has_value}
use devilz_den.Backend.Error.{Result, success, failure}
use devilz_den.Natives.Manager.{BuildInfo}
use devilz_den.Targets.Builds.{
  Verification, Profile, Registry, runtime_supported, find, is_known, apply_target_statuses,
}
use devilz_den.Targets.Resolver.{Environment}
use devilz_den.Targets.Coordinator.{TargetRegistry, Report, coordinate}
use devilz_den.Runtime.Detector.{ProcessInfo, detect}
use devilz_den.Runtime.ModuleManager.{
  ModuleState, not_running, detected, build_identified, runtime_unverified, unsupported, supported,
  runtime_ready, failed, ModuleStatus, ModuleManager, World, equal_insensitive, describe, conclude,
  apply_report, resolve_targets, identify, inspect, refresh,
}

-- A status with a profile: it is the registry's entry for the build, and whether it counts as
-- supported is as given.
pub record HasProfile (registry : Registry) (s : ModuleStatus) (verdict : Bool) : Type 0 where
  pub build : BuildInfo
  pub profile : Profile
  pub reported : has_value s.target_report ≡ true
  pub of_process : has_value s.process ≡ true
  pub of_build : s.build ≡ some build
  pub of_profile : s.profile ≡ some profile
  pub entry : find registry build.fingerprint ≡ some profile
  pub supports : runtime_supported profile ≡ verdict

-- A status that stops at a build that is not registered.
pub record HasUnknownBuild (registry : Registry) (s : ModuleStatus) : Type 0 where
  pub build : BuildInfo
  pub of_process : has_value s.process ≡ true
  pub of_build : s.build ≡ some build
  pub of_profile : s.profile ≡ none
  pub unregistered : is_known registry build.fingerprint ≡ false

-- What each state says of the other fields and of the registry.
abbrev pub SaysOf : Registry → ModuleStatus → ModuleState → Type 0
SaysOf registry s not_running =
    (s.process ≡ none) × (s.build ≡ none) × (s.profile ≡ none) × (s.target_report ≡ none)
SaysOf registry s detected = ⊥
SaysOf registry s build_identified = ⊥
SaysOf registry s runtime_unverified = HasProfile registry s false
SaysOf registry s unsupported = HasUnknownBuild registry s
SaysOf registry s supported = HasProfile registry s true
SaysOf registry s runtime_ready = ⊥
SaysOf registry s failed = s.profile ≡ none

abbrev pub IsCoherent : Registry → ModuleStatus → Type 0
IsCoherent registry s = SaysOf registry s s.state

conclude-IsCoherent :
    (registry : Registry) (p : ProcessInfo) (build : BuildInfo) (report : Report)
    (o : Option Profile)
    → find registry build.fingerprint ≡ o
    → IsCoherent registry (conclude p build report o)
unfolding conclude describe runtime_supported
conclude-IsCoherent registry p build report none e = refl
conclude-IsCoherent registry p build report (some profile) e = verified profile.verification refl
  where
    status : ModuleStatus
    status = conclude p build report (some profile)

    has :
        (verdict : Bool) → runtime_supported profile ≡ verdict → HasProfile registry status verdict
    has verdict q = record {
      build = build;
      profile = profile;
      reported = refl;
      of_process = refl;
      of_build = refl;
      of_profile = refl;
      entry = e;
      supports = q;
    }

    verified : (v : Verification) → profile.verification ≡ v → SaysOf registry status (describe v).0
    verified Verification.unknown q = has false (ground (arith, q))
    verified Verification.known q = has false (ground (arith, q))
    verified Verification.runtime_unverified q = has false (ground (arith, q))
    verified Verification.partially_verified q = has false (ground (arith, q))
    verified Verification.supported q = has true (ground (arith, q))

apply_report-IsCoherent :
    (p : ProcessInfo) (build : BuildInfo) (report : Report) (x : Registry × Bool)
    → IsCoherent (apply_report p build report x).0 (apply_report p build report x).1
unfolding apply_report
apply_report-IsCoherent p build report (registry, false) = refl
apply_report-IsCoherent p build report (registry, true) =
    conclude-IsCoherent registry p build report (find registry build.fingerprint) refl

resolve_targets-IsCoherent :
    (registry : Registry) (p : ProcessInfo) (build : BuildInfo) (r : Result Report)
    → IsCoherent (resolve_targets registry p build r).0 (resolve_targets registry p build r).1
unfolding resolve_targets
resolve_targets-IsCoherent registry p build (failure e) = refl
resolve_targets-IsCoherent registry p build (success report) =
    apply_report-IsCoherent p build report
      (apply_target_statuses registry build.fingerprint (map (λ r. r.status) report.targets))

identify-IsCoherent :
    (env : Environment) (registry : Registry) (targets : TargetRegistry) (p : ProcessInfo)
    (r : Result BuildInfo)
    → IsCoherent (identify env registry targets p r).0 (identify env registry targets p r).1
unfolding identify
identify-IsCoherent env registry targets p (failure e) = refl
identify-IsCoherent env registry targets p (success build) =
    elim (Bool-cases (is_known registry build.fingerprint)) [
      | inl h ↦ rw h (
          resolve_targets-IsCoherent registry p build
            (coordinate env targets p.pid build.fingerprint))
      | inr h ↦ rw h (record {
        build = build;
        of_process = refl;
        of_build = refl;
        of_profile = refl;
        unregistered = h;
      })
    ]

inspect-IsCoherent :
    (w : World) (registry : Registry) (targets : TargetRegistry) (r : Result ProcessInfo)
    → IsCoherent (inspect w registry targets r).0 (inspect w registry targets r).1
unfolding inspect
inspect-IsCoherent w registry targets (failure e) = refl
inspect-IsCoherent w registry targets (success p) =
    elim (Bool-cases (equal_insensitive p.executable_name (codes "GTA5_Enhanced.exe"))) [
      | inl h ↦ rw h (identify-IsCoherent w.environment registry targets p (detect w.image p))
      | inr h ↦ rw h (refl, refl, refl, refl)
    ]

-- `Refresh` always returns the status that it keeps, and its state is a true summary. It is never
-- one of the intermediate states; `Supported` says that the registry's entry of the build counts as
-- supported, `RuntimeUnverified` that it does not, `Unsupported` that the build is not registered,
-- and the other two states that there is no profile.
pub refresh-IsCoherent :
    (m : ModuleManager) (w : World)
    → IsCoherent (refresh m w).0.build_registry (refresh m w).0.status
      × ((refresh m w).1 ≡ success (refresh m w).0.status)
unfolding refresh
refresh-IsCoherent m w = (inspect-IsCoherent w m.build_registry m.targets w.current, refl)
