-- ===== src/Runtime/ModuleManager.antt =====
-- src/Integrations/GTA5_Enhanced/GTA_Module_Manager.hpp and GTA_Module_Manager.cpp: one refresh looks at the
-- host process, its build and the targets of the build, and keeps what it found. The process that
-- `Process_Manager::Current` reports, the image that the detector reads and the environment of the
-- resolver are the world of a refresh.
pub mod Refreshes
pub mod Unverified
use devilz_den.Prelude.{
  ℕ, ◌+◌, List, [], ◌∷◌, ◌++◌, Bool, true, false, not, ◌&&◌, Option, none, some, ◌==◌, leb,
  if◌then◌else◌, length, map, Text, codes,
}
use devilz_den.Prelude.Map
use devilz_den.Backend.Error.{Result, success, failure}
use devilz_den.Natives.Manager.{BuildInfo}
use devilz_den.Targets.Status.{TargetStatus}
use devilz_den.Targets.Builds.{
  Verification, Profile, Registry, new_registry, apply_target_statuses, find, is_known,
}
use devilz_den.Targets.Resolver.{Environment}
use devilz_den.Targets.Coordinator.{TargetRegistry, target_registry, Report, coordinate}
use devilz_den.Runtime.Detector.{ProcessInfo, ImageSystem, detect}

pub data ModuleState : Type 0 where
  not_running detected build_identified runtime_unverified unsupported : ModuleState
  supported runtime_ready failed : ModuleState

pub record ModuleStatus : Type 0 where
  pub state : ModuleState
  pub process : Option ProcessInfo
  pub build : Option BuildInfo
  pub profile : Option Profile
  pub target_report : Option Report
  pub detail : Text

-- `GTA_Module_Manager`: its build registry, the target registry of its coordinator and its status.
pub record ModuleManager : Type 0 where
  pub build_registry : Registry
  pub targets : TargetRegistry
  pub status : ModuleStatus

abbrev pub no_status : ModuleStatus
no_status = record {
  state = not_running;
  process = none;
  build = none;
  profile = none;
  target_report = none;
  detail = [];
}

abbrev pub new_module_manager : ModuleManager
new_module_manager = record {
  build_registry = new_registry;
  targets = target_registry;
  status = no_status;
}

pub record World : Type 0 where
  pub current : Result ProcessInfo
  pub image : ImageSystem
  pub environment : Environment

-- `std::tolower` in the "C" locale, and `EqualInsensitive`.
abbrev pub to_lower : ℕ → ℕ
to_lower c = if leb 65 c && leb c 90 then c + 32 else c

unfoldable pub equal_insensitive : Text → Text → Bool
equal_insensitive [] [] = true
equal_insensitive [] (d ∷ ds) = false
equal_insensitive (c ∷ cs) [] = false
equal_insensitive (c ∷ cs) (d ∷ ds) = to_lower c == to_lower d && equal_insensitive cs ds

-- The state and the text of the last `switch`.
unfoldable pub describe : Verification → ModuleState × Text
describe Verification.supported =
    (supported, codes "All required GTA runtime targets are semantically validated")
describe Verification.partially_verified = (
  ModuleState.runtime_unverified,
  codes
      "Some GTA runtime targets are located or structurally validated; semantic verification is still pending",
)
describe Verification.known = (
  ModuleState.runtime_unverified,
  codes "Build is known; required GTA runtime targets are not yet verified",
)
describe Verification.unknown = (
  ModuleState.runtime_unverified,
  codes "Build is known; required GTA runtime targets are not yet verified",
)
describe Verification.runtime_unverified = (
  ModuleState.runtime_unverified,
  codes "Build is known; required GTA runtime targets are not yet verified",
)

-- From the profile on that the registry gives after the statuses have been applied.
unfoldable pub conclude : ProcessInfo → BuildInfo → Report → Option Profile → ModuleStatus
unfolding describe
conclude p build report none = record {
  state = failed;
  process = some p;
  build = some build;
  profile = none;
  target_report = some report;
  detail = codes "GTA build profile disappeared after runtime target discovery";
}
conclude p build report (some profile) = record {
  state = (describe profile.verification).0;
  process = some p;
  build = some build;
  profile = some profile;
  target_report = some report;
  detail = (describe profile.verification).1;
}

-- From the result of `ApplyTargetStatuses` on.
unfoldable pub apply_report :
    ProcessInfo → BuildInfo → Report → Registry × Bool → Registry × ModuleStatus
unfolding conclude
apply_report p build report (registry, false) = (
  registry,
  record {
    state = failed;
    process = some p;
    build = some build;
    profile = none;
    target_report = some report;
    detail = codes "Unable to apply runtime target results to the GTA build profile";
  },
)
apply_report p build report (registry, true) =
    (registry, conclude p build report (find registry build.fingerprint))

-- From the result of the coordinator on.
unfoldable pub resolve_targets :
    Registry → ProcessInfo → BuildInfo → Result Report → Registry × ModuleStatus
unfolding apply_report
resolve_targets registry p build (failure e) = (
  registry,
  record {
    state = failed;
    process = some p;
    build = some build;
    profile = none;
    target_report = none;
    detail = codes "Runtime target discovery failed: " ++ codes e.message;
  },
)
resolve_targets registry p build (success report) =
    apply_report p build report
      (apply_target_statuses registry build.fingerprint (map (λ r. r.status) report.targets))

-- From the detected build on.
unfoldable pub identify :
    Environment
    → Registry
    → TargetRegistry
    → ProcessInfo
    → Result BuildInfo
    → Registry × ModuleStatus
unfolding resolve_targets
identify env registry targets p (failure e) = (
  registry,
  record {
    state = failed;
    process = some p;
    build = none;
    profile = none;
    target_report = none;
    detail = codes e.message;
  },
)
identify env registry targets p (success build) =
    if not (is_known registry build.fingerprint)
    then (
      registry,
      record {
        state = unsupported;
        process = some p;
        build = some build;
        profile = none;
        target_report = none;
        detail = codes "GTA Enhanced build is not registered";
      },
    )
    else resolve_targets registry p build (coordinate env targets p.pid build.fingerprint)

-- From the current process on.
unfoldable pub inspect :
    World → Registry → TargetRegistry → Result ProcessInfo → Registry × ModuleStatus
unfolding identify equal_insensitive
inspect w registry targets (failure e) = (
  registry,
  record {
    state = failed;
    process = none;
    build = none;
    profile = none;
    target_report = none;
    detail = codes "Unable to inspect the current host process: " ++ codes e.message;
  },
)
inspect w registry targets (success p) =
    if not (equal_insensitive p.executable_name (codes "GTA5_Enhanced.exe"))
    then (
      registry,
      record {
        state = not_running;
        process = none;
        build = none;
        profile = none;
        target_report = none;
        detail =
            codes "Devilz_Den is not loaded inside GTA5_Enhanced.exe; current host is "
            ++ p.executable_name;
      },
    )
    else identify w.environment registry targets p (detect w.image p)

-- `GTA_Module_Manager::Refresh`, which returns the status that it keeps, and `Snapshot`.
unfoldable pub refresh : ModuleManager → World → ModuleManager × Result ModuleStatus
unfolding inspect
refresh m w =
    let (registry, status) = inspect w m.build_registry m.targets w.current in
    (record { build_registry = registry; targets = m.targets; status = status }, success status)

unfoldable pub snapshot : ModuleManager → ModuleStatus
snapshot m = m.status
