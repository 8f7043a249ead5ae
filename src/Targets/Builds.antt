-- ===== src/Targets/Builds.antt =====
-- Runtime/GTA_Build_Registry.hpp and GTA_Build_Registry.cpp: the known builds and how far the
-- targets of each have been verified.
pub mod Support
use devilz_den.Prelude.{
  ℕ, List, [], ◌∷◌, Bool, true, false, not, ◌&&◌, ◌||◌, Option, none, some, ◌==◌, if◌then◌else◌,
  Text, String, codes, count_if, ℕ_discrete,
}
use devilz_den.Prelude.Map
use devilz_den.Prelude.Map.{Map, insert_or_assign}
use devilz_den.Targets.Status.{
  TargetId, game_state, frame_count, script_globals, program_table, script_threads,
  run_script_threads, init_native_tables, native_table, same_id, TargetStatus, is_located,
  is_validated, TargetState,
}
use devilz_den.Targets.Validators.{supported_fingerprint}

pub data Verification : Type 0 where
  unknown known runtime_unverified partially_verified supported : Verification

pub record Profile : Type 0 where
  pub fingerprint : ℕ
  pub label : Text
  pub verification : Verification
  pub targets : List TargetStatus

-- `GTA_Build_Profile::RuntimeSupported`.
unfoldable pub runtime_supported : Profile → Bool
runtime_supported p = elim p.verification [
  | unknown ↦ false
  | known ↦ false
  | runtime_unverified ↦ false
  | partially_verified ↦ false
  | supported ↦ true
]

-- `RequiredTargetCount`, `LocatedRequiredTargetCount` and `ValidatedRequiredTargetCount`.
unfoldable pub required_count : List TargetStatus → ℕ
required_count ts = count_if (λ t. t.required) ts

unfoldable pub located_required_count : List TargetStatus → ℕ
located_required_count ts = count_if (λ t. t.required && is_located t.state) ts

unfoldable pub validated_required_count : List TargetStatus → ℕ
validated_required_count ts = count_if (λ t. t.required && is_validated t.state) ts

-- `GTA_Build_Profile::AllRequiredTargetsValidated`.
unfoldable pub all_required_validated : Profile → Bool
unfolding required_count validated_required_count
all_required_validated p =
    not (required_count p.targets == 0)
    && validated_required_count p.targets == required_count p.targets

-- `GTA_Build_Registry::RecalculateVerification`.
unfoldable pub verification_of : List TargetStatus → Verification
unfolding required_count located_required_count validated_required_count
verification_of ts =
    if required_count ts == 0
    then known
    else if validated_required_count ts == required_count ts
    then supported
    else if not (located_required_count ts == 0) || not (validated_required_count ts == 0)
    then partially_verified
    else runtime_unverified

unfoldable pub recalculate : Profile → Profile
unfolding verification_of
recalculate p = record {
  fingerprint = p.fingerprint;
  label = p.label;
  verification = verification_of p.targets;
  targets = p.targets;
}

abbrev pub Registry : Type 0
Registry = Map ℕ Profile

-- `GTA_Build_Registry::Register`.
unfoldable pub register : Registry → Profile → Registry
unfolding recalculate
register r p =
    if p.fingerprint == 0 then r else insert_or_assign ℕ_discrete p.fingerprint (recalculate p) r

-- The statuses of the one build that the constructor registers.
abbrev waiting : TargetId → String → TargetStatus
waiting id name = record {
  id = id;
  state = TargetState.unknown;
  required = true;
  name = codes name;
  detail = codes "Awaiting verified locator";
}

abbrev optional_target : TargetId → String → String → TargetStatus
optional_target id name detail = record {
  id = id;
  state = TargetState.unknown;
  required = false;
  name = codes name;
  detail = codes detail;
}

unfoldable pub initial_targets : List TargetStatus
initial_targets =
    waiting game_state "GameState"
    ∷ waiting frame_count "FrameCount"
    ∷ waiting script_globals "ScriptGlobals"
    ∷ waiting program_table "ProgramTable"
    ∷ waiting script_threads "ScriptThreads"
    ∷ optional_target run_script_threads "RunScriptThreads"
        "Optional game-thread execution locator; semantic validation pending"
    ∷ waiting init_native_tables "InitNativeTables"
    ∷ optional_target native_table "NativeTable"
        "Standalone native table is not required by the Enhanced bootstrap path"
    ∷ []

-- `GTA_Build_Registry::GTA_Build_Registry`.
unfoldable pub new_registry : Registry
unfolding register initial_targets
new_registry = register [] (record {
  fingerprint = supported_fingerprint;
  label = codes "PE-1783601142-95948800";
  verification = unknown;
  targets = initial_targets;
})

-- The first target with the id of the incoming status is overwritten.
unfoldable pub apply_status : List TargetStatus → TargetStatus → List TargetStatus
apply_status [] incoming = []
apply_status (t ∷ ts) incoming =
    if same_id t.id incoming.id then incoming ∷ ts else t ∷ apply_status ts incoming

unfoldable pub apply_statuses : List TargetStatus → List TargetStatus → List TargetStatus
apply_statuses targets [] = targets
apply_statuses targets (s ∷ ss) = apply_statuses (apply_status targets s) ss

-- `GTA_Build_Registry::ApplyTargetStatuses`.
unfoldable pub apply_target_statuses : Registry → ℕ → List TargetStatus → Registry × Bool
unfolding apply_statuses recalculate
apply_target_statuses r fingerprint statuses = elim (Map.find ℕ_discrete fingerprint r) [
  | none ↦ (r, false)
  | some p ↦ (
    insert_or_assign ℕ_discrete fingerprint
        (recalculate (record {
          fingerprint = p.fingerprint;
          label = p.label;
          verification = p.verification;
          targets = apply_statuses p.targets statuses;
        }))
        r,
    true,
  )
]

-- `GTA_Build_Registry::Find`, `Known` and `Supported`.
abbrev pub find : Registry → ℕ → Option Profile
find r fingerprint = Map.find ℕ_discrete fingerprint r

abbrev pub is_known : Registry → ℕ → Bool
is_known r fingerprint = Map.contains ℕ_discrete fingerprint r

unfoldable pub is_supported : Registry → ℕ → Bool
unfolding runtime_supported
is_supported r fingerprint = elim (Map.find ℕ_discrete fingerprint r) [
  | none ↦ false
  | some p ↦ runtime_supported p
]
