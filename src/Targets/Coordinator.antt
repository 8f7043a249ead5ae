-- ===== src/Targets/Coordinator.antt =====
-- Memory/GTA_Build_Target_Registry.cpp and GTA_Build_Target_Coordinator.cpp: the targets of a build, and
-- the resolution of all of them.
pub mod Unsupported
use devilz_den.Prelude.{
  ℕ, List, [], ◌∷◌, Bool, true, false, ◌||◌, Option, none, some, ◌==◌, if◌then◌else◌, codes, String,
  count_if, ℕ_discrete,
}
use devilz_den.Prelude.Int.{pos, negsuc}
use devilz_den.Prelude.Map
use devilz_den.Prelude.Map.{Map, insert_or_assign}
use devilz_den.Backend.Error.{Result, success, failure, make_error, ErrorCode, ErrorCategory, ◌>>=◌}
use devilz_den.Targets.Status.{
  TargetId, game_state, frame_count, script_globals, program_table, script_threads,
  run_script_threads, init_native_tables, native_table, is_located, is_validated,
}
use devilz_den.Targets.Address.{ResolveOp, add, rip_relative32}
use devilz_den.Targets.Evidence.{
  CandidateKind, direct_data, pointer_storage, code_site, TargetDefinition, TargetSet,
}
use devilz_den.Targets.Validators.{supported_fingerprint}
use devilz_den.Targets.Resolver.{Environment, Resolution, resolve}

-- The targets that `GTA_Build_Target_Registry` registers.
abbrev game_target :
    TargetId → String → String → List ResolveOp → Bool → CandidateKind → TargetDefinition
game_target id name pattern chain required kind = record {
  id = id;
  name = codes name;
  module_name = codes "GTA5_Enhanced.exe";
  pattern = codes pattern;
  resolve = chain;
  required = required;
  candidate_kind = kind;
}

abbrev pub game_state_target : TargetDefinition
game_state_target = game_target game_state "GameState" "" [] true CandidateKind.unknown

unfoldable pub other_targets : List TargetDefinition
other_targets =
    game_target frame_count "FrameCount" "" [] true CandidateKind.unknown
    ∷ game_target script_globals "ScriptGlobals" "48 8B 8E B8 00 00 00 48 8D 15 ? ? ? ? 49 89 D8"
        (add (pos 7) ∷ rip_relative32 (pos 3) ∷ []) true direct_data
    ∷ game_target program_table "ProgramTable" "48 C7 84 C8 D8 00 00 00 00 00 00 00" [] true
        code_site
    ∷ game_target script_threads "ScriptThreads"
        "48 8B 05 ? ? ? ? 48 89 34 F8 48 FF C7 48 39 FB 75 97" (rip_relative32 (pos 3) ∷ []) true
        pointer_storage
    ∷ game_target run_script_threads "RunScriptThreads" "BE 40 5D C6 00" (add (negsuc 9) ∷ []) false
        code_site
    ∷ game_target init_native_tables "InitNativeTables" "EB 2A 0F 1F 40 00 48 8B 54 17 10"
        (add (negsuc 41) ∷ []) true code_site
    ∷ game_target native_table "NativeTable" "" [] false CandidateKind.unknown
    ∷ []

abbrev pub builtin_targets : List TargetDefinition
builtin_targets = game_state_target ∷ other_targets

abbrev pub TargetRegistry : Type 0
TargetRegistry = Map ℕ TargetSet

-- `GTA_Build_Target_Registry::Register` and its constructor; `Find` is `Map.find`.
unfoldable pub register_set : TargetRegistry → TargetSet → TargetRegistry
register_set r s = if s.fingerprint == 0 then r else insert_or_assign ℕ_discrete s.fingerprint s r

unfoldable pub target_registry : TargetRegistry
unfolding register_set
target_registry =
    register_set [] (record { fingerprint = supported_fingerprint; targets = builtin_targets })

pub record Report : Type 0 where
  pub fingerprint : ℕ
  pub targets : List Resolution

-- `LocatedCount` and `ValidatedCount` of a report.
abbrev pub located_count : Report → ℕ
located_count r = count_if (λ t. is_located t.status.state) r.targets

abbrev pub validated_count : Report → ℕ
validated_count r = count_if (λ t. is_validated t.status.state) r.targets

-- The loop of `GTA_Build_Target_Coordinator::Resolve`.
unfoldable pub resolve_all : Environment → ℕ → ℕ → List TargetDefinition → Result (List Resolution)
resolve_all env pid fingerprint [] = success []
resolve_all env pid fingerprint (d ∷ ds) = resolve env pid fingerprint d >>= λ first.
    resolve_all env pid fingerprint ds >>= λ rest. success (first ∷ rest)

-- `GTA_Build_Target_Coordinator::Resolve`, from the registry's answer on.
unfoldable pub resolve_set : Environment → ℕ → ℕ → Option TargetSet → Result Report
unfolding resolve_all
resolve_set env pid fingerprint none = failure (
    make_error ErrorCode.not_found ErrorCategory.runtime
      "No target set is registered for this GTA build")
resolve_set env pid fingerprint (some set) =
    resolve_all env pid fingerprint set.targets >>= λ targets.
    success (record { fingerprint = fingerprint; targets = targets })

unfoldable pub coordinate : Environment → TargetRegistry → ℕ → ℕ → Result Report
unfolding resolve_set
coordinate env registry pid fingerprint =
    if pid == 0 || fingerprint == 0
    then failure (
        make_error ErrorCode.invalid_argument ErrorCategory.runtime
          "Invalid GTA build target resolution request")
    else resolve_set env pid fingerprint (Map.find ℕ_discrete fingerprint registry)
