-- ===== src/Tests/Targets.antt =====
-- Runs of Integrations/GTA5_Enhanced/Memory and Runtime.
use devilz_den.Prelude.{
  ℕ, ◌≡◌, ◌↔◌, refl, List, [], ◌∷◌, true, arith, codes, Text-discrete, ℕ_discrete,
}
use devilz_den.Prelude.Int.{pos}
use devilz_den.Backend.Error.{Result, success, failure}
use devilz_den.Backend.Process
use devilz_den.Backend.Process.{ModuleInfo}
use devilz_den.Backend.Pattern.{parse, parse_bytes, parse_byte, words, is_space, hex_byte}
use devilz_den.Prelude.Numbers.{from_chars, digit_prefix, digit_value}
use devilz_den.Targets.Status.{
  TargetStatus, script_threads, run_script_threads, validated, is_validated,
}
use devilz_den.Targets.Address.{
  ResolveOp, add, rip_relative32, Reader, resolve, resolve_ops, resolve_op, resolve_rip_relative32,
  little_endian,
}
use devilz_den.Targets.Address.Chains.{IsUserAddress, resolve-IsUserAddress}
use devilz_den.Targets.Evidence.{code_site, TargetDefinition, Evidence, no_evidence}
use devilz_den.Targets.Validators.{
  validate_semantics, supported_fingerprint, identify_run_script_threads, run_entry_bytes,
}
use devilz_den.Targets.Builds.{new_registry, is_supported, find}
use devilz_den.Targets.Builds.Support.{apply_reports, Qualifies, is_supported-apply_reports}
use devilz_den.Targets.Resolver
use devilz_den.Targets.Resolver.{Environment, Resolution}
use devilz_den.Targets.Resolver.Verdict.{IsProven, resolve-IsProven}
use devilz_den.Targets.Resolver.Identity.{IsIdentified, resolve-IsIdentified}

-- Every read gives a displacement of 16.
abbrev sixteen : Reader
sixteen address size = success (16 ∷ 0 ∷ 0 ∷ 0 ∷ [])

abbrev chain : List ResolveOp
chain = add (pos 7) ∷ rip_relative32 (pos 3) ∷ []

chain-resolves : resolve sixteen 1000 chain ≡ success 1030
unfolding resolve resolve_ops resolve_op resolve_rip_relative32 little_endian
chain-resolves = refl

resolve-IsUserAddress_example : IsUserAddress 1030
resolve-IsUserAddress_example =
    resolve-IsUserAddress sixteen chain 1000 1030 (omega arith, omega arith) chain-resolves

-- Evidence of the entry of `RunScriptThreads`.
abbrev entry_evidence : Evidence
entry_evidence = record no_evidence {
  candidate_committed = true;
  candidate_readable = true;
  candidate_executable = true;
  candidate_type = 16777216;
  sample_read = true;
  sample_preview = run_entry_bytes;
}

abbrev script_threads_status : TargetStatus
script_threads_status = record {
  id = script_threads;
  state = validated;
  required = true;
  name = codes "ScriptThreads";
  detail = [];
}

abbrev reports : List (ℕ × List TargetStatus)
reports = (supported_fingerprint, script_threads_status ∷ []) ∷ []

is_supported-apply_reports_example :
    (is_supported (apply_reports new_registry reports) supported_fingerprint ≡ true)
    ↔ Qualifies (find (apply_reports new_registry reports) supported_fingerprint)
is_supported-apply_reports_example = is_supported-apply_reports reports supported_fingerprint

-- A process with one module of one byte, whose evidence is that of the entry.
abbrev environment : Environment
environment = record {
  read_memory = λ pid address size. success (190 ∷ []);
  find_module = λ pid name. success (record { name = name; base_address = 4096; image_size = 1 });
  probe = λ pid kind address. entry_evidence;
}

abbrev entry_target : TargetDefinition
entry_target = record {
  id = run_script_threads;
  name = codes "RunScriptThreads";
  module_name = codes "game.exe";
  pattern = codes "BE";
  resolve = add (pos 9570880) ∷ [];
  required = true;
  candidate_kind = code_site;
}

abbrev resolution_or : Result Resolution → Resolution
resolution_or (success r) = r
resolution_or (failure e) = record {
  status = script_threads_status;
  candidate_kind = code_site;
  evidence = no_evidence;
  address = 0;
  candidates = [];
}

abbrev entry_resolution : Resolution
entry_resolution = resolution_or (Resolver.resolve environment 1 supported_fingerprint entry_target)

entry-resolved :
    Resolver.resolve environment 1 supported_fingerprint entry_target ≡ success entry_resolution
unfolding Resolver.resolve Resolver.resolve_in Resolver.from_matches parse parse_bytes parse_byte
    words is_space hex_byte from_chars digit_prefix digit_value Text-discrete ℕ_discrete
    Process.scan Process.read Process.match_loop Process.bytes_match
entry-resolved = refl

entry-validated : is_validated entry_resolution.status.state ≡ true
unfolding Resolver.resolve Resolver.resolve_in Resolver.from_matches parse parse_bytes parse_byte
    words is_space hex_byte from_chars digit_prefix digit_value Text-discrete ℕ_discrete
    Process.scan Process.read Process.match_loop Process.bytes_match Resolver.decode Resolver.settle
    resolve resolve_ops resolve_op Resolver.judge validate_semantics identify_run_script_threads
entry-validated = refl

resolve-IsProven_example :
    IsProven environment 1 supported_fingerprint entry_target entry_resolution
resolve-IsProven_example =
    resolve-IsProven environment 1 supported_fingerprint entry_target entry_resolution
      entry-resolved entry-validated

resolve-IsIdentified_example :
    (supported_fingerprint ≡ supported_fingerprint)
    × ((m : ModuleInfo) × (environment.find_module 1 entry_target.module_name ≡ success m)
        × IsIdentified entry_target entry_evidence m.base_address entry_resolution.address)
resolve-IsIdentified_example =
    resolve-IsIdentified environment 1 supported_fingerprint entry_target entry_resolution
      entry-resolved entry-validated
