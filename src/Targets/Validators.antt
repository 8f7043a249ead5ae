-- ===== src/Targets/Validators.antt =====
-- Memory/GTA_Target_Structural_Validator.cpp and GTA_Target_Semantic_Validator.hpp: what the
-- evidence shows about a candidate address.
pub mod Identity
use devilz_den.Prelude.{
  ℕ, ◌+◌, ◌-◌, ◌*◌, ◌%◌, ◌^◌, [], ◌++◌, Bool, true, false, not, ◌&&◌, ◌||◌, ltb, ◌==◌,
  if◌then◌else◌, length, Text, codes, text_eq, String,
}
use devilz_den.Prelude.Int.{u64_max}
use devilz_den.Prelude.Numbers.{to_string, to_hex}
use devilz_den.Targets.Status.{
  TargetId, script_threads, run_script_threads, init_native_tables, same_id,
}
use devilz_den.Targets.Evidence.{
  CandidateKind, pointer_storage, code_site, TargetDefinition, Evidence,
}

-- Both validators answer whether they apply, whether the candidate passed, and a text.
pub record Validation : Type 0 where
  pub applicable : Bool
  pub passed : Bool
  pub detail : Text

abbrev pub not_applicable : Validation
not_applicable = record { applicable = false; passed = false; detail = [] }

abbrev pub refused : String → Validation
refused message = record { applicable = true; passed = false; detail = codes message }

abbrev pub accepted : Text → Validation
accepted message = record { applicable = true; passed = true; detail = message }

abbrev pub mem_image : ℕ
mem_image = 16777216

abbrev pub kind_number : CandidateKind → ℕ
kind_number CandidateKind.unknown = 0
kind_number CandidateKind.direct_data = 1
kind_number pointer_storage = 2
kind_number code_site = 3

abbrev pub is_target : TargetDefinition → TargetId → CandidateKind → Bool
is_target d id kind = same_id d.id id && kind_number d.candidate_kind == kind_number kind

-- `ValidateScriptThreads`.
unfoldable pub validate_script_threads : Evidence → Validation
validate_script_threads e =
    if not e.candidate_committed || not e.candidate_readable
    then refused "ScriptThreads storage is not committed and readable"
    else if not (e.candidate_type == mem_image)
    then refused "ScriptThreads storage is not backed by the GTA image"
    else if not e.pointer_decoded || e.pointee_address == 0
    then refused "ScriptThreads storage did not decode to a non-null collection pointer"
    else if not e.pointee_committed || not e.pointee_readable
    then refused "ScriptThreads collection is not committed and readable"
    else if e.pointee_executable
    then refused "ScriptThreads collection unexpectedly points into executable memory"
    else if ltb e.object_slots_sampled 4 || ltb e.readable_objects 4
    then refused "Too few readable ScriptThreads object entries were observed"
    else if ltb e.first_qwords_decoded 4
    then refused "Too few ScriptThreads object headers could be sampled"
    else if ltb (e.first_qword_executable_image_pointers * 4 % 2 ^ 64)
        (e.first_qwords_decoded * 3 % 2 ^ 64)
    then refused
        "Fewer than 75 percent of sampled ScriptThreads object headers point into executable image memory"
    else accepted (
        codes "ScriptThreads pointer collection passed structural validation: "
        ++ to_string e.readable_objects
        ++ codes "/"
        ++ to_string e.object_slots_sampled
        ++ codes " sampled objects are readable and "
        ++ to_string e.first_qword_executable_image_pointers
        ++ codes "/"
        ++ to_string e.first_qwords_decoded
        ++ codes
            " decoded first-qword pointers target executable image memory; semantic thread identity is still pending")

-- `GTA_Target_Structural_Validator::Validate`.
unfoldable pub validate_structure : TargetDefinition → Evidence → Validation
unfolding validate_script_threads
validate_structure d e =
    if is_target d script_threads pointer_storage then validate_script_threads e else not_applicable

-- The constants of the one build that has registered identities.
abbrev pub supported_fingerprint : ℕ
supported_fingerprint = 7660508574094200832

abbrev pub dispatch_table_rva : ℕ
dispatch_table_rva = 40342128

abbrev pub run_entry_rva : ℕ
run_entry_rva = 9570880

abbrev pub init_entry_rva : ℕ
init_entry_rva = 9551648

abbrev pub run_entry_bytes : Text
run_entry_bytes = codes "56 57 55 53 48 83 EC 28 85 C9 BE 40 5D C6 00 0F"

-- The module base is missing, or the offset from it does not fit the address space.
abbrev pub base_unusable : ℕ → ℕ → Bool
base_unusable module_base rva = module_base == 0 || ltb (u64_max - rva) module_base

-- The three branches of `GTA_Target_Semantic_Validator::Validate`.
unfoldable pub identify_script_threads : Evidence → ℕ → ℕ → Validation
identify_script_threads e fingerprint module_base =
    if not (fingerprint == supported_fingerprint)
    then refused "No ScriptThreads semantic identity is registered for this GTA build fingerprint"
    else if base_unusable module_base dispatch_table_rva
    then refused "GTA module base is unavailable for ScriptThreads semantic validation"
    else if ltb e.first_qwords_decoded 4 || not (e.dominant_count == e.first_qwords_decoded)
    then refused "Sampled ScriptThreads objects do not share one dominant dispatch-table identity"
    else if not e.dominant_sample_read
    then refused "ScriptThreads dominant dispatch table could not be sampled"
    else if not (e.dominant_address == (module_base + dispatch_table_rva) % 2 ^ 64)
    then refused
        "ScriptThreads dominant dispatch-table RVA does not match the verified build identity"
    else if ltb e.dominant_readable_pointers 8 || ltb e.dominant_executable_image_pointers 8
    then refused
        "ScriptThreads dispatch table does not expose eight readable executable-image entries"
    else accepted (
        codes "ScriptThreads semantic identity validated for fingerprint 0x"
        ++ to_hex fingerprint
        ++ codes ": "
        ++ to_string e.dominant_count
        ++ codes "/"
        ++ to_string e.first_qwords_decoded
        ++ codes " sampled objects share dispatch-table RVA 0x"
        ++ to_hex dispatch_table_rva
        ++ codes " and 8/8 sampled dispatch entries target executable GTA image memory")

unfoldable pub identify_run_script_threads : Evidence → ℕ → ℕ → ℕ → Validation
identify_run_script_threads e fingerprint module_base candidate =
    if not (fingerprint == supported_fingerprint)
    then refused
        "No RunScriptThreads semantic identity is registered for this GTA build fingerprint"
    else if base_unusable module_base run_entry_rva
    then refused "GTA module base is unavailable for RunScriptThreads semantic validation"
    else if not (candidate == (module_base + run_entry_rva) % 2 ^ 64)
    then refused "RunScriptThreads callable-entry RVA does not match the verified build identity"
    else if not e.candidate_committed
        || not e.candidate_readable
        || not e.candidate_executable
        || not (e.candidate_type == mem_image)
    then refused "RunScriptThreads candidate is not committed readable executable image memory"
    else if not e.sample_read || not (text_eq e.sample_preview run_entry_bytes)
    then refused "RunScriptThreads callable-entry bytes do not match the verified build identity"
    else accepted (
        codes "RunScriptThreads callable entry validated for fingerprint 0x"
        ++ to_hex fingerprint
        ++ codes " at RVA 0x"
        ++ to_hex run_entry_rva)

unfoldable pub identify_init_native_tables : Evidence → ℕ → ℕ → ℕ → Validation
identify_init_native_tables e fingerprint module_base candidate =
    if not (fingerprint == supported_fingerprint)
    then refused
        "No InitNativeTables semantic identity is registered for this GTA build fingerprint"
    else if base_unusable module_base init_entry_rva
    then refused "GTA module base is unavailable for InitNativeTables semantic validation"
    else if not (candidate == (module_base + init_entry_rva) % 2 ^ 64)
    then refused "InitNativeTables callable-entry RVA does not match the verified build identity"
    else if not e.candidate_committed || not e.candidate_readable || not e.candidate_executable
    then refused "InitNativeTables candidate is not committed readable executable image memory"
    else if not e.sample_read || length e.sample_preview == 0
    then refused "InitNativeTables callable entry could not be sampled"
    else accepted (
        codes "InitNativeTables callable bootstrap validated for fingerprint 0x"
        ++ to_hex fingerprint
        ++ codes " at RVA 0x"
        ++ to_hex init_entry_rva)

-- `GTA_Target_Semantic_Validator::Validate`.
unfoldable pub validate_semantics : TargetDefinition → Evidence → ℕ → ℕ → ℕ → Validation
unfolding identify_script_threads identify_run_script_threads identify_init_native_tables
validate_semantics d e fingerprint module_base candidate =
    if is_target d script_threads pointer_storage
    then identify_script_threads e fingerprint module_base
    else if is_target d run_script_threads code_site
    then identify_run_script_threads e fingerprint module_base candidate
    else if is_target d init_native_tables code_site
    then identify_init_native_tables e fingerprint module_base candidate
    else not_applicable
