-- ===== src/Targets/Validators/Identity.antt =====
-- What a semantic validation that passed has established.
use devilz_den.Prelude.{false, ◌*◌, ◌<◌, ◌≤◌, length, ℕ, ◌+◌, ◌^◌, ◌≡◌, ◌↔◌, true, arith, text_eq}
use devilz_den.Targets.Evidence.{Evidence}
use devilz_den.Targets.Validators.{
  init_entry_rva, validate_script_threads, identify_init_native_tables, mem_image,
  supported_fingerprint, dispatch_table_rva, run_entry_rva, run_entry_bytes,
  identify_script_threads, identify_run_script_threads,
}

-- The module lies where the offset from its base stays in the address space.
abbrev pub HasRoom : ℕ → ℕ → Type 0
HasRoom module_base rva = (0 < module_base) × (module_base + rva < 2 ^ 64)

-- All sampled objects share the dispatch table of the registered build, of which eight entries
-- are readable and point into executable code.
pub record SharesDispatchTable (e : Evidence) (module_base : ℕ) : Type 0 where
  pub enough : 4 ≤ e.first_qwords_decoded
  pub all_share : e.dominant_count ≡ e.first_qwords_decoded
  pub sampled : e.dominant_sample_read ≡ true
  pub at_table : e.dominant_address ≡ module_base + dispatch_table_rva
  pub readable : 8 ≤ e.dominant_readable_pointers
  pub executable : 8 ≤ e.dominant_executable_image_pointers

-- The semantic validation of `ScriptThreads` passes exactly for the registered build, with a module base
-- that leaves room for the table's offset, and evidence that all sampled objects share that table.
pub identify_script_threads_iff :
    (e : Evidence) (fingerprint module_base : ℕ)
    → ((identify_script_threads e fingerprint module_base).passed ≡ true) ↔ (
        (fingerprint ≡ supported_fingerprint)
        × HasRoom module_base dispatch_table_rva
        × SharesDispatchTable e module_base)
unfolding identify_script_threads
identify_script_threads_iff e fingerprint module_base = ground arith

-- The candidate is readable and executable memory of the image at the entry of the registered
-- build, and begins with its bytes.
pub record IsRunEntry (e : Evidence) (module_base candidate : ℕ) : Type 0 where
  pub at_entry : candidate ≡ module_base + run_entry_rva
  pub committed : e.candidate_committed ≡ true
  pub readable : e.candidate_readable ≡ true
  pub executable : e.candidate_executable ≡ true
  pub in_image : e.candidate_type ≡ mem_image
  pub sampled : e.sample_read ≡ true
  pub same_bytes : text_eq e.sample_preview run_entry_bytes ≡ true

-- The semantic validation of `RunScriptThreads` passes exactly for the registered build, with a module
-- base that leaves room for the entry's offset, and evidence that the candidate is that entry.
pub identify_run_script_threads_iff :
    (e : Evidence) (fingerprint module_base candidate : ℕ)
    → ((identify_run_script_threads e fingerprint module_base candidate).passed ≡ true) ↔ (
        (fingerprint ≡ supported_fingerprint)
        × HasRoom module_base run_entry_rva
        × IsRunEntry e module_base candidate)
unfolding identify_run_script_threads
identify_run_script_threads_iff e fingerprint module_base candidate = ground arith

-- The candidate is readable and executable memory at the bootstrap entry of the registered build, and
-- was sampled. Neither the kind of the memory nor the bytes are compared.
pub record IsInitEntry (e : Evidence) (module_base candidate : ℕ) : Type 0 where
  pub at_entry : candidate ≡ module_base + init_entry_rva
  pub committed : e.candidate_committed ≡ true
  pub readable : e.candidate_readable ≡ true
  pub executable : e.candidate_executable ≡ true
  pub sampled : e.sample_read ≡ true
  pub nonempty : 0 < length e.sample_preview

-- The semantic validation of `InitNativeTables` passes exactly for the registered build, with a module
-- base that leaves room for the entry's offset, and evidence that the candidate is sampled code at
-- that entry; the bytes and the kind of the memory do not matter.
pub identify_init_native_tables_iff :
    (e : Evidence) (fingerprint module_base candidate : ℕ)
    → ((identify_init_native_tables e fingerprint module_base candidate).passed ≡ true) ↔ (
        (fingerprint ≡ supported_fingerprint)
        × HasRoom module_base init_entry_rva
        × IsInitEntry e module_base candidate)
unfolding identify_init_native_tables
identify_init_native_tables_iff e fingerprint module_base candidate = ground arith

-- The storage lies in the image and holds a pointer to readable data, which is not code, and of the
-- sampled objects enough are readable and three quarters of the headers point to executable code.
pub record IsCollection (e : Evidence) : Type 0 where
  pub committed : e.candidate_committed ≡ true
  pub readable : e.candidate_readable ≡ true
  pub in_image : e.candidate_type ≡ mem_image
  pub decoded : e.pointer_decoded ≡ true
  pub not_null : 0 < e.pointee_address
  pub data_committed : e.pointee_committed ≡ true
  pub data_readable : e.pointee_readable ≡ true
  pub data_only : e.pointee_executable ≡ false
  pub enough_slots : 4 ≤ e.object_slots_sampled
  pub enough_objects : 4 ≤ e.readable_objects
  pub enough_headers : 4 ≤ e.first_qwords_decoded
  pub three_quarters : e.first_qwords_decoded * 3 ≤ e.first_qword_executable_image_pointers * 4

-- The structural validation of `ScriptThreads` passes exactly for such evidence, as long as the counts
-- are below 2 ^ 62, so that their products do not wrap.
validate_script_threads_iff :
    (e : Evidence)
    → e.first_qwords_decoded < 2 ^ 62
    → e.first_qword_executable_image_pointers < 2 ^ 62
    → ((validate_script_threads e).passed ≡ true) ↔ IsCollection e
unfolding validate_script_threads
validate_script_threads_iff e h k = ground arith
