-- ===== src/Targets/Resolver/Identity.antt =====
-- What a validated target is: GTA_Target_Resolver.cpp with the identities of the semantic validator.
use devilz_den.Prelude.{ℕ, ◌≡◌, ◌⊎◌, inl, inr, sym, true, Bool-cases, arith}
use devilz_den.Backend.Error.{success}
use devilz_den.Backend.Process.{ModuleInfo}
use devilz_den.Targets.Status.{script_threads, run_script_threads, init_native_tables, is_validated}
use devilz_den.Targets.Evidence.{Evidence, TargetDefinition, pointer_storage, code_site}
use devilz_den.Targets.Validators.{
  is_target, validate_semantics, supported_fingerprint, dispatch_table_rva, run_entry_rva,
  init_entry_rva,
}
use devilz_den.Targets.Validators.Identity.{
  HasRoom, SharesDispatchTable, IsRunEntry, IsInitEntry, identify_script_threads_iff,
  identify_run_script_threads_iff, identify_init_native_tables_iff,
}
use devilz_den.Targets.Resolver.{Environment, Resolution, resolve}
use devilz_den.Targets.Resolver.Verdict.{resolve-IsProven}

-- The three targets that have an identity, by what identifies them in a module.
abbrev pub IsIdentified : TargetDefinition → Evidence → ℕ → ℕ → Type 0
IsIdentified d e module_base address =
    ((is_target d script_threads pointer_storage ≡ true)
      × HasRoom module_base dispatch_table_rva
      × SharesDispatchTable e module_base)
    ⊎ ((is_target d run_script_threads code_site ≡ true)
        × HasRoom module_base run_entry_rva
        × IsRunEntry e module_base address)
    ⊎ ((is_target d init_native_tables code_site ≡ true)
        × HasRoom module_base init_entry_rva
        × IsInitEntry e module_base address)

-- The dispatch of the semantic validator.
validate_semantics-IsIdentified :
    (d : TargetDefinition) (e : Evidence) (fingerprint module_base address : ℕ)
    → (validate_semantics d e fingerprint module_base address).passed ≡ true
    → (fingerprint ≡ supported_fingerprint) × IsIdentified d e module_base address
unfolding validate_semantics
validate_semantics-IsIdentified d e fingerprint module_base address h =
    elim (Bool-cases (is_target d script_threads pointer_storage)) [
      | inl a ↦
          let (f, room, shares) =
            (identify_script_threads_iff e fingerprint module_base).0 (rw a at h) in
          (f, inl (a, room, shares))
      | inr a ↦ elim (Bool-cases (is_target d run_script_threads code_site)) [
        | inl b ↦
            let (f, room, entry) =
              (identify_run_script_threads_iff e fingerprint module_base address).0
                (rw (a, b) at h) in
            (f, inr (inl (b, room, entry)))
        | inr b ↦ elim (Bool-cases (is_target d init_native_tables code_site)) [
          | inl c ↦
              let (f, room, entry) =
                (identify_init_native_tables_iff e fingerprint module_base address).0
                  (rw (a, b, c) at h) in
              (f, inr (inr (c, room, entry)))
          | inr c ↦ absurd (ground (arith, a, b, c, h))
        ]
      ]
    ]

-- A target is only resolved as validated for the registered build, if its module was found and it is
-- one of the three that have an identity: ScriptThreads, if all sampled objects share the dispatch
-- table at the fixed offset in that module, with eight readable entries into executable code;
-- RunScriptThreads, at its fixed offset in the module, if the memory there is readable and
-- executable, belongs to an image and begins with the entry's bytes; and InitNativeTables, at its
-- fixed offset, if the memory there is readable, executable and was sampled.
pub resolve-IsIdentified :
    (env : Environment) (pid fingerprint : ℕ) (d : TargetDefinition) (r : Resolution)
    → resolve env pid fingerprint d ≡ success r
    → is_validated r.status.state ≡ true
    → (fingerprint ≡ supported_fingerprint)
      × ((m : ModuleInfo) × (env.find_module pid d.module_name ≡ success m)
          × IsIdentified d (env.probe pid d.candidate_kind r.address) m.base_address r.address)
resolve-IsIdentified env pid fingerprint d r e h =
    let (m, k, only, one, probed, passed) = resolve-IsProven env pid fingerprint d r e h in
    let (f, i) =
      validate_semantics-IsIdentified d r.evidence fingerprint m.base_address r.address passed in
    (f, (m, k, rw (sym probed) i))
