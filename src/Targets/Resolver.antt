-- ===== src/Targets/Resolver.antt =====
-- Memory/GTA_Target_Resolver.hpp and GTA_Target_Resolver.cpp: one target is located in its process. The
-- lookup of a module, the reading of memory and the evidence probe are parameters.
pub mod Verdict
pub mod Identity
use devilz_den.Prelude.{
  ℕ, List, [], ◌∷◌, ◌++◌, not, ◌&&◌, ◌||◌, none, some, ◌==◌, if◌then◌else◌, Text, codes, String,
  length,
}
use devilz_den.Backend.Error.{Result, success, failure, ◌>>=◌}
use devilz_den.Backend.Pattern.{Token, parse}
use devilz_den.Backend.Process
use devilz_den.Backend.Process.{SystemRead, ModuleInfo, Match}
use devilz_den.Targets.Status.{
  TargetStatus, TargetState, missing, failed, located, structurally_validated, validated,
}
use devilz_den.Targets.Address
use devilz_den.Targets.Address.{ResolveOp}
use devilz_den.Targets.Evidence.{CandidateKind, TargetDefinition, Evidence, no_evidence}
use devilz_den.Targets.Validators.{Validation, validate_structure, validate_semantics}

-- What the process and the operating system answer.
pub record Environment : Type 0 where
  pub read_memory : SystemRead
  pub find_module : ℕ → Text → Result ModuleInfo
  pub probe : ℕ → CandidateKind → ℕ → Evidence

pub record Resolution : Type 0 where
  pub status : TargetStatus
  pub candidate_kind : CandidateKind
  pub evidence : Evidence
  pub address : ℕ
  pub candidates : List ℕ

abbrev pub status_of : TargetDefinition → TargetState → Text → TargetStatus
status_of d state detail = record {
  id = d.id;
  state = state;
  required = d.required;
  name = d.name;
  detail = detail;
}

-- A resolution that names no single address.
abbrev pub unresolved : TargetDefinition → TargetState → String → List ℕ → Resolution
unresolved d state detail candidates = record {
  status = status_of d state (codes detail);
  candidate_kind = d.candidate_kind;
  evidence = no_evidence;
  address = 0;
  candidates = candidates;
}

-- The loop over the matches: those whose address can be decoded, and is not null.
unfoldable pub decode : Address.Reader → List ResolveOp → List Match → List ℕ
decode reader chain [] = []
decode reader chain (m ∷ ms) =
    let rest = decode reader chain ms in
    elim (Address.resolve reader m.address chain) [
      | failure e ↦ rest
      | success a ↦ if not (a == 0) then a ∷ rest else rest
    ]

-- The end of `GTA_Target_Resolver::Resolve`: state and text of a single candidate, from the answers
-- of both validators.
unfoldable pub judge : Validation → Validation → TargetState × Text
judge semantic structural =
    if semantic.applicable && semantic.passed
    then (validated, semantic.detail)
    else if structural.applicable && structural.passed
    then (
      structurally_validated,
      if semantic.applicable
          then structural.detail
            ++ codes "; semantic validation is not yet satisfied: "
            ++ semantic.detail
          else structural.detail,
    )
    else (
      located,
      if semantic.applicable
          then codes "Unique candidate address resolved; semantic validation is not yet satisfied: "
            ++ semantic.detail
          else if structural.applicable
          then codes
              "Unique candidate address resolved; structural validation is not yet satisfied: "
            ++ structural.detail
          else codes "Unique candidate address resolved; semantic validation is still required",
    )

-- From the decoded candidates on.
unfoldable pub settle : Environment → ℕ → ℕ → TargetDefinition → ℕ → List ℕ → Resolution
unfolding judge
settle env pid fingerprint d module_base [] =
    unresolved d failed "Pattern matched, but no candidate address could be decoded" []
settle env pid fingerprint d module_base (a ∷ []) =
    let evidence = env.probe pid d.candidate_kind a in
    let (state, detail) =
      judge (validate_semantics d evidence fingerprint module_base a)
        (validate_structure d evidence) in
    record {
      status = status_of d state detail;
      candidate_kind = d.candidate_kind;
      evidence = evidence;
      address = a;
      candidates = a ∷ [];
    }
settle env pid fingerprint d module_base (a ∷ b ∷ rest) =
    unresolved d failed "Pattern is ambiguous; multiple candidate addresses were decoded"
      (a ∷ b ∷ rest)

-- From the matches in the module on.
unfoldable pub from_matches :
    Environment → ℕ → ℕ → TargetDefinition → ModuleInfo → List Match → Resolution
unfolding settle
from_matches env pid fingerprint d m [] =
    unresolved d missing "Verified pattern produced no matches in the target module" []
from_matches env pid fingerprint d m (x ∷ xs) =
    settle env pid fingerprint d m.base_address
      (decode (Process.read env.read_memory pid) d.resolve (x ∷ xs))

unfoldable pub resolve_in :
    Environment → ℕ → ℕ → TargetDefinition → List Token → ModuleInfo → Result Resolution
unfolding from_matches
resolve_in env pid fingerprint d pattern m =
    Process.scan env.read_memory pid m pattern 8 >>= λ matches.
    success (from_matches env pid fingerprint d m matches)

-- `GTA_Target_Resolver::Resolve`.
unfoldable pub resolve : Environment → ℕ → ℕ → TargetDefinition → Result Resolution
unfolding resolve_in
resolve env pid fingerprint d =
    if pid == 0 || length d.pattern == 0
    then success
        (unresolved d TargetState.unknown "No verified pattern is registered for this target" [])
    else elim (parse d.pattern) [
      | none ↦ success (unresolved d failed "Registered target pattern is invalid" [])
      | some pattern ↦ elim (env.find_module pid d.module_name) [
        | failure e ↦
            success
              (unresolved d failed "Target module could not be resolved in the GTA process" [])
        | success m ↦ resolve_in env pid fingerprint d pattern m
      ]
    ]
