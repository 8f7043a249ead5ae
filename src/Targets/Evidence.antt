-- ===== src/Targets/Evidence.antt =====
-- Memory/GTA_Target_Definition.hpp and the record of GTA_Target_Evidence.hpp. The record is filled by the probe.
use devilz_den.Prelude.{ℕ, List, [], Bool, false, Text}
use devilz_den.Targets.Status.{TargetId}
use devilz_den.Targets.Address.{ResolveOp}

pub data CandidateKind : Type 0 where
  unknown direct_data pointer_storage code_site : CandidateKind

pub record TargetDefinition : Type 0 where
  pub id : TargetId
  pub name : Text
  pub module_name : Text
  pub pattern : Text
  pub resolve : List ResolveOp
  pub required : Bool
  pub candidate_kind : CandidateKind

pub record TargetSet : Type 0 where
  pub fingerprint : ℕ
  pub targets : List TargetDefinition

pub record Evidence : Type 0 where
  pub candidate_committed : Bool
  pub candidate_readable : Bool
  pub candidate_writable : Bool
  pub candidate_executable : Bool
  pub candidate_protection : ℕ
  pub candidate_type : ℕ
  pub candidate_region_base : ℕ
  pub candidate_region_size : ℕ
  pub sample_read : Bool
  pub sample_preview : Text
  pub sample_non_zero_qwords : ℕ
  pub sample_readable_pointers : ℕ
  pub pointer_decoded : Bool
  pub pointee_address : ℕ
  pub pointee_committed : Bool
  pub pointee_readable : Bool
  pub pointee_writable : Bool
  pub pointee_executable : Bool
  pub pointee_protection : ℕ
  pub pointee_type : ℕ
  pub pointee_region_base : ℕ
  pub pointee_region_size : ℕ
  pub pointee_sample_read : Bool
  pub pointee_sample_preview : Text
  pub pointee_sample_non_zero_qwords : ℕ
  pub pointee_sample_readable_pointers : ℕ
  pub object_slots_sampled : ℕ
  pub readable_objects : ℕ
  pub first_qwords_decoded : ℕ
  pub first_qword_image_pointers : ℕ
  pub first_qword_executable_image_pointers : ℕ
  pub object_sample_preview : Text
  pub dominant_address : ℕ
  pub dominant_count : ℕ
  pub dominant_sample_read : Bool
  pub dominant_bytes : Text
  pub dominant_qword_preview : Text
  pub dominant_readable_pointers : ℕ
  pub dominant_executable_image_pointers : ℕ
  pub summary : Text

-- The record as it is before the probe.
abbrev pub no_evidence : Evidence
no_evidence = record {
  candidate_committed = false;
  candidate_readable = false;
  candidate_writable = false;
  candidate_executable = false;
  candidate_protection = 0;
  candidate_type = 0;
  candidate_region_base = 0;
  candidate_region_size = 0;
  sample_read = false;
  sample_preview = [];
  sample_non_zero_qwords = 0;
  sample_readable_pointers = 0;
  pointer_decoded = false;
  pointee_address = 0;
  pointee_committed = false;
  pointee_readable = false;
  pointee_writable = false;
  pointee_executable = false;
  pointee_protection = 0;
  pointee_type = 0;
  pointee_region_base = 0;
  pointee_region_size = 0;
  pointee_sample_read = false;
  pointee_sample_preview = [];
  pointee_sample_non_zero_qwords = 0;
  pointee_sample_readable_pointers = 0;
  object_slots_sampled = 0;
  readable_objects = 0;
  first_qwords_decoded = 0;
  first_qword_image_pointers = 0;
  first_qword_executable_image_pointers = 0;
  object_sample_preview = [];
  dominant_address = 0;
  dominant_count = 0;
  dominant_sample_read = false;
  dominant_bytes = [];
  dominant_qword_preview = [];
  dominant_readable_pointers = 0;
  dominant_executable_image_pointers = 0;
  summary = [];
}
