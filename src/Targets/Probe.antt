-- ===== src/Targets/Probe.antt =====
-- Memory/GTA_Target_Evidence.cpp: the evidence that is gathered of a candidate address. The reading of
-- the process and the system's answers are parameters.
pub mod Dominant
pub mod Objects
pub mod Counters
use devilz_den.Prelude.{
  ℕ, suc, ◌+◌, List, [], ◌∷◌, ◌++◌, Bool, true, false, not, ◌&&◌, Option, none, some, ◌==◌,
  if◌then◌else◌, ltb, take, count_if, Text, codes,
}
use devilz_den.Prelude.Numbers.{to_string}
use devilz_den.Backend.Error.{Result, success, failure}
use devilz_den.Backend.Process
use devilz_den.Backend.Process.{SystemRead}
use devilz_den.System.{SystemQuery}
use devilz_den.Targets.Evidence.{
  CandidateKind, direct_data, pointer_storage, code_site, Evidence, no_evidence,
}
use devilz_den.Targets.Region.{
  RegionInfo, no_region, query_region, is_readable, is_image, is_executable, hex_value, hex_bytes,
  words_of, preview, non_zero_count, readable_count, executable_count,
}
use devilz_den.Targets.Summary.{summary}

-- `Process_Memory_Reader::Read` of one process.
abbrev pub ProcessReader : Type 0
ProcessReader = ℕ → ℕ → Result (List ℕ)

-- `CaptureRegion`.
unfoldable pub capture_region : RegionInfo → Evidence → Evidence
capture_region r e = record e {
  candidate_committed = r.committed;
  candidate_readable = r.readable;
  candidate_writable = r.writable;
  candidate_executable = r.executable;
  candidate_protection = r.protection;
  candidate_type = r.region_type;
  candidate_region_base = r.base;
  candidate_region_size = r.size;
}

-- The first word of a sample that was read.
abbrev pub first_word : Result (List ℕ) → Option ℕ
first_word (failure e) = none
first_word (success bytes) = elim (words_of bytes) [ [] ↦ none | w ∷ ws ↦ some w ]

-- The first word of an object, where it can be read.
unfoldable pub decode_object : SystemQuery → ProcessReader → ℕ → Option ℕ
unfolding query_region words_of
decode_object query reader object =
    if not (object == 0) && is_readable query object then first_word (reader object 8) else none

abbrev count_of : Bool → ℕ
count_of true = 1
count_of false = 0

-- The counters that a slot with a decoded object adds to.
unfoldable pub count_decoded : SystemQuery → Option ℕ → Evidence → Evidence
unfolding query_region
count_decoded query none e = e
count_decoded query (some first) e = record e {
  first_qwords_decoded = suc e.first_qwords_decoded;
  first_qword_image_pointers = e.first_qword_image_pointers + count_of (is_image query first);
  first_qword_executable_image_pointers =
      e.first_qword_executable_image_pointers + count_of (is_executable query first);
}

-- The text of a slot.
unfoldable pub slot_text : SystemQuery → ℕ → ℕ → Option ℕ → Text
unfolding query_region hex_value
slot_text query i object none = to_string i ++ (b':' ∷ hex_value object) ++ codes "->unreadable"
slot_text query i object (some first) =
    let region = query_region query first in
    to_string i
    ++ (b':' ∷ hex_value object)
    ++ codes "->"
    ++ hex_value first
    ++ codes "[T="
    ++ hex_value region.region_type
    ++ codes ",P="
    ++ hex_value region.protection
    ++ codes "]"

-- What the loop over the slots keeps: the evidence, and the first words that are not 0.
pub record Slots : Type 0 where
  pub evidence : Evidence
  pub decoded : List ℕ

abbrev pub keep_target : List ℕ → Option ℕ → List ℕ
keep_target decoded none = decoded
keep_target decoded (some first) = if first == 0 then decoded else decoded ++ (first ∷ [])

-- One round of the loop of `ProbeObjectSlots`, from the first word of the object on. The array of the
-- first words has room for each slot.
unfoldable pub record_slot : SystemQuery → ℕ → ℕ → Option ℕ → Slots → Slots
unfolding count_decoded slot_text query_region
record_slot query i object first s =
    let e = count_decoded query first s.evidence in
    record {
      evidence = record e {
        object_slots_sampled = suc e.object_slots_sampled;
        readable_objects = e.readable_objects + count_of (is_readable query object);
        object_sample_preview =
            e.object_sample_preview
            ++ (if i == 0 then [] else codes ";")
            ++ slot_text query i object first;
      };
      decoded = keep_target s.decoded first;
    }

unfoldable pub probe_slot : SystemQuery → ProcessReader → ℕ → ℕ → Slots → Slots
unfolding decode_object record_slot
probe_slot query reader i object s =
    record_slot query i object (decode_object query reader object) s

unfoldable pub probe_slots : SystemQuery → ProcessReader → ℕ → List ℕ → Slots → Slots
unfolding probe_slot
probe_slots query reader i [] s = s
probe_slots query reader i (object ∷ objects) s =
    probe_slots query reader (suc i) objects (probe_slot query reader i object s)

-- The loop for the dominant first word: the first of those that occur most often, and how often.
abbrev pub occurrences : ℕ → List ℕ → ℕ
occurrences a targets = count_if (λ b. b == a) targets

unfoldable pub prefer : List ℕ → ℕ → ℕ × ℕ → ℕ × ℕ
prefer targets a (address, count) =
    if ltb count (occurrences a targets) then (a, occurrences a targets) else (address, count)

unfoldable pub dominant_loop : List ℕ → List ℕ → ℕ × ℕ → ℕ × ℕ
unfolding prefer
dominant_loop targets [] best = best
dominant_loop targets (a ∷ rest) best = dominant_loop targets rest (prefer targets a best)

unfoldable pub dominant : List ℕ → ℕ × ℕ
unfolding dominant_loop
dominant targets = dominant_loop targets targets (0, 0)

-- The sample at the dominant first word.
unfoldable pub sample_dominant : SystemQuery → Result (List ℕ) → Evidence → Evidence
unfolding words_of preview readable_count executable_count hex_bytes
sample_dominant query (failure x) e = e
sample_dominant query (success bytes) e = record e {
  dominant_sample_read = true;
  dominant_bytes = hex_bytes (take 16 bytes);
  dominant_qword_preview = preview (words_of bytes);
  dominant_readable_pointers = e.dominant_readable_pointers + readable_count query (words_of bytes);
  dominant_executable_image_pointers =
      e.dominant_executable_image_pointers + executable_count query (words_of bytes);
}

-- `ProbeObjectSlots`.
unfoldable pub probe_object_slots : SystemQuery → ProcessReader → List ℕ → Evidence → Evidence
unfolding probe_slots dominant sample_dominant query_region words_of
probe_object_slots query reader sample e =
    let slots =
      probe_slots query reader 0 (take 8 (words_of sample))
        (record { evidence = e; decoded = [] }) in
    let (address, count) = dominant slots.decoded in
    let found = record slots.evidence { dominant_address = address; dominant_count = count } in
    if not (address == 0) && is_readable query address
    then sample_dominant query (reader address 64) found
    else found

-- The sample of a candidate that is code or data.
unfoldable pub sample_code : Result (List ℕ) → Evidence → Evidence
unfolding hex_bytes
sample_code (failure x) e = e
sample_code (success bytes) e = record e { sample_read = true; sample_preview = hex_bytes bytes }

unfoldable pub sample_data : SystemQuery → Result (List ℕ) → Evidence → Evidence
unfolding words_of preview non_zero_count readable_count
sample_data query (failure x) e = e
sample_data query (success bytes) e = record e {
  sample_read = true;
  sample_preview = preview (words_of bytes);
  sample_non_zero_qwords = e.sample_non_zero_qwords + non_zero_count (words_of bytes);
  sample_readable_pointers = e.sample_readable_pointers + readable_count query (words_of bytes);
}

unfoldable pub sample_candidate :
    SystemQuery → ProcessReader → CandidateKind → ℕ → Evidence → Evidence
unfolding sample_code sample_data
sample_candidate query reader CandidateKind.unknown address e = e
sample_candidate query reader direct_data address e = sample_data query (reader address 64) e
sample_candidate query reader pointer_storage address e = e
sample_candidate query reader code_site address e = sample_code (reader address 16) e

-- The sample at the pointee.
unfoldable pub sample_pointee : SystemQuery → ProcessReader → Result (List ℕ) → Evidence → Evidence
unfolding words_of preview non_zero_count readable_count probe_object_slots
sample_pointee query reader (failure x) e = e
sample_pointee query reader (success sample) e = probe_object_slots query reader sample (record e {
  pointee_sample_read = true;
  pointee_sample_preview = preview (words_of sample);
  pointee_sample_non_zero_qwords =
      e.pointee_sample_non_zero_qwords + non_zero_count (words_of sample);
  pointee_sample_readable_pointers =
      e.pointee_sample_readable_pointers + readable_count query (words_of sample);
})

-- The fields of the pointee.
unfoldable pub capture_pointee : RegionInfo → ℕ → Evidence → Evidence
capture_pointee r pointee e = record e {
  pointer_decoded = true;
  pointee_address = pointee;
  pointee_committed = r.committed;
  pointee_readable = r.readable;
  pointee_writable = r.writable;
  pointee_executable = r.executable;
  pointee_protection = r.protection;
  pointee_type = r.region_type;
  pointee_region_base = r.base;
  pointee_region_size = r.size;
}

-- The pointer at the candidate, from the read word on.
unfoldable pub probe_pointee : SystemQuery → ProcessReader → Option ℕ → Evidence → Evidence
unfolding query_region sample_pointee capture_pointee
probe_pointee query reader none e = e
probe_pointee query reader (some pointee) e =
    let decoded = capture_pointee (query_region query pointee) pointee e in
    if not (pointee == 0) && is_readable query pointee
    then sample_pointee query reader (reader pointee 64) decoded
    else decoded

abbrev pub is_pointer_storage : CandidateKind → Bool
is_pointer_storage CandidateKind.unknown = false
is_pointer_storage direct_data = false
is_pointer_storage pointer_storage = true
is_pointer_storage code_site = false

-- The evidence before its summary is written.
unfoldable pub sample_region : SystemQuery → ProcessReader → ℕ → CandidateKind → ℕ → Evidence
unfolding query_region capture_region sample_candidate
sample_region query reader pid kind address =
    let captured = capture_region (query_region query address) no_evidence in
    if not (address == 0) && not (pid == 0) && is_readable query address
    then sample_candidate query reader kind address captured
    else captured

unfoldable pub gather : SystemQuery → ProcessReader → ℕ → CandidateKind → ℕ → Evidence
unfolding sample_region probe_pointee words_of
gather query reader pid kind address =
    let sampled = sample_region query reader pid kind address in
    if is_pointer_storage kind && not (address == 0) && not (pid == 0)
    then probe_pointee query reader (first_word (reader address 8)) sampled
    else sampled

-- `GTA_Target_Evidence_Probe::Probe`.
unfoldable pub probe : SystemQuery → SystemRead → ℕ → CandidateKind → ℕ → Evidence
unfolding gather
probe query system pid kind address =
    let e = gather query (Process.read system pid) pid kind address in
    record e { summary = summary kind e }
