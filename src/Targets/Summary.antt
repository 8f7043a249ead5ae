-- ===== src/Targets/Summary.antt =====
-- Memory/GTA_Target_Evidence.cpp: the line that sums the evidence up.
use devilz_den.Prelude.{[], ◌++◌, Bool, true, false, not, ◌==◌, if◌then◌else◌, Text, String, codes}
use devilz_den.Prelude.Numbers.{to_string}
use devilz_den.Targets.Evidence.{CandidateKind, direct_data, pointer_storage, code_site, Evidence}
use devilz_den.Targets.Region.{hex_value}

-- `KindName`.
unfoldable pub kind_name : CandidateKind → String
kind_name CandidateKind.unknown = "Unknown"
kind_name direct_data = "DirectData"
kind_name pointer_storage = "PointerStorage"
kind_name code_site = "CodeSite"

abbrev yes_no : Bool → Text
yes_no true = codes "yes"
yes_no false = codes "no"

-- The fields of the candidate.
unfoldable pub candidate_summary : CandidateKind → Evidence → Text
unfolding kind_name hex_value
candidate_summary kind e =
    codes "Kind="
    ++ codes (kind_name kind)
    ++ codes " | CandidateCommitted="
    ++ yes_no e.candidate_committed
    ++ codes " | Readable="
    ++ yes_no e.candidate_readable
    ++ codes " | Writable="
    ++ yes_no e.candidate_writable
    ++ codes " | Executable="
    ++ yes_no e.candidate_executable
    ++ codes " | Protect="
    ++ hex_value e.candidate_protection
    ++ codes " | Type="
    ++ hex_value e.candidate_type
    ++ codes " | Region="
    ++ hex_value e.candidate_region_base
    ++ codes "+"
    ++ hex_value e.candidate_region_size

abbrev is_code_site : CandidateKind → Bool
is_code_site CandidateKind.unknown = false
is_code_site direct_data = false
is_code_site pointer_storage = false
is_code_site code_site = true

abbrev is_storage : CandidateKind → Bool
is_storage CandidateKind.unknown = false
is_storage direct_data = false
is_storage pointer_storage = true
is_storage code_site = false

-- The sample of the candidate.
unfoldable pub sample_summary : CandidateKind → Evidence → Text
sample_summary kind e =
    if not e.sample_read
    then []
    else if is_code_site kind
    then codes " | Bytes=" ++ e.sample_preview
    else codes " | Qwords="
      ++ e.sample_preview
      ++ codes " | NonZero="
      ++ to_string e.sample_non_zero_qwords
      ++ codes " | ReadablePtrLike="
      ++ to_string e.sample_readable_pointers

-- The dominant first word.
unfoldable pub dominant_summary : Evidence → Text
unfolding hex_value
dominant_summary e =
    if e.dominant_address == 0
    then []
    else codes " | DominantFirstQword="
      ++ hex_value e.dominant_address
      ++ codes " | DominantCount="
      ++ to_string e.dominant_count
      ++ codes "/"
      ++ to_string e.first_qwords_decoded
      ++ (if not e.dominant_sample_read
          then []
          else codes " | DominantBytes="
            ++ e.dominant_bytes
            ++ codes " | DominantQwords="
            ++ e.dominant_qword_preview
            ++ codes " | DominantReadablePtrs="
            ++ to_string e.dominant_readable_pointers
            ++ codes " | DominantExecImagePtrs="
            ++ to_string e.dominant_executable_image_pointers)

-- The objects at the pointee.
unfoldable pub objects_summary : Evidence → Text
unfolding dominant_summary
objects_summary e =
    codes " | PointeeQwords="
    ++ e.pointee_sample_preview
    ++ codes " | PointeeNonZero="
    ++ to_string e.pointee_sample_non_zero_qwords
    ++ codes " | PointeeReadablePtrLike="
    ++ to_string e.pointee_sample_readable_pointers
    ++ codes " | ObjectSlots="
    ++ to_string e.object_slots_sampled
    ++ codes " | ReadableObjects="
    ++ to_string e.readable_objects
    ++ codes " | FirstQwordsDecoded="
    ++ to_string e.first_qwords_decoded
    ++ codes " | FirstQwordImagePtrs="
    ++ to_string e.first_qword_image_pointers
    ++ codes " | FirstQwordExecImagePtrs="
    ++ to_string e.first_qword_executable_image_pointers
    ++ codes " | Objects="
    ++ e.object_sample_preview
    ++ dominant_summary e

-- The pointer and its pointee.
unfoldable pub pointee_summary : CandidateKind → Evidence → Text
unfolding hex_value objects_summary
pointee_summary kind e =
    if not (is_storage kind)
    then []
    else if not e.pointer_decoded
    then codes " | PointerDecoded=" ++ yes_no false
    else codes " | PointerDecoded="
      ++ yes_no true
      ++ codes " | Pointee="
      ++ hex_value e.pointee_address
      ++ codes " | PointeeCommitted="
      ++ yes_no e.pointee_committed
      ++ codes " | PointeeReadable="
      ++ yes_no e.pointee_readable
      ++ codes " | PointeeWritable="
      ++ yes_no e.pointee_writable
      ++ codes " | PointeeExecutable="
      ++ yes_no e.pointee_executable
      ++ codes " | PointeeProtect="
      ++ hex_value e.pointee_protection
      ++ codes " | PointeeType="
      ++ hex_value e.pointee_type
      ++ codes " | PointeeRegion="
      ++ hex_value e.pointee_region_base
      ++ codes "+"
      ++ hex_value e.pointee_region_size
      ++ (if not e.pointee_sample_read then [] else objects_summary e)

-- The end of `GTA_Target_Evidence_Probe::Probe`.
unfoldable pub summary : CandidateKind → Evidence → Text
unfolding candidate_summary sample_summary pointee_summary
summary kind e = candidate_summary kind e ++ sample_summary kind e ++ pointee_summary kind e
