-- ===== src/Targets/Status.antt =====
-- Runtime/GTA_Runtime_Target.hpp: the targets, how far each has been verified, and its status.
use devilz_den.Prelude.{ℕ, Bool, true, false, ◌==◌, Text}

pub data TargetId : Type 0 where
  game_state frame_count script_globals program_table script_threads : TargetId
  run_script_threads init_native_tables native_table : TargetId

-- The number of the enumerator, by which two ids are compared.
abbrev pub id_number : TargetId → ℕ
id_number game_state = 0
id_number frame_count = 1
id_number script_globals = 2
id_number program_table = 3
id_number script_threads = 4
id_number run_script_threads = 5
id_number init_native_tables = 6
id_number native_table = 7

abbrev pub same_id : TargetId → TargetId → Bool
same_id a b = id_number a == id_number b

pub data TargetState : Type 0 where
  unknown missing located structurally_validated validated failed : TargetState

-- The tests that the counters of the source make of a state.
abbrev pub is_located : TargetState → Bool
is_located unknown = false
is_located missing = false
is_located located = true
is_located structurally_validated = true
is_located validated = true
is_located failed = false

abbrev pub is_validated : TargetState → Bool
is_validated unknown = false
is_validated missing = false
is_validated located = false
is_validated structurally_validated = false
is_validated validated = true
is_validated failed = false

pub record TargetStatus : Type 0 where
  pub id : TargetId
  pub state : TargetState
  pub required : Bool
  pub name : Text
  pub detail : Text
