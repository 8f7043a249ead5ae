-- ===== src/Tests/Runtime.antt =====
-- Runs of Integrations/GTA5_Enhanced/GTA_Module_Manager.cpp, Runtime and Memory/GTA_Target_Evidence.cpp.
use devilz_den.Prelude.{
  ℕ, ◌≤◌, ◌≡◌, ◌≢◌, ◌↔◌, refl, List, [], ◌∷◌, true, false, none, some, ◌==◌, if◌then◌else◌, Text,
  codes, arith, inr, none-some,
}
use devilz_den.Backend.Error.{Result, success, fail_runtime, has_value}
use devilz_den.Backend.Process.{SystemRead}
use devilz_den.Backend.Range.{Memory, Pointer, is_null, read_bytes}
use devilz_den.System.{SystemQuery}
use devilz_den.Natives.Manager.{BuildInfo, no_build}
use devilz_den.Targets.Evidence.{pointer_storage, no_evidence}
use devilz_den.Targets.Probe.{occurrences, dominant, probe}
use devilz_den.Targets.Probe.Dominant.{dominant-IsMode}
use devilz_den.Targets.Probe.Objects.{IsOrdered}
use devilz_den.Targets.Probe.Counters.{probe-IsOrdered}
use devilz_den.Runtime.Detector.{
  ProcessInfo, x64, ImageSystem, make_build_info, detect_loaded_image, detect,
}
use devilz_den.Runtime.Detector.Fingerprint.{IsDetected, IsBytes, detect-IsIdentified}
use devilz_den.Runtime.ModuleManager.{World, new_module_manager, supported, refresh}
use devilz_den.Runtime.ModuleManager.Refreshes.{IsCoherent, refresh-IsCoherent}
use devilz_den.Runtime.ModuleManager.Unverified.{refresh_all, refresh-unsupported}
use devilz_den.Runtime.GtaRuntime
use devilz_den.Runtime.GtaRuntime.{playing, GtaPointers, no_pointers, new_gta_runtime}
use devilz_den.Runtime.GtaRuntime.States.{IsSound, IsEmptied}
use devilz_den.Runtime.GtaRuntime.Lifecycle.{
  Operation, start, stop, enter, change_table, apply, run, run-IsSound, initialize-succeeds,
}

-- The headers of an image at 65536: its new header is at 64 behind it.
abbrev image_memory : Memory
image_memory a =
    if a == 65536
    then 77
    else if a == 65537
    then 90
    else if a == 65596
    then 64
    else if a == 65600
    then 80
    else if a == 65601
    then 69
    else if a == 65608
    then 7
    else if a == 65624
    then 11
    else if a == 65625
    then 2
    else if a == 65681
    then 16
    else 0

abbrev image : ImageSystem
image = record {
  current_process_id = 4;
  module_handle = 65536;
  last_error = 0;
  memory = image_memory;
  open_file = λ path. none;
}

abbrev game_process : ProcessInfo
game_process = record {
  pid = 4;
  executable_name = codes "gta5_enhanced.EXE";
  executable_path = codes "C:\\GTA5_Enhanced.exe";
  architecture = x64;
  running = true;
}

image-detected : detect image game_process ≡ success (make_build_info game_process 7 4096)
unfolding detect detect_loaded_image make_build_info read_bytes
image-detected = refl

image-IsBytes : IsBytes image_memory
image-IsBytes a = ground arith

detect-IsIdentified_example : IsDetected image game_process (make_build_info game_process 7 4096)
detect-IsIdentified_example =
    detect-IsIdentified image game_process (make_build_info game_process 7 4096) image-IsBytes
      (λ path bytes e. absurd (none-some e)) image-detected

abbrev world : World
world = record {
  current = success game_process;
  image = image;
  environment = record {
    read_memory = λ pid address size. fail_runtime "unreadable";
    find_module = λ pid name. fail_runtime "no module";
    probe = λ pid kind address. no_evidence;
  };
}

refresh-IsCoherent_example :
    IsCoherent
      (refresh new_module_manager world).0.build_registry
      (refresh new_module_manager world).0.status
    × ((refresh new_module_manager world).1 ≡ success (refresh new_module_manager world).0.status)
refresh-IsCoherent_example = refresh-IsCoherent new_module_manager world

refresh-unsupported_example :
    (refresh (refresh_all new_module_manager (world ∷ [])) world).0.status.state ≢ supported
refresh-unsupported_example = refresh-unsupported (world ∷ []) world

abbrev read_nothing : Text → Result Text
read_nothing path = fail_runtime "no file"

abbrev game_build : BuildInfo
game_build = record no_build { fingerprint = 9 }

abbrev at : ℕ → Pointer
at address = record { address = address }

abbrev game_pointers : GtaPointers
game_pointers = record no_pointers { native_table = at 4096; game_state = at 8192 }

abbrev calls : List Operation
calls = start read_nothing game_build game_pointers (codes "crossmap") ∷ []

abbrev later_calls : List Operation
later_calls = enter playing ∷ change_table [] ∷ []

run-IsSound_example :
    IsSound (run (run new_gta_runtime calls) later_calls)
    × IsEmptied (apply (run (run new_gta_runtime calls) later_calls) stop)
run-IsSound_example =
    run-IsSound calls later_calls (inr ([], calls_reset, refl, refl)) (refl, (refl, tt))
  where
    calls_reset : Operation
    calls_reset = start read_nothing game_build game_pointers (codes "crossmap")

initialize-succeeds_example :
    (has_value
        (GtaRuntime.initialize read_nothing new_gta_runtime game_build game_pointers
          (codes "crossmap")).1
      ≡ true)
    ↔ ((game_build.fingerprint ≢ 0)
        × (is_null game_pointers.native_table ≡ false)
        × (is_null game_pointers.game_state ≡ false))
initialize-succeeds_example =
    initialize-succeeds read_nothing new_gta_runtime game_build game_pointers (codes "crossmap")

dominant-IsMode_example :
    ((y : ℕ) → occurrences y (5 ∷ 7 ∷ 7 ∷ []) ≤ (dominant (5 ∷ 7 ∷ 7 ∷ [])).1)
    × ((dominant (5 ∷ 7 ∷ 7 ∷ [])).1 ≢ 0
        → (dominant (5 ∷ 7 ∷ 7 ∷ [])).1
          ≡ occurrences (dominant (5 ∷ 7 ∷ 7 ∷ [])).0 (5 ∷ 7 ∷ 7 ∷ []))
dominant-IsMode_example = dominant-IsMode (5 ∷ 7 ∷ 7 ∷ [])

-- Every word of the process is 4097, and all of it can be read.
abbrev page_query : SystemQuery
page_query address = some (record {
  base_address = 4096;
  region_size = 65536;
  state = 4096;
  protect = 4;
  memory_type = 131072;
})

abbrev page_read : SystemRead
page_read pid address size =
    success (1 ∷ 16 ∷ 0 ∷ 0 ∷ 0 ∷ 0 ∷ 0 ∷ 0 ∷ 1 ∷ 16 ∷ 0 ∷ 0 ∷ 0 ∷ 0 ∷ 0 ∷ 0 ∷ [])

probe-IsOrdered_example : IsOrdered (probe page_query page_read 4 pointer_storage 8192)
probe-IsOrdered_example = probe-IsOrdered page_query page_read 4 pointer_storage 8192
