-- ===== src/Tests/Startup.antt =====
-- Runs of src/Runtime/Runtime_Manager.cpp.
use devilz_den.Prelude.{
  ℕ, ◌-◌, ◌≡◌, refl, [], ◌∷◌, true, false, none, some, get_or, codes, Text-discrete, ℕ_discrete,
}
use devilz_den.Prelude.Map.{insert_or_assign}
use devilz_den.Backend.Error.{success, fail_runtime}
use devilz_den.Backend.Range.{Memory, bytes_at, write_bytes, little_endian}
use devilz_den.Backend.Process.{ModuleInfo}
use devilz_den.System.{
  SystemQuery, is_executable_protection, is_executable_image, is_executable_image_address,
  is_readable_protection, is_readable_region, is_readable_address,
}
use devilz_den.Natives.Manager.{no_build}
use devilz_den.Natives.Bootstrap
use devilz_den.Natives.Bootstrap.{
  new_bootstrap, supported_fingerprint, find_definition, load_handlers, finish, load_definitions,
}
use devilz_den.Targets.Status.{
  TargetId, init_native_tables, run_script_threads, script_threads, TargetState,
}
use devilz_den.Targets.Evidence.{pointer_storage, no_evidence}
use devilz_den.Targets.Resolver.{Resolution}
use devilz_den.Runtime.Detector.{x64}
use devilz_den.Runtime.ModuleManager.{ModuleStatus, runtime_unverified, new_module_manager}
use devilz_den.Runtime.Bridge.{
  CodeSystem, new_bridge, verified_prologue, absolute_jump, write_executable, patch,
  fill_trampoline, may_install, finish_install, install_code, install,
}
use devilz_den.Runtime.Bridge.Code.{LeavesCode}
use devilz_den.Runtime.RuntimeManager.{
  Host, RuntimeManager, HookTargets, init_native_tables_in, initialize_in_module,
  initialize_native_manager, take_target, collect_targets, install_at,
  initialize_game_thread_bridge, set_up, stop,
}
use devilz_den.Runtime.RuntimeManager.Setup.{IsHooked, set_up-IsHooked, stop-set_up}

abbrev image_query : SystemQuery
image_query address = some (record {
  base_address = 4096;
  region_size = 65536;
  state = 4096;
  protect = 32;
  memory_type = 16777216;
})

abbrev code_memory : Memory
code_memory x = get_or verified_prologue (x - 8192) 0

abbrev system : CodeSystem
system = record {
  query = image_query;
  allocated = 131072;
  unlocks = true;
  locks = true;
  hook_thunk = 70000;
}

abbrev game_module : ModuleInfo
game_module = record { name = codes "GTA5_Enhanced.exe"; base_address = 4096; image_size = 65536 }

abbrev host : Host
host = record {
  world = record {
    current = fail_runtime "no process";
    image = record {
      current_process_id = 4;
      module_handle = 0;
      last_error = 0;
      memory = λ a. 0;
      open_file = λ path. none;
    };
    environment = record {
      read_memory = λ pid address size. fail_runtime "unreadable";
      find_module = λ pid name. fail_runtime "no module";
      probe = λ pid kind address. no_evidence;
    };
  };
  find_module = λ pid name. success game_module;
  query = image_query;
  game = λ address hashes. 5001 ∷ 5002 ∷ 5003 ∷ 5004 ∷ 5005 ∷ 5006 ∷ [];
  code = system;
  self = 1;
}

abbrev target : TargetId → ℕ → ℕ → Resolution
target id address dispatch = record {
  status = record {
    id = id;
    state = TargetState.validated;
    required = true;
    name = [];
    detail = [];
  };
  candidate_kind = pointer_storage;
  evidence = record no_evidence { dominant_address = dispatch };
  address = address;
  candidates = address ∷ [];
}

abbrev status : ModuleStatus
status = record {
  state = runtime_unverified;
  process = some (record {
    pid = 4;
    executable_name = codes "GTA5_Enhanced.exe";
    executable_path = [];
    architecture = x64;
    running = true;
  });
  build = some (record no_build { fingerprint = supported_fingerprint });
  profile = none;
  target_report = some (record {
    fingerprint = supported_fingerprint;
    targets =
        target script_threads 9000 9500
        ∷ target run_script_threads 8192 0
        ∷ target init_native_tables 5000 0
        ∷ [];
  });
  detail = [];
}

abbrev fresh : RuntimeManager
fresh = record {
  running = true;
  gta = new_module_manager;
  natives = new_bootstrap;
  bridge = new_bridge;
  machine = record { memory = code_memory; active = 0 };
}

abbrev started : RuntimeManager
started = set_up host fresh (success status)

started-installed : (set_up host fresh (success status)).bridge.installed ≡ true
unfolding set_up initialize_native_manager initialize_in_module init_native_tables_in
    initialize_game_thread_bridge install_at collect_targets take_target Bootstrap.initialize
    load_definitions find_definition load_handlers finish is_executable_image_address
    is_executable_image is_executable_protection insert_or_assign install may_install install_code
    finish_install write_executable patch fill_trampoline absolute_jump little_endian write_bytes
    bytes_at is_readable_address is_readable_region is_readable_protection Text-discrete ℕ_discrete
started-installed = refl

set_up-IsHooked_example :
    (a : HookTargets) × IsHooked started.natives status.target_report a
    × (started.bridge
        ≡ (install system 1 true new_bridge
            (record { memory = code_memory; active = 0 })
            a.function
            a.storage
            a.dispatch).0.0)
set_up-IsHooked_example = set_up-IsHooked host fresh status refl started-installed

stop-set_up_example :
    ((stop host started).running ≡ false)
    × ((stop host started).natives ≡ new_bootstrap)
    × LeavesCode system
        (record { memory = code_memory; active = 0 })
        ((stop host started).bridge, (stop host started).machine)
stop-set_up_example = stop-set_up host system fresh status refl refl (λ e. refl) refl
