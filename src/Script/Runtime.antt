-- ===== src/Script/Runtime.antt =====
-- Script/Script_Runtime_Manager.hpp and Script_Runtime_Manager.cpp: the script runtime, which owns
-- the thread table, the program table and the globals.
pub mod Lifecycle
use devilz_den.Prelude.{[], Bool, true, false, ◌==◌, if◌then◌else◌}
use devilz_den.Backend.Error.{Result, success, fail_runtime}
use devilz_den.Natives.Manager.{BuildInfo, no_build}
use devilz_den.Script.Globals
use devilz_den.Script.Globals.{GlobalManager, new_globals}
use devilz_den.Script.Tables.{Vm, ProgramTable, clear_threads, clear_programs}

pub data RuntimeState : Type 0 where
  created : RuntimeState
  initializing : RuntimeState
  ready : RuntimeState
  failed : RuntimeState
  stopped : RuntimeState

pub record ScriptRuntime : Type 0 where
  pub build : BuildInfo
  pub programs : ProgramTable
  pub vm : Vm
  pub globals : GlobalManager
  pub state : RuntimeState

abbrev pub new_runtime : ScriptRuntime
new_runtime = record {
  build = no_build;
  programs = [];
  vm = [];
  globals = new_globals;
  state = created;
}

-- `Script_Runtime_Manager::Initialize`. A failure leaves the build and the tables as they were.
unfoldable pub initialize : ScriptRuntime → BuildInfo → ScriptRuntime × Result (Unit {0})
initialize r build =
    if build.fingerprint == 0
    then (
      record {
        build = r.build;
        programs = r.programs;
        vm = r.vm;
        globals = r.globals;
        state = failed;
      },
      fail_runtime "Script runtime requires a validated GTA build fingerprint",
    )
    else (
      record {
        build = build;
        programs = clear_programs r.programs;
        vm = clear_threads r.vm;
        globals = Globals.clear r.globals;
        state = ready;
      },
      success tt,
    )

-- `Script_Runtime_Manager::Shutdown`.
unfoldable pub shutdown : ScriptRuntime → ScriptRuntime
shutdown r = record {
  build = no_build;
  programs = clear_programs r.programs;
  vm = clear_threads r.vm;
  globals = Globals.clear r.globals;
  state = stopped;
}

-- `Script_Runtime_Manager::Ready`.
unfoldable pub is_ready : ScriptRuntime → Bool
is_ready r = elim r.state [
  | created ↦ false
  | initializing ↦ false
  | ready ↦ true
  | failed ↦ false
  | stopped ↦ false
]
