-- ===== src/Runtime/GtaRuntime.antt =====
-- Runtime/GTA_Runtime.hpp, GTA_Runtime.cpp, Game_State.hpp and Memory/GTA_Pointers.hpp: the runtime of a game
-- build, which owns the script runtime, the native manager, the native table and the indexed
-- handlers. Its invoker refers to the last three, so of the invoker only the counters are kept
-- here. The file manager is the argument `read`; what is logged is left out.
pub mod States
pub mod Lifecycle
use devilz_den.Prelude.{ℕ, List, Bool, true, false, not, ◌&&◌, some, ◌==◌, if◌then◌else◌, Text}
use devilz_den.Backend.Error.{Result, success, failure, fail_runtime}
use devilz_den.Backend.Range.{Pointer, null, is_null}
use devilz_den.Natives.Manager
use devilz_den.Natives.Manager.{BuildInfo, no_build, NativeManager, new_manager}
use devilz_den.Natives.Table
use devilz_den.Natives.Table.{NativeTable, Registration}
use devilz_den.Natives.HandlerTable
use devilz_den.Natives.HandlerTable.{HandlerTable}
use devilz_den.Natives.Invoker
use devilz_den.Natives.Invoker.{Invoker, InvokeStats}
use devilz_den.Natives.CallContext.{CallContext}
use devilz_den.Script.Runtime
use devilz_den.Script.Runtime.{ScriptRuntime, new_runtime}

pub record GtaPointers : Type 0 where
  pub native_table : Pointer
  pub init_native_tables : Pointer
  pub game_state : Pointer
  pub script_globals : Pointer
  pub script_threads : Pointer
  pub program_table : Pointer
  pub script_vm : Pointer
  pub frame_count : Pointer

abbrev pub no_pointers : GtaPointers
no_pointers = record {
  native_table = null;
  init_native_tables = null;
  game_state = null;
  script_globals = null;
  script_threads = null;
  program_table = null;
  script_vm = null;
  frame_count = null;
}

-- `CoreReady`, `NativeBootstrapReady`, `ScriptReady` and `Ready` of the pointers.
abbrev pub core_ready : GtaPointers → Bool
core_ready p = not (is_null p.game_state) && not (is_null p.script_globals)

abbrev pub native_bootstrap_ready : GtaPointers → Bool
native_bootstrap_ready p = not (is_null p.init_native_tables)

abbrev pub script_ready : GtaPointers → Bool
script_ready p =
    not (is_null p.script_globals)
    && not (is_null p.script_threads)
    && not (is_null p.program_table)

abbrev pub pointers_ready : GtaPointers → Bool
pointers_ready p = core_ready p && script_ready p

pub data GameState : Type 0 where
  unknown booting loading playing paused transitioning shutting_down : GameState

pub data GtaState : Type 0 where
  created initializing ready degraded failed stopped : GtaState

pub record GtaRuntime : Type 0 where
  pub build : BuildInfo
  pub pointers : GtaPointers
  pub scripts : ScriptRuntime
  pub natives : NativeManager
  pub table : NativeTable
  pub handlers : HandlerTable
  pub stats : InvokeStats
  pub state : GtaState
  pub game_state : GameState

abbrev pub new_gta_runtime : GtaRuntime
new_gta_runtime = record {
  build = no_build;
  pointers = no_pointers;
  scripts = new_runtime;
  natives = new_manager;
  table = List.[];
  handlers = record { hashes = List.[]; handlers = List.[]; validated = List.[] };
  stats = record { calls = 0; failures = 0; cache_hits = 0; table_hits = 0; indexed_hits = 0 };
  state = created;
  game_state = GameState.unknown;
}

-- `GTA_Runtime::Ready`.
abbrev pub is_ready : GtaRuntime → Bool
is_ready r = elim r.state [
  | created ↦ false
  | initializing ↦ false
  | ready ↦ true
  | degraded ↦ false
  | failed ↦ false
  | stopped ↦ false
]

-- `GTA_Runtime::ValidatePointers`.
unfoldable pub validate_pointers : GtaPointers → Result (Unit {0})
validate_pointers p =
    if is_null p.native_table
    then fail_runtime "GTA native table pointer is unresolved"
    else if is_null p.game_state
    then fail_runtime "GTA game-state pointer is unresolved"
    else success tt

-- The native manager's part of `GTA_Runtime::Initialize`: its failure is not one of the runtime.
unfoldable pub initialize_natives :
    (Text → Result Text) → GtaRuntime → Text → GtaRuntime × Result (Unit {0})
initialize_natives read r path =
    let (natives, result) = Manager.initialize read r.natives r.build path in
    elim result [
      | failure e ↦ (record r { natives = natives; state = degraded }, success tt)
      | success _ ↦ (record r { natives = natives; state = ready }, success tt)
    ]

-- The script runtime's part, from its result on.
unfoldable pub after_scripts :
    (Text → Result Text)
    → GtaRuntime
    → Text
    → ScriptRuntime × Result (Unit {0})
    → GtaRuntime × Result (Unit {0})
unfolding initialize_natives
after_scripts read r path (scripts, failure e) =
    (record r { scripts = scripts; state = failed }, failure e)
after_scripts read r path (scripts, success _) =
    initialize_natives read (record r { scripts = scripts }) path

unfoldable pub initialize_scripts :
    (Text → Result Text) → GtaRuntime → Text → GtaRuntime × Result (Unit {0})
unfolding after_scripts
initialize_scripts read r path = after_scripts read r path (Runtime.initialize r.scripts r.build)

-- `GTA_Runtime::Initialize`.
unfoldable pub initialize :
    (Text → Result Text)
    → GtaRuntime
    → BuildInfo
    → GtaPointers
    → Text
    → GtaRuntime × Result (Unit {0})
unfolding validate_pointers initialize_scripts
initialize read r build pointers path =
    let begun = record r { build = build; pointers = pointers; state = initializing } in
    if build.fingerprint == 0
    then (
      record begun { state = failed },
      fail_runtime "GTA runtime requires a validated build fingerprint",
    )
    else elim (validate_pointers pointers) [
      | failure e ↦ (record begun { state = failed }, failure e)
      | success _ ↦ initialize_scripts read begun path
    ]

-- `GTA_Runtime::Shutdown`.
unfoldable pub shutdown : GtaRuntime → GtaRuntime
shutdown r = record r {
  state = stopped;
  game_state = GameState.unknown;
  handlers = HandlerTable.clear r.handlers;
  table = Table.clear r.table;
  natives = Manager.shutdown r.natives;
  scripts = Runtime.shutdown r.scripts;
  pointers = no_pointers;
  build = no_build;
}

-- `SetGameState`.
abbrev pub set_game_state : GtaRuntime → GameState → GtaRuntime
set_game_state r s = record r { game_state = s }

-- The invoker of the runtime, which works on the runtime's own manager, table and handlers.
abbrev pub invoker_of : GtaRuntime → Invoker
invoker_of r = record {
  manager = r.natives;
  table = r.table;
  indexed_handlers = some r.handlers;
  stats = r.stats;
}

abbrev pub with_invoker : GtaRuntime → Invoker → GtaRuntime
with_invoker r v = record r { natives = v.manager; table = v.table; stats = v.stats }
