-- ===== src/Runtime/RuntimeManager.antt =====
-- src/Runtime/Runtime_Manager.hpp and Runtime_Manager.cpp: how the module manager, the native manager and
-- the bridge are put together when the library starts and stops. The world of the refresh, the
-- module lookup, the game's own code and the answers of the operating system are parameters. The
-- logger, the threads and exceptions are left out.
pub mod Setup
use devilz_den.Prelude.{
  ℕ, List, [], ◌∷◌, Bool, true, false, not, ◌&&◌, ◌||◌, Option, none, some, ◌==◌, if◌then◌else◌,
  Text, codes,
}
use devilz_den.Backend.Error.{Result, success, failure}
use devilz_den.Backend.Process.{ModuleInfo}
use devilz_den.System.{SystemQuery}
use devilz_den.Natives.Manager.{BuildInfo}
use devilz_den.Natives.Bootstrap
use devilz_den.Natives.Bootstrap.{Bootstrap}
use devilz_den.Targets.Status.{
  init_native_tables, run_script_threads, script_threads, same_id, is_validated,
}
use devilz_den.Targets.Resolver.{Resolution}
use devilz_den.Targets.Coordinator.{Report}
use devilz_den.Runtime.Detector.{ProcessInfo}
use devilz_den.Runtime.ModuleManager.{ModuleManager, ModuleStatus, World, refresh}
use devilz_den.Runtime.Bridge
use devilz_den.Runtime.Bridge.{Bridge, Machine, CodeSystem, install}

-- The members that start and stop, and the memory that the bridge patches.
pub record RuntimeManager : Type 0 where
  pub running : Bool
  pub gta : ModuleManager
  pub natives : Bootstrap
  pub bridge : Bridge
  pub machine : Machine

-- What lies outside during one call: the world of the refresh, the module lookup of a process,
-- what is mapped, the game's initialiser of native tables, the operating system towards the bridge,
-- and the address of the bridge.
pub record Host : Type 0 where
  pub world : World
  pub find_module : ℕ → Text → Result ModuleInfo
  pub query : SystemQuery
  pub game : ℕ → List ℕ → List ℕ
  pub code : CodeSystem
  pub self : ℕ

-- The first validated target InitNativeTables of the report, or 0.
unfoldable pub init_native_tables_in : List Resolution → ℕ
init_native_tables_in [] = 0
init_native_tables_in (t ∷ ts) =
    let rest = init_native_tables_in ts in
    if same_id t.status.id init_native_tables && is_validated t.status.state
    then t.address
    else rest

-- `InitializeNativeManager` from the module lookup on.
unfoldable pub initialize_in_module :
    Host → Bootstrap → BuildInfo → ℕ → Result ModuleInfo → Bootstrap
initialize_in_module h natives build address (failure e) = natives
initialize_in_module h natives build address (success m) =
    (Bootstrap.initialize h.query h.game natives address m.base_address m.image_size
      build.fingerprint).0

-- `InitializeNativeManager`.
unfoldable pub initialize_native_manager :
    Host → Bootstrap → Option ProcessInfo → Option BuildInfo → Option Report → Bootstrap
unfolding initialize_in_module init_native_tables_in
initialize_native_manager h natives none build report = natives
initialize_native_manager h natives (some p) none report = natives
initialize_native_manager h natives (some p) (some build) none = natives
initialize_native_manager h natives (some p) (some build) (some report) =
    let address = init_native_tables_in report.targets in
    if address == 0
    then natives
    else initialize_in_module h natives build address
        (h.find_module p.pid (codes "GTA5_Enhanced.exe"))

-- The three addresses that `InitializeGameThreadBridge` collects.
pub record HookTargets : Type 0 where
  pub function : ℕ
  pub storage : ℕ
  pub dispatch : ℕ

unfoldable pub take_target : HookTargets → Resolution → HookTargets
take_target a t =
    if not (is_validated t.status.state)
    then a
    else if same_id t.status.id run_script_threads
    then record a { function = t.address }
    else if same_id t.status.id script_threads
    then record a { storage = t.address; dispatch = t.evidence.dominant_address }
    else a

unfoldable pub collect_targets : HookTargets → List Resolution → HookTargets
unfolding take_target
collect_targets a [] = a
collect_targets a (t ∷ ts) = collect_targets (take_target a t) ts

-- `InitializeGameThreadBridge` from the loop on.
unfoldable pub install_at : Host → Bootstrap → Bridge → Machine → HookTargets → Bridge × Machine
install_at h natives b w a =
    if a.function == 0 || a.storage == 0 || a.dispatch == 0
    then (b, w)
    else (install h.code h.self natives.ready b w a.function a.storage a.dispatch).0

-- `InitializeGameThreadBridge`.
unfoldable pub initialize_game_thread_bridge :
    Host → Bootstrap → Bridge → Machine → Option Report → Bridge × Machine
unfolding install_at collect_targets
initialize_game_thread_bridge h natives b w none = (b, w)
initialize_game_thread_bridge h natives b w (some report) =
    if not natives.ready
    then (b, w)
    else install_at h natives b w
        (collect_targets (record { function = 0; storage = 0; dispatch = 0 }) report.targets)

-- The part of `Start` from the result of the refresh on.
unfoldable pub set_up : Host → RuntimeManager → Result ModuleStatus → RuntimeManager
unfolding initialize_native_manager initialize_game_thread_bridge
set_up h r (failure e) = r
set_up h r (success s) =
    let natives = initialize_native_manager h r.natives s.process s.build s.target_report in
    let (bridge, machine) =
      initialize_game_thread_bridge h natives r.bridge r.machine s.target_report in
    record r { natives = natives; bridge = bridge; machine = machine }

-- `Start`.
unfoldable pub start : Host → RuntimeManager → RuntimeManager
unfolding set_up refresh
start h r =
    if r.running
    then r
    else (let (gta, refreshed) = refresh r.gta h.world in
        set_up h (record r { running = true; gta = gta }) refreshed)

-- `Stop`.
unfoldable pub stop : Host → RuntimeManager → RuntimeManager
stop h r =
    if not r.running
    then r
    else (let (bridge, machine) = Bridge.uninstall h.code h.self r.bridge r.machine in
        record r {
          running = false;
          natives = Bootstrap.reset r.natives;
          bridge = bridge;
          machine = machine;
        })
