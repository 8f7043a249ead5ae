-- ===== src/Runtime/GtaRuntime/States.antt =====
-- What the states of the runtime of Runtime/GTA_Runtime.cpp say of its parts.
use devilz_den.Prelude.{
  ◌≡◌, ◌≢◌, ◌↔◌, refl, sym, subst, [], true, false, ◌==◌, arith, Bool-cases, ◌⊎◌, inl, inr, Text,
}
use devilz_den.Backend.Error.{Result, success, failure, has_value}
use devilz_den.Backend.Range.{is_null}
use devilz_den.Natives.Manager
use devilz_den.Natives.Manager.{BuildInfo, no_build, NativeManager}
use devilz_den.Natives.Table
use devilz_den.Natives.Table.{NativeTable}
use devilz_den.Natives.HandlerTable
use devilz_den.Natives.HandlerTable.{HandlerTable}
use devilz_den.Natives.Crossmap
use devilz_den.Script.Runtime
use devilz_den.Script.Runtime.{ScriptRuntime}
use devilz_den.Script.Globals
use devilz_den.Script.Tables.{clear_threads, clear_programs}
use devilz_den.Runtime.GtaRuntime.{
  GtaPointers, no_pointers, GameState, GtaState, created, initializing, ready, degraded, failed,
  stopped, GtaRuntime, new_gta_runtime, validate_pointers, initialize_natives, initialize_scripts,
  after_scripts, initialize, shutdown,
}

-- A runtime that is set up for a build.
pub record IsSetUp (r : GtaRuntime) : Type 0 where
  pub identified : r.build.fingerprint ≢ 0
  pub has_native_table : is_null r.pointers.native_table ≡ false
  pub has_game_state : is_null r.pointers.game_state ≡ false
  pub scripts_ready : Runtime.is_ready r.scripts ≡ true
  pub scripts_build : r.scripts.build ≡ r.build
  pub natives_build : r.natives.build ≡ r.build

-- A runtime that holds nothing of a build.
pub record IsCleared (r : GtaRuntime) : Type 0 where
  pub no_build : r.build ≡ no_build
  pub no_pointers : r.pointers ≡ no_pointers
  pub scripts_off : Runtime.is_ready r.scripts ≡ false
  pub natives_off : r.natives.ready ≡ false

-- A runtime that holds nothing at all: no build and pointers, and nothing in the tables of its parts.
pub record IsEmptied (r : GtaRuntime) : Type 0 where
  pub cleared : IsCleared r
  pub in_stopped : r.state ≡ stopped
  pub game_unknown : r.game_state ≡ GameState.unknown
  pub no_registrations : r.table ≡ []
  pub no_hashes : r.handlers.hashes ≡ []
  pub no_handlers : r.handlers.handlers ≡ []
  pub no_flags : r.handlers.validated ≡ []
  pub no_cache : r.natives.cache ≡ []
  pub no_translations : r.natives.crossmap.by_canonical ≡ []
  pub no_inverse : r.natives.crossmap.by_runtime ≡ []
  pub no_threads : r.scripts.vm ≡ []
  pub no_programs : r.scripts.programs ≡ []
  pub no_blocks : r.scripts.globals.blocks ≡ []

-- What each state says of the parts.
abbrev pub SaysOf : GtaRuntime → GtaState → Type 0
SaysOf r created = IsCleared r
SaysOf r initializing = ⊥
SaysOf r ready = IsSetUp r × (r.natives.ready ≡ true)
SaysOf r degraded = IsSetUp r × (r.natives.ready ≡ false)
SaysOf r failed = (r.build.fingerprint ≡ 0) ⊎ (has_value (validate_pointers r.pointers) ≡ false)
SaysOf r stopped = IsCleared r

abbrev pub IsSound : GtaRuntime → Type 0
IsSound r = SaysOf r r.state

pub new_gta_runtime-IsSound : IsSound new_gta_runtime
unfolding Runtime.is_ready
new_gta_runtime-IsSound = record {
  no_build = refl;
  no_pointers = refl;
  scripts_off = refl;
  natives_off = refl;
}

-- The native manager takes the build over, and is ready exactly if it succeeds.
initialize-natives_build :
    (read : Text → Result Text) (m : NativeManager) (build : BuildInfo) (path : Text)
    → ((Manager.initialize read m build path).0.build ≡ build)
      × ((Manager.initialize read m build path).0.ready
          ≡ has_value (Manager.initialize read m build path).1)
unfolding Manager.initialize
initialize-natives_build read m build path = ground arith

-- A runtime whose scripts are set up for its build.
record HasScripts (r : GtaRuntime) : Type 0 where
  identified : r.build.fingerprint ≢ 0
  has_pointers : has_value (validate_pointers r.pointers) ≡ true
  scripts_ready : Runtime.is_ready r.scripts ≡ true
  scripts_build : r.scripts.build ≡ r.build

-- What an initialisation for a build leaves, and whether it succeeded.
abbrev pub Outcome : BuildInfo → GtaPointers → GtaRuntime × Result (Unit {0}) → Type 0
Outcome build pointers x =
    IsSound x.0
    × ((has_value x.1 ≡ true)
        ↔ ((build.fingerprint ≢ 0) × (has_value (validate_pointers pointers) ≡ true)))

settled :
    (r : GtaRuntime) (m : NativeManager) (result : Result (Unit {0}))
    → HasScripts r
    → m.build ≡ r.build
    → m.ready ≡ has_value result
    → Outcome r.build r.pointers (elim result [
      | failure e ↦ (record r { natives = m; state = degraded }, success tt)
      | success _ ↦ (record r { natives = m; state = ready }, success tt)
    ])
unfolding validate_pointers
settled r m (failure x) h build e = (
  (
    record {
      identified = h.identified;
      has_native_table = ground (arith, h.has_pointers);
      has_game_state = ground (arith, h.has_pointers);
      scripts_ready = h.scripts_ready;
      scripts_build = h.scripts_build;
      natives_build = build;
    },
    e,
  ),
  (λ _. (h.identified, h.has_pointers), λ _. refl),
)
settled r m (success x) h build e = (
  (
    record {
      identified = h.identified;
      has_native_table = ground (arith, h.has_pointers);
      has_game_state = ground (arith, h.has_pointers);
      scripts_ready = h.scripts_ready;
      scripts_build = h.scripts_build;
      natives_build = build;
    },
    e,
  ),
  (λ _. (h.identified, h.has_pointers), λ _. refl),
)

initialize_natives-Outcome :
    (read : Text → Result Text) (r : GtaRuntime) (path : Text)
    → HasScripts r
    → Outcome r.build r.pointers (initialize_natives read r path)
unfolding initialize_natives
initialize_natives-Outcome read r path h =
    let (build, same) = initialize-natives_build read r.natives r.build path in
    settled r (Manager.initialize read r.natives r.build path).0
      (Manager.initialize read r.natives r.build path).1 h build same

-- The scripts of the runtime after they have been initialised.
abbrev started : GtaRuntime → ScriptRuntime
started r = record {
  build = r.build;
  programs = clear_programs r.scripts.programs;
  vm = clear_threads r.scripts.vm;
  globals = Globals.clear r.scripts.globals;
  state = Runtime.ready;
}

scripts-initialize :
    (r : GtaRuntime)
    → r.build.fingerprint ≢ 0
    → Runtime.initialize r.scripts r.build ≡ (started r, success tt)
unfolding Runtime.initialize
scripts-initialize r f = ground (arith, f)

initialize_scripts-Outcome :
    (read : Text → Result Text) (r : GtaRuntime) (path : Text)
    → r.build.fingerprint ≢ 0
    → has_value (validate_pointers r.pointers) ≡ true
    → Outcome r.build r.pointers (initialize_scripts read r path)
unfolding initialize_scripts after_scripts Runtime.is_ready
initialize_scripts-Outcome read r path f v =
    subst (λ x. Outcome r.build r.pointers (after_scripts read r path x))
      (sym (scripts-initialize r f))
      (initialize_natives-Outcome read (record r { scripts = started r }) path
        (record { identified = f; has_pointers = v; scripts_ready = refl; scripts_build = refl }))

pub initialize-Outcome :
    (read : Text → Result Text) (r : GtaRuntime) (build : BuildInfo) (pointers : GtaPointers)
    (path : Text)
    → Outcome build pointers (initialize read r build pointers path)
unfolding initialize
initialize-Outcome read r build pointers path = elim (Bool-cases (build.fingerprint == 0)) [
  | inl z ↦
      rw z (inl (ground (arith, z)), (λ e. absurd (apart e), λ e. absurd (e.0 (ground (arith, z)))))
  | inr n ↦ rw n (validated (validate_pointers pointers) refl (ground (arith, n)))
]
  where
    apart : false ≡ true → ⊥
    apart e = cc

    begun : GtaRuntime
    begun = record r { build = build; pointers = pointers; state = initializing }

    validated :
        (o : Result (Unit {0}))
        → validate_pointers pointers ≡ o
        → build.fingerprint ≢ 0
        → Outcome build pointers (elim o [
          | failure e ↦ (record begun { state = failed }, failure e)
          | success _ ↦ initialize_scripts read begun path
        ])
    validated (failure x) q n = (inr (rw q refl), (λ e. absurd (apart e), λ e. rw q at e.1))
    validated (success x) q n = initialize_scripts-Outcome read begun path n (rw q refl)

pub shutdown-IsSound : (r : GtaRuntime) → IsSound (shutdown r)
unfolding shutdown Manager.shutdown Runtime.shutdown Runtime.is_ready
shutdown-IsSound r = record {
  no_build = refl;
  no_pointers = refl;
  scripts_off = refl;
  natives_off = refl;
}

pub shutdown-IsEmptied : (r : GtaRuntime) → IsEmptied (shutdown r)
unfolding shutdown Manager.shutdown Runtime.shutdown Table.clear HandlerTable.clear Crossmap.clear
    Globals.clear
shutdown-IsEmptied r = record {
  cleared = shutdown-IsSound r;
  in_stopped = refl;
  game_unknown = refl;
  no_registrations = refl;
  no_hashes = refl;
  no_handlers = refl;
  no_flags = refl;
  no_cache = refl;
  no_translations = refl;
  no_inverse = refl;
  no_threads = refl;
  no_programs = refl;
  no_blocks = refl;
}
