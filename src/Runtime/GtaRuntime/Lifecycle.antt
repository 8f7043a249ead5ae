-- ===== src/Runtime/GtaRuntime/Lifecycle.antt =====
-- Any sequence of calls on the runtime of Runtime/GTA_Runtime.cpp.
use devilz_den.Prelude.{
  Option, ℕ, ◌≡◌, ◌≢◌, ◌↔◌, refl, ap, sym, subst, ◌∙◌, List, [], ◌∷◌, ◌++◌, All, Bool, true, false,
  arith, ◌⊎◌, inl, inr, Text,
}
use devilz_den.Backend.Error.{Result, has_value}
use devilz_den.Backend.Range.{is_null}
use devilz_den.Natives.Manager.{BuildInfo, NativeManager}
use devilz_den.Natives.Table.{NativeTable}
use devilz_den.Natives.HandlerTable.{HandlerTable}
use devilz_den.Natives.Invoker
use devilz_den.Natives.Invoker.Managers.{SameBuild, invoke-SameBuild, invoke_index-SameBuild}
use devilz_den.Natives.CallContext.{CallContext}
use devilz_den.Script.Runtime
use devilz_den.Script.Runtime.{ScriptRuntime}
use devilz_den.Runtime.GtaRuntime.{
  GtaPointers, GameState, GtaState, created, initializing, ready, degraded, failed, stopped,
  GtaRuntime, new_gta_runtime, validate_pointers, initialize, shutdown, set_game_state, invoker_of,
  with_invoker,
}
use devilz_den.Runtime.GtaRuntime.States.{
  IsSetUp, IsCleared, IsEmptied, SaysOf, IsSound, new_gta_runtime-IsSound, initialize-Outcome,
  shutdown-IsSound, shutdown-IsEmptied,
}

-- The calls of a client of the runtime. The file manager is the one at the time of the call. What a
-- client does through `NativeTable()`, `NativeHandlers()`, `Scripts()` and `Natives()` leaves some
-- table, some handlers, some script runtime or some native manager; `SetIndexedHandlers` of its invoker
-- gives that some handlers or none.
pub data Operation : Type 0 where
  start : (Text → Result Text) → BuildInfo → GtaPointers → Text → Operation
  stop : Operation
  enter : GameState → Operation
  change_table : NativeTable → Operation
  change_handlers : HandlerTable → Operation
  invoke_native : ℕ → CallContext → Operation
  invoke_slot : Option HandlerTable → ℕ → CallContext → Operation
  change_scripts : ScriptRuntime → Operation
  change_natives : NativeManager → Operation

unfoldable pub apply : GtaRuntime → Operation → GtaRuntime
unfolding initialize shutdown
apply r (start read build pointers path) = (initialize read r build pointers path).0
apply r stop = shutdown r
apply r (enter s) = set_game_state r s
apply r (change_table t) = record r { table = t }
apply r (change_handlers h) = record r { handlers = h }
apply r (invoke_native hash c) = with_invoker r (Invoker.invoke (invoker_of r) hash c).0
apply r (invoke_slot t index c) =
    with_invoker r (Invoker.invoke_index (record (invoker_of r) { indexed_handlers = t }) index c).0
apply r (change_scripts x) = record r { scripts = x }
apply r (change_natives m) = record r { natives = m }

-- The calls that go to the parts behind the runtime's back.
abbrev pub is_behind : Operation → Bool
is_behind (start read build pointers path) = false
is_behind stop = false
is_behind (enter s) = false
is_behind (change_table t) = false
is_behind (change_handlers h) = false
is_behind (invoke_native hash c) = false
is_behind (invoke_slot t index c) = false
is_behind (change_scripts x) = true
is_behind (change_natives m) = true

-- `Initialize` and `Shutdown`.
abbrev pub is_reset : Operation → Bool
is_reset (start read build pointers path) = true
is_reset stop = true
is_reset (enter s) = false
is_reset (change_table t) = false
is_reset (change_handlers h) = false
is_reset (invoke_native hash c) = false
is_reset (invoke_slot t index c) = false
is_reset (change_scripts x) = false
is_reset (change_natives m) = false

unfoldable pub run : GtaRuntime → List Operation → GtaRuntime
unfolding apply
run r [] = r
run r (o ∷ os) = run (apply r o) os

-- A change of parts that no state speaks of.
record SameParts (r q : GtaRuntime) : Type 0 where
  state : q.state ≡ r.state
  build : q.build ≡ r.build
  pointers : q.pointers ≡ r.pointers
  scripts : q.scripts ≡ r.scripts
  natives_ready : q.natives.ready ≡ r.natives.ready
  natives_build : q.natives.build ≡ r.natives.build

IsCleared-SameParts : (r q : GtaRuntime) → SameParts r q → IsCleared r → IsCleared q
IsCleared-SameParts r q k h = record {
  no_build = k.build ∙ h.no_build;
  no_pointers = k.pointers ∙ h.no_pointers;
  scripts_off = ap Runtime.is_ready k.scripts ∙ h.scripts_off;
  natives_off = k.natives_ready ∙ h.natives_off;
}

IsSetUp-SameParts : (r q : GtaRuntime) → SameParts r q → IsSetUp r → IsSetUp q
IsSetUp-SameParts r q k h = record {
  identified = rw k.build h.identified;
  has_native_table = rw k.pointers h.has_native_table;
  has_game_state = rw k.pointers h.has_game_state;
  scripts_ready = ap Runtime.is_ready k.scripts ∙ h.scripts_ready;
  scripts_build = rw (k.scripts, k.build) h.scripts_build;
  natives_build = rw k.build (k.natives_build ∙ h.natives_build);
}

SaysOf-SameParts :
    (r q : GtaRuntime) (state : GtaState) → SameParts r q → SaysOf r state → SaysOf q state
SaysOf-SameParts r q created k h = IsCleared-SameParts r q k h
SaysOf-SameParts r q initializing k h = h
SaysOf-SameParts r q ready k h = (IsSetUp-SameParts r q k h.0, k.natives_ready ∙ h.1)
SaysOf-SameParts r q degraded k h = (IsSetUp-SameParts r q k h.0, k.natives_ready ∙ h.1)
SaysOf-SameParts r q failed k h = rw (k.build, k.pointers) h
SaysOf-SameParts r q stopped k h = IsCleared-SameParts r q k h

with_natives-IsSound :
    (r : GtaRuntime) (v : Invoker.Invoker)
    → SameBuild r.natives v.manager
    → IsSound r
    → IsSound (with_invoker r v)
with_natives-IsSound r v same s =
    SaysOf-SameParts r (with_invoker r v) r.state
      (record {
        state = refl;
        build = refl;
        pointers = refl;
        scripts = refl;
        natives_ready = same.0;
        natives_build = same.1;
      })
      s

-- The changes of the game's state, of the native table and of the indexed handlers.
update-IsSound :
    (r : GtaRuntime) (g : GameState) (t : NativeTable) (h : HandlerTable)
    → IsSound r
    → IsSound (record r { game_state = g; table = t; handlers = h })
update-IsSound r g t h s =
    SaysOf-SameParts r (record r { game_state = g; table = t; handlers = h }) r.state
      (record {
        state = refl;
        build = refl;
        pointers = refl;
        scripts = refl;
        natives_ready = refl;
        natives_build = refl;
      })
      s

apply-IsSound :
    (r : GtaRuntime) (o : Operation) → is_behind o ≡ false → IsSound r → IsSound (apply r o)
unfolding apply
apply-IsSound r (start read build pointers path) b s =
    (initialize-Outcome read r build pointers path).0
apply-IsSound r stop b s = shutdown-IsSound r
apply-IsSound r (enter g) b s = update-IsSound r g r.table r.handlers s
apply-IsSound r (change_table t) b s = update-IsSound r r.game_state t r.handlers s
apply-IsSound r (change_handlers h) b s = update-IsSound r r.game_state r.table h s
apply-IsSound r (invoke_native hash c) b s =
    with_natives-IsSound r (Invoker.invoke (invoker_of r) hash c).0
      (invoke-SameBuild (invoker_of r) hash c) s
apply-IsSound r (invoke_slot t index c) b s =
    with_natives-IsSound r
      (Invoker.invoke_index (record (invoker_of r) { indexed_handlers = t }) index c).0
      (invoke_index-SameBuild (record (invoker_of r) { indexed_handlers = t }) index c) s
apply-IsSound r (change_scripts x) b s = cc
apply-IsSound r (change_natives m) b s = cc

-- `Initialize` and `Shutdown` make the state true whatever was before.
reset-IsSound : (r : GtaRuntime) (o : Operation) → is_reset o ≡ true → IsSound (apply r o)
unfolding apply
reset-IsSound r (start read build pointers path) h =
    (initialize-Outcome read r build pointers path).0
reset-IsSound r stop h = shutdown-IsSound r
reset-IsSound r (enter g) h = cc
reset-IsSound r (change_table t) h = cc
reset-IsSound r (change_handlers x) h = cc
reset-IsSound r (invoke_native hash c) h = cc
reset-IsSound r (invoke_slot t index c) h = cc
reset-IsSound r (change_scripts x) h = cc
reset-IsSound r (change_natives m) h = cc

run-append : (r : GtaRuntime) (os qs : List Operation) → run r (os ++ qs) ≡ run (run r os) qs
unfolding run
run-append r [] qs = refl
run-append r (o ∷ os) qs = run-append (apply r o) os qs

run-IsSound_from :
    (r : GtaRuntime) (os : List Operation)
    → All (λ o. is_behind o ≡ false) os
    → IsSound r
    → IsSound (run r os)
unfolding run
run-IsSound_from r [] b s = s
run-IsSound_from r (o ∷ os) b s = run-IsSound_from (apply r o) os b.1 (apply-IsSound r o b.0 s)

-- A history that is empty, or ends with an `Initialize` or a `Shutdown`.
abbrev pub EndsInReset : List Operation → Type 0
EndsInReset os =
    (os ≡ [])
    ⊎ ((before : List Operation) × (o : Operation) × (is_reset o ≡ true) × (os ≡ before ++ o ∷ []))

reset_run-IsSound : (os : List Operation) → EndsInReset os → IsSound (run new_gta_runtime os)
unfolding run
reset_run-IsSound os (inl e) = rw e new_gta_runtime-IsSound
reset_run-IsSound os (inr (before, o, h, e)) =
    subst (λ x. IsSound x)
      (sym (ap (run new_gta_runtime) e ∙ run-append new_gta_runtime before (o ∷ [])))
      (reset-IsSound (run new_gta_runtime before) o h)

-- After any calls on a new runtime that end with an `Initialize` or a `Shutdown`, or none, and then any
-- calls that do not go to its script runtime or native manager directly, its state is a true summary
-- of its parts: it is not `Initializing`; a `Ready` or `Degraded` runtime has a build, the two required
-- pointers, and the script runtime and the native manager set up for that build, the manager being
-- ready in the first case and not in the second; a `Failed` one has no fingerprint or lacks a
-- pointer; a `Created` or `Stopped` one has no build and no pointers, with scripts and natives off.
-- A `Shutdown` then leaves nothing: no registration, handler, translation, cached handler, thread,
-- program or block of globals, and no game state.
pub run-IsSound :
    (first after : List Operation)
    → EndsInReset first
    → All (λ o. is_behind o ≡ false) after
    → let r = run (run new_gta_runtime first) after in IsSound r × IsEmptied (apply r stop)
unfolding apply
run-IsSound first after e b = (
  run-IsSound_from (run new_gta_runtime first) after b (reset_run-IsSound first e),
  shutdown-IsEmptied (run (run new_gta_runtime first) after),
)

-- From every state, `Initialize` succeeds exactly if the build has a fingerprint and the pointers to
-- the native table and to the game state are there; in particular a crossmap that cannot be loaded
-- is no failure of it.
pub initialize-succeeds :
    (read : Text → Result Text) (r : GtaRuntime) (build : BuildInfo) (pointers : GtaPointers)
    (path : Text)
    → (has_value (initialize read r build pointers path).1 ≡ true) ↔ (
        (build.fingerprint ≢ 0)
        × (is_null pointers.native_table ≡ false)
        × (is_null pointers.game_state ≡ false))
unfolding validate_pointers
initialize-succeeds read r build pointers path =
    let (sound, succeeds) = initialize-Outcome read r build pointers path in
    ground (arith, succeeds)
