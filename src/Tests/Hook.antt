-- ===== src/Tests/Hook.antt =====
-- Runs of Integrations/GTA5_Enhanced/Runtime/GTA_Run_Script_Threads_Bridge.cpp.
use devilz_den.Prelude.{
  ◌+◌, ◌-◌, ◌≤◌, ◌≡◌, refl, List, [], ◌∷◌, true, false, some, ◌==◌, if◌then◌else◌, get_or,
  Text-discrete, ℕ_discrete,
}
use devilz_den.Prelude.Traces
use devilz_den.Backend.Range.{Memory, read_bytes, bytes_at, write_bytes, little_endian}
use devilz_den.System.{SystemQuery, is_readable_address, is_readable_region, is_readable_protection}
use devilz_den.Prelude.Map
use devilz_den.Natives.Frame.{push_all, new_frame, fix_vectors}
use devilz_den.Natives.Bootstrap
use devilz_den.Natives.Bootstrap.{
  Bootstrap, new_bootstrap, supported_fingerprint, timer_definition, find_definition, find_hash,
  find_native,
}
use devilz_den.Runtime.Hook.{
  waiting, freed, cleared, HookState, Event, call, test, add, read_original, finish, subtract,
  begin, see_no_calls, clear, free, advance, step, run, installed,
}
use devilz_den.Runtime.Hook.Shutdown.{work_left, uninstall-terminates, waiting-no_use_after_free}
use devilz_den.Runtime.Bridge.{
  Machine, CodeSystem, GameCode, new_bridge, install, may_install, install_code, finish_install,
  write_executable, patch, fill_trampoline, absolute_jump, try_native_smoke,
  find_validated_script_thread, find_slot, smoke_as, verified_prologue,
}
use devilz_den.Runtime.Bridge
use devilz_den.Runtime.Bridge.Code.{LeavesCode, install-refused, uninstall-install}
use devilz_den.Runtime.Bridge.Smoke.{LeavesContext, try_native_smoke-LeavesContext}

-- A thread is in the hook when it is taken away.
abbrev busy : HookState
busy = record {
  phase = waiting;
  patched = false;
  active = 1;
  called = 0;
  entering = 0;
  counted = 0;
  running = 1;
  leaving = 0;
}

busy-reached : run installed (call ∷ test ∷ add ∷ read_original ∷ begin true ∷ []) ≡ some busy
unfolding Traces.run step advance
busy-reached = refl

abbrev returned : HookState
returned = record busy { active = 0; running = 0 }

returned-reached : run busy (finish ∷ subtract ∷ []) ≡ some returned
unfolding Traces.run step advance
returned-reached = refl

uninstall-terminates_example :
    (2 + work_left returned ≤ work_left busy)
    × ((es : List Event) × (t : HookState) × (run returned es ≡ some t) × (t.phase ≡ freed))
uninstall-terminates_example =
    uninstall-terminates busy returned (call ∷ test ∷ add ∷ read_original ∷ begin true ∷ [])
      (finish ∷ subtract ∷ []) busy-reached (refl, refl) returned-reached

abbrev over : HookState
over = record returned { phase = cleared }

over-reached : run busy (finish ∷ subtract ∷ see_no_calls ∷ clear ∷ []) ≡ some over
unfolding Traces.run step advance
over-reached = refl

waiting-no_use_after_free_example : (over.running ≡ 0) × (over.counted ≡ 0) × (over.entering ≡ 0)
waiting-no_use_after_free_example =
    waiting-no_use_after_free busy over (call ∷ test ∷ add ∷ read_original ∷ begin true ∷ [])
      (finish ∷ subtract ∷ see_no_calls ∷ clear ∷ []) busy-reached refl refl (refl, refl)
      over-reached refl

-- A thread that has read `s_active` but not counted itself enters a trampoline that is released.
late-thread :
    run installed
      (call ∷ test ∷ begin true ∷ see_no_calls ∷ add ∷ read_original ∷ clear ∷ free ∷ [])
    ≡ some (record busy { phase = freed })
unfolding Traces.run step advance
late-thread = refl

-- The same of a thread that enters after a write of the original bytes that failed.
unrestored :
    run installed
      (begin false ∷ see_no_calls ∷ call ∷ test ∷ add ∷ read_original ∷ clear ∷ free ∷ [])
    ≡ some (record busy { phase = freed; patched = true })
unfolding Traces.run step advance
unrestored = refl

abbrev code_query : SystemQuery
code_query address = some (record {
  base_address = 4096;
  region_size = 65536;
  state = 4096;
  protect = 32;
  memory_type = 16777216;
})

abbrev code_memory : Memory
code_memory x = get_or verified_prologue (x - 8192) 0

abbrev machine : Machine
machine = record { memory = code_memory; active = 0 }

abbrev system : CodeSystem
system = record {
  query = code_query;
  allocated = 32768;
  unlocks = true;
  locks = true;
  hook_thunk = 70000;
}

install-done : (install system 1 true new_bridge machine 8192 9000 9500).1 ≡ true
unfolding install may_install install_code finish_install write_executable patch fill_trampoline
    absolute_jump little_endian write_bytes bytes_at is_readable_address is_readable_region
    is_readable_protection Text-discrete ℕ_discrete
install-done = refl

uninstall-install_example : LeavesCode system machine (
    Bridge.uninstall system 1
      (install system 1 true new_bridge machine 8192 9000 9500).0.0
      (install system 1 true new_bridge machine 8192 9000 9500).0.1)
uninstall-install_example =
    uninstall-install system system 1 true new_bridge machine 8192 9000 9500 refl install-done refl

install-stopped : (install system 1 false new_bridge machine 8192 9000 9500).1 ≡ false
unfolding install may_install
install-stopped = refl

install-refused_example :
    LeavesCode system machine (install system 1 false new_bridge machine 8192 9000 9500).0
install-refused_example =
    install-refused system 1 false new_bridge machine 8192 9000 9500 (λ e. refl) install-stopped

abbrev game_code : GameCode
game_code = record {
  handlers = λ memory handler store frame. (store, frame);
  vectors = [];
  after = λ memory. memory;
}

-- The storage at 9000 points to the slots at 9100, whose first points to a thread at 9300 with the
-- dispatch table 9500; the array at 10000 points to a thread-local context at 12288.
abbrev thread_memory : Memory
thread_memory x =
    if x == 9000
    then 140
    else if x == 9001
    then 35
    else if x == 9100
    then 84
    else if x == 9101
    then 36
    else if x == 9300
    then 28
    else if x == 9301
    then 37
    else if x == 10001
    then 48
    else 0

abbrev hooked_bridge : Bridge.Bridge
hooked_bridge = record new_bridge {
  installed = true;
  attached = true;
  storage_address = 9000;
  dispatch_address = 9500;
}

-- A manager with a handler for GET_GAME_TIMER.
abbrev natives : Bootstrap
natives = record {
  ready = true;
  fingerprint = supported_fingerprint;
  handlers = (timer_definition.enhanced_hash, 5005) ∷ [];
}

called :
    (try_native_smoke code_query game_code natives hooked_bridge thread_memory
      10000).0.smoke_completed
    ≡ true
unfolding try_native_smoke find_validated_script_thread find_slot smoke_as is_readable_address
    is_readable_region is_readable_protection read_bytes Bootstrap.invoke Bootstrap.call find_native
    find_definition find_hash Map.find push_all new_frame fix_vectors ℕ_discrete
called = refl

try_native_smoke-LeavesContext_example :
    LeavesContext code_query game_code natives hooked_bridge thread_memory 10000
      (try_native_smoke code_query game_code natives hooked_bridge thread_memory 10000)
try_native_smoke-LeavesContext_example =
    try_native_smoke-LeavesContext code_query game_code natives hooked_bridge thread_memory 10000
