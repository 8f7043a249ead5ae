-- ===== src/Runtime/Hook.antt =====
-- Runtime/GTA_Run_Script_Threads_Bridge.cpp, the concurrent part: game threads run `HookThunk` while another
-- thread runs `Uninstall`. Threads at the same place are interchangeable, so a state counts them.
-- `Uninstall` does not ask whether the write of the original bytes succeeded, and goes on either way.
-- Each event is one access to the shared fields; the order of the events is the interleaving.
pub mod Shutdown
use devilz_den.Prelude.{
  ℕ, suc, ◌+◌, ◌-◌, List, [], ◌∷◌, Bool, true, false, not, ◌&&◌, Option, none, some, ◌==◌, ltb,
  if◌then◌else◌,
}
use devilz_den.Prelude.Traces

-- How far `Uninstall` is: it has not begun, the write of the original bytes is over and the calls are
-- waited for, no call was seen, `m_original` and `s_active` are cleared, the trampoline is released.
pub data Phase : Type 0 where
  hooked waiting drained cleared freed : Phase

pub record HookState : Type 0 where
  pub phase : Phase
  -- the jump to `HookThunk` stands over the game's function
  pub patched : Bool
  -- `m_activeCalls`
  pub active : ℕ
  -- in `HookThunk`, before it reads `s_active`
  pub called : ℕ
  -- past the test of `s_active` and `m_original`, before `fetch_add`
  pub entering : ℕ
  -- counted, before `OnRunScriptThreads` reads `m_original`
  pub counted : ℕ
  -- inside the trampoline
  pub running : ℕ
  -- back from it, before `fetch_sub`
  pub leaving : ℕ

abbrev pub is_hooked : Phase → Bool
is_hooked hooked = true
is_hooked waiting = false
is_hooked drained = false
is_hooked cleared = false
is_hooked freed = false

-- `m_original` is null.
abbrev pub is_cleared : Phase → Bool
is_cleared hooked = false
is_cleared waiting = false
is_cleared drained = false
is_cleared cleared = true
is_cleared freed = true

pub data Event : Type 0 where
  call test add read_original finish subtract see_no_calls clear free : Event
  -- the beginning of `Uninstall`, whose write of the original bytes succeeds or fails
  begin : Bool → Event

abbrev when : Bool → HookState → Option HookState
when true s = some s
when false s = none

-- The moves of `Uninstall`.
unfoldable pub advance : Phase → ℕ → Event → Option Phase
advance hooked active (begin restores) = some waiting
advance waiting active see_no_calls = if active == 0 then some drained else none
advance drained active clear = some cleared
advance cleared active free = some freed
advance phase active event = none

abbrev at_phase : HookState → Option Phase → Option HookState
at_phase s none = none
at_phase s (some p) = some (record s { phase = p })

-- One event; `none` where it cannot happen.
unfoldable pub step : HookState → Event → Option HookState
unfolding advance
step s call = when s.patched (record s { called = suc s.called })
step s test = when (ltb 0 s.called) (
    if is_cleared s.phase
    then record s { called = s.called - 1 }
    else record s { called = s.called - 1; entering = suc s.entering })
step s add =
    when (ltb 0 s.entering)
      (record s { entering = s.entering - 1; counted = suc s.counted; active = suc s.active })
step s read_original = when (ltb 0 s.counted) (
    if is_cleared s.phase
    then record s { counted = s.counted - 1; leaving = suc s.leaving }
    else record s { counted = s.counted - 1; running = suc s.running })
step s finish =
    when (ltb 0 s.running) (record s { running = s.running - 1; leaving = suc s.leaving })
step s subtract =
    when (ltb 0 s.leaving) (record s { leaving = s.leaving - 1; active = s.active - 1 })
step s (begin restores) =
    at_phase (record s { patched = s.patched && not restores })
      (advance s.phase s.active (begin restores))
step s see_no_calls = at_phase s (advance s.phase s.active see_no_calls)
step s clear = at_phase s (advance s.phase s.active clear)
step s free = at_phase s (advance s.phase s.active free)

-- A sequence of events.
abbrev pub run : HookState → List Event → Option HookState
run s es = Traces.run step s es

abbrev pub installed : HookState
installed = record {
  phase = hooked;
  patched = true;
  active = 0;
  called = 0;
  entering = 0;
  counted = 0;
  running = 0;
  leaving = 0;
}
