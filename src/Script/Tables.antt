-- ===== src/Script/Tables.antt =====
-- Script/scrThread.hpp, scrProgram.hpp, Script_VM.cpp and scrProgramTable.cpp: the registered
-- threads and programs. Both tables hold pointers to objects that others own and change, so the
-- objects are a store by address, and a table maps an id to an address. Address 0 is the null pointer.
pub mod Threads
use devilz_den.Prelude.{
  ℕ, List, [], ◌∷◌, Bool, true, false, not, ◌&&◌, ◌||◌, Option, none, some, ◌==◌, ltb,
  if◌then◌else◌, ℕ_discrete, length,
}
use devilz_den.Prelude.Map
use devilz_den.Prelude.Map.{Map, insert_or_assign, values}
use devilz_den.Backend.Error.{Result, success, fail_runtime}
use devilz_den.Backend.Range.{Pointer, is_null}

pub data ThreadState : Type 0 where
  unknown : ThreadState
  idle : ThreadState
  running : ThreadState
  killed : ThreadState
  paused : ThreadState

pub record ThreadContext : Type 0 where
  pub thread_id : ℕ
  pub script_hash : ℕ
  pub instruction_pointer : ℕ
  pub frame_pointer : ℕ
  pub stack_pointer : ℕ
  pub state : ThreadState

pub record Thread : Type 0 where
  pub context : ThreadContext
  pub stack : Pointer

-- `scrThread::Valid` and `scrThread::Running`.
abbrev pub is_valid : Thread → Bool
is_valid t = not (t.context.thread_id == 0)

abbrev pub is_running_state : ThreadState → Bool
is_running_state unknown = false
is_running_state idle = false
is_running_state running = true
is_running_state killed = false
is_running_state paused = false

abbrev pub is_running : Thread → Bool
is_running t = is_running_state t.context.state

pub record Program : Type 0 where
  pub hash : ℕ
  pub native_count : ℕ
  pub native_entrypoints : Pointer
  pub code_pages : Pointer
  pub statics : Pointer
  pub globals : Pointer
  pub code_size : ℕ
  pub static_count : ℕ
  pub global_count : ℕ

-- `scrProgram::HasNativeTable` and `scrProgram::Valid`.
abbrev pub has_native_table : Program → Bool
has_native_table p = ltb 0 p.native_count && not (is_null p.native_entrypoints)

abbrev pub is_valid_program : Program → Bool
is_valid_program p = not (p.hash == 0) && (p.code_size == 0 || not (is_null p.code_pages))

-- The objects by their addresses.
abbrev pub Threads : Type 0
Threads = ℕ → Thread

abbrev pub Programs : Type 0
Programs = ℕ → Program

-- `Script_VM` and `scrProgramTable`.
abbrev pub Vm : Type 0
Vm = Map ℕ ℕ

abbrev pub ProgramTable : Type 0
ProgramTable = Map ℕ ℕ

-- `Script_VM::RegisterThread`.
unfoldable pub register_thread : Threads → Vm → ℕ → Vm × Result (Unit {0})
register_thread heap vm thread =
    if thread == 0 || not (is_valid (heap thread))
    then (vm, fail_runtime "Cannot register an invalid scrThread")
    else (insert_or_assign ℕ_discrete (heap thread).context.thread_id thread vm, success tt)

-- `Script_VM::UnregisterThread` and `Script_VM::ClearThreads`.
abbrev pub unregister_thread : Vm → ℕ → Vm
unregister_thread vm id = Map.erase ℕ_discrete id vm

abbrev pub clear_threads : Vm → Vm
clear_threads vm = []

-- `Script_VM::FindThread`: the null pointer when the id is not registered.
abbrev pub pointer_or_null : Option ℕ → ℕ
pointer_or_null none = 0
pointer_or_null (some p) = p

unfoldable pub find_thread : Vm → ℕ → ℕ
find_thread vm id = pointer_or_null (Map.find ℕ_discrete id vm)

-- `Script_VM::Threads`, `RunningThreads` and `ThreadCount`.
abbrev pub threads : Vm → List ℕ
threads vm = values vm

unfoldable pub running_threads : Threads → Vm → List ℕ
running_threads heap [] = []
running_threads heap ((id, thread) ∷ vm) =
    let rest = running_threads heap vm in
    if not (thread == 0) && is_running (heap thread) then thread ∷ rest else rest

abbrev pub thread_count : Vm → ℕ
thread_count vm = length vm

-- `scrProgramTable::Register`.
unfoldable pub register_program : Programs → ProgramTable → ℕ → ProgramTable × Result (Unit {0})
register_program heap table program =
    if program == 0 || not (is_valid_program (heap program))
    then (table, fail_runtime "Cannot register an invalid scrProgram")
    else (insert_or_assign ℕ_discrete (heap program).hash program table, success tt)

-- `scrProgramTable::Unregister` and `Clear`.
abbrev pub unregister_program : ProgramTable → ℕ → ProgramTable
unregister_program table hash = Map.erase ℕ_discrete hash table

abbrev pub clear_programs : ProgramTable → ProgramTable
clear_programs table = []

-- `scrProgramTable::Find`, `Contains`, `Snapshot` and `Size`.
unfoldable pub find_program : ProgramTable → ℕ → ℕ
find_program table hash = pointer_or_null (Map.find ℕ_discrete hash table)

abbrev pub contains_program : ProgramTable → ℕ → Bool
contains_program table hash = Map.contains ℕ_discrete hash table

abbrev pub snapshot_programs : ProgramTable → List ℕ
snapshot_programs table = values table

abbrev pub size_programs : ProgramTable → ℕ
size_programs table = length table
