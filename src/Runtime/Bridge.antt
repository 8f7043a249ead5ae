-- ===== src/Runtime/Bridge.antt =====
-- Runtime/GTA_Run_Script_Threads_Bridge.hpp and GTA_Run_Script_Threads_Bridge.cpp, one call at a time: the
-- hook that `Install` writes over the game's function and `Uninstall` takes away, and the one native call
-- that is tried from the game's thread. The memory of the process is a function of the address; what
-- the operating system answers, and what the game's code does to the memory, are parameters. The
-- wait of `Uninstall` for calls in other threads is left to the model of the interleavings.
pub mod Code
pub mod Smoke
use devilz_den.Prelude.{
  ℕ, zero, suc, ◌+◌, ◌*◌, ◌%◌, ◌^◌, List, [], ◌∷◌, ◌++◌, Bool, true, false, not, ◌&&◌, ◌||◌, Option,
  none, some, ◌==◌, if◌then◌else◌, length, text_eq, replicate,
}
use devilz_den.Prelude.Map.{has_value}
use devilz_den.Backend.Range.{Memory, read_bytes, bytes_at, write_bytes, little_endian}
use devilz_den.System.{SystemQuery, is_readable_address}
use devilz_den.Natives.Frame.{VectorStore}
use devilz_den.Natives.Bootstrap.{Bootstrap, Handlers, get_game_timer, invoke}

abbrev pub patch_size : ℕ
patch_size = 15

abbrev pub absolute_jump_size : ℕ
absolute_jump_size = 14

-- `VerifiedPrologue`.
abbrev pub verified_prologue : List ℕ
verified_prologue =
    86 ∷ 87 ∷ 85 ∷ 83 ∷ 72 ∷ 131 ∷ 236 ∷ 40 ∷ 133 ∷ 201 ∷ 190 ∷ 64 ∷ 93 ∷ 198 ∷ 0 ∷ []

-- `m_natives` and `m_logger` are set and cleared together; `attached` says that they are set.
pub record Bridge : Type 0 where
  pub installed : Bool
  pub smoke_completed : Bool
  pub smoke_attempting : Bool
  pub active_calls : ℕ
  pub target_address : ℕ
  pub storage_address : ℕ
  pub dispatch_address : ℕ
  pub original_bytes : List ℕ
  pub trampoline : ℕ
  pub original : ℕ
  pub attached : Bool

abbrev pub new_bridge : Bridge
new_bridge = record {
  installed = false;
  smoke_completed = false;
  smoke_attempting = false;
  active_calls = 0;
  target_address = 0;
  storage_address = 0;
  dispatch_address = 0;
  original_bytes = replicate patch_size 0;
  trampoline = 0;
  original = 0;
  attached = false;
}

-- The memory of the process, and `s_active`: the address of the active bridge, or 0.
pub record Machine : Type 0 where
  pub memory : Memory
  pub active : ℕ

-- The answers of the operating system during one call: what is mapped, where `VirtualAlloc` finds
-- room (0 where it fails), whether `VirtualProtect` unlocks the code, and whether it locks it
-- again; and the address of `HookThunk`.
pub record CodeSystem : Type 0 where
  pub query : SystemQuery
  pub allocated : ℕ
  pub unlocks : Bool
  pub locks : Bool
  pub hook_thunk : ℕ

-- `AbsoluteJump`.
unfoldable pub absolute_jump : ℕ → List ℕ
unfolding little_endian
absolute_jump destination = 255 ∷ 37 ∷ 0 ∷ 0 ∷ 0 ∷ 0 ∷ little_endian 8 destination

-- `WriteExecutableBytes`.
unfoldable pub write_executable : CodeSystem → Memory → ℕ → List ℕ → Memory × Bool
unfolding write_bytes
write_executable y m address bytes =
    if address == 0 || length bytes == 0
    then (m, false)
    else if not y.unlocks
    then (m, false)
    else (write_bytes m address bytes, y.locks)

-- The memory after the trampoline has been filled: the bytes that were at the address, and a jump
-- behind them.
unfoldable pub fill_trampoline : Memory → ℕ → ℕ → Memory
unfolding write_bytes absolute_jump bytes_at
fill_trampoline m trampoline address =
    write_bytes (write_bytes m trampoline (bytes_at m address patch_size)) (trampoline + patch_size)
      (absolute_jump ((address + patch_size) % 2 ^ 64))

-- The jump to `HookThunk` and the byte that fills the patch.
unfoldable pub patch : CodeSystem → List ℕ
unfolding absolute_jump
patch y = absolute_jump y.hook_thunk ++ (144 ∷ [])

-- The end of `Install`, from the result of the write on.
unfoldable pub finish_install : ℕ → Bridge → Memory × Bool → (Bridge × Machine) × Bool
finish_install self b (m, true) =
    ((record b { installed = true }, record { memory = m; active = self }), true)
finish_install self b (m, false) = (
  (
    record b {
      original = 0;
      attached = false;
      target_address = 0;
      storage_address = 0;
      dispatch_address = 0;
      trampoline = 0;
    },
    record { memory = m; active = 0 },
  ),
  false,
)

-- `Install` from the allocation on.
unfoldable pub install_code :
    CodeSystem → ℕ → Bridge → Machine → ℕ → ℕ → ℕ → (Bridge × Machine) × Bool
unfolding finish_install write_executable fill_trampoline patch bytes_at
install_code y self b w address storage dispatch =
    finish_install self
      (record {
        installed = b.installed;
        smoke_completed = false;
        smoke_attempting = false;
        active_calls = 0;
        target_address = address;
        storage_address = storage;
        dispatch_address = dispatch;
        original_bytes = bytes_at w.memory address patch_size;
        trampoline = y.allocated;
        original = y.allocated;
        attached = true;
      })
      (write_executable y (fill_trampoline w.memory y.allocated address) address (patch y))

-- The tests of `Install`, each of which refuses; `VirtualAlloc` is the last.
unfoldable pub may_install : CodeSystem → Bool → Machine → ℕ → ℕ → ℕ → Bool
unfolding bytes_at
may_install y natives_ready w address storage dispatch =
    not (address == 0 || storage == 0 || dispatch == 0 || not natives_ready || not (w.active == 0))
    && is_readable_address y.query address patch_size
    && text_eq (bytes_at w.memory address patch_size) verified_prologue
    && not (y.allocated == 0)

-- `Install` on a bridge of the address `self`.
unfoldable pub install :
    CodeSystem → ℕ → Bool → Bridge → Machine → ℕ → ℕ → ℕ → (Bridge × Machine) × Bool
unfolding install_code may_install
install y self natives_ready b w address storage dispatch =
    if b.installed
    then ((b, w), true)
    else if not (may_install y natives_ready w address storage dispatch)
    then ((b, w), false)
    else install_code y self b w address storage dispatch

-- `Uninstall`, which the destructor calls.
unfoldable pub uninstall : CodeSystem → ℕ → Bridge → Machine → Bridge × Machine
unfolding write_executable
uninstall y self b w = if not b.installed then (b, w) else (
  record b {
    installed = false;
    original = 0;
    attached = false;
    target_address = 0;
    storage_address = 0;
    dispatch_address = 0;
    trampoline = 0;
  },
  record {
    memory =
        if b.target_address == 0
        then w.memory
        else (write_executable y w.memory b.target_address b.original_bytes).0;
    active = if w.active == self then 0 else w.active;
  },
)

-- The loop of `FindValidatedScriptThread` from the slot `i` on, with so many slots left.
unfoldable pub find_slot : SystemQuery → Memory → ℕ → ℕ → ℕ → ℕ → Option ℕ
find_slot query m slots dispatch i zero = none
find_slot query m slots dispatch i (suc left) =
    let candidate = read_bytes m (slots + i * 8) 8 in
    let rest = find_slot query m slots dispatch (suc i) left in
    if not (is_readable_address query candidate 8)
    then rest
    else if read_bytes m candidate 8 == dispatch
    then some candidate
    else rest

-- `FindValidatedScriptThread`.
unfoldable pub find_validated_script_thread : SystemQuery → Memory → Bridge → Option ℕ
unfolding find_slot
find_validated_script_thread query m b =
    let slots = read_bytes m b.storage_address 8 in
    if not (is_readable_address query b.storage_address 8)
    then none
    else if not (is_readable_address query slots 64)
    then none
    else find_slot query m slots b.dispatch_address 0 8

-- What the game's code does when a native is invoked from a memory: the handlers, the vectors, and
-- the memory that the call leaves.
pub record GameCode : Type 0 where
  pub handlers : Memory → Handlers
  pub vectors : VectorStore
  pub after : Memory → Memory

-- The offsets of `GTA_Tls_Context_View`.
abbrev pub thread_offset : ℕ
thread_offset = 1952

abbrev pub active_offset : ℕ
active_offset = 1960

abbrev pub tls_size : ℕ
tls_size = 1968

-- The memory after the call that `TryNativeSmoke` makes: the two fields are set, the native runs, and
-- both get back what they held.
unfoldable pub call_as_thread : Memory → (Memory → Memory) → ℕ → ℕ → Memory
unfolding write_bytes bytes_at little_endian
call_as_thread m game tls thread =
    let entered =
      write_bytes (write_bytes m (tls + thread_offset) (little_endian 8 thread))
        (tls + active_offset) (1 ∷ []) in
    write_bytes
      (write_bytes (game entered) (tls + active_offset) (bytes_at m (tls + active_offset) 1))
      (tls + thread_offset) (bytes_at m (tls + thread_offset) 8)

-- The part of `TryNativeSmoke` from the thread on. The bridge holds the flag `m_smokeAttempting`.
unfoldable pub smoke_as :
    SystemQuery → GameCode → Bootstrap → Bridge → Memory → ℕ → ℕ → Bridge × Memory
unfolding call_as_thread
smoke_as query game natives b m tls_array thread =
    let tls = read_bytes m tls_array 8 in
    let released = record b { smoke_attempting = false } in
    if not (is_readable_address query tls_array 8)
    then (released, m)
    else if tls == 0 || not (is_readable_address query tls tls_size)
    then (released, m)
    else (let entered =
          write_bytes (write_bytes m (tls + thread_offset) (little_endian 8 thread))
            (tls + active_offset) (1 ∷ []) in
        let answer = (invoke (game.handlers entered) natives game.vectors get_game_timer [] 4).1 in
        let ran = has_value answer in
        (
          record b {
            smoke_attempting = false;
            smoke_completed = if ran then true else b.smoke_completed;
          },
          call_as_thread m (if ran then game.after else (λ k. k)) tls thread,
        ))

-- `TryNativeSmoke`.
unfoldable pub try_native_smoke :
    SystemQuery → GameCode → Bootstrap → Bridge → Memory → ℕ → Bridge × Memory
unfolding smoke_as find_validated_script_thread
try_native_smoke query game natives b m tls_array =
    let attempting = record b { smoke_attempting = true } in
    if b.smoke_attempting
    then (b, m)
    else if not b.attached || not natives.ready
    then (record attempting { smoke_attempting = false }, m)
    else elim (find_validated_script_thread query m b) [
      | none ↦ (record attempting { smoke_attempting = false }, m)
      | some thread ↦ smoke_as query game natives attempting m tls_array thread
    ]

-- `OnRunScriptThreads`: the game's own function runs in the memory `m`, and leaves the memory and a
-- result; `none` where there is no trampoline.
unfoldable pub on_run_script_threads :
    SystemQuery
    → GameCode
    → Bootstrap
    → (Memory → Memory × Bool)
    → Bridge
    → Memory
    → ℕ
    → (Bridge × Memory) × Bool
unfolding try_native_smoke
on_run_script_threads query game natives original b m tls_array =
    let (m', result) = if b.original == 0 then (m, false) else original m in
    if b.installed && not b.smoke_completed
    then (try_native_smoke query game natives b m' tls_array, result)
    else ((b, m'), result)
