-- ===== src/Natives/Bootstrap.antt =====
-- Natives/GTA_Native_Types.hpp, GTA_Native_Registry.hpp, GTA_Native_Manager.hpp and
-- GTA_Native_Manager.cpp: the handlers that the game's own table initialiser gives for a fixed set
-- of hashes, and the calls of them. The game's code is a parameter: what `InitNativeTables` leaves
-- in the array of entries, and what a handler does with a frame and the vectors of its caller.
pub mod Handlers
pub mod Calls
use devilz_den.Prelude.{
  ℕ, suc, List, [], ◌∷◌, ◌++◌, Bool, true, false, not, ◌||◌, Option, none, some, ◌==◌,
  if◌then◌else◌, length, get_or, ℕ_discrete, String,
}
use devilz_den.Prelude.Map
use devilz_den.Prelude.Map.{Map, insert_or_assign}
use devilz_den.System.{SystemQuery, is_executable_image_address}
use devilz_den.Natives.Frame.{
  Frame, VectorStore, Argument, new_frame, push_all, return_value, fix_vectors,
}

-- `GTA_Native_Id`; other values of its byte have no name.
pub data NativeId : Type 0 where
  get_game_timer get_hash_key : NativeId
  unnamed : ℕ → NativeId

pub record NativeDefinition : Type 0 where
  pub id : NativeId
  pub name : String
  pub original_hash : ℕ
  pub enhanced_hash : ℕ

abbrev pub supported_fingerprint : ℕ
supported_fingerprint = 7660508574094200832

-- The two definitions of the registry.
abbrev pub timer_definition : NativeDefinition
timer_definition = record {
  id = get_game_timer;
  name = "GET_GAME_TIMER";
  original_hash = 11300229656120296547;
  enhanced_hash = 2148320932488922935;
}

abbrev pub hash_key_definition : NativeDefinition
hash_key_definition = record {
  id = get_hash_key;
  name = "GET_HASH_KEY";
  original_hash = 15153829671144605900;
  enhanced_hash = 8135047498176051800;
}

-- The `switch` over the id.
abbrev pub definition : NativeId → Option NativeDefinition
definition get_game_timer = some timer_definition
definition get_hash_key = some hash_key_definition
definition (unnamed value) = none

-- `GTA_Native_Registry::Find`.
unfoldable pub find_definition : ℕ → NativeId → Option NativeDefinition
find_definition fingerprint id =
    if not (fingerprint == supported_fingerprint) then none else definition id

pub record Bootstrap : Type 0 where
  pub ready : Bool
  pub fingerprint : ℕ
  pub handlers : Map ℕ ℕ

pub record BootstrapStatus : Type 0 where
  pub ready : Bool
  pub requested_handlers : ℕ
  pub cached_handlers : ℕ
  pub detail : String

-- A new manager, and `GTA_Native_Manager::Reset`.
abbrev pub new_bootstrap : Bootstrap
new_bootstrap = record { ready = false; fingerprint = 0; handlers = [] }

unfoldable pub reset : Bootstrap → Bootstrap
reset b = record { ready = false; fingerprint = 0; handlers = [] }

abbrev pub probe_hashes : List ℕ
probe_hashes =
    5683038035346286502 ∷ 16723644071793487432 ∷ 13311091582424151521 ∷ 16941529988248844946 ∷ []

-- The loop over the entries that the game filled in: it stops at the first that is null or lies
-- outside the executable image.
unfoldable pub load_handlers : (ℕ → Bool) → List ℕ → List ℕ → ℕ → Map ℕ ℕ → Map ℕ ℕ × Bool
load_handlers executable entries [] i handlers = (handlers, true)
load_handlers executable entries (hash ∷ hashes) i handlers =
    let entry = get_or entries i 0 in
    let rest =
      load_handlers executable entries hashes (suc i)
        (insert_or_assign ℕ_discrete hash entry handlers) in
    if entry == 0 || not (executable entry) then (handlers, false) else rest

abbrev refuse : String → Bootstrap × BootstrapStatus
refuse detail = (
  new_bootstrap,
  record { ready = false; requested_handlers = 0; cached_handlers = 0; detail = detail },
)

-- `GTA_Native_Manager::Initialize` after the loop.
unfoldable pub finish : ℕ → ℕ → Map ℕ ℕ × Bool → Bootstrap × BootstrapStatus
finish fingerprint requested (handlers, false) = (
  new_bootstrap,
  record {
    ready = false;
    requested_handlers = requested;
    cached_handlers = length handlers;
    detail = "Native bootstrap returned a handler outside executable GTA image memory";
  },
)
finish fingerprint requested (handlers, true) =
    let ready = length handlers == requested in
    (
      record { ready = ready; fingerprint = if ready then fingerprint else 0; handlers = handlers },
      record {
        ready = ready;
        requested_handlers = requested;
        cached_handlers = length handlers;
        detail =
            if ready
            then "Enhanced native bootstrap resolved and validated probe and named native handlers"
            else "Enhanced native bootstrap did not populate the complete handler set";
      },
    )

-- The part of `Initialize` from the two definitions on.
unfoldable pub load_definitions :
    (ℕ → Bool)
    → (List ℕ → List ℕ)
    → ℕ
    → Option NativeDefinition
    → Option NativeDefinition
    → Bootstrap × BootstrapStatus
unfolding finish load_handlers
load_definitions executable init_native_tables fingerprint none hash_key =
    refuse "No native registry is available for this GTA build fingerprint"
load_definitions executable init_native_tables fingerprint (some timer) none =
    refuse "No native registry is available for this GTA build fingerprint"
load_definitions executable init_native_tables fingerprint (some timer) (some hash_key) =
    let requested = probe_hashes ++ (timer.enhanced_hash ∷ hash_key.enhanced_hash ∷ []) in
    finish fingerprint (length requested)
      (load_handlers executable (init_native_tables requested) requested 0 [])

-- `GTA_Native_Manager::Initialize`.
unfoldable pub initialize :
    SystemQuery → (ℕ → List ℕ → List ℕ) → Bootstrap → ℕ → ℕ → ℕ → ℕ → Bootstrap × BootstrapStatus
unfolding load_definitions find_definition
initialize query game b init_native_tables module_base module_size fingerprint =
    let executable = is_executable_image_address query module_base module_size in
    if init_native_tables == 0 || module_base == 0 || module_size == 0 || fingerprint == 0
    then refuse "Native bootstrap prerequisites are incomplete"
    else if not (executable init_native_tables)
    then refuse "InitNativeTables is not an executable GTA image address"
    else load_definitions executable (game init_native_tables) fingerprint
        (find_definition fingerprint get_game_timer) (find_definition fingerprint get_hash_key)

-- `GTA_Native_Manager::Find` of a hash and of an id; 0 is the null handler.
abbrev pub or_null : Option ℕ → ℕ
or_null none = 0
or_null (some handler) = handler

unfoldable pub find_hash : Bootstrap → ℕ → ℕ
find_hash b hash = or_null (Map.find ℕ_discrete hash b.handlers)

unfoldable pub find_native : Bootstrap → NativeId → ℕ
unfolding find_hash find_definition
find_native b id = elim (find_definition b.fingerprint id) [
  | none ↦ 0
  | some d ↦ find_hash b d.enhanced_hash
]

-- What a handler does with a frame.
abbrev pub Handlers : Type 0
Handlers = ℕ → VectorStore → Frame → VectorStore × Frame

-- `GTA_Native_Manager::Invoke` up to its result: the frame that the call left behind.
unfoldable pub call :
    Handlers → Bootstrap → VectorStore → NativeId → List Argument → VectorStore × Option Frame
unfolding find_native push_all new_frame fix_vectors
call handlers b store id arguments =
    let handler = find_native b id in
    let (frame, packed) = push_all new_frame arguments in
    let (store', frame') = handlers handler store frame in
    let (store'', frame'') = fix_vectors store' frame' in
    if not b.ready || handler == 0
    then (store, none)
    else if not packed
    then (store, none)
    else (store'', some frame'')

-- `Invoke` at a type of so many bytes, and at `void`.
unfoldable pub invoke :
    Handlers → Bootstrap → VectorStore → NativeId → List Argument → ℕ → VectorStore × Option ℕ
unfolding call return_value
invoke handlers b store id arguments bytes =
    let (store', result) = call handlers b store id arguments in
    (store', elim result [ none ↦ none | some frame ↦ some (return_value frame bytes) ])

unfoldable pub invoke_void :
    Handlers → Bootstrap → VectorStore → NativeId → List Argument → VectorStore × Bool
unfolding call
invoke_void handlers b store id arguments =
    let (store', result) = call handlers b store id arguments in
    (store', elim result [ none ↦ false | some frame ↦ true ])
