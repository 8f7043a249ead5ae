-- ===== src/Tests/Bootstrap.antt =====
-- Runs of Integrations/GTA5_Enhanced/Natives/GTA_Native_Manager.cpp and GTA_Native_Call_Context.hpp.
use devilz_den.Prelude.{
  none, ℕ, ◌≡◌, ◌↔◌, refl, List, [], ◌∷◌, Bool, true, some, if◌then◌else◌, ◌&&◌, leb, ℕ_discrete,
  get_elem?, get_or,
}
use devilz_den.Prelude.Map.{has_value, insert_or_assign}
use devilz_den.System.{
  SystemQuery, is_executable_image_address, is_executable_image, is_executable_protection,
}
use devilz_den.Natives.Frame.{Frame, VectorStore, Argument, new_frame, push_all, push}
use devilz_den.Natives.Frame.Arguments.{push_all-arguments}
use devilz_den.Natives.Bootstrap.{
  Bootstrap, BootstrapStatus, Handlers, get_game_timer, unnamed, call, find_native,
  supported_fingerprint, new_bootstrap, initialize, load_definitions, find_definition,
  load_handlers, finish, invoke, invoke_void,
}
use devilz_den.Natives.Bootstrap.Handlers.{
  IsBootstrapped, is_named, MayBootstrap, EntriesCallable, requested_hashes,
  initialize-IsBootstrapped,
}
use devilz_den.Natives.Bootstrap.Calls.{invoke-contained}

-- All memory is an executable image.
abbrev image_query : SystemQuery
image_query address = some (record {
  base_address = 4096;
  region_size = 65536;
  state = 4096;
  protect = 32;
  memory_type = 16777216;
})

abbrev executable : ℕ → Bool
executable address = is_executable_image_address image_query 4096 65536 address

-- The game fills in six handlers of its image.
abbrev game : ℕ → List ℕ → List ℕ
game address hashes = 5001 ∷ 5002 ∷ 5003 ∷ 5004 ∷ 5005 ∷ 5006 ∷ []

unfoldable booted : Bootstrap × BootstrapStatus
unfolding initialize
booted = initialize image_query game new_bootstrap 5000 4096 65536 supported_fingerprint

booted-ready : booted.1.ready ≡ true
unfolding booted initialize load_definitions find_definition load_handlers finish
    is_executable_image_address is_executable_image is_executable_protection insert_or_assign
    ℕ_discrete
booted-ready = refl

initialize-IsBootstrapped_example :
    IsBootstrapped executable booted.0
    × (booted.1.ready ≡ booted.0.ready)
    × ((booted.1.ready ≡ true) ↔ (
        MayBootstrap image_query 5000 4096 65536 supported_fingerprint
        × EntriesCallable executable (game 5000 requested_hashes) requested_hashes 0))
unfolding booted
initialize-IsBootstrapped_example =
    initialize-IsBootstrapped image_query game new_bootstrap 5000 4096 65536 supported_fingerprint

-- Two sets of handlers that differ outside the image.
abbrev quiet_handlers : Handlers
quiet_handlers handler store frame = (store, frame)

abbrev guarded_handlers : Handlers
guarded_handlers handler store frame =
    if executable handler then (store, frame) else (store, new_frame)

guarded-quiet :
    (handler : ℕ) (store : VectorStore) (frame : Frame)
    → executable handler ≡ true
    → quiet_handlers handler store frame ≡ guarded_handlers handler store frame
guarded-quiet handler store frame e = rw e refl

-- An id without a name is refused, although no argument is too many.
unnamed-refused : (invoke quiet_handlers booted.0 [] (unnamed 255) [] 4).1 ≡ none
unfolding booted initialize load_definitions find_definition load_handlers finish
    is_executable_image_address is_executable_image is_executable_protection insert_or_assign
    ℕ_discrete invoke call find_native
unnamed-refused = refl

invoke-contained_example :
    (invoke quiet_handlers booted.0 [] get_game_timer [] 4
      ≡ invoke guarded_handlers booted.0 [] get_game_timer [] 4)
    × (invoke_void quiet_handlers booted.0 [] get_game_timer []
        ≡ invoke_void guarded_handlers booted.0 [] get_game_timer [])
    × (has_value (invoke quiet_handlers booted.0 [] get_game_timer [] 4).1
        ≡ (booted.0.ready && is_named get_game_timer && leb 0 40))
invoke-contained_example =
    invoke-contained executable quiet_handlers guarded_handlers booted.0 [] get_game_timer [] 4
      initialize-IsBootstrapped_example.0
      (λ handler store frame c. guarded-quiet handler store frame c.1)

abbrev two_arguments : List Argument
two_arguments = record { bytes = 4; bits = 7 } ∷ record { bytes = 8; bits = 900 } ∷ []

packed-slots : get_or (push_all new_frame two_arguments).0.arguments 1 0 ≡ 900
unfolding push_all push new_frame
packed-slots = refl

push_all-arguments_example :
    ((push_all new_frame two_arguments).1 ≡ leb 2 40)
    × ((push_all new_frame two_arguments).1 ≡ true
        → ((push_all new_frame two_arguments).0.argument_count ≡ 2)
          × ((i : ℕ) (a : Argument)
              → get_elem? two_arguments i ≡ some a
              → get_or (push_all new_frame two_arguments).0.arguments i 0 ≡ a.bits))
push_all-arguments_example = push_all-arguments two_arguments
