-- ===== src/Tests/Memory.antt =====
-- Runs of src/Backend/Memory: the cache of patterns and the tracker of allocations.
use devilz_den.Prelude.{
  ℕ, ◌≡◌, ◌≢◌, List, [], ◌∷◌, true, false, none, some, Text, codes, Text-discrete, ite,
  if◌then◌else◌, ◌==◌,
}
use devilz_den.Prelude.Map
use devilz_den.Backend.PatternCache.{
  CacheKey, CacheEntry, PatternCache, stable_key, store, new_entry,
}
use devilz_den.Backend.PatternCache.Entries
use devilz_den.Backend.PatternCache.Entries.{apply-IsValid, stores, invalidates_fingerprint}
use devilz_den.Backend.PatternCache.Collision.{
  answer, answer-store, answer-store_collision, outer_key, inner_key,
}
use devilz_den.Backend.MemoryTracker.{Request, new_tracker}
use devilz_den.Backend.MemoryTracker.Accounting
use devilz_den.Backend.MemoryTracker.Accounting.{
  Operation, allocate, deallocate, enable_tracking, reset, run, run-IsAccounted,
}
use devilz_den.Backend.MemoryTracker.Live.{view, observe_all, view-run}

abbrev game_key : CacheKey
game_key = record { module_name = codes "game.exe"; name = codes "Globals"; module_fingerprint = 7 }

abbrev one_entry : PatternCache
one_entry = store [] game_key (record { address = 5000 }) 4096 1

empty-IsValid : Entries.IsValid []
empty-IsValid = record { unique = tt; keyed = λ k e h. absurd (nothing k e h) }
  where
    nothing : (k : Text) (e : CacheEntry) → Map.find Text-discrete k [] ≡ some e → ⊥
    nothing k e h = cc (Map.find-nil {V = CacheEntry} Text-discrete k)

one_entry-find :
    Map.find Text-discrete (stable_key game_key) one_entry
    ≡ some (new_entry game_key (record { address = 5000 }) 4096 1)
unfolding store
one_entry-find =
    Map.find-insert_or_assign_self Text-discrete (stable_key game_key)
      (new_entry game_key (record { address = 5000 }) 4096 1) []

one_entry-IsValid : Entries.IsValid one_entry
unfolding Entries.apply
one_entry-IsValid =
    apply-IsValid [] (stores game_key (record { address = 5000 }) 4096 1) empty-IsValid

answer-store_example :
    answer (store one_entry game_key (record { address = 6000 }) 4096 2) game_key
    ≡ ite
        (Text-discrete (stable_key game_key) (stable_key game_key))
        (if 7 == 7 then some (record { address = 6000 }) else none)
        (answer one_entry game_key)
answer-store_example = answer-store one_entry game_key game_key (record { address = 6000 }) 4096 2

answer-store_collision_example :
    (outer_key (codes "a") (codes "b") (codes "c") 7
      ≢ inner_key (codes "a") (codes "b") (codes "c") 7)
    × (answer
          (store []
            (outer_key (codes "a") (codes "b") (codes "c") 7)
            (record { address = 5000 })
            4096
            1)
          (inner_key (codes "a") (codes "b") (codes "c") 7)
        ≡ some (record { address = 5000 }))
answer-store_collision_example =
    answer-store_collision [] (codes "a") (codes "b") (codes "c") 7 (record { address = 5000 }) 4096
      1

apply-IsValid_example :
    Entries.IsValid (Entries.apply one_entry (invalidates_fingerprint (codes "game.exe") 8))
apply-IsValid_example =
    apply-IsValid one_entry (invalidates_fingerprint (codes "game.exe") 8) one_entry-IsValid

abbrev request : ℕ → ℕ → Request
request a n = record {
  address = a;
  size = n;
  alignment = 16;
  tag = 1;
  owner = "test";
  thread_name = "1";
  source = "test.cpp";
}

-- An address is registered twice, and another one is freed.
abbrev history : List Operation
history =
    allocate (request 100 8)
    ∷ allocate (request 200 16)
    ∷ allocate (request 100 24)
    ∷ deallocate 200
    ∷ enable_tracking false
    ∷ deallocate 100
    ∷ []

run-IsAccounted_example : Accounting.IsValid (run new_tracker history)
run-IsAccounted_example = run-IsAccounted history

view-run_example :
    view (run new_tracker history) 100
    ≡ observe_all 100 (record { tracking = true; live = none }) history
view-run_example = view-run history 100
