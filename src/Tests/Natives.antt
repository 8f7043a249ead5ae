-- ===== src/Tests/Natives.antt =====
-- Runs of Integrations/GTA5_Enhanced/Natives.
use devilz_den.Prelude.{
  ℕ, ◌≡◌, ◌↔◌, refl, List, [], ◌∷◌, ◌++◌, true, none, some, codes, ℕ_discrete, Text-discrete, Text,
}
use devilz_den.Prelude.Map
use devilz_den.Prelude.Numbers.{from_chars, digit_prefix, digit_value}
use devilz_den.Backend.Error.{Result, success}
use devilz_den.Natives.Crossmap.{CrossmapEntry, empty, to_runtime, to_canonical}
use devilz_den.Natives.Crossmap.Loading
use devilz_den.Natives.Crossmap.Loading.{
  run-to_runtime-to_canonical, adds, translates, adds_batch, invalidates_build,
}
use devilz_den.Natives.Crossmap
use devilz_den.Natives.Table.{NativeTable, Registration}
use devilz_den.Natives.CallContext.{fresh}
use devilz_den.Natives.Manager.{
  BuildInfo, NativeManager, new_manager, no_build, initialize, find_cached, cache_resolved,
}
use devilz_den.Natives.Manager.Resolution.{
  initialize-Initialized, Initialized, find_cached-cache_resolved, translation, new_registration,
  seen,
}
use devilz_den.Natives.Invoker.{Invoker}
use devilz_den.Natives.Invoker.Accounting
use devilz_den.Natives.Invoker.Accounting.{
  Request, by_hash, by_index, IsAccounted, invocations, run-Counted,
}

abbrev entry : ℕ → ℕ → CrossmapEntry
entry c r = record { canonical = c; runtime = r; build_fingerprint = 7; name = [] }

abbrev history : List Loading.Operation
history = adds (entry 1 11) ∷ adds_batch (entry 2 12 ∷ entry 1 13 ∷ []) ∷ translates 1 7 ∷ []

run-to_runtime-to_canonical_example :
    ((to_runtime (Loading.run empty history) 1 7).1 ≡ some 11)
    ↔ ((to_canonical (Loading.run empty history) 11 7).1 ≡ some 1)
run-to_runtime-to_canonical_example = run-to_runtime-to_canonical history 1 11 7

abbrev registration : ℕ → ℕ → Registration
registration h a = record {
  hash = h;
  handler = record { address = a };
  validated = true;
  call_count = 0;
}

abbrev one_native : NativeTable
one_native = (5, registration 5 100) ∷ []

abbrev build : BuildInfo
build = record no_build { fingerprint = 7 }

-- A crossmap file with one entry for build 7: fields are separated by tabs.
abbrev file : Text → Result Text
file path = success (
    codes "DDXMAP1"
    ++ (10 ∷ codes "7")
    ++ (9 ∷ codes "A1")
    ++ (9 ∷ codes "B2")
    ++ (9 ∷ codes "NAME"))

initialize-Initialized_example :
    Initialized
      (initialize file new_manager build (codes "map.txt")).0
      (initialize file new_manager build (codes "map.txt")).1
initialize-Initialized_example = initialize-Initialized file new_manager build (codes "map.txt")

initialized_ready : (initialize file new_manager build (codes "map.txt")).0.ready ≡ true
unfolding initialize Crossmap.clear Crossmap.load_text Crossmap.getlines Crossmap.parse_lines
    Crossmap.parse_line Crossmap.split_tab Crossmap.parse_fields Crossmap.parse_hex from_chars
    digit_prefix digit_value Crossmap.add_batch Crossmap.add Crossmap.insert_entry
    Crossmap.conflicts Crossmap.statistics Map.find Map.insert_or_assign Crossmap.Key-discrete
    Text-discrete ℕ_discrete
initialized_ready = refl

abbrev ready_manager : NativeManager
ready_manager = record {
  build = build;
  crossmap = (Crossmap.add empty (entry 1 11)).0;
  cache = [];
  ready = true;
}

find_cached-cache_resolved_example :
    (find_cached (cache_resolved ready_manager 1 (record { address = 100 }) true) 1).1
    ≡ seen
        (translation ready_manager 1)
        (translation ready_manager 1)
        (λ r. new_registration r (record { address = 100 }) true)
        (find_cached ready_manager 1).1
find_cached-cache_resolved_example =
    find_cached-cache_resolved ready_manager 1 1 (record { address = 100 }) true

abbrev new_invoker : Invoker
new_invoker = record {
  manager = ready_manager;
  table = one_native;
  indexed_handlers = none;
  stats = record { calls = 0; failures = 0; cache_hits = 0; table_hits = 0; indexed_hits = 0 };
}

run-Counted_example :
    IsAccounted (Accounting.run new_invoker (by_hash 1 fresh ∷ by_index 0 fresh ∷ [])).stats 2
unfolding invocations
run-Counted_example = run-Counted new_invoker (by_hash 1 fresh ∷ by_index 0 fresh ∷ []) refl
