-- ===== src/Natives/Table.antt =====
-- Natives/Native_Table.cpp, Native_Cache.cpp and Native_Registration.hpp: handlers by runtime hash.
-- The table refuses a second handler for a hash; the cache overwrites.
pub mod Stability
use devilz_den.Prelude.{
  ℕ, List, [], ◌∷◌, Bool, false, not, ◌||◌, Option, none, some, ◌==◌, if◌then◌else◌, length,
  ℕ_discrete,
}
use devilz_den.Prelude.Map
use devilz_den.Prelude.Map.{Map}
use devilz_den.Prelude.Numbers.{to_string}
use devilz_den.Backend.Error.{Result, success, failure, fail_runtime, annotate}
use devilz_den.Backend.Range.{Pointer, is_null}

pub record Registration : Type 0 where
  pub hash : ℕ
  pub handler : Pointer
  pub validated : Bool
  pub call_count : ℕ

abbrev pub NativeTable : Type 0
NativeTable = Map ℕ Registration

-- Another handler stands under the hash.
unfoldable pub other_handler : Option Registration → Pointer → Bool
other_handler none p = false
other_handler (some r) p = not (r.handler.address == p.address)

-- `Native_Table::Register`.
unfoldable pub register : NativeTable → Registration → NativeTable × Result (Unit {0})
unfolding other_handler
register t r =
    if r.hash == 0 || is_null r.handler
    then (t, fail_runtime "Native registration contains an invalid hash or handler")
    else if other_handler (Map.find ℕ_discrete r.hash t) r.handler
    then (t, annotate (fail_runtime "Native table hash collision") "Hash" (to_string r.hash))
    else (Map.insert_or_assign ℕ_discrete r.hash r t, success tt)

-- `Native_Table::RegisterBatch`.
unfoldable pub register_batch : NativeTable → List Registration → NativeTable × Result (Unit {0})
register_batch t [] = (t, success tt)
register_batch t (r ∷ rs) =
    let (t', result) = register t r in
    let rest = register_batch t' rs in
    elim result [ failure e ↦ (t', failure e) | success _ ↦ rest ]

-- `Native_Table::Find`, `Contains`, `Size`, `Snapshot` and `Clear`.
unfoldable pub find : NativeTable → ℕ → Option Registration
find t hash = Map.find ℕ_discrete hash t

unfoldable pub contains : NativeTable → ℕ → Bool
contains t hash = Map.contains ℕ_discrete hash t

unfoldable pub size : NativeTable → ℕ
size t = length t

unfoldable pub snapshot : NativeTable → List Registration
snapshot t = Map.values t

unfoldable pub clear : NativeTable → NativeTable
clear t = []

abbrev pub NativeCache : Type 0
NativeCache = Map ℕ Registration

-- `Native_Cache::Store`, `Find`, `Contains`, `Invalidate`, `Clear`, `Size` and `Snapshot`.
unfoldable pub cache_store : NativeCache → Registration → NativeCache
cache_store c r = Map.insert_or_assign ℕ_discrete r.hash r c

unfoldable pub cache_find : NativeCache → ℕ → Option Registration
cache_find c hash = Map.find ℕ_discrete hash c

unfoldable pub cache_contains : NativeCache → ℕ → Bool
cache_contains c hash = Map.contains ℕ_discrete hash c

unfoldable pub cache_invalidate : NativeCache → ℕ → NativeCache
cache_invalidate c hash = Map.erase ℕ_discrete hash c

unfoldable pub cache_clear : NativeCache → NativeCache
cache_clear c = []

unfoldable pub cache_size : NativeCache → ℕ
cache_size c = length c

unfoldable pub cache_snapshot : NativeCache → List Registration
cache_snapshot c = Map.values c
