-- ===== src/Backend/PatternCache.antt =====
-- src/Backend/Memory/Pattern_Cache.hpp and Pattern_Cache.cpp: resolved patterns under the text
-- `module::name`. The lock serialises the operations; the resolution time is an argument.
pub mod Entries
pub mod Collision
use devilz_den.Prelude.{
  ℕ, ◌+◌, ◌-◌, ◌%◌, ◌^◌, ◌++◌, List, [], Bool, false, not, ◌&&◌, Option, none, some, leb, ◌==◌,
  if◌then◌else◌, length, Text, codes, text_eq, Text-discrete,
}
use devilz_den.Prelude.Map
use devilz_den.Prelude.Map.{Map}
use devilz_den.Backend.Range.{Pointer}

pub record CacheKey : Type 0 where
  pub module_name : Text
  pub name : Text
  pub module_fingerprint : ℕ

abbrev pub separator : Text
separator = codes "::"

-- `Pattern_Cache_Key::StableKey`.
abbrev pub stable_key : CacheKey → Text
stable_key k = (k.module_name ++ separator) ++ k.name

pub record CacheEntry : Type 0 where
  pub key : CacheKey
  pub address : Pointer
  pub module_base : ℕ
  pub relative_offset : ℕ
  pub resolved_at : ℕ
  pub hits : ℕ

abbrev pub PatternCache : Type 0
PatternCache = Map Text CacheEntry

unfoldable pub new_entry : CacheKey → Pointer → ℕ → ℕ → CacheEntry
new_entry key address module_base now = record {
  key = key;
  address = address;
  module_base = module_base;
  relative_offset = if leb module_base address.address then address.address - module_base else 0;
  resolved_at = now;
  hits = 0;
}

-- `Pattern_Cache::Store`.
unfoldable pub store : PatternCache → CacheKey → Pointer → ℕ → ℕ → PatternCache
unfolding new_entry
store c key address module_base now =
    Map.insert_or_assign Text-discrete (stable_key key) (new_entry key address module_base now) c

-- `Pattern_Cache::Find`: a hit is counted in the entry.
unfoldable pub find : PatternCache → CacheKey → PatternCache × Option Pointer
find c key = elim (Map.find Text-discrete (stable_key key) c) [
  | none ↦ (c, none)
  | some e ↦ if not (e.key.module_fingerprint == key.module_fingerprint) then (c, none) else (
    Map.insert_or_assign Text-discrete (stable_key key) (record e { hits = (e.hits + 1) % 2 ^ 64 })
        c,
    some e.address,
  )
]

-- `Pattern_Cache::Contains`.
unfoldable pub contains : PatternCache → CacheKey → Bool
contains c key = elim (Map.find Text-discrete (stable_key key) c) [
  | none ↦ false
  | some e ↦ e.key.module_fingerprint == key.module_fingerprint
]

-- `Pattern_Cache::Invalidate`.
unfoldable pub invalidate : PatternCache → Text → Text → PatternCache
invalidate c module_name name = Map.erase Text-discrete ((module_name ++ separator) ++ name) c

-- `Pattern_Cache::InvalidateModule`.
unfoldable pub invalidate_module : PatternCache → Text → PatternCache
invalidate_module c module_name = Map.erase_if (λ k e. text_eq e.key.module_name module_name) c

-- `Pattern_Cache::InvalidateFingerprint`.
unfoldable pub invalidate_fingerprint : PatternCache → Text → ℕ → PatternCache
invalidate_fingerprint c module_name valid_fingerprint =
    Map.erase_if
      (λ k e.
        text_eq e.key.module_name module_name
        && not (e.key.module_fingerprint == valid_fingerprint))
      c

-- `Pattern_Cache::Clear`, `Size` and `Snapshot`.
unfoldable pub clear : PatternCache → PatternCache
clear c = []

unfoldable pub size : PatternCache → ℕ
size c = length c

unfoldable pub snapshot : PatternCache → List CacheEntry
snapshot c = Map.values c
