-- ===== src/Backend/PatternCache/Entries.antt =====
-- The cache's invariant and what its operations leave in it.
use devilz_den.Prelude.{
  ℕ, ◌+◌, ◌%◌, ◌^◌, ◌≡◌, refl, Bool, true, false, arith, none, some, Option-cases, Bool-cases, inl,
  inr, ◌⊎◌, Text, Text-discrete, ◌==◌,
}
use devilz_den.Prelude.Map
use devilz_den.Prelude.Map.{HasUniqueKeys}
use devilz_den.Backend.Range.{Pointer}
use devilz_den.Backend.PatternCache.{
  CacheKey, CacheEntry, PatternCache, stable_key, store, find, contains, invalidate,
  invalidate_module, invalidate_fingerprint, clear,
}

-- Every entry stands under the stable key of its key, and no text occurs twice.
pub record IsValid (c : PatternCache) : Type 0 where
  pub unique : HasUniqueKeys Text-discrete c
  pub keyed :
      (k : Text) (e : CacheEntry) → Map.find Text-discrete k c ≡ some e → stable_key e.key ≡ k

-- A write of an entry under its own stable key keeps the invariant.
write-IsValid :
    (c : PatternCache) (k : Text) (e : CacheEntry)
    → IsValid c
    → stable_key e.key ≡ k
    → IsValid (Map.insert_or_assign Text-discrete k e c)
write-IsValid c k e v q = record {
  unique = Map.insert_or_assign-HasUniqueKeys Text-discrete k e c v.unique;
  keyed = λ j f h. ground (arith, Map.find-insert_or_assign Text-discrete j k e c, v.keyed j f);
}

filter-IsValid :
    (c : PatternCache) (p : Text → CacheEntry → Bool) → IsValid c → IsValid (Map.erase_if p c)
filter-IsValid c p v = record {
  unique = Map.erase_if-HasUniqueKeys Text-discrete p c v.unique;
  keyed = λ j f h. ground (
    arith,
    Map.find-erase_if Text-discrete j p c v.unique,
    v.keyed j f,
    Option-cases (Map.find Text-discrete j c),
  );
}

store-IsValid :
    (c : PatternCache) (key : CacheKey) (a : Pointer) (base now : ℕ)
    → IsValid c
    → IsValid (store c key a base now)
unfolding store
store-IsValid c key a base now v = write-IsValid c _ _ v refl

-- The entry with one more hit.
abbrev pub counted : CacheEntry → CacheEntry
counted e = record e { hits = (e.hits + 1) % 2 ^ 64 }

-- A lookup misses and changes nothing, or answers from an entry with the key's fingerprint.
pub find_cases :
    (c : PatternCache) (key : CacheKey)
    → ((find c key ≡ (c, none)) × (contains c key ≡ false))
      ⊎ ((e : CacheEntry) × (Map.find Text-discrete (stable_key key) c ≡ some e)
          × (e.key.module_fingerprint ≡ key.module_fingerprint)
          × (contains c key ≡ true)
          × (find c key ≡ (
            Map.insert_or_assign Text-discrete (stable_key key) (counted e) c,
            some e.address,
          )))
unfolding find contains
find_cases c key = elim (Option-cases (Map.find Text-discrete (stable_key key) c)) [
  | inl q ↦ rw (q, find) (inl (refl, rw (q, contains)))
  | inr (e, q) ↦ elim (Bool-cases (e.key.module_fingerprint == key.module_fingerprint)) [
    | inl same ↦ inr (e, q, ground arith, rw (q, contains) same, rw (q, find) (rw same refl))
    | inr other ↦ inl (rw (q, find) (rw other refl), rw (q, contains) other)
  ]
]

find-IsValid : (c : PatternCache) (key : CacheKey) → IsValid c → IsValid (find c key).0
find-IsValid c key v = elim (find_cases c key) [
  | inl (q, _) ↦ rw q v
  | inr (e, h, _, _, q) ↦ rw q (write-IsValid c (stable_key key) (counted e) v (v.keyed _ e h))
]

invalidate-IsValid : (c : PatternCache) (m n : Text) → IsValid c → IsValid (invalidate c m n)
unfolding invalidate
invalidate-IsValid c m n v = record {
  unique = Map.erase-HasUniqueKeys Text-discrete _ c v.unique;
  keyed = λ j f h. v.keyed j f (Map.find_of_erase Text-discrete j _ c f v.unique h);
}

-- One operation of the cache.
pub data Operation : Type 0 where
  stores : CacheKey → Pointer → ℕ → ℕ → Operation
  finds : CacheKey → Operation
  invalidates : Text → Text → Operation
  invalidates_module : Text → Operation
  invalidates_fingerprint : Text → ℕ → Operation
  clears : Operation

unfoldable pub apply : PatternCache → Operation → PatternCache
apply c (stores k a base now) = store c k a base now
apply c (finds k) = (find c k).0
apply c (invalidates m n) = invalidate c m n
apply c (invalidates_module m) = invalidate_module c m
apply c (invalidates_fingerprint m f) = invalidate_fingerprint c m f
apply c clears = clear c

-- Every operation keeps each entry under its own stable key, and no key twice.
pub apply-IsValid : (c : PatternCache) (o : Operation) → IsValid c → IsValid (apply c o)
unfolding apply invalidate_module invalidate_fingerprint clear
apply-IsValid c (stores k a base now) v = store-IsValid c k a base now v
apply-IsValid c (finds k) v = find-IsValid c k v
apply-IsValid c (invalidates m n) v = invalidate-IsValid c m n v
apply-IsValid c (invalidates_module m) v = filter-IsValid c _ v
apply-IsValid c (invalidates_fingerprint m f) v = filter-IsValid c _ v
apply-IsValid c clears v = record {
  unique = tt;
  keyed = λ k e h. cc (Map.find-nil {V = CacheEntry} Text-discrete k);
}
