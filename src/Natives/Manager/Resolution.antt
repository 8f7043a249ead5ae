-- ===== src/Natives/Manager/Resolution.antt =====
-- When the manager is ready, and what it resolves.
use devilz_den.Prelude.{
  ℕ, ◌<◌, ◌≡◌, refl, ap, ◌∙◌, [], Bool, true, arith, Option, none, some, Bool-cases, inl, inr, Text,
  ◌==◌, if◌then◌else◌, ite, ℕ_discrete,
}
use devilz_den.Prelude.Map
use devilz_den.Backend.Error.{Result, success, failure, has_value}
use devilz_den.Backend.Range.{Pointer}
use devilz_den.Natives.Crossmap
use devilz_den.Natives.Crossmap.Bijection.{IsBijective, runtime_of}
use devilz_den.Natives.Crossmap.Loading.{empty-IsBijective, load_text-IsBijective}
use devilz_den.Natives.Table.{Registration, cache_store, cache_find}
use devilz_den.Natives.Manager.{
  BuildInfo, NativeManager, initialize, translate, find_cached, cache_resolved,
}

-- What `Translate` looks up.
abbrev pub translation : NativeManager → ℕ → Option ℕ
translation m canonical =
    if m.ready then runtime_of m.crossmap canonical m.build.fingerprint else none

abbrev pub to_option {ℓ} : {A : Type ℓ} → Result A → Option A
to_option (success a) = some a
to_option (failure e) = none

-- `Translate` answers from the crossmap, and changes only its statistics.
abbrev pub SameTables : NativeManager → NativeManager → Type 0
SameTables m n =
    (n.ready ≡ m.ready)
    × (n.build ≡ m.build)
    × (n.cache ≡ m.cache)
    × (n.crossmap.by_canonical ≡ m.crossmap.by_canonical)
    × (n.crossmap.by_runtime ≡ m.crossmap.by_runtime)

pub translate_lem :
    (m : NativeManager) (c : ℕ)
    → (to_option (translate m c).1 ≡ translation m c) × SameTables m (translate m c).0
unfolding translate Crossmap.to_runtime
translate_lem m c = ground arith

abbrev pub cached_at : NativeManager → Option ℕ → Option Registration
cached_at m none = none
cached_at m (some r) = cache_find m.cache r

pub find_cached_lem :
    (m : NativeManager) (c : ℕ)
    → ((find_cached m c).1 ≡ cached_at m (translation m c)) × SameTables m (find_cached m c).0
unfolding find_cached
find_cached_lem m c = ground (arith, translate_lem m c)

abbrev pub new_registration : ℕ → Pointer → Bool → Registration
new_registration r p ok = record { hash = r; handler = p; validated = ok; call_count = 0 }

-- `CacheResolved` writes one entry, under the runtime hash.
abbrev WithCached : NativeManager → NativeManager → Registration → Type 0
WithCached m n g =
    (n.ready ≡ m.ready)
    × (n.build ≡ m.build)
    × (n.cache ≡ cache_store m.cache g)
    × (n.crossmap.by_canonical ≡ m.crossmap.by_canonical)
    × (n.crossmap.by_runtime ≡ m.crossmap.by_runtime)

cache_resolved_lem :
    (m : NativeManager) (c r : ℕ) (p : Pointer) (ok : Bool)
    → translation m c ≡ some r
    → WithCached m (cache_resolved m c p ok) (new_registration r p ok)
unfolding cache_resolved
cache_resolved_lem m c r p ok h = ground (arith, translate_lem m c)

translation-WithCached :
    (m n : NativeManager) (g : Registration) (q : ℕ)
    → WithCached m n g
    → translation n q ≡ translation m q
translation-WithCached m n g q (ready, build, cache, forth, back) = rw (ready, build, forth) refl

-- A cached handler changes nothing if its hash does not translate.
cache_resolved-refused :
    (m : NativeManager) (c : ℕ) (p : Pointer) (ok : Bool)
    → translation m c ≡ none
    → SameTables m (cache_resolved m c p ok)
unfolding cache_resolved
cache_resolved-refused m c p ok h = ground (arith, h, translate_lem m c)

-- What is seen of a registration under one translation, by a lookup under another.
abbrev pub seen :
    Option ℕ → Option ℕ → (ℕ → Registration) → Option Registration → Option Registration
seen none s g old = old
seen (some r) none g old = old
seen (some r) (some s) g old = ite (ℕ_discrete r s) (some (g r)) old

found-refused :
    (m n : NativeManager) (q : ℕ)
    → SameTables m n
    → cached_at n (translation n q) ≡ cached_at m (translation m q)
found-refused m n q (ready, build, cache, forth, back) = rw (ready, build, forth, cache) refl

found-WithCached :
    (m n : NativeManager) (q r : ℕ) (p : Pointer) (ok : Bool) (o : Option ℕ)
    → WithCached m n (new_registration r p ok)
    → cached_at n o ≡ seen (some r) o (λ h. new_registration h p ok) (cached_at m o)
unfolding cache_store cache_find
found-WithCached m n q r p ok none k = refl
found-WithCached m n q r p ok (some s) k =
    rw k.2 (Map.find-insert_or_assign ℕ_discrete s r (new_registration r p ok) m.cache)

-- What a lookup by canonical hash finds after a handler was cached under another or the same
-- canonical hash: the new registration if both hashes translate, to one runtime hash, and what it
-- found before if they do not, or if one of them has no translation.
pub find_cached-cache_resolved :
    (m : NativeManager) (canonical q : ℕ) (p : Pointer) (ok : Bool)
    → (find_cached (cache_resolved m canonical p ok) q).1
      ≡ seen
          (translation m canonical)
          (translation m q)
          (λ r. new_registration r p ok)
          (find_cached m q).1
find_cached-cache_resolved m canonical q p ok =
    (find_cached_lem n q).0 ∙ rw (find_cached_lem m q).0 (found (translation m canonical) refl)
  where
    n : NativeManager
    n = cache_resolved m canonical p ok

    found :
        (o : Option ℕ)
        → translation m canonical ≡ o
        → cached_at n (translation n q)
          ≡ seen o (translation m q) (λ r. new_registration r p ok) (cached_at m (translation m q))
    found none h = found-refused m n q (cache_resolved-refused m canonical p ok h)
    found (some r) h =
        let written = cache_resolved_lem m canonical r p ok h in
        ap (cached_at n) (translation-WithCached m n (new_registration r p ok) q written)
        ∙ found-WithCached m n q r p ok (translation m q) written

-- What an initialization leaves, whether it succeeds or fails.
pub record Initialized (m : NativeManager) (r : Result (Unit {0})) : Type 0 where
  pub ready_exactly : m.ready ≡ has_value r
  pub bijective : IsBijective m.crossmap
  pub cache_empty : m.cache ≡ []
  pub known_build : m.ready ≡ true → 0 < m.build.fingerprint
  pub nonempty : m.ready ≡ true → 0 < (Crossmap.statistics m.crossmap).entries

module _ (read : Text → Result Text) (m : NativeManager) (b : BuildInfo) (path : Text) where
  initialize-crossmap : (initialize read m b path).0.crossmap ≡ (
      if b.fingerprint == 0
      then Crossmap.empty
      else (Crossmap.load_text Crossmap.empty (read path) path b.fingerprint).0)
  unfolding initialize Crossmap.clear
  initialize-crossmap = ground arith

  initialize-IsBijective : IsBijective (initialize read m b path).0.crossmap
  initialize-IsBijective = rw initialize-crossmap (elim (Bool-cases (b.fingerprint == 0)) [
    | inl h ↦ rw h empty-IsBijective
    | inr h ↦
        rw h (load_text-IsBijective Crossmap.empty (read path) path b.fingerprint empty-IsBijective)
  ])

  -- An initialization leaves an empty cache and inverse translations, and the manager is ready
  -- exactly if it succeeded; then the build is known and its crossmap has an entry.
  pub initialize-Initialized : Initialized (initialize read m b path).0 (initialize read m b path).1
  unfolding initialize
  initialize-Initialized = record {
    ready_exactly = ground arith;
    bijective = initialize-IsBijective;
    cache_empty = ground arith;
    known_build = ground arith;
    nonempty = ground arith;
  }
