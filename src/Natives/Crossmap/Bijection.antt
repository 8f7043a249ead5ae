-- ===== src/Natives/Crossmap/Bijection.antt =====
-- The two tables of the crossmap as inverse maps.
use devilz_den.Prelude.{
  ℕ, ◌<◌, ◌≡◌, refl, List, [], ◌∷◌, false, ◌&&◌, ◌||◌, arith, Option, none, some, Bool-cases, inl,
  inr, if◌then◌else◌, ◌==◌,
}
use devilz_den.Prelude.Map
use devilz_den.Prelude.Map.{HasUniqueKeys}
use devilz_den.Backend.Error.{Result, success, has_value}
use devilz_den.Natives.Crossmap.{
  CrossmapEntry, Key-discrete, Crossmap, key, conflicts, count_collision, insert_entry, add,
  add_batch,
}

abbrev pub runtime_at : Option CrossmapEntry → Option ℕ
runtime_at none = none
runtime_at (some e) = some e.runtime

abbrev pub canonical_at : Option CrossmapEntry → Option ℕ
canonical_at none = none
canonical_at (some e) = some e.canonical

-- The two translations, without the counting.
abbrev pub runtime_of : Crossmap → ℕ → ℕ → Option ℕ
runtime_of x c b = runtime_at (Map.find Key-discrete (key c b) x.by_canonical)

abbrev pub canonical_of : Crossmap → ℕ → ℕ → Option ℕ
canonical_of x r b = canonical_at (Map.find Key-discrete (key r b) x.by_runtime)

pub record IsBijective (x : Crossmap) : Type 0 where
  pub forth : (c r b : ℕ) → runtime_of x c b ≡ some r → canonical_of x r b ≡ some c
  pub back : (c r b : ℕ) → canonical_of x r b ≡ some c → runtime_of x c b ≡ some r
  pub unique_canonical : HasUniqueKeys Key-discrete x.by_canonical
  pub unique_runtime : HasUniqueKeys Key-discrete x.by_runtime

module _ (x : Crossmap) (e : CrossmapEntry) where
  runtime_of-insert_entry :
      (c b : ℕ)
      → runtime_of (insert_entry x e) c b ≡ (
          if e.canonical == c && e.build_fingerprint == b then some e.runtime else runtime_of x c b)
  unfolding insert_entry
  runtime_of-insert_entry c b = ground (
    arith,
    Map.find-insert_or_assign Key-discrete (key c b) (key e.canonical e.build_fingerprint) e
        x.by_canonical,
  )

  canonical_of-insert_entry :
      (r b : ℕ)
      → canonical_of (insert_entry x e) r b ≡ (
          if e.runtime == r && e.build_fingerprint == b
          then some e.canonical
          else canonical_of x r b)
  unfolding insert_entry
  canonical_of-insert_entry r b = ground (
    arith,
    Map.find-insert_or_assign Key-discrete (key r b) (key e.runtime e.build_fingerprint) e
        x.by_runtime,
  )

  -- No entry of the crossmap contradicts the new one.
  pub record Fits : Type 0 where
    pub canonical_free :
        (r : ℕ) → runtime_of x e.canonical e.build_fingerprint ≡ some r → r ≡ e.runtime
    pub runtime_free :
        (c : ℕ) → canonical_of x e.runtime e.build_fingerprint ≡ some c → c ≡ e.canonical

  insert_entry-IsBijective : IsBijective x → Fits → IsBijective (insert_entry x e)
  insert_entry-IsBijective v f = record {
    forth = λ c r b h. ground (
      arith,
      runtime_of-insert_entry c b,
      canonical_of-insert_entry r b,
      v.forth c r b,
      f.runtime_free c,
    );
    back = λ c r b h. ground (
      arith,
      runtime_of-insert_entry c b,
      canonical_of-insert_entry r b,
      v.back c r b,
      f.canonical_free r,
    );
    unique_canonical =
        unfold insert_entry in
        Map.insert_or_assign-HasUniqueKeys Key-discrete _ _ _ v.unique_canonical;
    unique_runtime =
        unfold insert_entry in
        Map.insert_or_assign-HasUniqueKeys Key-discrete _ _ _ v.unique_runtime;
  }

canonical_agrees :
    (o : Option CrossmapEntry) (n : ℕ)
    → conflicts (λ f. f.runtime) o n ≡ false
    → (r : ℕ) → runtime_at o ≡ some r
    → r ≡ n
unfolding conflicts
canonical_agrees o n h r q = ground arith

runtime_agrees :
    (o : Option CrossmapEntry) (n : ℕ)
    → conflicts (λ f. f.canonical) o n ≡ false
    → (c : ℕ) → canonical_at o ≡ some c
    → c ≡ n
unfolding conflicts
runtime_agrees o n h c q = ground arith

-- What `Add` does: it refuses the entry and keeps both tables, or it writes an entry that fits.
pub data AddOutcome (x : Crossmap) (e : CrossmapEntry) (r : Crossmap × Result (Unit {0}))
    : Type 0 where
  refused :
      has_value r.1 ≡ false
      → r.0.by_canonical ≡ x.by_canonical
      → r.0.by_runtime ≡ x.by_runtime
      → AddOutcome x e r
  written :
      Fits x e
      → 0 < e.canonical
      → 0 < e.runtime
      → r ≡ (insert_entry x e, success tt)
      → AddOutcome x e r

add-AddOutcome : (x : Crossmap) (e : CrossmapEntry) → AddOutcome x e (add x e)
unfolding count_collision add
add-AddOutcome x e = elim (Bool-cases (e.canonical == 0 || e.runtime == 0)) [
  | inl h ↦ rw (add, h) (refused refl refl refl)
  | inr h ↦ elim (Bool-cases (conflicts (λ o. o.runtime) at_canonical e.runtime)) [
    | inl k ↦ rw (add, h, k) (refused refl refl refl)
    | inr k ↦ elim (Bool-cases (conflicts (λ o. o.canonical) at_runtime e.canonical)) [
      | inl l ↦ rw (add, h, k, l) (refused refl refl refl)
      | inr l ↦
          rw (add, h, k, l)
            (written
              (record {
                canonical_free = canonical_agrees at_canonical e.runtime k;
                runtime_free = runtime_agrees at_runtime e.canonical l;
              })
              (ground arith) (ground arith) refl)
    ]
  ]
]
  where
    at_canonical : Option CrossmapEntry
    at_canonical = Map.find Key-discrete (key e.canonical e.build_fingerprint) x.by_canonical

    at_runtime : Option CrossmapEntry
    at_runtime = Map.find Key-discrete (key e.runtime e.build_fingerprint) x.by_runtime

pub IsBijective-congr :
    {x y : Crossmap}
    → y.by_canonical ≡ x.by_canonical
    → y.by_runtime ≡ x.by_runtime
    → IsBijective x
    → IsBijective y
IsBijective-congr p q v = record {
  forth = λ c r b h. rw q (v.forth c r b (rw p at h));
  back = λ c r b h. rw p (v.back c r b (rw q at h));
  unique_canonical = rw p v.unique_canonical;
  unique_runtime = rw q v.unique_runtime;
}

pub add-IsBijective : (x : Crossmap) (e : CrossmapEntry) → IsBijective x → IsBijective (add x e).0
add-IsBijective x e v = elim (add-AddOutcome x e) [
  | refused _ p q ↦ IsBijective-congr p q v
  | written f _ _ r ↦ rw r (insert_entry-IsBijective x e v f)
]

pub add_batch-IsBijective :
    (x : Crossmap) (es : List CrossmapEntry) → IsBijective x → IsBijective (add_batch x es).0
unfolding add_batch
add_batch-IsBijective x [] v = v
add_batch-IsBijective x (e ∷ es) v =
    ground
      (arith, add-IsBijective x e v, add_batch-IsBijective (add x e).0 es (add-IsBijective x e v))
