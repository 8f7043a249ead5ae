-- ===== src/Natives/Crossmap/Loading.antt =====
-- The operations of the crossmap over a history, loading included.
use devilz_den.Prelude.{
  ℕ, ◌≡◌, sym, ◌∙◌, ◌↔◌, List, [], ◌∷◌, arith, none, some, Bool-cases, inl, inr, Text,
  if◌then◌else◌, ◌==◌, codes, text_eq,
}
use devilz_den.Prelude.Map
use devilz_den.Backend.Error.{Result, success, failure}
use devilz_den.Natives.Crossmap.{
  CrossmapEntry, Key-discrete, Crossmap, empty, key, add, add_batch, to_runtime, to_canonical,
  invalidate_build, clear, getlines, parse_lines, load_lines, load_text, Key,
}
use devilz_den.Natives.Crossmap.Bijection.{
  IsBijective, runtime_of, canonical_of, add_batch-IsBijective, add-IsBijective, IsBijective-congr,
}

-- The translations answer from the tables and leave the tables alone.
to_runtime_lem :
    (x : Crossmap) (c b : ℕ)
    → ((to_runtime x c b).1 ≡ runtime_of x c b)
      × ((to_runtime x c b).0.by_canonical ≡ x.by_canonical)
      × ((to_runtime x c b).0.by_runtime ≡ x.by_runtime)
unfolding to_runtime
to_runtime_lem x c b = ground arith

to_canonical_lem :
    (x : Crossmap) (r b : ℕ)
    → ((to_canonical x r b).1 ≡ canonical_of x r b)
      × ((to_canonical x r b).0.by_canonical ≡ x.by_canonical)
      × ((to_canonical x r b).0.by_runtime ≡ x.by_runtime)
unfolding to_canonical
to_canonical_lem x r b = ground arith

pub load_text-IsBijective :
    (x : Crossmap) (t : Result Text) (path : Text) (expected : ℕ)
    → IsBijective x
    → IsBijective (load_text x t path expected).0
unfolding load_text
load_text-IsBijective x (failure f) path expected v = v
load_text-IsBijective x (success t) path expected v = lines (getlines t [])
  where
    lines : (ls : List Text) → IsBijective (load_lines x path expected ls).0
    lines [] = v
    lines (l ∷ ls) = elim (Bool-cases (text_eq l (codes "DDXMAP1"))) [
      | inl h ↦ rw h (add_batch-IsBijective x (parse_lines expected ls) v)
      | inr h ↦ rw h v
    ]

runtime_of-invalidate_build :
    (x : Crossmap) (b c b' : ℕ)
    → IsBijective x
    → runtime_of (invalidate_build x b) c b' ≡ (if b' == b then none else runtime_of x c b')
unfolding invalidate_build
runtime_of-invalidate_build x b c b' v = ground (
  arith,
  Map.find-erase_if Key-discrete (key c b') (λ (k : Key) (e : CrossmapEntry). k.build == b)
      x.by_canonical v.unique_canonical,
)

canonical_of-invalidate_build :
    (x : Crossmap) (b r b' : ℕ)
    → IsBijective x
    → canonical_of (invalidate_build x b) r b' ≡ (if b' == b then none else canonical_of x r b')
unfolding invalidate_build
canonical_of-invalidate_build x b r b' v = ground (
  arith,
  Map.find-erase_if Key-discrete (key r b') (λ (k : Key) (e : CrossmapEntry). k.build == b)
      x.by_runtime v.unique_runtime,
)

invalidate_build-IsBijective :
    (x : Crossmap) (b : ℕ) → IsBijective x → IsBijective (invalidate_build x b)
invalidate_build-IsBijective x b v = record {
  forth = λ c r b' h. ground (
    arith,
    runtime_of-invalidate_build x b c b' v,
    canonical_of-invalidate_build x b r b' v,
    v.forth c r b',
  );
  back = λ c r b' h. ground (
    arith,
    runtime_of-invalidate_build x b c b' v,
    canonical_of-invalidate_build x b r b' v,
    v.back c r b',
  );
  unique_canonical =
      unfold invalidate_build in Map.erase_if-HasUniqueKeys Key-discrete _ _ v.unique_canonical;
  unique_runtime =
      unfold invalidate_build in Map.erase_if-HasUniqueKeys Key-discrete _ _ v.unique_runtime;
}

pub empty-IsBijective : IsBijective empty
empty-IsBijective = record {
  forth = λ c r b h. cc (Map.find-nil {V = CrossmapEntry} Key-discrete (key c b));
  back = λ c r b h. cc (Map.find-nil {V = CrossmapEntry} Key-discrete (key r b));
  unique_canonical = tt;
  unique_runtime = tt;
}

-- The operations that change a crossmap.
pub data Operation : Type 0 where
  adds : CrossmapEntry → Operation
  adds_batch : List CrossmapEntry → Operation
  translates translates_back : ℕ → ℕ → Operation
  loads : Result Text → Text → ℕ → Operation
  invalidates_build : ℕ → Operation
  clears : Operation

unfoldable pub apply : Crossmap → Operation → Crossmap
apply x (adds e) = (add x e).0
apply x (adds_batch es) = (add_batch x es).0
apply x (translates c b) = (to_runtime x c b).0
apply x (translates_back r b) = (to_canonical x r b).0
apply x (loads t path expected) = (load_text x t path expected).0
apply x (invalidates_build b) = invalidate_build x b
apply x clears = clear x

unfoldable pub run : Crossmap → List Operation → Crossmap
run x [] = x
run x (o ∷ os) = run (apply x o) os

apply-IsBijective : (x : Crossmap) (o : Operation) → IsBijective x → IsBijective (apply x o)
unfolding apply clear
apply-IsBijective x (adds e) v = add-IsBijective x e v
apply-IsBijective x (adds_batch es) v = add_batch-IsBijective x es v
apply-IsBijective x (translates c b) v =
    IsBijective-congr (to_runtime_lem x c b).1 (to_runtime_lem x c b).2 v
apply-IsBijective x (translates_back r b) v =
    IsBijective-congr (to_canonical_lem x r b).1 (to_canonical_lem x r b).2 v
apply-IsBijective x (loads t path expected) v = load_text-IsBijective x t path expected v
apply-IsBijective x (invalidates_build b) v = invalidate_build-IsBijective x b v
apply-IsBijective x clears v = empty-IsBijective

run-IsBijective : (x : Crossmap) (os : List Operation) → IsBijective x → IsBijective (run x os)
unfolding run
run-IsBijective x [] v = v
run-IsBijective x (o ∷ os) v = run-IsBijective (apply x o) os (apply-IsBijective x o v)

-- After any history of a fresh crossmap, its two translations are inverse to each other.
pub run-to_runtime-to_canonical :
    (os : List Operation) (c r b : ℕ)
    → ((to_runtime (run empty os) c b).1 ≡ some r) ↔ ((to_canonical (run empty os) r b).1 ≡ some c)
run-to_runtime-to_canonical os c r b = (
  λ h. (to_canonical_lem x r b).0 ∙ v.forth c r b (sym (to_runtime_lem x c b).0 ∙ h),
  λ h. (to_runtime_lem x c b).0 ∙ v.back c r b (sym (to_canonical_lem x r b).0 ∙ h),
)
  where
    x : Crossmap
    x = run empty os

    v : IsBijective x
    v = run-IsBijective empty os empty-IsBijective
