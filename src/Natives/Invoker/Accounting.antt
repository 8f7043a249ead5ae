-- ===== src/Natives/Invoker/Accounting.antt =====
-- The statistics of the invoker over its calls.
use devilz_den.Prelude.{
  ℕ, suc, ◌+◌, ◌%◌, ◌^◌, ◌≤◌, ◌≡◌, refl, subst, ◌∙◌, ◌⊎◌, inl, inr, List, [], ◌∷◌, arith, Option,
}
use devilz_den.Natives.CallContext.{CallContext}
use devilz_den.Natives.HandlerTable.{HandlerTable}
use devilz_den.Natives.Manager.{find_cached}
use devilz_den.Natives.Invoker.{
  InvokeStats, Invoker, count_call, set_indexed_handlers, invoke_resolved, invoke_index,
  invoke_uncached, invoke,
}

-- The counters after so many calls and hits, as 64-bit words.
pub record Counted (s : InvokeStats) (calls cache table indexed : ℕ) : Type 0 where
  pub calls_word : s.calls ≡ calls % 2 ^ 64
  pub failures_word : s.failures ≡ calls % 2 ^ 64
  pub cache_word : s.cache_hits ≡ cache % 2 ^ 64
  pub table_word : s.table_hits ≡ table % 2 ^ 64
  pub indexed_word : s.indexed_hits ≡ indexed % 2 ^ 64

-- The counters stand for a number of calls, each of which failed, and for hits that are no more
-- than the calls.
abbrev pub IsAccounted : InvokeStats → ℕ → Type 0
IsAccounted s calls =
    (cache : ℕ) × (table : ℕ) × (indexed : ℕ) × (cache + table + indexed ≤ calls)
    × Counted s calls cache table indexed

-- A counter that is the same, or one more.
abbrev Steps : ℕ → ℕ → ℕ → Type 0
Steps k x y = y ≡ (x + k) % 2 ^ 64

-- One call ended in one failure, and hit one of the three tables at most once.
record Counts (v w : InvokeStats) : Type 0 where
  one_call : Steps 1 v.calls w.calls
  one_failure : Steps 1 v.failures w.failures
  hits :
      ((w.cache_hits ≡ v.cache_hits)
        × (w.table_hits ≡ v.table_hits)
        × (w.indexed_hits ≡ v.indexed_hits))
      ⊎ (Steps 1 v.cache_hits w.cache_hits
          × (w.table_hits ≡ v.table_hits)
          × (w.indexed_hits ≡ v.indexed_hits))
      ⊎ ((w.cache_hits ≡ v.cache_hits)
          × Steps 1 v.table_hits w.table_hits
          × (w.indexed_hits ≡ v.indexed_hits))
      ⊎ ((w.cache_hits ≡ v.cache_hits)
          × (w.table_hits ≡ v.table_hits)
          × Steps 1 v.indexed_hits w.indexed_hits)

invoke_index-Counts :
    (v : Invoker) (i : ℕ) (c : CallContext) → Counts v.stats (invoke_index v i c).0.stats
unfolding invoke_index invoke_resolved
invoke_index-Counts v i c = ground arith

-- What the uncached path adds to the counts.
abbrev Uncached : InvokeStats → InvokeStats → Type 0
Uncached v w =
    (w.calls ≡ v.calls)
    × Steps 1 v.failures w.failures
    × (w.cache_hits ≡ v.cache_hits)
    × ((w.table_hits ≡ v.table_hits) ⊎ Steps 1 v.table_hits w.table_hits)
    × (w.indexed_hits ≡ v.indexed_hits)

invoke_uncached-Uncached :
    (v : Invoker) (h : ℕ) (c : CallContext) → Uncached v.stats (invoke_uncached v h c).0.stats
unfolding invoke_uncached invoke_resolved
invoke_uncached-Uncached v h c = ground arith

invoke-Counts : (v : Invoker) (h : ℕ) (c : CallContext) → Counts v.stats (invoke v h c).0.stats
unfolding invoke invoke_resolved
invoke-Counts v h c =
    let v2 : Invoker = record (count_call v) { manager = (find_cached v.manager h).0 } in
    ground (arith, invoke_uncached-Uncached v2 h c)

-- An invocation by hash or by index, or another table of handlers.
pub data Request : Type 0 where
  by_hash by_index : ℕ → CallContext → Request
  sets_handlers : Option HandlerTable → Request

unfoldable pub perform : Invoker → Request → Invoker
perform v (by_hash h c) = (invoke v h c).0
perform v (by_index i c) = (invoke_index v i c).0
perform v (sets_handlers t) = set_indexed_handlers v t

unfoldable pub run : Invoker → List Request → Invoker
run v [] = v
run v (q ∷ qs) = run (perform v q) qs

-- The number of invocations of a history.
unfoldable pub invocations : List Request → ℕ
invocations [] = 0
invocations (by_hash h c ∷ qs) = suc (invocations qs)
invocations (by_index i c ∷ qs) = suc (invocations qs)
invocations (sets_handlers t ∷ qs) = invocations qs

Counts-IsAccounted :
    (v w : InvokeStats) (calls : ℕ) → Counts v w → IsAccounted v calls → IsAccounted w (suc calls)
Counts-IsAccounted v w calls k (cache, table, indexed, less, n) = elim k.hits [
  | inl (c, t, i) ↦ (
    cache,
    table,
    indexed,
    omega (arith, less),
    counted cache table indexed (c ∙ n.cache_word) (t ∙ n.table_word) (i ∙ n.indexed_word),
  )
  | inr (inl (c, t, i)) ↦ (
    suc cache,
    table,
    indexed,
    omega (arith, less),
    counted (suc cache) table indexed (next cache c n.cache_word) (t ∙ n.table_word)
        (i ∙ n.indexed_word),
  )
  | inr (inr (inl (c, t, i))) ↦ (
    cache,
    suc table,
    indexed,
    omega (arith, less),
    counted cache (suc table) indexed (c ∙ n.cache_word) (next table t n.table_word)
        (i ∙ n.indexed_word),
  )
  | inr (inr (inr (c, t, i))) ↦ (
    cache,
    table,
    suc indexed,
    omega (arith, less),
    counted cache table (suc indexed) (c ∙ n.cache_word) (t ∙ n.table_word)
        (next indexed i n.indexed_word),
  )
]
  where
    next : (n : ℕ) {x y : ℕ} → Steps 1 x y → x ≡ n % 2 ^ 64 → y ≡ suc n % 2 ^ 64
    next n h e = omega (arith, h, e)

    counted :
        (c t i : ℕ)
        → w.cache_hits ≡ c % 2 ^ 64
        → w.table_hits ≡ t % 2 ^ 64
        → w.indexed_hits ≡ i % 2 ^ 64
        → Counted w (suc calls) c t i
    counted c t i x y z = record {
      calls_word = next calls k.one_call n.calls_word;
      failures_word = next calls k.one_failure n.failures_word;
      cache_word = x;
      table_word = y;
      indexed_word = z;
    }

run-IsAccounted_from :
    (v : Invoker) (qs : List Request) (calls total : ℕ)
    → total ≡ calls + invocations qs
    → IsAccounted v.stats calls
    → IsAccounted (run v qs).stats total
unfolding run perform invocations set_indexed_handlers
run-IsAccounted_from v [] calls total e k =
    subst (IsAccounted v.stats) {x = calls} {y = total} (omega (arith, e)) k
run-IsAccounted_from v (by_hash h c ∷ qs) calls total e k =
    run-IsAccounted_from (invoke v h c).0 qs (suc calls) total (omega (arith, e))
      (Counts-IsAccounted v.stats (invoke v h c).0.stats calls (invoke-Counts v h c) k)
run-IsAccounted_from v (by_index i c ∷ qs) calls total e k =
    run-IsAccounted_from (invoke_index v i c).0 qs (suc calls) total (omega (arith, e))
      (Counts-IsAccounted v.stats (invoke_index v i c).0.stats calls (invoke_index-Counts v i c) k)
run-IsAccounted_from v (sets_handlers t ∷ qs) calls total e k =
    run-IsAccounted_from (set_indexed_handlers v t) qs calls total e k

abbrev pub no_counts : InvokeStats
no_counts = record { calls = 0; failures = 0; cache_hits = 0; table_hits = 0; indexed_hits = 0 }

-- After any history of an invoker whose counters were all 0, the counters of the calls and of the
-- failures are, as 64-bit words, the number of the invocations, and those of the hits are the words
-- of three numbers that together are no more than the invocations.
pub run-Counted :
    (v : Invoker) (qs : List Request)
    → v.stats ≡ no_counts
    → IsAccounted (run v qs).stats (invocations qs)
run-Counted v qs e = run-IsAccounted_from v qs 0 (invocations qs) (omega arith) (
    rw e (
      0,
      0,
      0,
      omega arith,
      record {
        calls_word = refl;
        failures_word = refl;
        cache_word = refl;
        table_word = refl;
        indexed_word = refl;
      },
    ))
