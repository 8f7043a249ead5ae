-- ===== src/Natives/Invoker.antt =====
-- Natives/Native_Invoker.hpp and Native_Invoker.cpp: the two ways to invoke a native, through the
-- crossmap and the cache or the table, and through the indexed handlers. No call is made: the
-- source has no verified adapter for the call's ABI. The counters are 64-bit words.
pub mod Accounting
pub mod Managers
use devilz_den.Prelude.{ℕ, ◌+◌, ◌%◌, ◌^◌, Bool, true, not, ◌&&◌, Option, none, some, if◌then◌else◌}
use devilz_den.Prelude.Numbers.{to_string}
use devilz_den.Backend.Error.{Result, success, failure, fail_runtime, annotate}
use devilz_den.Backend.Range.{Pointer, is_null}
use devilz_den.Natives.CallContext.{CallContext}
use devilz_den.Natives.HandlerTable.{HandlerTable, get, runtime_hash}
use devilz_den.Natives.Manager.{NativeManager, translate, find_cached, cache_resolved}
use devilz_den.Natives.Table.{Registration, NativeTable, find}

pub record InvokeStats : Type 0 where
  pub calls : ℕ
  pub failures : ℕ
  pub cache_hits : ℕ
  pub table_hits : ℕ
  pub indexed_hits : ℕ

pub record Invoker : Type 0 where
  pub manager : NativeManager
  pub table : NativeTable
  pub indexed_handlers : Option HandlerTable
  pub stats : InvokeStats

count_call : Invoker → Invoker
count_call v = record v { stats = record v.stats { calls = (v.stats.calls + 1) % 2 ^ 64 } }

count_failure : Invoker → Invoker
count_failure v = record v { stats = record v.stats { failures = (v.stats.failures + 1) % 2 ^ 64 } }

count_cache_hit : Invoker → Invoker
count_cache_hit v = record v {
  stats = record v.stats { cache_hits = (v.stats.cache_hits + 1) % 2 ^ 64 };
}

count_table_hit : Invoker → Invoker
count_table_hit v = record v {
  stats = record v.stats { table_hits = (v.stats.table_hits + 1) % 2 ^ 64 };
}

count_indexed_hit : Invoker → Invoker
count_indexed_hit v = record v {
  stats = record v.stats { indexed_hits = (v.stats.indexed_hits + 1) % 2 ^ 64 };
}

-- `Native_Invoker::InvokeResolved`.
unfoldable pub invoke_resolved : Invoker → Pointer → CallContext → ℕ → Invoker × Result (Unit {0})
unfolding count_failure
invoke_resolved v handler c canonical = (
  count_failure v,
  annotate
      (annotate
        (annotate
          (fail_runtime "Native handler resolved, but no verified call ABI adapter is installed")
          "CanonicalHash" (to_string canonical))
        "Handler" (to_string handler.address))
      "ArgumentCount" (to_string c.argument_count),
)

fallback_hash : Option ℕ → ℕ
fallback_hash none = 0
fallback_hash (some h) = h

-- `Native_Invoker::Invoke(Native_Index, ...)`.
unfoldable pub invoke_index : Invoker → ℕ → CallContext → Invoker × Result (Unit {0})
unfolding count_call count_failure count_indexed_hit fallback_hash
invoke_index v index c =
    let v1 : Invoker = count_call v in
    if not v1.manager.ready
    then (
      count_failure v1,
      fail_runtime "Indexed native invocation requested before Native_Manager is ready",
    )
    else elim v1.indexed_handlers [
      | none ↦ (
        count_failure v1,
        fail_runtime "Indexed native invocation requested without a Native_Handler_Table",
      )
      | some t ↦ elim (get t index) [
        | none ↦ (
          count_failure v1,
          annotate (fail_runtime "Indexed native handler is unresolved or unvalidated")
              "NativeIndex" (to_string index),
        )
        | some handler ↦
            invoke_resolved (count_indexed_hit v1) handler c (fallback_hash (runtime_hash t index))
      ]
    ]

-- The registration has a validated handler.
usable : Registration → Bool
usable r = r.validated && not (is_null r.handler)

-- The `else` of `Invoke(Native_Hash, ...)`: the cache has no validated entry.
unfoldable pub invoke_uncached : Invoker → ℕ → CallContext → Invoker × Result (Unit {0})
unfolding count_failure count_table_hit usable
invoke_uncached v canonical c =
    let (m, runtime) = translate v.manager canonical in
    let v1 : Invoker = record v { manager = m } in
    elim runtime [
      | failure e ↦ (count_failure v1, failure e)
      | success r ↦
          let unresolved : Invoker × Result (Unit {0}) = (
            count_failure v1,
            annotate
                (annotate (fail_runtime "Native handler is unresolved or unvalidated")
                  "CanonicalHash" (to_string canonical))
                "RuntimeHash" (to_string r),
          ) in
          elim (find v1.table r) [
            | none ↦ unresolved
            | some g ↦
                if not (usable g)
                then unresolved
                else invoke_resolved
                    (count_table_hit
                      (record v1 { manager = cache_resolved v1.manager canonical g.handler true }))
                    g.handler c canonical
          ]
    ]

-- `Native_Invoker::Invoke(Native_Hash, ...)`.
unfoldable pub invoke : Invoker → ℕ → CallContext → Invoker × Result (Unit {0})
unfolding count_call count_failure count_cache_hit
invoke v canonical c =
    let v1 : Invoker = count_call v in
    if not v1.manager.ready
    then (
      count_failure v1,
      fail_runtime "Native invocation requested before Native_Manager is ready",
    )
    else (let (m, cached) = find_cached v1.manager canonical in
        let v2 : Invoker = record v1 { manager = m } in
        elim cached [
          | none ↦ invoke_uncached v2 canonical c
          | some r ↦
              if r.validated
              then invoke_resolved (count_cache_hit v2) r.handler c canonical
              else invoke_uncached v2 canonical c
        ])

-- `Native_Invoker::SetIndexedHandlers`.
unfoldable pub set_indexed_handlers : Invoker → Option HandlerTable → Invoker
set_indexed_handlers v t = record v { indexed_handlers = t }
