-- ===== src/Natives/Invoker/Managers.antt =====
-- The native manager of an invocation of Natives/Native_Invoker.cpp, before and after.
use devilz_den.Prelude.{ℕ, ◌≡◌, refl, Bool, arith}
use devilz_den.Backend.Range.{Pointer}
use devilz_den.Natives.CallContext.{CallContext}
use devilz_den.Natives.Manager.{NativeManager, find_cached, cache_resolved}
use devilz_den.Natives.Manager.Resolution.{translate_lem, find_cached_lem}
use devilz_den.Natives.Invoker.{
  Invoker, invoke, invoke_index, invoke_uncached, invoke_resolved, count_call, count_failure,
  count_cache_hit, count_table_hit, count_indexed_hit, usable, fallback_hash,
}

-- Both managers are for the same build, and both are ready or neither is.
abbrev pub SameBuild : NativeManager → NativeManager → Type 0
SameBuild m n = (n.ready ≡ m.ready) × (n.build ≡ m.build)

cache_resolved-SameBuild :
    (m : NativeManager) (c : ℕ) (p : Pointer) (ok : Bool) → SameBuild m (cache_resolved m c p ok)
unfolding cache_resolved
cache_resolved-SameBuild m c p ok = ground (arith, translate_lem m c)

invoke_resolved-SameBuild :
    (v : Invoker) (p : Pointer) (c : CallContext) (n : ℕ)
    → (invoke_resolved v p c n).0.manager ≡ v.manager
unfolding invoke_resolved count_failure
invoke_resolved-SameBuild v p c n = refl

invoke_uncached-SameBuild :
    (v : Invoker) (canonical : ℕ) (c : CallContext)
    → SameBuild v.manager (invoke_uncached v canonical c).0.manager
unfolding invoke_uncached count_failure count_table_hit usable invoke_resolved
invoke_uncached-SameBuild v canonical c =
    let (answer, same) = translate_lem v.manager canonical in
    grind (arith, same, cache_resolved-SameBuild)

pub invoke-SameBuild :
    (v : Invoker) (canonical : ℕ) (c : CallContext)
    → SameBuild v.manager (invoke v canonical c).0.manager
unfolding invoke count_call count_failure count_cache_hit invoke_resolved usable
invoke-SameBuild v canonical c =
    let (answer, same) = find_cached_lem v.manager canonical in
    let counted =
      invoke_uncached-SameBuild
        (record (count_call v) { manager = (find_cached v.manager canonical).0 }) canonical c in
    ground (arith, same, counted)

pub invoke_index-SameBuild :
    (v : Invoker) (index : ℕ) (c : CallContext)
    → SameBuild v.manager (invoke_index v index c).0.manager
unfolding invoke_index count_call count_failure count_indexed_hit fallback_hash invoke_resolved
invoke_index-SameBuild v index c = ground arith
