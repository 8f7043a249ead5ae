-- ===== src/Runtime/Hook/Shutdown.antt =====
-- The end of the hook of GTA_Run_Script_Threads_Bridge.cpp.
use devilz_den.Prelude.{
  ℕ, zero, suc, ap, and_then, ◌+◌, ◌*◌, ◌≤◌, ◌≡◌, ◌≢◌, refl, sym, ◌∙◌, List, [], ◌∷◌, Bool, true,
  false, none, some, some-inj, length, arith, inl, inr, and_then-eq-some, Option-cases, ◌⊎◌, ltb,
  if◌then◌else◌,
}
use devilz_den.Prelude.Traces
use devilz_den.Runtime.Hook.{
  Phase, hooked, waiting, drained, cleared, freed, HookState, is_hooked, is_cleared, Event, call,
  test, add, read_original, finish, subtract, begin, see_no_calls, clear, free, advance, step, run,
  installed,
}

-- The counter of calls is exact.
abbrev pub IsCounted : HookState → Type 0
IsCounted s = s.active ≡ s.counted + s.running + s.leaving

step-IsCounted : (s t : HookState) (e : Event) → IsCounted s → step s e ≡ some t → IsCounted t
unfolding step advance
step-IsCounted s t e c h = ground (arith, c, h)

-- `Uninstall` has begun, and the original bytes are restored.
abbrev pub IsUnhooked : HookState → Type 0
IsUnhooked s = (is_hooked s.phase ≡ false) × (s.patched ≡ false)

-- The steps that are left once the bytes are restored.
abbrev phase_rank : Phase → ℕ
phase_rank hooked = 4
phase_rank waiting = 3
phase_rank drained = 2
phase_rank cleared = 1
phase_rank freed = 0

abbrev pub work_left : HookState → ℕ
work_left s =
    5 * s.called + 4 * s.entering + 3 * s.counted + 2 * s.running + s.leaving + phase_rank s.phase

step-work_left :
    (s t : HookState) (e : Event)
    → IsUnhooked s
    → step s e ≡ some t
    → IsUnhooked t × (suc (work_left t) ≤ work_left s)
unfolding step advance
step-work_left s t e k h = ground (arith, k, h)

-- Once the bytes are restored, no sequence of events is longer than the work that was left.
run-work_left :
    (s t : HookState) (es : List Event)
    → IsUnhooked s
    → run s es ≡ some t
    → IsUnhooked t × (length es + work_left t ≤ work_left s)
unfolding Traces.run
run-work_left s t [] k h = rw (sym (some-inj h)) (k, omega arith)
run-work_left s t (e ∷ es) k h =
    let (u, n, m) = and_then-eq-some (step s e) (λ x. run x es) h in
    let (v, less) = step-work_left s u e k n in
    let (w, rest) = run-work_left u t es v m in (w, omega (arith, less, rest))

-- The event that comes next where no thread is in the hook.
advance_event : Phase → Event
advance_event hooked = begin true
advance_event waiting = see_no_calls
advance_event drained = clear
advance_event cleared = free
advance_event freed = call

-- An event that can happen: a thread in the hook goes on, the one furthest in first, and if there
-- is none, `Uninstall` does.
next_event : HookState → Event
unfolding advance_event
next_event s =
    if ltb 0 s.leaving
    then subtract
    else if ltb 0 s.running
    then finish
    else if ltb 0 s.counted
    then read_original
    else if ltb 0 s.entering
    then add
    else if ltb 0 s.called
    then test
    else advance_event s.phase

next_event-happens :
    (s : HookState) → IsUnhooked s → IsCounted s → s.phase ≢ freed → step s (next_event s) ≢ none
unfolding step advance next_event advance_event
next_event-happens s k c n h = ground (arith, k, c, n, h)

run-IsCounted : (s t : HookState) (es : List Event) → IsCounted s → run s es ≡ some t → IsCounted t
run-IsCounted s t es c h = Traces.run-invariant step IsCounted step-IsCounted s t es c h

is_freed : (p : Phase) → (p ≡ freed) ⊎ (p ≢ freed)
is_freed hooked = inr (λ e. ground (arith, e))
is_freed waiting = inr (λ e. ground (arith, e))
is_freed drained = inr (λ e. ground (arith, e))
is_freed cleared = inr (λ e. ground (arith, e))
is_freed freed = inl refl

progress :
    (s : HookState)
    → IsUnhooked s
    → IsCounted s
    → (s.phase ≡ freed) ⊎ ((e : Event) × (t : HookState) × (step s e ≡ some t))
progress s k c = elim (is_freed s.phase) [
  | inl e ↦ inl e
  | inr n ↦ elim (Option-cases (step s (next_event s))) [
    | inl stuck ↦ absurd (next_event-happens s k c n stuck)
    | inr (u, m) ↦ inr (next_event s, u, m)
  ]
]

completes :
    (fuel : ℕ) (s : HookState)
    → work_left s ≤ fuel
    → IsUnhooked s
    → IsCounted s
    → (es : List Event) × (t : HookState) × (run s es ≡ some t) × (t.phase ≡ freed)
unfolding Traces.run
completes zero s b k c = elim (progress s k c) [
  | inl e ↦ ([], s, refl, e)
  | inr (e, u, m) ↦ absurd (omega (arith, b, (step-work_left s u e k m).1))
]
completes (suc fuel) s b k c = elim (progress s k c) [
  | inl e ↦ ([], s, refl, e)
  | inr (e, u, m) ↦
      let (v, less) = step-work_left s u e k m in
      let (es, t, h, f) = completes fuel u (omega (arith, b, less)) v (step-IsCounted s u e c m) in
      (e ∷ es, t, ap (λ o. and_then o (λ x. run x es)) m ∙ h, f)
]

-- `Uninstall` ends. From every state that the hook can reach once its bytes are restored, no
-- schedule is longer than the work that was left in that state, and whatever has been done, some
-- schedule goes on to the release of the trampoline: the wait for the calls is never stuck.
pub uninstall-terminates :
    (s t : HookState) (es fs : List Event)
    → run installed es ≡ some s
    → IsUnhooked s
    → run s fs ≡ some t
    → (length fs + work_left t ≤ work_left s)
      × ((gs : List Event) × (u : HookState) × (run t gs ≡ some u) × (u.phase ≡ freed))
uninstall-terminates s t es fs r k h =
    let (v, bound) = run-work_left s t fs k h in
    let counted = run-IsCounted s t fs (run-IsCounted installed s es refl r) h in
    (bound, completes (work_left t) t (omega arith) v counted)

-- No thread is between its entry of `HookThunk` and `fetch_add`.
abbrev pub IsQuiet : HookState → Type 0
IsQuiet s = (s.called ≡ 0) × (s.entering ≡ 0)

abbrev is_drained : Phase → Bool
is_drained hooked = false
is_drained waiting = false
is_drained drained = true
is_drained cleared = true
is_drained freed = true

record IsSafe (s : HookState) : Type 0 where
  counted : IsCounted s
  quiet : IsQuiet s
  unhooked : IsUnhooked s
  empty : is_drained s.phase ≡ true → s.active ≡ 0

step-IsSafe : (s t : HookState) (e : Event) → IsSafe s → step s e ≡ some t → IsSafe t
unfolding step advance
step-IsSafe s t e q h = record {
  counted = step-IsCounted s t e q.counted h;
  quiet = ground (arith, q.quiet, q.unhooked, h);
  unhooked = (step-work_left s t e q.unhooked h).0;
  empty = ground (arith, q.counted, q.quiet, q.unhooked, q.empty, h);
}

run-IsSafe : (s t : HookState) (es : List Event) → IsSafe s → run s es ≡ some t → IsSafe t
run-IsSafe s t es q h = Traces.run-invariant step IsSafe step-IsSafe s t es q h

-- If no thread is between its entry of `HookThunk` and `fetch_add` while `Uninstall` waits for the
-- calls, and the write of the original bytes has succeeded, then under every schedule from there no thread is inside the trampoline, or about to enter
-- it, once `m_original` is cleared and the trampoline released.
pub waiting-no_use_after_free :
    (s t : HookState) (es fs : List Event)
    → run installed es ≡ some s
    → s.phase ≡ waiting
    → s.patched ≡ false
    → IsQuiet s
    → run s fs ≡ some t
    → is_cleared t.phase ≡ true
    → (t.running ≡ 0) × (t.counted ≡ 0) × (t.entering ≡ 0)
waiting-no_use_after_free s t es fs r p u q h k =
    let safe =
      run-IsSafe s t fs
        (record {
          counted = run-IsCounted installed s es refl r;
          quiet = q;
          unhooked = (rw p refl, u);
          empty = λ e. absurd (apart (rw p at e));
        })
        h in
    finally (safe.counted) (safe.quiet) (safe.empty (late t.phase k))
  where
    apart : false ≡ true → ⊥
    apart e = cc

    late : (p : Phase) → is_cleared p ≡ true → is_drained p ≡ true
    late hooked e = e
    late waiting e = e
    late drained e = refl
    late cleared e = refl
    late freed e = refl

    finally :
        IsCounted t
        → IsQuiet t
        → t.active ≡ 0
        → (t.running ≡ 0) × (t.counted ≡ 0) × (t.entering ≡ 0)
    finally c i e = (omega (arith, c, e), omega (arith, c, e), i.1)
