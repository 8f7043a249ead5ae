-- ===== src/Backend/Logger/Shutdown.antt =====
-- The end of the worker of LoggerService.cpp.
use devilz_den.Prelude.{
  ℕ, ◌<◌, ◌≡◌, refl, sym, ap, ◌∙◌, List, [], ◌∷◌, ◌++◌, Bool, true, false, not, ◌&&◌, subst,
  some-inj, and_then-eq-some, Option, none, some, arith, get_or, length, inl, inr, ◌⊎◌, and_then,
}
use mathlib.Core.List.{append-nil}
use devilz_den.Prelude.Traces
use devilz_den.Backend.Logger.{
  LogRecord, WorkerPhase, absent, serving, draining, finished, Logger, new_logger, Event, add_sink,
  start, number, close, request_stop, join, enqueue, take, leave_loop, dispatch, finish,
  start_worker, take_record, dispatch_record, leave_empty, step_worker, join_worker, step, run,
  write_all,
}
use devilz_den.Backend.Logger.Delivery.{stream, accepted, run-delivers}

-- There is no worker, or it is at its end.
abbrev pub is_over : WorkerPhase → Bool
is_over absent = true
is_over serving = false
is_over draining = false
is_over finished = true

abbrev is_serving : WorkerPhase → Bool
is_serving absent = false
is_serving serving = true
is_serving draining = false
is_serving finished = false

-- Between events: a logger whose worker has left its first loop accepts nothing, one whose worker
-- is over holds nothing, and a stop is only requested of one that accepts nothing.
record IsOrderly (s : Logger) : Type 0 where
  closed : is_serving s.worker ≡ false → s.accepting ≡ false
  empty : is_over s.worker ≡ true → (s.queue ≡ []) × (s.holding ≡ none)
  stopped : s.stop_requested ≡ true → s.accepting ≡ false

-- A stop is requested while the logger accepts: a `Start` came between the sections of a `Stop`.
abbrev pub is_late_stop : Logger → Event → Bool
is_late_stop s add_sink = false
is_late_stop s start = false
is_late_stop s number = false
is_late_stop s close = false
is_late_stop s request_stop = s.accepting
is_late_stop s join = false
is_late_stop s take = false
is_late_stop s leave_loop = false
is_late_stop s dispatch = false
is_late_stop s finish = false
is_late_stop s (enqueue r) = false

-- No stop of the run is late.
unfoldable pub in_order : Logger → List Event → Bool
in_order s [] = true
in_order s (e ∷ es) =
    not (is_late_stop s e) && elim (step s e) [ none ↦ true | some t ↦ in_order t es ]

step-IsOrderly :
    (s t : Logger) (e : Event)
    → is_late_stop s e ≡ false
    → IsOrderly s
    → step s e ≡ some t
    → IsOrderly t
unfolding step start_worker step_worker join_worker take_record dispatch_record leave_empty
step-IsOrderly s t e l o h = record {
  closed = ground (arith, l, o.closed, o.stopped, h);
  empty = ground (arith, l, o.closed, o.empty, o.stopped, h);
  stopped = ground (arith, l, o.closed, o.stopped, h);
}

run-IsOrderly :
    (s t : Logger) (es : List Event)
    → in_order s es ≡ true
    → IsOrderly s
    → run s es ≡ some t
    → IsOrderly t
unfolding Traces.run in_order
run-IsOrderly s t [] l o h = subst IsOrderly (some-inj h) o
run-IsOrderly s t (e ∷ es) l o h =
    let (u, n, m) = and_then-eq-some (step s e) (λ x. run x es) h in
    run-IsOrderly u t es (ground (arith, l, n)) (step-IsOrderly s u e (ground (arith, l)) o n) m

new_logger-IsOrderly : IsOrderly new_logger
new_logger-IsOrderly = record { closed = λ e. refl; empty = λ e. (refl, refl); stopped = λ e. refl }

-- If no `Start` comes between the sections of a `Stop`, so that no stop is requested while the logger
-- accepts, then when the worker is over, every sink has been given all that was in the queue or in
-- the worker's hand when the sink was added, followed by all records accepted since, in their order.
pub over-flushed :
    (s t : Logger) (before es : List Event) (i : ℕ)
    → in_order new_logger before ≡ true
    → run new_logger before ≡ some s
    → i < length s.sinks
    → in_order s es ≡ true
    → run s es ≡ some t
    → is_over t.worker ≡ true
    → get_or t.sinks i [] ≡ stream i s ++ accepted s es
over-flushed s t before es i p r b q h o =
    let reached = run-IsOrderly new_logger s before p new_logger-IsOrderly r in
    let orderly = run-IsOrderly s t es q reached h in
    let (queue, holding) = orderly.empty o in rest queue holding ∙ run-delivers s t es i b h
  where
    rest : t.queue ≡ [] → t.holding ≡ none → get_or t.sinks i [] ≡ stream i t
    rest q k = rw (q, k) (sym (append-nil (get_or t.sinks i [])))

-- The worker in one of its loops.
abbrev IsWorking : WorkerPhase → Type 0
IsWorking w = (w ≡ serving) ⊎ (w ≡ draining)

-- A run to the end of the worker.
abbrev pub Finishes : Logger → Type 0
Finishes s = (es : List Event) × (t : Logger) × (run s es ≡ some t) × (t.worker ≡ finished)

first-Finishes : (s t : Logger) (e : Event) → step s e ≡ some t → Finishes t → Finishes s
unfolding Traces.run
first-Finishes s t e h (es, u, r, f) = (e ∷ es, u, ap (λ o. and_then o (λ x. run x es)) h ∙ r, f)

step-take :
    (s : Logger) (r : LogRecord) (rest : List LogRecord)
    → IsWorking s.worker
    → s.queue ≡ r ∷ rest
    → s.holding ≡ none
    → step s take ≡ some (record s { queue = rest; holding = some r })
unfolding step step_worker take_record
step-take s r rest w q h = ground (arith, w, q, h)

step-dispatch :
    (s : Logger) (r : LogRecord)
    → IsWorking s.worker
    → s.holding ≡ some r
    → step s dispatch ≡ some (record s { holding = none; sinks = write_all s.sinks r })
unfolding step step_worker dispatch_record
step-dispatch s r w h = ground (arith, w, h)

step-leave_loop :
    (s : Logger)
    → s.worker ≡ serving
    → s.accepting ≡ false
    → s.queue ≡ []
    → s.holding ≡ none
    → step s leave_loop ≡ some (record s { worker = draining })
unfolding step step_worker leave_empty
step-leave_loop s w a q h = ground (arith, w, a, q, h)

step-finish :
    (s : Logger)
    → s.worker ≡ draining
    → s.queue ≡ []
    → s.holding ≡ none
    → step s finish ≡ some (record s { worker = finished })
unfolding step step_worker leave_empty
step-finish s w q h = ground (arith, w, q, h)

drained-Finishes : (s : Logger) → s.worker ≡ draining → s.queue ≡ [] → s.holding ≡ none → Finishes s
unfolding Traces.run
drained-Finishes s w q h =
    first-Finishes s (record s { worker = finished }) finish (step-finish s w q h)
      ([], record s { worker = finished }, refl, refl)

emptied-Finishes :
    (s : Logger)
    → IsWorking s.worker
    → s.accepting ≡ false
    → s.queue ≡ []
    → s.holding ≡ none
    → Finishes s
emptied-Finishes s (inl w) a q h =
    first-Finishes s (record s { worker = draining }) leave_loop (step-leave_loop s w a q h)
      (drained-Finishes (record s { worker = draining }) refl q h)
emptied-Finishes s (inr w) a q h = drained-Finishes s w q h

queue-Finishes :
    (queue : List LogRecord) (s : Logger)
    → IsWorking s.worker
    → s.accepting ≡ false
    → s.queue ≡ queue
    → s.holding ≡ none
    → Finishes s
queue-Finishes [] s w a q h = emptied-Finishes s w a q h
queue-Finishes (r ∷ rest) s w a q h =
    let taken = record s { queue = rest; holding = some r } in
    let given = record taken { holding = none; sinks = write_all taken.sinks r } in
    first-Finishes s taken take (step-take s r rest w q h) (
      first-Finishes taken given dispatch (step-dispatch taken r w refl)
        (queue-Finishes rest given w a refl refl))

-- `Stop` ends: once a logger accepts nothing, its worker, wherever it is in its loops and whatever
-- it has still to write, can run to its end, so that it can be joined.
pub worker-Finishes :
    (s : Logger) → (s.worker ≡ serving) ⊎ (s.worker ≡ draining) → s.accepting ≡ false → Finishes s
worker-Finishes s w a = held s.holding refl
  where
    held : (o : Option LogRecord) → s.holding ≡ o → Finishes s
    held none h = queue-Finishes s.queue s w a refl h
    held (some r) h =
        let given = record s { holding = none; sinks = write_all s.sinks r } in
        first-Finishes s given dispatch (step-dispatch s r w h)
          (queue-Finishes s.queue given w a refl refl)
