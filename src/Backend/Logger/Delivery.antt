-- ===== src/Backend/Logger/Delivery.antt =====
-- The records between `Log` and the sinks of LoggerService.cpp.
use devilz_den.Prelude.{
  ℕ, zero, suc, ◌≤◌, ◌<◌, ◌≡◌, refl, sym, ap, ◌∙◌, List, [], ◌∷◌, ◌++◌, Bool, true, false, not,
  ◌||◌, Option, none, some, some-inj, if◌then◌else◌, length, length-append, get_or, arith,
  and_then-eq-some,
}
use mathlib.Core.List.{append_assoc, append-nil}
use devilz_den.Prelude.Traces
use devilz_den.Backend.Logger.{
  LogRecord, WorkerPhase, absent, serving, draining, finished, Logger, Event, add_sink, start,
  number, close, request_stop, join, take, leave_loop, dispatch, finish, enqueue, write_all,
  start_worker, is_working, take_record, dispatch_record, leave_empty, step_worker, join_worker,
  step, run, accepted_by,
}

abbrev pub in_hand : Option LogRecord → List LogRecord
in_hand none = []
in_hand (some r) = r ∷ []

-- What a sink has been given, and what it is still to be given.
abbrev pub stream : ℕ → Logger → List LogRecord
stream i s = get_or s.sinks i [] ++ (in_hand s.holding ++ s.queue)

-- One event: no sink goes away, and a sink's stream grows by the accepted record.
record Delivers (i : ℕ) (s t : Logger) (new : List LogRecord) : Type 0 where
  grows : length s.sinks ≤ length t.sinks
  extends : stream i t ≡ stream i s ++ new

-- A sink that is there keeps its place when another is added, and gets each dispatched record.
get_or-add_sink :
    (sinks : List (List LogRecord)) (i : ℕ)
    → i < length sinks
    → get_or (sinks ++ [] ∷ []) i [] ≡ get_or sinks i []
get_or-add_sink [] i h = elim h [ ]
get_or-add_sink (w ∷ sinks) zero h = refl
get_or-add_sink (w ∷ sinks) (suc i) h = get_or-add_sink sinks i (omega arith)

get_or-write_all :
    (sinks : List (List LogRecord)) (r : LogRecord) (i : ℕ)
    → i < length sinks
    → get_or (write_all sinks r) i [] ≡ get_or sinks i [] ++ r ∷ []
unfolding write_all
get_or-write_all [] r i h = elim h [ ]
get_or-write_all (w ∷ sinks) r zero h = refl
get_or-write_all (w ∷ sinks) r (suc i) h = get_or-write_all sinks r i (omega arith)

length-write_all :
    (sinks : List (List LogRecord)) (r : LogRecord) → length (write_all sinks r) ≡ length sinks
unfolding write_all
length-write_all [] r = refl
length-write_all (w ∷ sinks) r = ap suc (length-write_all sinks r)

same-Delivers :
    (i : ℕ) (s t : Logger)
    → t.sinks ≡ s.sinks
    → t.holding ≡ s.holding
    → t.queue ≡ s.queue
    → Delivers i s t []
same-Delivers i s t k h q = record {
  grows = rw k (omega arith);
  extends = rw (k, h, q) (sym (append-nil (stream i s)));
}

take_record-Delivers :
    (i : ℕ) (s t : Logger) (queue : List LogRecord) (holding : Option LogRecord)
    → s.queue ≡ queue
    → s.holding ≡ holding
    → take_record s queue holding ≡ some t
    → Delivers i s t []
unfolding take_record
take_record-Delivers i s t [] holding q h e = cc
take_record-Delivers i s t (r ∷ rest) (some x) q h e = cc
take_record-Delivers i s t (r ∷ rest) none q h e = rw (sym (some-inj e)) (record {
  grows = omega arith;
  extends = rw (q, h) (sym (append-nil (get_or s.sinks i [] ++ (r ∷ rest))));
})

dispatch_record-Delivers :
    (i : ℕ) (s t : Logger) (holding : Option LogRecord)
    → i < length s.sinks
    → s.holding ≡ holding
    → dispatch_record s holding ≡ some t
    → Delivers i s t []
unfolding dispatch_record
dispatch_record-Delivers i s t none b h e = cc
dispatch_record-Delivers i s t (some r) b h e = rw (sym (some-inj e)) (record {
  grows = omega (arith, length-write_all s.sinks r);
  extends =
      ap (λ w. w ++ s.queue) (get_or-write_all s.sinks r i b)
      ∙ append_assoc (get_or s.sinks i []) (r ∷ []) s.queue
      ∙ rw h (sym (append-nil (get_or s.sinks i [] ++ (r ∷ s.queue))));
})

leave_empty-Delivers :
    (i : ℕ) (s t : Logger) (queue : List LogRecord) (holding : Option LogRecord)
    (next : WorkerPhase)
    → leave_empty s queue holding next ≡ some t
    → Delivers i s t []
unfolding leave_empty
leave_empty-Delivers i s t [] none next e =
    rw (sym (some-inj e)) (same-Delivers i s (record s { worker = next }) refl refl refl)
leave_empty-Delivers i s t [] (some h) next e = cc
leave_empty-Delivers i s t (r ∷ rest) holding next e = cc

-- The moves of the worker.
step_worker-Delivers :
    (i : ℕ) (s t : Logger) (phase : WorkerPhase) (e : Event)
    → i < length s.sinks
    → step_worker s phase e ≡ some t
    → Delivers i s t []
unfolding step_worker
step_worker-Delivers i s t serving take b h =
    take_record-Delivers i s t s.queue s.holding refl refl h
step_worker-Delivers i s t serving dispatch b h = dispatch_record-Delivers i s t s.holding b refl h
step_worker-Delivers i s t serving leave_loop b h =
    leave_empty-Delivers i s t s.queue s.holding draining
      (left (s.stop_requested || not s.accepting) h)
  where
    left : (c : Bool) {o : Option Logger} → (if c then o else none) ≡ some t → o ≡ some t
    left true k = k
    left false k = cc
step_worker-Delivers i s t draining take b h =
    take_record-Delivers i s t s.queue s.holding refl refl h
step_worker-Delivers i s t draining dispatch b h = dispatch_record-Delivers i s t s.holding b refl h
step_worker-Delivers i s t draining finish b h =
    leave_empty-Delivers i s t s.queue s.holding finished h
step_worker-Delivers i s t phase e b h = cc

step-Delivers :
    (i : ℕ) (s t : Logger) (e : Event)
    → i < length s.sinks
    → step s e ≡ some t
    → Delivers i s t (accepted_by s e)
unfolding step accepted_by start_worker join_worker
step-Delivers i s t add_sink b h = rw (sym (some-inj h)) (record {
  grows = omega (arith, length-append s.sinks ([] ∷ []));
  extends =
      ap (λ w. w ++ (in_hand s.holding ++ s.queue)) (get_or-add_sink s.sinks i b)
      ∙ sym (append-nil (stream i s));
})
step-Delivers i s t start b h = started s.accepting (is_working s.worker) h
  where
    ready : Logger
    ready = record s { accepting = true; worker = serving; stop_requested = false }

    started :
        (a b : Bool)
        → (if a then some s else if b then none else some ready) ≡ some t
        → Delivers i s t []
    started true b k = rw (sym (some-inj k)) (same-Delivers i s s refl refl refl)
    started false true k = cc
    started false false k = rw (sym (some-inj k)) (same-Delivers i s ready refl refl refl)
step-Delivers i s t number b h =
    rw (sym (some-inj h))
      (same-Delivers i s (record s { sequence = suc s.sequence }) refl refl refl)
step-Delivers i s t (enqueue r) b h = queued s.accepting h
  where
    longer : Logger
    longer = record s { queue = s.queue ++ r ∷ [] }

    queued :
        (a : Bool)
        → some (if a then longer else s) ≡ some t
        → Delivers i s t (if a then r ∷ [] else [])
    queued false k = rw (sym (some-inj k)) (same-Delivers i s s refl refl refl)
    queued true k = rw (sym (some-inj k)) (record {
      grows = omega arith;
      extends =
          ap (λ w. get_or s.sinks i [] ++ w)
            (sym (append_assoc (in_hand s.holding) s.queue (r ∷ [])))
          ∙ sym (append_assoc (get_or s.sinks i []) (in_hand s.holding ++ s.queue) (r ∷ []));
    })
step-Delivers i s t close b h =
    rw (sym (some-inj h)) (same-Delivers i s (record s { accepting = false }) refl refl refl)
step-Delivers i s t request_stop b h =
    rw (sym (some-inj h)) (same-Delivers i s (record s { stop_requested = true }) refl refl refl)
step-Delivers i s t join b h = joined s.worker h
  where
    joined : (w : WorkerPhase) → join_worker s w ≡ some t → Delivers i s t []
    joined absent k = rw (sym (some-inj k)) (same-Delivers i s s refl refl refl)
    joined serving k = cc
    joined draining k = cc
    joined finished k =
        rw (sym (some-inj k)) (same-Delivers i s (record s { worker = absent }) refl refl refl)
step-Delivers i s t take b h = step_worker-Delivers i s t s.worker take b h
step-Delivers i s t leave_loop b h = step_worker-Delivers i s t s.worker leave_loop b h
step-Delivers i s t dispatch b h = step_worker-Delivers i s t s.worker dispatch b h
step-Delivers i s t finish b h = step_worker-Delivers i s t s.worker finish b h

-- The records that a sequence of events adds to the queue.
unfoldable pub accepted : Logger → List Event → List LogRecord
unfolding accepted_by
accepted s [] = []
accepted s (e ∷ es) = elim (step s e) [
  | none ↦ accepted_by s e
  | some t ↦ accepted_by s e ++ accepted t es
]

-- Under every interleaving, nothing is lost, repeated or reordered. For each sink that is there at
-- the beginning, what it has been given, followed by the record in the worker's hand and the
-- queue, is at the end what it was at the beginning, followed by the accepted records in the order
-- in which they entered the queue.
pub run-delivers :
    (s t : Logger) (es : List Event) (i : ℕ)
    → i < length s.sinks
    → run s es ≡ some t
    → stream i t ≡ stream i s ++ accepted s es
unfolding Traces.run accepted
run-delivers s t [] i b h = ap (stream i) (sym (some-inj h)) ∙ sym (append-nil (stream i s))
run-delivers s t (e ∷ es) i b h =
    let (u, n, m) = and_then-eq-some (step s e) (λ x. run x es) h in
    let first = step-Delivers i s u e b n in
    run-delivers u t es i (omega (arith, b, first.grows)) m
    ∙ ap (λ w. w ++ accepted u es) first.extends
    ∙ append_assoc (stream i s) (accepted_by s e) (accepted u es)
    ∙ ap (λ w. stream i s ++ w) (sym (more u n))
  where
    more : (u : Logger) → step s e ≡ some u → accepted s (e ∷ es) ≡ accepted_by s e ++ accepted u es
    more u n =
        ap (λ o. elim o [ none ↦ accepted_by s e | some x ↦ accepted_by s e ++ accepted x es ]) n
