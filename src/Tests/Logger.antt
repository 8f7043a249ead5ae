-- ===== src/Tests/Logger.antt =====
-- Runs of src/Backend/Logging/LoggerService.cpp.
use devilz_den.Prelude.{
  ℕ, ◌≡◌, inl, refl, List, [], ◌∷◌, ◌++◌, true, none, some, get_or, codes, arith,
}
use devilz_den.Prelude.Traces
use devilz_den.Backend.Logger.{
  LogRecord, info, serving, Logger, new_logger, Event, add_sink, start, close, request_stop, take,
  leave_loop, dispatch, finish, enqueue, finished, write_all, start_worker, take_record,
  dispatch_record, leave_empty, step_worker, step, run,
}
use devilz_den.Backend.Logger.Delivery.{stream, accepted, run-delivers}
use devilz_den.Backend.Logger.Shutdown.{in_order, Finishes, over-flushed, worker-Finishes}

abbrev entry : ℕ → LogRecord
entry n = record {
  sequence = n;
  level = info;
  message = codes "started";
  service = codes "Runtime";
  of_error = none;
}

-- A logger with one sink.
abbrev equipped : Logger
equipped = record new_logger { sinks = [] ∷ [] }

equipped-reached : run new_logger (add_sink ∷ []) ≡ some equipped
unfolding Traces.run step
equipped-reached = refl

abbrev events : List Event
events =
    start
    ∷ enqueue (entry 1)
    ∷ take
    ∷ enqueue (entry 2)
    ∷ close
    ∷ enqueue (entry 3)
    ∷ dispatch
    ∷ take
    ∷ dispatch
    ∷ leave_loop
    ∷ finish
    ∷ []

abbrev flushed : Logger
flushed = record equipped { worker = finished; sinks = (entry 1 ∷ entry 2 ∷ []) ∷ [] }

flushed-reached : run equipped events ≡ some flushed
unfolding Traces.run step start_worker step_worker take_record dispatch_record leave_empty write_all
flushed-reached = refl

run-delivers_example : stream 0 flushed ≡ stream 0 equipped ++ accepted equipped events
run-delivers_example = run-delivers equipped flushed events 0 (omega arith) flushed-reached

opened-in_order : in_order new_logger (add_sink ∷ []) ≡ true
unfolding in_order step
opened-in_order = refl

events-in_order : in_order equipped events ≡ true
unfolding in_order step start_worker step_worker take_record dispatch_record leave_empty write_all
events-in_order = refl

over-flushed_example : get_or flushed.sinks 0 [] ≡ stream 0 equipped ++ accepted equipped events
over-flushed_example =
    over-flushed equipped flushed (add_sink ∷ []) events 0 opened-in_order equipped-reached
      (omega arith) events-in_order flushed-reached refl

-- A `Start` comes between the sections of a `Stop`, whose request then ends the new worker: the logger
-- accepts a record that nobody writes.
late-stop :
    run equipped (
      start
      ∷ close
      ∷ leave_loop
      ∷ finish
      ∷ start
      ∷ request_stop
      ∷ leave_loop
      ∷ finish
      ∷ enqueue (entry 1)
      ∷ [])
    ≡ some (record equipped {
      accepting = true;
      stop_requested = true;
      worker = finished;
      queue = entry 1 ∷ [];
    })
unfolding Traces.run step start_worker step_worker leave_empty
late-stop = refl

-- A logger that is closed while it has a record to write.
abbrev closed : Logger
closed = record equipped { worker = serving; queue = entry 1 ∷ [] }

worker-Finishes_example : Finishes closed
worker-Finishes_example = worker-Finishes closed (inl refl) refl
