-- ===== src/Backend/Logger.antt =====
-- src/Backend/Logging/LogRecord.hpp, LoggerService.hpp and LoggerService.cpp: the service that queues
-- records for a worker thread, which writes them to the sinks. A state is what the threads share; an event is
-- one critical section, and the order of the events is the interleaving. A record's time, thread
-- and source location are left out, and so are exceptions of the sinks.
pub mod Delivery
pub mod Shutdown
use devilz_den.Prelude.{
  ℕ, suc, ◌+◌, List, [], ◌∷◌, ◌++◌, Bool, true, false, not, ◌&&◌, ◌||◌, Option, none, some, ◌==◌,
  if◌then◌else◌, map, Text,
}
use devilz_den.Prelude.Traces
use devilz_den.Backend.Error.{Error}

pub data LogLevel : Type 0 where
  trace debug info notice warning error critical fatal : LogLevel

pub record LogRecord : Type 0 where
  pub sequence : ℕ
  pub level : LogLevel
  pub message : Text
  pub service : Text
  pub of_error : Option Error

-- Where the worker is: there is none, in its first loop, in the loop that empties the queue, or
-- at its end.
pub data WorkerPhase : Type 0 where
  absent serving draining finished : WorkerPhase

pub record Logger : Type 0 where
  pub sequence : ℕ
  pub accepting : Bool
  pub stop_requested : Bool
  pub queue : List LogRecord
  -- the record that the worker has taken from the queue and not yet dispatched
  pub holding : Option LogRecord
  pub worker : WorkerPhase
  -- what each sink has been given
  pub sinks : List (List LogRecord)

abbrev pub new_logger : Logger
new_logger = record {
  sequence = 0;
  accepting = false;
  stop_requested = false;
  queue = [];
  holding = none;
  worker = absent;
  sinks = [];
}

pub data Event : Type 0 where
  add_sink start number close request_stop join take leave_loop dispatch finish : Event
  enqueue : LogRecord → Event

-- `Dispatch` gives a record to every sink.
unfoldable pub write_all : List (List LogRecord) → LogRecord → List (List LogRecord)
write_all sinks r = map (λ written. written ++ r ∷ []) sinks

-- The worker is in one of its loops.
abbrev pub is_working : WorkerPhase → Bool
is_working absent = false
is_working serving = true
is_working draining = true
is_working finished = false

-- `Start` gives a logger that does not accept a new worker. The assignment of the thread joins the
-- one that was there, and holds the lock meanwhile, so it only comes to an end if that is finished.
unfoldable pub start_worker : Logger → Option Logger
start_worker s =
    if s.accepting
    then some s
    else if is_working s.worker
    then none
    else some (record s { accepting = true; worker = serving; stop_requested = false })

-- The worker takes the first record of the queue.
unfoldable pub take_record : Logger → List LogRecord → Option LogRecord → Option Logger
take_record s (r ∷ rest) none = some (record s { queue = rest; holding = some r })
take_record s (r ∷ rest) (some h) = none
take_record s [] holding = none

unfoldable pub dispatch_record : Logger → Option LogRecord → Option Logger
unfolding write_all
dispatch_record s none = none
dispatch_record s (some r) = some (record s { holding = none; sinks = write_all s.sinks r })

-- The worker finds the queue empty.
unfoldable pub leave_empty :
    Logger → List LogRecord → Option LogRecord → WorkerPhase → Option Logger
leave_empty s [] none next = some (record s { worker = next })
leave_empty s [] (some h) next = none
leave_empty s (r ∷ rest) holding next = none

-- The moves of the worker's two loops.
unfoldable pub step_worker : Logger → WorkerPhase → Event → Option Logger
unfolding take_record dispatch_record leave_empty
step_worker s serving take = take_record s s.queue s.holding
step_worker s serving dispatch = dispatch_record s s.holding
step_worker s serving leave_loop =
    if s.stop_requested || not s.accepting then leave_empty s s.queue s.holding draining else none
step_worker s draining take = take_record s s.queue s.holding
step_worker s draining dispatch = dispatch_record s s.holding
step_worker s draining finish = leave_empty s s.queue s.holding finished
step_worker s phase e = none

-- `Stop` after its first section requests the stop and joins the worker. It holds no lock then, so a
-- `Start` can come in between.
unfoldable pub join_worker : Logger → WorkerPhase → Option Logger
join_worker s absent = some s
join_worker s serving = none
join_worker s draining = none
join_worker s finished = some (record s { worker = absent })

-- One event; `none` where it cannot happen.
unfoldable pub step : Logger → Event → Option Logger
unfolding start_worker step_worker join_worker
step s add_sink = some (record s { sinks = s.sinks ++ [] ∷ [] })
step s start = start_worker s
step s number = some (record s { sequence = suc s.sequence })
step s (enqueue r) = some (if s.accepting then record s { queue = s.queue ++ r ∷ [] } else s)
step s close = some (record s { accepting = false })
step s request_stop = some (record s { stop_requested = true })
step s join = join_worker s s.worker
step s take = step_worker s s.worker take
step s leave_loop = step_worker s s.worker leave_loop
step s dispatch = step_worker s s.worker dispatch
step s finish = step_worker s s.worker finish

abbrev pub run : Logger → List Event → Option Logger
run s es = Traces.run step s es

-- The record that an event adds to the queue.
unfoldable pub accepted_by : Logger → Event → List LogRecord
accepted_by s (enqueue r) = if s.accepting then r ∷ [] else []
accepted_by s add_sink = []
accepted_by s start = []
accepted_by s number = []
accepted_by s close = []
accepted_by s request_stop = []
accepted_by s join = []
accepted_by s take = []
accepted_by s leave_loop = []
accepted_by s dispatch = []
accepted_by s finish = []
