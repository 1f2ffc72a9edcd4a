-- ===== src/Launch.antt =====
-- `SpooledWorker` of spooled/client.go: the worker that a client makes, over that of spooled/worker.
pub mod Sticks
use spooled_sdk_go.Common.{
  ℕ, Bool, true, false, Option, none, some, ℤ, pos, is_zero, Text, List, [], ◌∷◌, ◌++◌, lit,
  is_empty, if◌then◌else◌,
}
use spooled_sdk_go.Worker.{
  Worker, Options, new_worker, process, start, register_failed, registered, stop, stop_finished,
  is_running, stopping,
}

-- The poll interval, the hostname and the metadata, which the model of the worker leaves out, are
-- left out here too;
-- `has_handler` says whether `handler` is not nil.
pub record SpooledWorkerOptions : Type 0 where
  pub queue_name : Text
  pub concurrency : ℤ
  pub lease_duration : ℤ
  pub worker_type : Text
  pub version : Text
  pub has_handler : Bool

pub record SpooledWorker : Type 0 where
  pub opts : SpooledWorkerOptions
  pub worker : Option Worker

-- `NewSpooledWorker`.
unfoldable pub new_spooled_worker : SpooledWorkerOptions → SpooledWorker
new_spooled_worker opts = record { opts = opts; worker = none }

-- The options of the worker, defaults set.
unfoldable pub worker_options : SpooledWorkerOptions → Options
worker_options o = record {
  queue_name = o.queue_name;
  concurrency = if is_zero o.concurrency then pos 5 else o.concurrency;
  lease_duration = if is_zero o.lease_duration then pos 30 else o.lease_duration;
  worker_type = if is_empty o.worker_type then lit "go" else o.worker_type;
  version = if is_empty o.version then lit "1.0.0" else o.version;
}

-- What the API answers to the registration: the worker's id, or an error.
pub data Registered : Type 0 where
  refused : Registered
  accepted : Text → Registered

-- `Worker.Start` as a whole, while no other goroutine uses the worker.
register_answer : Registered → Worker → Option Text × Worker
register_answer refused w = (some (lit "failed to register worker"), register_failed w)
register_answer (accepted id) w = (none, registered id w)

start_answer : Registered → Option Text × Worker → Option Text × Worker
unfolding register_answer
start_answer r (some e, w) = (some e, w)
start_answer r (none, w) = register_answer r w

unfoldable pub start_worker : Registered → Worker → Option Text × Worker
unfolding start_answer
start_worker r w = start_answer r (start w)

-- The worker, with the handler if there is one.
unfoldable pub made_worker : SpooledWorkerOptions → Worker
unfolding worker_options
made_worker o =
    if o.has_handler then process (new_worker (worker_options o)) else new_worker (worker_options o)

-- `SpooledWorker.Start`; `none` is a nil error.
unfoldable pub start_spooled : Registered → SpooledWorker → Option Text × SpooledWorker
unfolding made_worker start_worker
start_spooled r sw = elim sw.worker [
  | some w ↦ (none, sw)
  | none ↦ let (e, w) = start_worker r (made_worker sw.opts) in (e, record sw { worker = some w })
]

-- `SpooledWorker.Stop` up to the wait for the goroutines.
unfoldable pub stop_spooled : SpooledWorker → SpooledWorker
stop_spooled sw = elim sw.worker [ none ↦ sw | some w ↦ record sw { worker = some (stop w) } ]

-- `SpooledWorker.Process`; `none` is its panic.
unfoldable pub process_spooled : SpooledWorker → Option SpooledWorker
process_spooled sw = elim sw.worker [
  | some w ↦ none
  | none ↦ some (record sw { opts = record sw.opts { has_handler = true } })
]

-- What a handler returns beside its error: a JSON object, or another value.
pub data HandlerResult : Type 0 where
  object : Text → HandlerResult
  other : Text → HandlerResult

-- The object that the worker reports: another value stands in it as the field "result".
unfoldable pub wrap_result : HandlerResult → Text
wrap_result (object t) = t
wrap_result (other t) = lit "{\"result\":" ++ (t ++ lit "}")

-- The calls that a user makes.
pub data SpooledCall : Type 0 where
  starts_with : Registered → SpooledCall
  stops_it : SpooledCall

unfoldable pub spooled_calls : List SpooledCall → SpooledWorker → SpooledWorker
unfolding start_spooled stop_spooled
spooled_calls [] sw = sw
spooled_calls (starts_with r ∷ cs) sw = spooled_calls cs (start_spooled r sw).1
spooled_calls (stops_it ∷ cs) sw = spooled_calls cs (stop_spooled sw)
