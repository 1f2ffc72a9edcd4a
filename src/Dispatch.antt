-- ===== src/Dispatch.antt =====
-- `dispatchEvent` of spooled/realtime/sse.go, which spooled/realtime/websocket.go has too, and the
-- registration of handlers. A handler is a number: what it does, a panic included, changes nothing
-- for the others. The decoders of an event's data are those of package encoding/json.
pub mod Events
pub mod Registered
use spooled_sdk_go.Common.{
  ℕ, Bool, true, false, ◌++◌, Option, none, some, Text, List, [], ◌∷◌, map, lit, text_eq,
  if◌then◌else◌,
}
use spooled_sdk_go.Sse.{Event}
use spooled_sdk_go.Dispatch.Events.{JobEvent, QueueEvent, WorkerEvent}

-- The loop over a `switch`'s cases.
unfoldable pub is_one_of : List Text → Text → Bool
is_one_of [] t = false
is_one_of (s ∷ ss) t = let rest = is_one_of ss t in if text_eq s t then true else rest

abbrev pub job_types : List Text
job_types =
    lit "job.created"
    ∷ lit "job.started"
    ∷ lit "job.completed"
    ∷ lit "job.failed"
    ∷ lit "job.retrying"
    ∷ lit "job.progress"
    ∷ []

abbrev pub queue_types : List Text
queue_types = lit "queue.paused" ∷ lit "queue.resumed" ∷ []

abbrev pub worker_types : List Text
worker_types =
    lit "worker.joined" ∷ lit "worker.left" ∷ lit "worker.active" ∷ lit "worker.inactive" ∷ []

unfoldable pub is_job_event : Text → Bool
unfolding is_one_of
is_job_event t = is_one_of job_types t

unfoldable pub is_queue_event : Text → Bool
unfolding is_one_of
is_queue_event t = is_one_of queue_types t

unfoldable pub is_worker_event : Text → Bool
unfolding is_one_of
is_worker_event t = is_one_of worker_types t

-- The maps from types to lists of handlers are lists of pairs, in the order of registration.
pub record Handlers : Type 0 where
  pub all_event_handlers : List ℕ
  pub event_handlers : List (Text × ℕ)
  pub queue_event_handlers : List (Text × ℕ)
  pub worker_event_handlers : List (Text × ℕ)

-- `OnEvent`, `OnJobEvent`, `OnQueueEvent` and `OnWorkerEvent`.
unfoldable pub on_event : ℕ → Handlers → Handlers
on_event h hs = record hs { all_event_handlers = hs.all_event_handlers ++ h ∷ [] }

unfoldable pub on_job_event : Text → ℕ → Handlers → Handlers
on_job_event t h hs = record hs { event_handlers = hs.event_handlers ++ (t, h) ∷ [] }

unfoldable pub on_queue_event : Text → ℕ → Handlers → Handlers
on_queue_event t h hs = record hs { queue_event_handlers = hs.queue_event_handlers ++ (t, h) ∷ [] }

unfoldable pub on_worker_event : Text → ℕ → Handlers → Handlers
on_worker_event t h hs = record hs {
  worker_event_handlers = hs.worker_event_handlers ++ (t, h) ∷ [];
}

-- The handlers under a type.
unfoldable pub handlers_of : Text → List (Text × ℕ) → List ℕ
handlers_of t [] = []
handlers_of t ((s, h) ∷ m) = let rest = handlers_of t m in if text_eq s t then h ∷ rest else rest

-- `json.Unmarshal` of an event's data.
pub record EventDecoders : Type 0 where
  pub job : Text → Option JobEvent
  pub queue : Text → Option QueueEvent
  pub worker : Text → Option WorkerEvent

-- A call of a handler.
pub data HandlerCall : Type 0 where
  with_event : ℕ → Event → HandlerCall
  with_job : ℕ → JobEvent → HandlerCall
  with_queue : ℕ → QueueEvent → HandlerCall
  with_worker : ℕ → WorkerEvent → HandlerCall

-- The loop over the handlers of a decoded event.
unfoldable pub call_each : {E C : Type 0} → (ℕ → E → C) → Option E → List ℕ → List C
call_each f none hs = []
call_each f (some e) hs = map (λ h. f h e) hs

-- The calls, in order.
unfoldable pub dispatch_event : (d : EventDecoders) → Event → Handlers → List HandlerCall
unfolding handlers_of call_each
dispatch_event d ev hs =
    map (λ h. with_event h ev) hs.all_event_handlers
    ++ (if is_job_event ev.type_
        then call_each with_job (d.job ev.data_) (handlers_of ev.type_ hs.event_handlers)
        else if is_queue_event ev.type_
        then call_each with_queue (d.queue ev.data_) (handlers_of ev.type_ hs.queue_event_handlers)
        else if is_worker_event ev.type_
        then call_each with_worker (d.worker ev.data_)
            (handlers_of ev.type_ hs.worker_event_handlers)
        else [])
