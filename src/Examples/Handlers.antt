-- ===== src/Examples/Handlers.antt =====
-- The dispatch of events (realtime/sse.go) at a concrete input.
use spooled_sdk_go.Common.{◌≡◌, ◌++◌, none, some, pos, [], ◌∷◌, lit}
use spooled_sdk_go.Sse.{Event}
use spooled_sdk_go.Dispatch.{Handlers, EventDecoders, dispatch_event}
use spooled_sdk_go.Dispatch.Registered.{for_job, register, due, dispatch_event-register}

-- A decoder that takes the data for the id of a job, one that takes it for the name of a queue, and one
-- that fails.
abbrev pub raw : EventDecoders
raw = record {
  job = λ t. some record {
    job_id = t;
    queue_name = [];
    status = [];
    priority = pos 0;
    retry_count = pos 0;
    error = [];
    progress = 0;
    result = none;
    worker_id = [];
    scheduled_at = none;
    started_at = none;
    completed_at = none;
    failed_at = none;
    metadata = [];
  };
  queue = λ t. some record { queue_name = t; reason = [] };
  worker = λ t. none;
}

abbrev job_failed : Event
job_failed = record { type_ = lit "job.failed"; timestamp = none; data_ = lit "{}" }

abbrev pub one_handler : Handlers
one_handler = record {
  all_event_handlers = 1 ∷ [];
  event_handlers = (lit "job.failed", 2) ∷ [];
  queue_event_handlers = [];
  worker_event_handlers = [];
}

dispatch_event-register_example :
    dispatch_event raw job_failed (register (for_job (lit "job.failed") 3) one_handler)
    ≡ dispatch_event raw job_failed one_handler ++ due raw (for_job (lit "job.failed") 3) job_failed
dispatch_event-register_example =
    dispatch_event-register raw (for_job (lit "job.failed") 3) job_failed one_handler
