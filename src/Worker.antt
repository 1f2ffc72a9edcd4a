-- ===== src/Worker.antt =====
-- spooled/worker/worker.go and types.go: the polling worker. Its goroutines meet in the fields of
-- `Worker`; each function below is what one goroutine does between two waits (a call of the API, the
-- job's handler, a timer), and `Worker.Steps` says in which orders they may come.
pub mod Steps
pub mod Room
pub mod Capacity
pub mod Answers
pub mod Live
pub mod Lifecycle
use spooled_sdk_go.Common.{
  ℕ, ◌+◌, ◌-◌, Bool, true, false, not, Option, none, some, ℤ, pos, is_zero, leb_ℤ, sub_ℕ, ◌+ℤ◌,
  Text, List, [], ◌∷◌, lit, is_empty, text_eq, if◌then◌else◌,
}

-- `State` of types.go; `errored` is "error".
pub data WorkerState : Type 0 where
  idle starting running stopping stopped errored : WorkerState

-- The fields of `Options` that the worker's behaviour rests on.
pub record Options : Type 0 where
  pub queue_name : Text
  pub concurrency : ℤ
  pub lease_duration : ℤ
  pub worker_type : Text
  pub version : Text

pub data Event : Type 0 where
  worker_started worker_stopped : Text → Event
  worker_error : Event
  job_claimed job_started job_completed job_failed job_heartbeat job_progress : Text → Event
  worker_heartbeat : Text → Event

-- What the worker does outwards: the events that it emits, and its calls of the API.
pub data Effect : Type 0 where
  emits : Event → Effect
  registers : ℤ → Effect
  deregisters : Text → Effect
  claims : ℤ → Effect
  completes fails renews reports : Text → Effect
  heartbeats : ℕ → Text → Effect

-- `jobs_running` are the goroutines of `processJob` that have not ended, and `pending` is the poll
-- that waits for its claim, with the limit that it asked for. These two and `log` (newest first)
-- are the model's own. `stop_used` is `stopOnce`, and `cancelled` the worker's context.
pub record Worker : Type 0 where
  pub opts : Options
  pub state : WorkerState
  pub worker_id : Text
  pub has_handler : Bool
  pub active_jobs : List Text
  pub job_count : ℕ
  pub stop_used : Bool
  pub cancelled : Bool
  pub pending : Option ℤ
  pub jobs_running : List Text
  pub log : List Effect

unfoldable pub with_defaults : Options → Options
with_defaults o = record o {
  concurrency = if is_zero o.concurrency then pos 5 else o.concurrency;
  lease_duration = if is_zero o.lease_duration then pos 30 else o.lease_duration;
  worker_type = if is_empty o.worker_type then lit "go" else o.worker_type;
  version = if is_empty o.version then lit "0.1.0" else o.version;
}

unfoldable pub new_worker : Options → Worker
unfolding with_defaults
new_worker o = record {
  opts = with_defaults o;
  state = idle;
  worker_id = [];
  has_handler = false;
  active_jobs = [];
  job_count = 0;
  stop_used = false;
  cancelled = false;
  pending = none;
  jobs_running = [];
  log = [];
}

abbrev pub tell : Effect → Worker → Worker
tell e w = record w { log = e ∷ w.log }

abbrev pub is_idle : WorkerState → Bool
is_idle idle = true
is_idle _ = false

abbrev pub is_running : WorkerState → Bool
is_running running = true
is_running _ = false

-- `Process`.
unfoldable pub process : Worker → Worker
process w = record w { has_handler = true }

-- `Start` up to the call that registers the worker; an error leaves it as it is.
unfoldable pub start : Worker → Option Text × Worker
start w =
    if not w.has_handler
    then (some (lit "no job handler registered; call Process() first"), w)
    else if not (is_idle w.state)
    then (some (lit "worker already started"), w)
    else (
      none,
      tell (registers w.opts.concurrency) (record w { state = starting; cancelled = false }),
    )

-- The context given to `Start` ends, and with it the worker's own, which is made from it.
unfoldable pub context_ends : Worker → Worker
context_ends w = record w { cancelled = true }

-- The rest of `Start`: the registration failed, or gave the worker an id.
unfoldable pub register_failed : Worker → Worker
register_failed w = record w { state = errored }

unfoldable pub registered : Text → Worker → Worker
registered id w = tell (emits (worker_started id)) (record w { worker_id = id; state = running })

-- `doStop` up to its wait for the goroutines.
unfoldable pub do_stop : Worker → Worker
do_stop w = if is_running w.state then record w { state = stopping; cancelled = true } else w

-- `Stop`: `stopOnce` lets one call through.
unfoldable pub stop : Worker → Worker
unfolding do_stop
stop w = if w.stop_used then w else do_stop (record w { stop_used = true })

-- The rest of `doStop`, after the goroutines ended or the timeout passed.
unfoldable pub stop_finished : Worker → Worker
stop_finished w =
    let w' = if is_empty w.worker_id then w else tell (deregisters w.worker_id) w in
    tell (emits (worker_stopped w.worker_id)) (record w' { state = stopped })

-- `opts.Concurrency - int(jobCount)`.
unfoldable pub available_slots : Worker → ℤ
available_slots w = w.opts.concurrency +ℤ sub_ℕ 0 w.job_count

-- `poll` up to the claim.
unfoldable pub poll : Worker → Worker
poll w =
    if not (is_running w.state)
    then w
    else if leb_ℤ (available_slots w) (pos 0)
    then w
    else if is_empty w.worker_id
    then w
    else tell (claims (available_slots w)) (record w { pending = some (available_slots w) })

unfoldable pub claim_failed : Worker → Worker
claim_failed w = tell (emits worker_error) (record w { pending = none })

-- `sync.Map`, as the list of its keys.
unfoldable pub delete_key : Text → List Text → List Text
delete_key k [] = []
delete_key k (j ∷ js) = let rest = delete_key k js in if text_eq j k then rest else j ∷ rest

unfoldable pub store_key : Text → List Text → List Text
unfolding delete_key
store_key k js = k ∷ delete_key k js

-- One goroutine of a job ends.
unfoldable pub remove_job : Text → List Text → List Text
remove_job k [] = []
remove_job k (j ∷ js) = if text_eq j k then js else j ∷ remove_job k js

-- `processJob` up to the job's own goroutine.
unfoldable pub process_job : Text → Worker → Worker
unfolding store_key
process_job id w = tell (emits (job_claimed id)) (record w {
  job_count = w.job_count + 1;
  active_jobs = store_key id w.active_jobs;
  jobs_running = id ∷ w.jobs_running;
})

-- The loop over the claimed jobs.
unfoldable pub process_jobs : List Text → Worker → Worker
unfolding process_job
process_jobs [] w = w
process_jobs (id ∷ ids) w = process_jobs ids (process_job id w)

unfoldable pub claim_answered : List Text → Worker → Worker
unfolding process_jobs
claim_answered ids w = process_jobs ids (record w { pending = none })

-- The job's goroutine, before its handler.
unfoldable pub job_begins : Text → Worker → Worker
job_begins id w = tell (emits (job_started id)) w

-- `completeJob` and `failJob`; an error of the API is only logged.
unfoldable pub complete_job : Text → Worker → Worker
complete_job id w = tell (emits (job_completed id)) (tell (completes id) w)

unfoldable pub fail_job : Text → Worker → Worker
fail_job id w = tell (emits (job_failed id)) (tell (fails id) w)

-- The deferred end of the job's goroutine.
unfoldable pub job_ends : Text → Worker → Worker
unfolding delete_key remove_job
job_ends id w = record w {
  active_jobs = delete_key id w.active_jobs;
  job_count = w.job_count - 1;
  jobs_running = remove_job id w.jobs_running;
}

-- The job's goroutine, after its handler returned an error or a result.
unfoldable pub job_returns : Text → Bool → Worker → Worker
unfolding complete_job fail_job job_ends
job_returns id failed w = job_ends id (if failed then fail_job id w else complete_job id w)

-- `renewJobLease` and `sendWorkerHeartbeat`, with whether the API accepts the call.
unfoldable pub renew_job_lease : Text → Bool → Worker → Worker
renew_job_lease id accepted w =
    let w' = tell (renews id) w in if accepted then tell (emits (job_heartbeat id)) w' else w'

-- `updateProgress`, which a job's handler calls.
unfoldable pub update_progress : Text → Bool → Worker → Worker
update_progress id accepted w =
    let w' = tell (reports id) w in if accepted then tell (emits (job_progress id)) w' else w'

unfoldable pub send_worker_heartbeat : Bool → Worker → Worker
send_worker_heartbeat accepted w =
    if is_empty w.worker_id
    then w
    else (let status = if is_running w.state then lit "active" else lit "stopping" in
        let w' = tell (heartbeats w.job_count status) w in
        if accepted then tell (emits (worker_heartbeat w.worker_id)) w' else w')
