-- ===== src/Worker/Live.antt =====
-- The worker of spooled/worker/worker.go with the calls that it makes of spooled/resources: each
-- function is what one goroutine does. `Start` and `poll` are cut where they call the API, so that others
-- may act before the call is answered; a function that does nothing to the worker before its call but
-- read it is one act. The hostname, the metadata and the results of handlers, which the worker only passes
-- on, are arguments.
pub mod Pending
pub mod Acts
pub mod Refines
use spooled_sdk_go.Common.{
  ℕ, Bool, true, false, not, Option, none, some, ℤ, pos, Text, List, [], ◌∷◌, map, lit, is_empty,
  if◌then◌else◌,
}
use spooled_sdk_go.Errors.{Error}
use spooled_sdk_go.Runtime.{Runtime}
use spooled_sdk_go.Transport.{State}
use spooled_sdk_go.Resources.Values.{JsonObject, Slice}
use spooled_sdk_go.Resources.{Api, Decodes, Answer, returns, fails, panics}
use spooled_sdk_go.Resources.Jobs
use spooled_sdk_go.Resources.Jobs.Types.{
  ClaimedJob, ClaimJobsRequest, ClaimJobsResponse, CompleteJobRequest, FailJobRequest,
  RenewLeaseRequest, RenewLeaseResponse, UpdateProgressRequest,
}
use spooled_sdk_go.Resources.Workers
use spooled_sdk_go.Resources.Workers.Types.{
  RegisterWorkerRequest, RegisterWorkerResponse, WorkerHeartbeatRequest,
}
use spooled_sdk_go.Worker.{
  Worker, stopping, starting, is_idle, context_ends, WorkerState, process, start, register_failed,
  registered, stop, stop_finished, poll, claim_failed, claim_answered, job_returns, renew_job_lease,
  update_progress, send_worker_heartbeat, is_running,
}
use spooled_sdk_go.Worker.Steps.{has_job}

-- What a handler returns: a result or the text of an error.
pub data Handled : Type 0 where
  gives : JsonObject → Handled
  errs : Text → Handled

abbrev pub has_failed : Handled → Bool
has_failed (gives r) = false
has_failed (errs e) = true

-- The ids of a slice of jobs.
abbrev pub job_ids : Slice ClaimedJob → List Text
job_ids none = []
job_ids (some js) = map (λ j. j.id) js

abbrev pub is_stopping : WorkerState → Bool
is_stopping stopping = true
is_stopping _ = false

abbrev pub is_starting : WorkerState → Bool
is_starting starting = true
is_starting _ = false

-- What one goroutine does next. `register_` and `claim_` are the calls that `Start` and `poll` got to,
-- and what follows them.
pub data Act : Type 0 where
  process_ start_ register_ end_context poll_ claim_ stop_ end_stop beat : Act
  finish_job : Text → Handled → Act
  renew : Text → Act
  progress : Text → UpdateProgressRequest → Act

register_answer : Answer RegisterWorkerResponse → Worker → Worker
register_answer (returns resp) w = registered resp.id w
register_answer _ w = register_failed w

claim_answer : Answer ClaimJobsResponse → Worker → Worker
claim_answer (returns resp) w = claim_answered (job_ids resp.jobs) w
claim_answer _ w = claim_failed w

abbrev pub is_accepted : {B : Type 0} → Answer B → Bool
is_accepted (returns b) = true
is_accepted _ = false

-- `poll` up to its call, which the one goroutine that polls does not begin while it waits for a claim.
unfoldable pub begin_poll : Option ℤ → Worker → Worker
begin_poll none w = poll w
begin_poll (some limit) w = w

module _ (api : Api) (hostname : Text) (metadata : JsonObject) ⦃c : Decodes ClaimJobsResponse⦄
    ⦃r : Decodes RegisterWorkerResponse⦄ ⦃l : Decodes RenewLeaseResponse⦄ where
  open api use {rt}
  open rt use {World}

  -- What the worker makes of a call's answer; `none` says that the call does not end, or panics.
  unfoldable pub after_call :
      {B : Type 0}
      → (Answer B → Worker → Worker)
      → Worker
      → Option (Answer B × State World)
      → Option (Worker × State World)
  after_call f w none = none
  after_call f w (some (returns b, s)) = some (f (returns b) w, s)
  after_call f w (some (fails e, s)) = some (f (fails e) w, s)
  after_call f w (some (panics, s)) = none

  abbrev register_request : Worker → RegisterWorkerRequest
  register_request w = record {
    queue_name = w.opts.queue_name;
    hostname = hostname;
    worker_type = some w.opts.worker_type;
    max_concurrency = some w.opts.concurrency;
    metadata = metadata;
    version = some w.opts.version;
  }

  -- `Start` from its call on.
  unfoldable pub start_live : Worker → State World → Option (Worker × State World)
  unfolding after_call register_answer
  start_live w s =
      let answered = after_call register_answer w (Workers.register api (register_request w) s) in
      if is_starting w.state then answered else some (w, s)

  abbrev pub claim_request : Worker → ℤ → ClaimJobsRequest
  claim_request w limit = record {
    queue_name = w.opts.queue_name;
    worker_id = w.worker_id;
    limit = some limit;
    lease_duration_secs = some w.opts.lease_duration;
  }

  -- `poll` from its call on.
  unfoldable pub poll_live : Option ℤ → Worker → State World → Option (Worker × State World)
  unfolding after_call claim_answer
  poll_live none w s = some (w, s)
  poll_live (some limit) w s = after_call claim_answer w (Jobs.claim api (claim_request w limit) s)

  -- The job's goroutine after its handler has returned: `completeJob` or `failJob`, and its end.
  unfoldable pub finish_live : Text → Handled → Worker → State World → Option (Worker × State World)
  unfolding after_call
  finish_live id (gives result) w s =
      after_call (λ a. job_returns id false) w
        (Jobs.complete api id (record { worker_id = w.worker_id; result = result }) s)
  finish_live id (errs e) w s =
      after_call (λ a. job_returns id true) w
        (Jobs.fail api id (record { worker_id = w.worker_id; error = e }) s)

  -- `renewJobLease`.
  unfoldable pub renew_live : Text → Worker → State World → Option (Worker × State World)
  unfolding after_call
  renew_live id w s =
      after_call (λ a. renew_job_lease id (is_accepted a)) w
        (Jobs.renew_lease api id
          (record { worker_id = w.worker_id; lease_duration_secs = w.opts.lease_duration }) s)

  -- `updateProgress`.
  unfoldable pub progress_live :
      Text → UpdateProgressRequest → Worker → State World → Option (Worker × State World)
  unfolding after_call
  progress_live id req w s =
      after_call (λ a. update_progress id (is_accepted a)) w (Jobs.update_progress api id req s)

  -- `sendWorkerHeartbeat`.
  unfoldable pub beat_live : Worker → State World → Option (Worker × State World)
  unfolding after_call
  beat_live w s =
      let status = if is_running w.state then lit "active" else lit "stopping" in
      let told =
        after_call (λ a. send_worker_heartbeat (is_accepted a)) w
          (Workers.heartbeat api w.worker_id
            (record { current_jobs = pos w.job_count; status = some status; metadata = none }) s) in
      if is_empty w.worker_id then some (w, s) else told

  -- The end of `doStop`, if the worker is stopping.
  unfoldable pub end_stop_live : Worker → State World → Option (Worker × State World)
  unfolding after_call
  end_stop_live w s =
      let gone = after_call (λ a. stop_finished) w (Workers.deregister api w.worker_id s) in
      if not (is_stopping w.state)
      then some (w, s)
      else if is_empty w.worker_id
      then some (stop_finished w, s)
      else gone

  unfoldable pub act : Act → Worker → State World → Option (Worker × State World)
  unfolding start_live poll_live begin_poll finish_live renew_live progress_live beat_live
      end_stop_live
  act process_ w s = some (process w, s)
  act start_ w s = some ((start w).1, s)
  act register_ w s = start_live w s
  act end_context w s = some (if is_idle w.state then w else context_ends w, s)
  act poll_ w s = some (begin_poll w.pending w, s)
  act claim_ w s = poll_live w.pending w s
  act stop_ w s = some (stop w, s)
  act end_stop w s = end_stop_live w s
  act beat w s = beat_live w s
  act (finish_job id h) w s =
      let done = finish_live id h w s in if has_job id w.jobs_running then done else some (w, s)
  act (renew id) w s = renew_live id w s
  act (progress id req) w s = progress_live id req w s

  -- The acts one after the other.
  unfoldable pub acts : List Act → Worker → State World → Option (Worker × State World)
  unfolding act
  acts [] w s = some (w, s)
  acts (a ∷ rest) w s = elim (act a w s) [ none ↦ none | some (w', s') ↦ acts rest w' s' ]
