-- ===== src/Exports.antt =====
-- spooled/exports.go: the package's functions for the common calls. `create_client` makes a client;
-- the others take the transport of one, which all its resources hold.
pub mod Fresh
use spooled_sdk_go.Common.{
  Bool, true, false, Option, none, some, pos, Text, List, [], ◌∷◌, ◌⊎◌, inl, inr, if◌then◌else◌,
}
use spooled_sdk_go.Runtime.{Runtime}
use spooled_sdk_go.Transport.{Transport, State}
use spooled_sdk_go.Client.{with_api_key}
use spooled_sdk_go.Client.Make.{new_client}
use spooled_sdk_go.Launch.{
  SpooledWorker, new_spooled_worker, process_spooled, Registered, start_spooled,
}
use spooled_sdk_go.Resources.Values.{JsonObject, Slice, Time}
use spooled_sdk_go.Resources.{Api, Decodes, Answer, returns, Nothing, Call, then_call}
use spooled_sdk_go.Resources.Jobs
use spooled_sdk_go.Resources.Jobs.Types.{Job, CreateJobRequest, CreateJobResponse, ListJobsParams}
use spooled_sdk_go.Resources.Queues
use spooled_sdk_go.Resources.Queues.Types.{QueueStats}
use spooled_sdk_go.Resources.Workers
use spooled_sdk_go.Resources.Workers.Types.{Worker, RegisterWorkerRequest, RegisterWorkerResponse}
use spooled_sdk_go.Resources.Webhooks
use spooled_sdk_go.Resources.Webhooks.Types.{OutgoingWebhook, CreateOutgoingWebhookRequest}
use spooled_sdk_go.Resources.Dashboard
use spooled_sdk_go.Resources.Dashboard.Types.{DashboardData}
use spooled_sdk_go.Resources.Health
use spooled_sdk_go.Resources.Health.Types.{HealthResponse}

-- `CreateClient`: an error, or the client's transport with its state.
unfoldable pub create_client :
    (rt : Runtime) → Text → Text → rt.World → Text ⊎ (Transport rt.floats.Float × State rt.World)
unfolding new_client
create_client rt agent api_key w = new_client rt agent (with_api_key api_key ∷ []) w

-- `CreateWorker`: an error, or the worker. `has_handler` says whether the handler is not nil, and the
-- API's answer is that to the registration.
started_worker : Option Text × SpooledWorker → Text ⊎ SpooledWorker
started_worker (some e, sw) = inl e
started_worker (none, sw) = inr sw

unfoldable pub create_worker : Text → Bool → Registered → Text ⊎ SpooledWorker
unfolding started_worker
create_worker queue_name has_handler answer =
    let worker = new_spooled_worker (record {
      queue_name = queue_name;
      concurrency = pos 0;
      lease_duration = pos 0;
      worker_type = [];
      version = [];
      has_handler = has_handler;
    }) in
    started_worker (start_spooled answer worker)

abbrev pub job_for : Text → JsonObject → Option Time → CreateJobRequest
job_for queue_name payload scheduled_at = record {
  queue_name = queue_name;
  payload = payload;
  priority = none;
  max_retries = none;
  timeout_seconds = none;
  scheduled_at = scheduled_at;
  expires_at = none;
  idempotency_key = none;
  tags = none;
  parent_job_id = none;
  completion_webhook = none;
}

module _ (api : Api) where
  -- The id of a job that is created.
  unfoldable pub create_job_with_options :
      ⦃d : Decodes CreateJobResponse⦄ → CreateJobRequest → Call api Text
  unfolding then_call
  create_job_with_options req s =
      then_call api (Jobs.create api req s) (λ resp s'. some (returns resp.id, s'))

  unfoldable pub create_job : ⦃d : Decodes CreateJobResponse⦄ → Text → JsonObject → Call api Text
  unfolding then_call
  create_job queue_name payload s =
      then_call api (Jobs.create api (job_for queue_name payload none) s)
        (λ resp s'. some (returns resp.id, s'))

  unfoldable pub create_scheduled_job :
      ⦃d : Decodes CreateJobResponse⦄ → Text → JsonObject → Time → Call api Text
  unfolding then_call
  create_scheduled_job queue_name payload scheduled_at s =
      then_call api (Jobs.create api (job_for queue_name payload (some scheduled_at)) s)
        (λ resp s'. some (returns resp.id, s'))

  unfoldable pub get_job : ⦃d : Decodes Job⦄ → Text → Call api Job
  get_job id = Jobs.get api id

  unfoldable pub cancel_job : Text → Call api Nothing
  cancel_job id = Jobs.cancel api id

  unfoldable pub list_jobs :
      ⦃d : Decodes (Slice Job)⦄ → Option ListJobsParams → Call api (Slice Job)
  list_jobs params = Jobs.list api params

  unfoldable pub get_queue_stats : ⦃d : Decodes QueueStats⦄ → Text → Call api QueueStats
  get_queue_stats queue_name = Queues.get_stats api queue_name

  unfoldable pub register_worker :
      ⦃d : Decodes RegisterWorkerResponse⦄ → RegisterWorkerRequest → Call api RegisterWorkerResponse
  register_worker req = Workers.register api req

  unfoldable pub list_workers : ⦃d : Decodes (Slice Worker)⦄ → Call api (Slice Worker)
  list_workers = Workers.list api

  unfoldable pub create_webhook :
      ⦃d : Decodes OutgoingWebhook⦄ → CreateOutgoingWebhookRequest → Call api OutgoingWebhook
  create_webhook req = Webhooks.create api req

  unfoldable pub get_dashboard : ⦃d : Decodes DashboardData⦄ → Call api DashboardData
  get_dashboard = Dashboard.get api

  unfoldable pub get_health : ⦃d : Decodes HealthResponse⦄ → Call api HealthResponse
  get_health = Health.get api
