-- ===== src/Examples/Clients.antt =====
-- A client of `CreateClient`, and a worker with its calls, at concrete inputs.
use spooled_sdk_go.Common.{
  ℕ, ◌≡◌, ◌≤◌, refl, ◌↔◌, inr, false, pos, Option, none, some, [], ◌∷◌, lit, text_eq, has_prefix,
  Text, length, Returns,
}
use spooled_sdk_go.Errors.Public.{BeginsWith, valid_prefixes, validate_api_key, has_valid_prefix}
use spooled_sdk_go.Transport.{Transport, State, new_transport}
use spooled_sdk_go.Transport.Once.{err}
use spooled_sdk_go.Client.{
  with_api_key, resolve_config, check_config, apply_options, apply_option, new_default_config,
}
use spooled_sdk_go.Client.Make.{transport_config, new_client}
use spooled_sdk_go.Resources.{Decodes, Api}
use spooled_sdk_go.Resources.Bounds.{Sends}
use spooled_sdk_go.Resources.Values.{JsonObject, Slice, Time}
use spooled_sdk_go.Resources.Jobs.Types.{Job, CreateJobRequest, ListJobsParams, RenewLeaseResponse}
use spooled_sdk_go.Resources.Queues.Types.{QueueStats}
use spooled_sdk_go.Resources.Dashboard.Types.{DashboardData}
use spooled_sdk_go.Resources.Workers.Types.{Worker, RegisterWorkerRequest, RegisterWorkerResponse}
use spooled_sdk_go.Resources.Webhooks.Types.{OutgoingWebhook, CreateOutgoingWebhookRequest}
use spooled_sdk_go.Resources.Health.Types.{HealthResponse}
use spooled_sdk_go.Exports.{
  create_client, create_job, create_scheduled_job, get_job, cancel_job, list_jobs, register_worker,
  create_webhook, get_health, create_job_with_options, get_queue_stats, list_workers, get_dashboard,
}
use spooled_sdk_go.Exports.Fresh.{create_client_iff, first_calls, client_api}
use spooled_sdk_go.ApiTypes.Jobs as ApiJobs
use spooled_sdk_go.ApiTypes.Workers as ApiWorkers
use spooled_sdk_go.ApiTypes.Alike.{requests_alike}
use spooled_sdk_go.ApiTypes.Requests
use spooled_sdk_go.Resources.Values.{no_fields, field, integer}
use spooled_sdk_go.Resources.Jobs.Types as JobTypes
use spooled_sdk_go.Resources.Workers.Types as WorkerTypes
use spooled_sdk_go.Examples.Requests.{dead_network, refused}
use spooled_sdk_go.Examples.Calls.{some_packages, job_decoder, created_decoder, claim_decoder}

abbrev some_key : Text
some_key = lit "sk_test_0123456789ab"

create_client_iff_example :
    ((ts : Transport ℕ × State ℕ) × (create_client dead_network (lit "go") some_key 20 ≡ inr ts))
    ↔ (BeginsWith valid_prefixes some_key × (20 ≤ length some_key))
create_client_iff_example = create_client_iff dead_network (lit "go") some_key 20

-- Decoders that know no text.
instance abbrev pub registered_decoder : Decodes RegisterWorkerResponse
registered_decoder = record { unmarshal = λ text. err refused }

instance abbrev pub lease_decoder : Decodes RenewLeaseResponse
lease_decoder = record { unmarshal = λ text. err refused }

instance abbrev webhook_decoder : Decodes OutgoingWebhook
webhook_decoder = record { unmarshal = λ text. err refused }

instance abbrev jobs_decoder : Decodes (Slice Job)
jobs_decoder = record { unmarshal = λ text. err refused }

instance abbrev health_decoder : Decodes HealthResponse
health_decoder = record { unmarshal = λ text. err refused }

instance abbrev stats_decoder : Decodes QueueStats
stats_decoder = record { unmarshal = λ text. err refused }

instance abbrev workers_decoder : Decodes (Slice Worker)
workers_decoder = record { unmarshal = λ text. err refused }

instance abbrev dashboard_decoder : Decodes DashboardData
dashboard_decoder = record { unmarshal = λ text. err refused }

abbrev made : Transport ℕ × State ℕ
made =
    new_transport dead_network (lit "go")
      (transport_config (resolve_config 4 (lit "go") (with_api_key some_key ∷ []))) 20

abbrev made_api : Api
made_api = client_api dead_network some_packages made.0

first_calls_example :
    ((q : Text) (p : JsonObject)
      → Returns (Sends made_api 1 made.1) (create_job made_api q p made.1))
    × ((q : Text) (p : JsonObject) (at : Time)
        → Returns (Sends made_api 1 made.1) (create_scheduled_job made_api q p at made.1))
    × ((r : RegisterWorkerRequest)
        → Returns (Sends made_api 1 made.1) (register_worker made_api r made.1))
    × ((r : CreateOutgoingWebhookRequest)
        → Returns (Sends made_api 1 made.1) (create_webhook made_api r made.1))
    × ((id : Text) → Returns (Sends made_api 4 made.1) (get_job made_api id made.1))
    × ((id : Text) → Returns (Sends made_api 4 made.1) (cancel_job made_api id made.1))
    × ((o : Option ListJobsParams)
        → Returns (Sends made_api 4 made.1) (list_jobs made_api o made.1))
    × Returns (Sends made_api 4 made.1) (get_health made_api made.1)
    × ((r : CreateJobRequest)
        → Returns (Sends made_api 1 made.1) (create_job_with_options made_api r made.1))
    × ((name : Text) → Returns (Sends made_api 4 made.1) (get_queue_stats made_api name made.1))
    × Returns (Sends made_api 4 made.1) (list_workers made_api made.1)
    × Returns (Sends made_api 4 made.1) (get_dashboard made_api made.1)
unfolding create_client new_client resolve_config check_config validate_api_key has_valid_prefix lit
    text_eq apply_options apply_option new_default_config has_prefix
first_calls_example =
    first_calls dead_network some_packages (lit "go") some_key 20 made.0 made.1 refl

-- Requests whose tags point to a nil map, whose result is missing, and whose metadata is or is not empty.
abbrev tagged_job : ApiJobs.CreateJobRequest
tagged_job = record {
  queue_name = lit "emails";
  payload = none;
  priority = some (pos 5);
  max_retries = none;
  timeout_seconds = none;
  scheduled_at = none;
  expires_at = none;
  idempotency_key = none;
  tags = some none;
  parent_job_id = none;
  completion_webhook = none;
}

abbrev bare_completion : ApiJobs.CompleteJobRequest
bare_completion = record { worker_id = lit "w"; result = none }

abbrev described_worker : ApiWorkers.RegisterWorkerRequest
described_worker = record {
  queue_name = lit "emails";
  hostname = lit "h";
  worker_type = none;
  max_concurrency = some (pos 5);
  metadata = some (some (field (lit "zone") (integer (pos 1)) no_fields));
  version = none;
}

abbrev empty_heartbeat : ApiWorkers.WorkerHeartbeatRequest
empty_heartbeat = record { current_jobs = pos 0; status = none; metadata = some (some no_fields) }

requests_alike_example :
    ((Requests.create_job_request_json (λ at. []) tagged_job
        ≡ JobTypes.create_job_request_json (λ at. []) (Requests.create_job_request_of tagged_job))
      ↔ (Requests.points_to_empty (some none) ≡ false))
    × ((Requests.complete_job_request_json bare_completion
          ≡ JobTypes.complete_job_request_json (Requests.complete_job_request_of bare_completion))
        ↔ (Requests.points_to_empty none ≡ false))
    × ((Requests.register_worker_request_json described_worker
          ≡ WorkerTypes.register_worker_request_json
              (Requests.register_worker_request_of described_worker))
        ↔ (Requests.points_to_empty described_worker.metadata ≡ false))
    × ((Requests.worker_heartbeat_request_json empty_heartbeat
          ≡ WorkerTypes.worker_heartbeat_request_json
              (Requests.worker_heartbeat_request_of empty_heartbeat))
        ↔ (Requests.points_to_empty (some (some no_fields)) ≡ false))
requests_alike_example =
    requests_alike (λ at. []) tagged_job bare_completion described_worker empty_heartbeat
