-- ===== src/ApiTypes/Requests.antt =====
-- The requests of spooled/types as JSON by the tags of their structs, where they differ from those of
-- spooled/resources: an object that may be missing is behind a pointer.
use spooled_sdk_go.Common.{Bool, true, false, Option, none, some, Text, lit}
use spooled_sdk_go.Resources.Values.{
  Json, integer, string, object, no_fields, field, JsonObject, Time, object_json, omit_nil,
}
use spooled_sdk_go.Resources.Jobs.Types as JobTypes
use spooled_sdk_go.Resources.Workers.Types as WorkerTypes
use spooled_sdk_go.ApiTypes.Jobs.{CreateJobRequest, CompleteJobRequest}
use spooled_sdk_go.ApiTypes.Workers.{RegisterWorkerRequest, WorkerHeartbeatRequest}

unfoldable pub create_job_request_json : (Time → Text) → CreateJobRequest → Json
create_job_request_json format r = object (
    (field (lit "queue_name") (string r.queue_name) (
      field (lit "payload") (object_json r.payload) (
        omit_nil (lit "priority") integer r.priority (
          omit_nil (lit "max_retries") integer r.max_retries (
            omit_nil (lit "timeout_seconds") integer r.timeout_seconds (
              omit_nil (lit "scheduled_at") (λ at. string (format at)) r.scheduled_at
                (omit_nil (lit "expires_at") (λ at. string (format at)) r.expires_at
                  (omit_nil (lit "idempotency_key") string r.idempotency_key (
                    omit_nil (lit "tags") object_json r.tags (
                      omit_nil (lit "parent_job_id") string r.parent_job_id (
                        omit_nil (lit "completion_webhook") string r.completion_webhook
                          no_fields))))))))))))

unfoldable pub complete_job_request_json : CompleteJobRequest → Json
complete_job_request_json r = object (
    (field (lit "worker_id") (string r.worker_id)
      (omit_nil (lit "result") object_json r.result no_fields)))

unfoldable pub register_worker_request_json : RegisterWorkerRequest → Json
register_worker_request_json r = object (
    (field (lit "queue_name") (string r.queue_name) (
      field (lit "hostname") (string r.hostname) (
        omit_nil (lit "worker_type") string r.worker_type (
          omit_nil (lit "max_concurrency") integer r.max_concurrency (
            omit_nil (lit "metadata") object_json r.metadata
              (omit_nil (lit "version") string r.version no_fields)))))))

unfoldable pub worker_heartbeat_request_json : WorkerHeartbeatRequest → Json
worker_heartbeat_request_json r = object (
    (field (lit "current_jobs") (integer r.current_jobs) (
      omit_nil (lit "status") string r.status
        (omit_nil (lit "metadata") object_json r.metadata no_fields))))

-- The object behind a pointer, nil behind a nil pointer.
unfoldable pub value_of : Option JsonObject → JsonObject
value_of none = none
value_of (some m) = m

-- A pointer to a nil or an empty map.
unfoldable pub points_to_empty : Option JsonObject → Bool
points_to_empty none = false
points_to_empty (some none) = true
points_to_empty (some (some no_fields)) = true
points_to_empty (some (some (field k v fs))) = false

-- The request of spooled/resources with the same fields.
unfoldable pub create_job_request_of : CreateJobRequest → JobTypes.CreateJobRequest
create_job_request_of r = record {
  queue_name = r.queue_name;
  payload = r.payload;
  priority = r.priority;
  max_retries = r.max_retries;
  timeout_seconds = r.timeout_seconds;
  scheduled_at = r.scheduled_at;
  expires_at = r.expires_at;
  idempotency_key = r.idempotency_key;
  tags = value_of r.tags;
  parent_job_id = r.parent_job_id;
  completion_webhook = r.completion_webhook;
}

unfoldable pub complete_job_request_of : CompleteJobRequest → JobTypes.CompleteJobRequest
complete_job_request_of r = record { worker_id = r.worker_id; result = value_of r.result }

unfoldable pub register_worker_request_of :
    RegisterWorkerRequest → WorkerTypes.RegisterWorkerRequest
register_worker_request_of r = record {
  queue_name = r.queue_name;
  hostname = r.hostname;
  worker_type = r.worker_type;
  max_concurrency = r.max_concurrency;
  metadata = value_of r.metadata;
  version = r.version;
}

unfoldable pub worker_heartbeat_request_of :
    WorkerHeartbeatRequest → WorkerTypes.WorkerHeartbeatRequest
worker_heartbeat_request_of r = record {
  current_jobs = r.current_jobs;
  status = r.status;
  metadata = value_of r.metadata;
}
