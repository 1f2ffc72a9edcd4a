-- ===== src/Resources/Workers/Types.antt =====
-- The requests and the responses of spooled/resources/workers.go, and the requests as JSON.
use spooled_sdk_go.Common.{Option, ℤ, Text, List, [], ◌∷◌, lit}
use spooled_sdk_go.Resources.Values.{
  Json, integer, string, object, no_fields, field, JsonObject, Time, omit_nil, omit_object,
}

abbrev pub WorkerStatus : Type 0
WorkerStatus = Text

-- The constants of `WorkerStatus`.
abbrev pub worker_status_values : List WorkerStatus
worker_status_values = lit "healthy" ∷ lit "degraded" ∷ lit "offline" ∷ lit "draining" ∷ []

pub record Worker : Type 0 where
  pub id : Text
  pub organization_id : Text
  pub queue_name : Text
  pub hostname : Text
  pub worker_type : Option Text
  pub max_concurrency : ℤ
  pub current_jobs : ℤ
  pub status : WorkerStatus
  pub last_heartbeat : Time
  pub metadata : JsonObject
  pub version : Option Text
  pub registered_at : Time

pub record RegisterWorkerRequest : Type 0 where
  pub queue_name : Text
  pub hostname : Text
  pub worker_type : Option Text
  pub max_concurrency : Option ℤ
  pub metadata : JsonObject
  pub version : Option Text

unfoldable pub register_worker_request_json : RegisterWorkerRequest → Json
register_worker_request_json r = object (
    (field (lit "queue_name") (string r.queue_name) (
      field (lit "hostname") (string r.hostname) (
        omit_nil (lit "worker_type") string r.worker_type (
          omit_nil (lit "max_concurrency") integer r.max_concurrency (
            omit_object (lit "metadata") r.metadata
              (omit_nil (lit "version") string r.version no_fields)))))))

pub record RegisterWorkerResponse : Type 0 where
  pub id : Text
  pub queue_name : Text
  pub lease_duration_secs : ℤ
  pub heartbeat_interval_secs : ℤ

pub record WorkerHeartbeatRequest : Type 0 where
  pub current_jobs : ℤ
  pub status : Option Text
  pub metadata : JsonObject

unfoldable pub worker_heartbeat_request_json : WorkerHeartbeatRequest → Json
worker_heartbeat_request_json r = object (
    (field (lit "current_jobs") (integer r.current_jobs) (
      omit_nil (lit "status") string r.status (omit_object (lit "metadata") r.metadata no_fields))))
