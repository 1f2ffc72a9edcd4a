-- ===== src/Grpc/Requests.antt =====
-- The requests and the responses of spooled/grpc/client.go. A slice of jobs holds no nil pointer but
-- where the server's does.
use spooled_sdk_go.Common.{Bool, Option, ℤ, Text, List}
use spooled_sdk_go.Resources.Values.{JsonObject, Time}

pub record EnqueueRequest : Type 0 where
  pub queue_name : Text
  pub payload : JsonObject
  pub priority : ℤ
  pub max_retries : ℤ
  pub timeout_seconds : ℤ
  pub scheduled_at : Option Time
  pub idempotency_key : Text

pub record EnqueueResponse : Type 0 where
  pub job_id : Text
  pub created : Bool

pub record DequeueRequest : Type 0 where
  pub queue_name : Text
  pub worker_id : Text
  pub batch_size : ℤ
  pub lease_duration_sec : ℤ

pub record Job : Type 0 where
  pub id : Text
  pub queue_name : Text
  pub payload : JsonObject
  pub priority : ℤ
  pub retry_count : ℤ
  pub max_retries : ℤ
  pub timeout_seconds : ℤ
  pub lease_expires_at : Option Time

pub record DequeueResponse : Type 0 where
  pub jobs : List (Option Job)

pub record CompleteRequest : Type 0 where
  pub job_id : Text
  pub worker_id : Text
  pub result : JsonObject

pub record FailRequest : Type 0 where
  pub job_id : Text
  pub worker_id : Text
  pub error : Text
  pub retry : Bool

pub record RenewLeaseRequest : Type 0 where
  pub job_id : Text
  pub worker_id : Text
  pub extension_secs : ℤ

pub record RenewLeaseResponse : Type 0 where
  pub success : Bool
  pub new_expires_at : Option Time

pub record QueueStats : Type 0 where
  pub queue_name : Text
  pub pending : ℤ
  pub scheduled : ℤ
  pub processing : ℤ
  pub completed : ℤ
  pub failed : ℤ
  pub deadletter : ℤ
  pub total : ℤ
  pub max_age_ms : ℤ

pub record RegisterWorkerRequest : Type 0 where
  pub queue_name : Text
  pub hostname : Text
  pub max_concurrency : ℤ
  pub version : Text
  pub metadata : List (Text × Text)

pub record RegisterWorkerResponse : Type 0 where
  pub worker_id : Text
  pub heartbeat_interval_sec : ℤ
  pub lease_duration_sec : ℤ

pub record WorkerHeartbeatRequest : Type 0 where
  pub worker_id : Text
  pub current_jobs : ℤ
  pub status : Text
