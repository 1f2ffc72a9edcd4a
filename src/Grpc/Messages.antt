-- ===== src/Grpc/Messages.antt =====
-- The messages of spooled/grpc/pb/spooled.pb.go that the client sends and reads; a message is behind a
-- pointer, `none` where it may be nil. `Struct` and `Timestamp` are the library's types.
use spooled_sdk_go.Common.{Bool, Option, ℤ, Text, List}

pub record PbJob (Struct Timestamp : Type 0) : Type 0 where
  pub id : Text
  pub organization_id : Text
  pub queue_name : Text
  pub status : ℤ
  pub payload : Option Struct
  pub result : Option Struct
  pub retry_count : ℤ
  pub max_retries : ℤ
  pub last_error : Text
  pub priority : ℤ
  pub timeout_seconds : ℤ
  pub created_at : Option Timestamp
  pub scheduled_at : Option Timestamp
  pub started_at : Option Timestamp
  pub completed_at : Option Timestamp
  pub lease_expires_at : Option Timestamp
  pub assigned_worker_id : Text
  pub idempotency_key : Text

pub record PbEnqueueRequest (Struct Timestamp : Type 0) : Type 0 where
  pub queue_name : Text
  pub payload : Option Struct
  pub priority : ℤ
  pub max_retries : ℤ
  pub timeout_seconds : ℤ
  pub scheduled_at : Option Timestamp
  pub idempotency_key : Text
  pub tags : List (Text × Text)

pub record PbEnqueueResponse : Type 0 where
  pub job_id : Text
  pub created : Bool

pub record PbDequeueRequest : Type 0 where
  pub queue_name : Text
  pub worker_id : Text
  pub lease_duration_secs : ℤ
  pub batch_size : ℤ

pub record PbDequeueResponse (Struct Timestamp : Type 0) : Type 0 where
  pub jobs : List (Option (PbJob Struct Timestamp))

pub record PbCompleteRequest (Struct : Type 0) : Type 0 where
  pub job_id : Text
  pub worker_id : Text
  pub result : Option Struct

pub record PbFailRequest : Type 0 where
  pub job_id : Text
  pub worker_id : Text
  pub error : Text
  pub retry : Bool

pub record PbRenewLeaseRequest : Type 0 where
  pub job_id : Text
  pub worker_id : Text
  pub extension_secs : ℤ

pub record PbRenewLeaseResponse (Timestamp : Type 0) : Type 0 where
  pub success : Bool
  pub new_expires_at : Option Timestamp

pub record PbGetJobRequest : Type 0 where
  pub job_id : Text

pub record PbGetJobResponse (Struct Timestamp : Type 0) : Type 0 where
  pub job : Option (PbJob Struct Timestamp)

pub record PbGetQueueStatsRequest : Type 0 where
  pub queue_name : Text

pub record PbGetQueueStatsResponse : Type 0 where
  pub queue_name : Text
  pub pending : ℤ
  pub scheduled : ℤ
  pub processing : ℤ
  pub completed : ℤ
  pub failed : ℤ
  pub deadletter : ℤ
  pub total : ℤ
  pub max_age_ms : ℤ

pub record PbStreamJobsRequest : Type 0 where
  pub queue_name : Text
  pub worker_id : Text
  pub lease_duration_secs : ℤ

pub record PbRegisterWorkerRequest : Type 0 where
  pub queue_name : Text
  pub hostname : Text
  pub worker_type : Text
  pub max_concurrency : ℤ
  pub version : Text
  pub metadata : List (Text × Text)

pub record PbRegisterWorkerResponse : Type 0 where
  pub worker_id : Text
  pub lease_duration_secs : ℤ
  pub heartbeat_interval_secs : ℤ

pub record PbHeartbeatRequest : Type 0 where
  pub worker_id : Text
  pub current_jobs : ℤ
  pub status : Text
  pub metadata : List (Text × Text)

pub record PbDeregisterRequest : Type 0 where
  pub worker_id : Text
