-- ===== src/Dispatch/Events.antt =====
-- The data of the events of spooled/realtime/types.go.
use spooled_sdk_go.Common.{Option, ℤ, Text, List}
use spooled_sdk_go.Resources.Values.{JsonObject, Time, Float64}

-- `metadata` is the entries of the map.
pub record JobEvent : Type 0 where
  pub job_id : Text
  pub queue_name : Text
  pub status : Text
  pub priority : ℤ
  pub retry_count : ℤ
  pub error : Text
  pub progress : Float64
  pub result : JsonObject
  pub worker_id : Text
  pub scheduled_at : Option Time
  pub started_at : Option Time
  pub completed_at : Option Time
  pub failed_at : Option Time
  pub metadata : List (Text × Text)

pub record QueueEvent : Type 0 where
  pub queue_name : Text
  pub reason : Text

pub record WorkerEvent : Type 0 where
  pub worker_id : Text
  pub queue_name : Text
  pub hostname : Text
  pub version : Text
  pub last_seen_at : Time
