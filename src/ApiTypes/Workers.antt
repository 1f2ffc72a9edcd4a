-- ===== src/ApiTypes/Workers.antt =====
-- spooled/types/workers.go. A type that has the fields of the same name and tags in spooled/resources is the
-- record of the resources.
use spooled_sdk_go.Common.{List, Option, Text, ℤ}
use spooled_sdk_go.Resources.Values.{JsonObject, Time}
use spooled_sdk_go.Resources.Workers.Types

abbrev pub WorkerStatus : Type 0
WorkerStatus = Types.WorkerStatus

abbrev pub worker_status_values : List WorkerStatus
worker_status_values = Types.worker_status_values

abbrev pub Worker : Type 0
Worker = Types.Worker

pub record WorkerSummary : Type 0 where
  pub id : Text
  pub queue_name : Text
  pub hostname : Text
  pub status : WorkerStatus
  pub current_jobs : ℤ
  pub max_concurrency : ℤ
  pub last_heartbeat : Time

pub record RegisterWorkerRequest : Type 0 where
  pub queue_name : Text
  pub hostname : Text
  pub worker_type : Option Text
  pub max_concurrency : Option ℤ
  pub metadata : Option JsonObject
  pub version : Option Text

abbrev pub RegisterWorkerResponse : Type 0
RegisterWorkerResponse = Types.RegisterWorkerResponse

pub record WorkerHeartbeatRequest : Type 0 where
  pub current_jobs : ℤ
  pub status : Option Text
  pub metadata : Option JsonObject
