-- ===== src/ApiTypes/Jobs.antt =====
-- spooled/types/jobs.go. A type that has the fields of the same name and tags in spooled/resources is the
-- record of the resources.
use spooled_sdk_go.Common.{Bool, List, Option, Text, ℤ}
use spooled_sdk_go.Resources.Values.{JsonObject, Time}
use spooled_sdk_go.Resources.Jobs.Many
use spooled_sdk_go.Resources.Jobs.Types

abbrev pub JobStatus : Type 0
JobStatus = Types.JobStatus

abbrev pub job_status_values : List JobStatus
job_status_values = Types.job_status_values

pub record CreateJobRequest : Type 0 where
  pub queue_name : Text
  pub payload : JsonObject
  pub priority : Option ℤ
  pub max_retries : Option ℤ
  pub timeout_seconds : Option ℤ
  pub scheduled_at : Option Time
  pub expires_at : Option Time
  pub idempotency_key : Option Text
  pub tags : Option JsonObject
  pub parent_job_id : Option Text
  pub completion_webhook : Option Text

abbrev pub CreateJobResponse : Type 0
CreateJobResponse = Types.CreateJobResponse

pub record Job : Type 0 where
  pub id : Text
  pub organization_id : Text
  pub queue_name : Text
  pub status : JobStatus
  pub payload : JsonObject
  pub result : Option JsonObject
  pub retry_count : ℤ
  pub max_retries : ℤ
  pub last_error : Option Text
  pub created_at : Time
  pub scheduled_at : Option Time
  pub started_at : Option Time
  pub completed_at : Option Time
  pub expires_at : Option Time
  pub priority : ℤ
  pub tags : Option JsonObject
  pub timeout_seconds : ℤ
  pub parent_job_id : Option Text
  pub completion_webhook : Option Text
  pub assigned_worker_id : Option Text
  pub lease_id : Option Text
  pub lease_expires_at : Option Time
  pub idempotency_key : Option Text
  pub updated_at : Time
  pub workflow_id : Option Text
  pub dependency_mode : Option Text
  pub dependencies_met : Option Bool

pub record JobSummary : Type 0 where
  pub id : Text
  pub queue_name : Text
  pub status : JobStatus
  pub priority : ℤ
  pub retry_count : ℤ
  pub created_at : Time
  pub scheduled_at : Option Time
  pub started_at : Option Time
  pub completed_at : Option Time

pub record ListJobsParams : Type 0 where
  pub queue_name : Option Text
  pub status : Option JobStatus
  pub tag : Option Text
  pub limit : Option ℤ
  pub offset : Option ℤ
  pub order_by : Option Text
  pub order_dir : Option Text

abbrev pub JobStats : Type 0
JobStats = Types.JobStats

abbrev pub BatchJobStatus : Type 0
BatchJobStatus = Types.BatchJobStatus

abbrev pub BoostPriorityRequest : Type 0
BoostPriorityRequest = Types.BoostPriorityRequest

abbrev pub BoostPriorityResponse : Type 0
BoostPriorityResponse = Types.BoostPriorityResponse

abbrev pub ClaimJobsRequest : Type 0
ClaimJobsRequest = Types.ClaimJobsRequest

abbrev pub ClaimedJob : Type 0
ClaimedJob = Types.ClaimedJob

abbrev pub ClaimJobsResponse : Type 0
ClaimJobsResponse = Types.ClaimJobsResponse

pub record CompleteJobRequest : Type 0 where
  pub worker_id : Text
  pub result : Option JsonObject

pub record CompleteJobResponse : Type 0 where
  pub success : Bool

abbrev pub FailJobRequest : Type 0
FailJobRequest = Types.FailJobRequest

pub record FailJobResponse : Type 0 where
  pub success : Bool

pub record HeartbeatJobRequest : Type 0 where
  pub worker_id : Text
  pub lease_duration_secs : Option ℤ

pub record HeartbeatJobResponse : Type 0 where
  pub success : Bool

abbrev pub BulkJobItem : Type 0
BulkJobItem = Many.BulkJobItem

abbrev pub BulkEnqueueRequest : Type 0
BulkEnqueueRequest = Many.BulkEnqueueRequest

abbrev pub BulkJobSuccess : Type 0
BulkJobSuccess = Many.BulkJobSuccess

abbrev pub BulkJobFailure : Type 0
BulkJobFailure = Many.BulkJobFailure

abbrev pub BulkEnqueueResponse : Type 0
BulkEnqueueResponse = Many.BulkEnqueueResponse

abbrev pub ListDlqParams : Type 0
ListDlqParams = Many.ListDlqParams

abbrev pub RetryDlqRequest : Type 0
RetryDlqRequest = Many.RetryDlqRequest

abbrev pub RetryDlqResponse : Type 0
RetryDlqResponse = Many.RetryDlqResponse

abbrev pub PurgeDlqRequest : Type 0
PurgeDlqRequest = Many.PurgeDlqRequest

abbrev pub PurgeDlqResponse : Type 0
PurgeDlqResponse = Many.PurgeDlqResponse
