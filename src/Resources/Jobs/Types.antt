-- ===== src/Resources/Jobs/Types.antt =====
-- The requests and the responses of spooled/resources/jobs.go, and the requests as JSON, but for those of
-- many jobs at once.
use spooled_sdk_go.Common.{Bool, Option, ℤ, Text, List, [], ◌∷◌, lit}
use spooled_sdk_go.Resources.Values.{
  Json, integer, float, string, object, no_fields, field, JsonObject, Slice, Time, Float64,
  object_json, omit_nil, omit_blank, omit_object,
}

abbrev pub JobStatus : Type 0
JobStatus = Text

-- The constants of `JobStatus`.
abbrev pub job_status_values : List JobStatus
job_status_values =
    lit "pending"
    ∷ lit "scheduled"
    ∷ lit "processing"
    ∷ lit "completed"
    ∷ lit "failed"
    ∷ lit "deadletter"
    ∷ lit "cancelled"
    ∷ []

pub record Job : Type 0 where
  pub id : Text
  pub organization_id : Text
  pub queue_name : Text
  pub status : JobStatus
  pub payload : JsonObject
  pub result : JsonObject
  pub retry_count : ℤ
  pub max_retries : ℤ
  pub last_error : Option Text
  pub created_at : Time
  pub scheduled_at : Option Time
  pub started_at : Option Time
  pub completed_at : Option Time
  pub expires_at : Option Time
  pub priority : ℤ
  pub tags : JsonObject
  pub timeout_seconds : ℤ
  pub parent_job_id : Option Text
  pub completion_webhook : Option Text
  pub assigned_worker_id : Option Text
  pub lease_id : Option Text
  pub lease_expires_at : Option Time
  pub idempotency_key : Option Text
  pub updated_at : Time
  pub workflow_id : Option Text
  pub dependency_mode : Option Text
  pub dependencies_met : Option Bool

pub record CreateJobRequest : Type 0 where
  pub queue_name : Text
  pub payload : JsonObject
  pub priority : Option ℤ
  pub max_retries : Option ℤ
  pub timeout_seconds : Option ℤ
  pub scheduled_at : Option Time
  pub expires_at : Option Time
  pub idempotency_key : Option Text
  pub tags : JsonObject
  pub parent_job_id : Option Text
  pub completion_webhook : Option Text

unfoldable pub create_job_request_json : (Time → Text) → CreateJobRequest → Json
create_job_request_json format r = object (
    (field (lit "queue_name") (string r.queue_name) (
      field (lit "payload") (object_json r.payload) (
        omit_nil (lit "priority") integer r.priority (
          omit_nil (lit "max_retries") integer r.max_retries (
            omit_nil (lit "timeout_seconds") integer r.timeout_seconds (
              omit_nil (lit "scheduled_at") (λ at. string (format at)) r.scheduled_at
                (omit_nil (lit "expires_at") (λ at. string (format at)) r.expires_at
                  (omit_nil (lit "idempotency_key") string r.idempotency_key (
                    omit_object (lit "tags") r.tags (
                      omit_nil (lit "parent_job_id") string r.parent_job_id (
                        omit_nil (lit "completion_webhook") string r.completion_webhook
                          no_fields))))))))))))

pub record CreateJobResponse : Type 0 where
  pub id : Text
  pub created : Bool

pub record ListJobsParams : Type 0 where
  pub queue_name : Option Text
  pub status : Option JobStatus
  pub tag : Option Text
  pub limit : Option ℤ
  pub offset : Option ℤ

pub record BoostPriorityRequest : Type 0 where
  pub priority : ℤ

unfoldable pub boost_priority_request_json : BoostPriorityRequest → Json
boost_priority_request_json r = object ((field (lit "priority") (integer r.priority) no_fields))

pub record BoostPriorityResponse : Type 0 where
  pub job_id : Text
  pub old_priority : ℤ
  pub new_priority : ℤ

pub record JobStats : Type 0 where
  pub pending : ℤ
  pub scheduled : ℤ
  pub processing : ℤ
  pub completed : ℤ
  pub failed : ℤ
  pub deadletter : ℤ
  pub cancelled : ℤ
  pub total : ℤ

pub record BatchJobStatus : Type 0 where
  pub id : Text
  pub status : JobStatus

pub record ClaimJobsRequest : Type 0 where
  pub queue_name : Text
  pub worker_id : Text
  pub limit : Option ℤ
  pub lease_duration_secs : Option ℤ

unfoldable pub claim_jobs_request_json : ClaimJobsRequest → Json
claim_jobs_request_json r = object (
    (field (lit "queue_name") (string r.queue_name) (
      field (lit "worker_id") (string r.worker_id) (
        omit_nil (lit "limit") integer r.limit
          (omit_nil (lit "lease_duration_secs") integer r.lease_duration_secs no_fields)))))

pub record ClaimedJob : Type 0 where
  pub id : Text
  pub queue_name : Text
  pub payload : JsonObject
  pub retry_count : ℤ
  pub max_retries : ℤ
  pub timeout_seconds : ℤ
  pub lease_expires_at : Option Time

pub record ClaimJobsResponse : Type 0 where
  pub jobs : Slice ClaimedJob

pub record CompleteJobRequest : Type 0 where
  pub worker_id : Text
  pub result : JsonObject

unfoldable pub complete_job_request_json : CompleteJobRequest → Json
complete_job_request_json r =
    object (
      (field (lit "worker_id") (string r.worker_id)
        (omit_object (lit "result") r.result no_fields)))

pub record FailJobRequest : Type 0 where
  pub worker_id : Text
  pub error : Text

unfoldable pub fail_job_request_json : FailJobRequest → Json
fail_job_request_json r = object (
    (field (lit "worker_id") (string r.worker_id) (field (lit "error") (string r.error) no_fields)))

pub record HeartbeatRequest : Type 0 where
  pub worker_id : Text
  pub lease_duration_secs : Option ℤ

unfoldable pub heartbeat_request_json : HeartbeatRequest → Json
heartbeat_request_json r = object (
    (field (lit "worker_id") (string r.worker_id)
      (omit_nil (lit "lease_duration_secs") integer r.lease_duration_secs no_fields)))

pub record RenewLeaseRequest : Type 0 where
  pub worker_id : Text
  pub lease_duration_secs : ℤ

pub record RenewLeaseResponse : Type 0 where
  pub success : Bool
  pub lease_expires_at : Option Time

pub record UpdateProgressRequest : Type 0 where
  pub progress : Float64
  pub message : Text

unfoldable pub update_progress_request_json : UpdateProgressRequest → Json
update_progress_request_json r =
    object
      ((field (lit "progress") (float r.progress) (omit_blank (lit "message") r.message no_fields)))
