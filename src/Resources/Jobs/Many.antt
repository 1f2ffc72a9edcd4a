-- ===== src/Resources/Jobs/Many.antt =====
-- The requests and the responses of spooled/resources/jobs.go for many jobs at once and for the dead
-- letter queue, and the requests as JSON.
use spooled_sdk_go.Common.{Bool, Option, ℤ, Text, lit}
use spooled_sdk_go.Resources.Values.{
  Json, integer, string, object, no_fields, field, JsonObject, Slice, Time, slice_json, object_json,
  omit_nil, omit_slice,
}

pub record BulkJobItem : Type 0 where
  pub payload : JsonObject
  pub priority : Option ℤ
  pub idempotency_key : Option Text
  pub scheduled_at : Option Time

unfoldable pub bulk_job_item_json : (Time → Text) → BulkJobItem → Json
bulk_job_item_json format r = object (
    (field (lit "payload") (object_json r.payload) (
      omit_nil (lit "priority") integer r.priority (
        omit_nil (lit "idempotency_key") string r.idempotency_key
          (omit_nil (lit "scheduled_at") (λ at. string (format at)) r.scheduled_at no_fields)))))

pub record BulkEnqueueRequest : Type 0 where
  pub queue_name : Text
  pub jobs : Slice BulkJobItem
  pub default_priority : Option ℤ
  pub default_max_retries : Option ℤ
  pub default_timeout_seconds : Option ℤ

unfoldable pub bulk_enqueue_request_json : (Time → Text) → BulkEnqueueRequest → Json
bulk_enqueue_request_json format r = object (
    (field (lit "queue_name") (string r.queue_name) (
      field (lit "jobs") ((slice_json (bulk_job_item_json format)) r.jobs) (
        omit_nil (lit "default_priority") integer r.default_priority (
          omit_nil (lit "default_max_retries") integer r.default_max_retries (
            omit_nil (lit "default_timeout_seconds") integer r.default_timeout_seconds
              no_fields))))))

pub record BulkJobSuccess : Type 0 where
  pub index : ℤ
  pub job_id : Text
  pub created : Bool

pub record BulkJobFailure : Type 0 where
  pub index : ℤ
  pub error : Text

pub record BulkEnqueueResponse : Type 0 where
  pub succeeded : Slice BulkJobSuccess
  pub failed : Slice BulkJobFailure
  pub total : ℤ
  pub success_count : ℤ
  pub failure_count : ℤ

pub record ListDlqParams : Type 0 where
  pub queue_name : Option Text
  pub limit : Option ℤ
  pub offset : Option ℤ

pub record RetryDlqRequest : Type 0 where
  pub queue_name : Option Text
  pub job_ids : Slice Text

unfoldable pub retry_dlq_request_json : RetryDlqRequest → Json
retry_dlq_request_json r = object (
    (omit_nil (lit "queue_name") string r.queue_name
      (omit_slice (lit "job_ids") string r.job_ids no_fields)))

pub record RetryDlqResponse : Type 0 where
  pub retried_count : ℤ
  pub retried_jobs : Slice Text

pub record PurgeDlqRequest : Type 0 where
  pub queue_name : Option Text

unfoldable pub purge_dlq_request_json : PurgeDlqRequest → Json
purge_dlq_request_json r = object ((omit_nil (lit "queue_name") string r.queue_name no_fields))

pub record PurgeDlqResponse : Type 0 where
  pub purged_count : ℤ
