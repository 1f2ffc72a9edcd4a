-- ===== src/Resources/Queues/Types.antt =====
-- The requests and the responses of spooled/resources/queues.go, and the requests as JSON.
use spooled_sdk_go.Common.{Bool, Option, ℤ, Text, lit}
use spooled_sdk_go.Resources.Values.{
  Json, boolean, integer, string, object, no_fields, JsonObject, Time, omit_nil,
}

pub record QueueListItem : Type 0 where
  pub queue_name : Text
  pub max_retries : ℤ
  pub default_timeout : ℤ
  pub rate_limit : Option ℤ
  pub enabled : Bool

pub record QueueConfig : Type 0 where
  pub id : Text
  pub organization_id : Text
  pub queue_name : Text
  pub max_retries : ℤ
  pub default_timeout : ℤ
  pub rate_limit : Option ℤ
  pub enabled : Bool
  pub settings : JsonObject
  pub created_at : Time
  pub updated_at : Time

pub record UpdateQueueConfigRequest : Type 0 where
  pub max_retries : Option ℤ
  pub default_timeout : Option ℤ
  pub rate_limit : Option ℤ
  pub enabled : Option Bool

unfoldable pub update_queue_config_request_json : UpdateQueueConfigRequest → Json
update_queue_config_request_json r = object (
    (omit_nil (lit "max_retries") integer r.max_retries (
      omit_nil (lit "default_timeout") integer r.default_timeout (
        omit_nil (lit "rate_limit") integer r.rate_limit
          (omit_nil (lit "enabled") boolean r.enabled no_fields)))))

pub record QueueStats : Type 0 where
  pub queue_name : Text
  pub pending_jobs : ℤ
  pub processing_jobs : ℤ
  pub completed_jobs_24h : ℤ
  pub failed_jobs_24h : ℤ
  pub avg_processing_time_ms : Option ℤ
  pub max_job_age_seconds : Option ℤ
  pub active_workers : ℤ

pub record PauseQueueRequest : Type 0 where
  pub reason : Option Text

unfoldable pub pause_queue_request_json : PauseQueueRequest → Json
pause_queue_request_json r = object ((omit_nil (lit "reason") string r.reason no_fields))

pub record PauseQueueResponse : Type 0 where
  pub queue_name : Text
  pub paused : Bool
  pub paused_at : Time
  pub reason : Option Text

pub record ResumeQueueResponse : Type 0 where
  pub queue_name : Text
  pub resumed : Bool
  pub paused_duration_secs : ℤ
