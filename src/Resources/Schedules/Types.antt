-- ===== src/Resources/Schedules/Types.antt =====
-- The requests and the responses of spooled/resources/schedules.go, and the requests as JSON.
use spooled_sdk_go.Common.{Bool, Option, ℤ, Text, List, [], ◌∷◌, lit}
use spooled_sdk_go.Resources.Values.{
  Json, boolean, integer, string, object, no_fields, field, JsonObject, Time, object_json, omit_nil,
  omit_object,
}

abbrev pub ScheduleRunStatus : Type 0
ScheduleRunStatus = Text

-- The constants of `ScheduleRunStatus`.
abbrev pub schedule_run_status_values : List ScheduleRunStatus
schedule_run_status_values = lit "pending" ∷ lit "running" ∷ lit "completed" ∷ lit "failed" ∷ []

pub record Schedule : Type 0 where
  pub id : Text
  pub organization_id : Text
  pub name : Text
  pub description : Option Text
  pub cron_expression : Text
  pub timezone : Text
  pub queue_name : Text
  pub payload_template : JsonObject
  pub priority : ℤ
  pub max_retries : ℤ
  pub timeout_seconds : ℤ
  pub is_active : Bool
  pub last_run_at : Option Time
  pub next_run_at : Option Time
  pub run_count : ℤ
  pub tags : JsonObject
  pub metadata : JsonObject
  pub created_at : Time
  pub updated_at : Time

pub record ListSchedulesParams : Type 0 where
  pub queue_name : Option Text
  pub is_active : Option Bool
  pub limit : Option ℤ
  pub offset : Option ℤ

pub record CreateScheduleRequest : Type 0 where
  pub name : Text
  pub description : Option Text
  pub cron_expression : Text
  pub timezone : Option Text
  pub queue_name : Text
  pub payload_template : JsonObject
  pub priority : Option ℤ
  pub max_retries : Option ℤ
  pub timeout_seconds : Option ℤ
  pub tags : JsonObject
  pub metadata : JsonObject

unfoldable pub create_schedule_request_json : CreateScheduleRequest → Json
create_schedule_request_json r = object (
    (field (lit "name") (string r.name) (
      omit_nil (lit "description") string r.description (
        field (lit "cron_expression") (string r.cron_expression) (
          omit_nil (lit "timezone") string r.timezone (
            field (lit "queue_name") (string r.queue_name) (
              field (lit "payload_template") (object_json r.payload_template) (
                omit_nil (lit "priority") integer r.priority (
                  omit_nil (lit "max_retries") integer r.max_retries (
                    omit_nil (lit "timeout_seconds") integer r.timeout_seconds (
                      omit_object (lit "tags") r.tags
                        (omit_object (lit "metadata") r.metadata no_fields))))))))))))

pub record UpdateScheduleRequest : Type 0 where
  pub name : Option Text
  pub description : Option Text
  pub cron_expression : Option Text
  pub timezone : Option Text
  pub queue_name : Option Text
  pub payload_template : JsonObject
  pub priority : Option ℤ
  pub max_retries : Option ℤ
  pub timeout_seconds : Option ℤ
  pub is_active : Option Bool
  pub tags : JsonObject
  pub metadata : JsonObject

unfoldable pub update_schedule_request_json : UpdateScheduleRequest → Json
update_schedule_request_json r = object (
    (omit_nil (lit "name") string r.name (
      omit_nil (lit "description") string r.description (
        omit_nil (lit "cron_expression") string r.cron_expression (
          omit_nil (lit "timezone") string r.timezone (
            omit_nil (lit "queue_name") string r.queue_name (
              omit_object (lit "payload_template") r.payload_template (
                omit_nil (lit "priority") integer r.priority (
                  omit_nil (lit "max_retries") integer r.max_retries (
                    omit_nil (lit "timeout_seconds") integer r.timeout_seconds (
                      omit_nil (lit "is_active") boolean r.is_active (
                        omit_object (lit "tags") r.tags
                          (omit_object (lit "metadata") r.metadata no_fields)))))))))))))

pub record TriggerScheduleResponse : Type 0 where
  pub job_id : Text
  pub triggered_at : Time

pub record ScheduleRun : Type 0 where
  pub id : Text
  pub schedule_id : Text
  pub job_id : Option Text
  pub status : ScheduleRunStatus
  pub error_message : Option Text
  pub started_at : Time
  pub completed_at : Option Time
