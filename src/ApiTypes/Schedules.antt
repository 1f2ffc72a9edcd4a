-- ===== src/ApiTypes/Schedules.antt =====
-- spooled/types/schedules.go. A type that has the fields of the same name and tags in spooled/resources is the
-- record of the resources.
use spooled_sdk_go.Common.{Bool, List, Option, Text, ℤ}
use spooled_sdk_go.Resources.Values.{JsonObject, Time}
use spooled_sdk_go.Resources.Schedules.Types

abbrev pub ScheduleRunStatus : Type 0
ScheduleRunStatus = Types.ScheduleRunStatus

abbrev pub schedule_run_status_values : List ScheduleRunStatus
schedule_run_status_values = Types.schedule_run_status_values

pub record Schedule : Type 0 where
  pub id : Text
  pub organization_id : Text
  pub name : Text
  pub description : Option Text
  pub cron_expression : Text
  pub timezone : Text
  pub queue_name : Text
  pub payload_template : JsonObject
  pub priority : ℤ
  pub max_retries : ℤ
  pub timeout_seconds : ℤ
  pub is_active : Bool
  pub last_run_at : Option Time
  pub next_run_at : Option Time
  pub run_count : ℤ
  pub tags : Option JsonObject
  pub metadata : Option JsonObject
  pub created_at : Time
  pub updated_at : Time

pub record CreateScheduleRequest : Type 0 where
  pub name : Text
  pub description : Option Text
  pub cron_expression : Text
  pub timezone : Option Text
  pub queue_name : Text
  pub payload_template : JsonObject
  pub priority : Option ℤ
  pub max_retries : Option ℤ
  pub timeout_seconds : Option ℤ
  pub tags : Option JsonObject
  pub metadata : Option JsonObject

pub record CreateScheduleResponse : Type 0 where
  pub id : Text
  pub name : Text
  pub cron_expression : Text
  pub next_run_at : Option Time

pub record UpdateScheduleRequest : Type 0 where
  pub name : Option Text
  pub description : Option Text
  pub cron_expression : Option Text
  pub timezone : Option Text
  pub queue_name : Option Text
  pub payload_template : Option JsonObject
  pub priority : Option ℤ
  pub max_retries : Option ℤ
  pub timeout_seconds : Option ℤ
  pub is_active : Option Bool
  pub tags : Option JsonObject
  pub metadata : Option JsonObject

abbrev pub TriggerScheduleResponse : Type 0
TriggerScheduleResponse = Types.TriggerScheduleResponse

abbrev pub ScheduleRun : Type 0
ScheduleRun = Types.ScheduleRun

abbrev pub ListSchedulesParams : Type 0
ListSchedulesParams = Types.ListSchedulesParams
