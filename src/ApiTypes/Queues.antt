-- ===== src/ApiTypes/Queues.antt =====
-- spooled/types/queues.go. A type that has the fields of the same name and tags in spooled/resources is the
-- record of the resources.
use spooled_sdk_go.Common.{Bool, Option, Text, ℤ}
use spooled_sdk_go.Resources.Queues.Types

abbrev pub QueueConfig : Type 0
QueueConfig = Types.QueueConfig

pub record QueueConfigSummary : Type 0 where
  pub queue_name : Text
  pub max_retries : ℤ
  pub default_timeout : ℤ
  pub rate_limit : Option ℤ
  pub enabled : Bool

abbrev pub UpdateQueueConfigRequest : Type 0
UpdateQueueConfigRequest = Types.UpdateQueueConfigRequest

abbrev pub QueueStats : Type 0
QueueStats = Types.QueueStats

abbrev pub PauseQueueRequest : Type 0
PauseQueueRequest = Types.PauseQueueRequest

abbrev pub PauseQueueResponse : Type 0
PauseQueueResponse = Types.PauseQueueResponse

abbrev pub ResumeQueueResponse : Type 0
ResumeQueueResponse = Types.ResumeQueueResponse
