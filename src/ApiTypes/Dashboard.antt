-- ===== src/ApiTypes/Dashboard.antt =====
-- spooled/types/dashboard.go. A type that has the fields of the same name and tags in spooled/resources is the
-- record of the resources.
use spooled_sdk_go.Common.{Bool, Option, Text, ℤ}
use spooled_sdk_go.Resources.Values.{Slice, Time}
use spooled_sdk_go.Resources.Dashboard.Types

abbrev pub SystemInfo : Type 0
SystemInfo = Types.SystemInfo

pub record JobSummaryStats : Type 0 where
  pub total : ℤ
  pub pending : ℤ
  pub processing : ℤ
  pub completed_24h : ℤ
  pub failed_24h : ℤ
  pub deadletter : ℤ
  pub avg_wait_time_ms : Option ℤ
  pub avg_processing_time_ms : Option ℤ

abbrev pub QueueSummary : Type 0
QueueSummary = Types.QueueSummary

abbrev pub WorkerSummaryInfo : Type 0
WorkerSummaryInfo = Types.WorkerSummaryInfo

abbrev pub RecentActivity : Type 0
RecentActivity = Types.RecentActivity

pub record DashboardData : Type 0 where
  pub system : SystemInfo
  pub jobs : JobSummaryStats
  pub queues : Slice QueueSummary
  pub workers : WorkerSummaryInfo
  pub recent_activity : RecentActivity

pub record HealthResponse : Type 0 where
  pub status : Text
  pub database : Bool
  pub cache : Bool
  pub timestamp : Time
