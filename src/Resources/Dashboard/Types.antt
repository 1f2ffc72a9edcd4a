-- ===== src/Resources/Dashboard/Types.antt =====
-- The requests and the responses of spooled/resources/dashboard.go, and the requests as JSON.
use spooled_sdk_go.Common.{Bool, Option, ℤ, Text}
use spooled_sdk_go.Resources.Values.{Slice, Float64}

pub record SystemInfo : Type 0 where
  pub version : Text
  pub uptime_seconds : ℤ
  pub started_at : Text
  pub database_status : Text
  pub cache_status : Text
  pub environment : Text

pub record JobSummaryStats : Type 0 where
  pub total : ℤ
  pub pending : ℤ
  pub processing : ℤ
  pub completed_24h : ℤ
  pub failed_24h : ℤ
  pub deadletter : ℤ
  pub avg_wait_time_ms : Option Float64
  pub avg_processing_time_ms : Option Float64

pub record QueueSummary : Type 0 where
  pub name : Text
  pub pending : ℤ
  pub processing : ℤ
  pub paused : Bool

pub record WorkerSummaryInfo : Type 0 where
  pub total : ℤ
  pub healthy : ℤ
  pub unhealthy : ℤ

pub record RecentActivity : Type 0 where
  pub jobs_created_1h : ℤ
  pub jobs_completed_1h : ℤ
  pub jobs_failed_1h : ℤ

pub record DashboardData : Type 0 where
  pub system : SystemInfo
  pub jobs : JobSummaryStats
  pub queues : Slice QueueSummary
  pub workers : WorkerSummaryInfo
  pub recent_activity : RecentActivity
