-- ===== src/Resources/Metrics/Types.antt =====
-- The requests and the responses of spooled/resources/metrics.go, and the requests as JSON.
use spooled_sdk_go.Common.{ℤ}
use spooled_sdk_go.Resources.Values.{Float64}

pub record JobMetrics : Type 0 where
  pub total_created : ℤ
  pub total_completed : ℤ
  pub total_failed : ℤ
  pub avg_wait_time_ms : Float64
  pub avg_processing_ms : Float64

pub record WorkerMetrics : Type 0 where
  pub total_registered : ℤ
  pub total_active : ℤ
  pub total_idle : ℤ

pub record QueueMetrics : Type 0 where
  pub total_queues : ℤ
  pub total_paused : ℤ
  pub total_pending : ℤ
  pub total_processing : ℤ

pub record SystemMetrics : Type 0 where
  pub uptime_seconds : ℤ
  pub requests_per_sec : Float64
  pub error_rate : Float64
  pub avg_latency_ms : Float64

pub record Metrics : Type 0 where
  pub jobs : JobMetrics
  pub workers : WorkerMetrics
  pub queues : QueueMetrics
  pub system : SystemMetrics
