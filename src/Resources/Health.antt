-- ===== src/Resources/Health.antt =====
-- spooled/resources/health.go.
pub mod Types
use spooled_sdk_go.Common.{lit}
use spooled_sdk_go.Resources.{Decodes, Api, Call, base_get}
use spooled_sdk_go.Resources.Health.Types.{HealthResponse}

module _ (api : Api) where
  unfoldable pub get : ⦃d : Decodes HealthResponse⦄ → Call api HealthResponse
  unfolding base_get
  get = base_get api (lit "/health")

  unfoldable pub liveness : ⦃d : Decodes HealthResponse⦄ → Call api HealthResponse
  unfolding base_get
  liveness = base_get api (lit "/health/live")

  unfoldable pub readiness : ⦃d : Decodes HealthResponse⦄ → Call api HealthResponse
  unfolding base_get
  readiness = base_get api (lit "/health/ready")
