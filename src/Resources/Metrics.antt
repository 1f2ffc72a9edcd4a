-- ===== src/Resources/Metrics.antt =====
-- spooled/resources/metrics.go.
pub mod Types
use spooled_sdk_go.Common.{Text, lit}
use spooled_sdk_go.Resources.{Decodes, Api, Call, base_get}
use spooled_sdk_go.Resources.Metrics.Types.{Metrics}

module _ (api : Api) where
  unfoldable pub get : ⦃d : Decodes Metrics⦄ → Call api Metrics
  unfolding base_get
  get = base_get api (lit "/api/v1/metrics")

  unfoldable pub prometheus : ⦃d : Decodes Text⦄ → Call api Text
  unfolding base_get
  prometheus = base_get api (lit "/api/v1/metrics/prometheus")
