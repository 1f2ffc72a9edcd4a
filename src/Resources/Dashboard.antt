-- ===== src/Resources/Dashboard.antt =====
-- spooled/resources/dashboard.go.
pub mod Types
use spooled_sdk_go.Common.{lit}
use spooled_sdk_go.Resources.{Decodes, Api, Call, base_get}
use spooled_sdk_go.Resources.Dashboard.Types.{DashboardData}

module _ (api : Api) where
  unfoldable pub get : ⦃d : Decodes DashboardData⦄ → Call api DashboardData
  unfolding base_get
  get = base_get api (lit "/api/v1/dashboard")
