-- ===== src/Resources/Billing.antt =====
-- spooled/resources/billing.go.
pub mod Types
use spooled_sdk_go.Common.{some, lit}
use spooled_sdk_go.Resources.{Decodes, Api, Call, base_get, base_post}
use spooled_sdk_go.Resources.Billing.Types.{
  BillingStatus, CreatePortalRequest, CreatePortalResponse, create_portal_request_json,
}

module _ (api : Api) where
  unfoldable pub get_status : ⦃d : Decodes BillingStatus⦄ → Call api BillingStatus
  unfolding base_get
  get_status = base_get api (lit "/api/v1/billing/status")

  unfoldable pub create_portal_session :
      ⦃d : Decodes CreatePortalResponse⦄ → CreatePortalRequest → Call api CreatePortalResponse
  unfolding base_post
  create_portal_session req =
      base_post api (lit "/api/v1/billing/portal") (some (create_portal_request_json req))
