-- ===== src/Resources/Billing/Types.antt =====
-- The requests and the responses of spooled/resources/billing.go, and the requests as JSON.
use spooled_sdk_go.Common.{Bool, Option, Text, lit}
use spooled_sdk_go.Resources.Values.{Json, string, object, no_fields, field, Time}
use spooled_sdk_go.Resources.Organizations.Types.{PlanTier}

pub record BillingStatus : Type 0 where
  pub plan_tier : PlanTier
  pub stripe_subscription_id : Option Text
  pub stripe_subscription_status : Option Text
  pub stripe_current_period_end : Option Time
  pub stripe_cancel_at_period_end : Option Bool
  pub has_stripe_customer : Bool

pub record CreatePortalRequest : Type 0 where
  pub return_url : Text

unfoldable pub create_portal_request_json : CreatePortalRequest → Json
create_portal_request_json r = object ((field (lit "return_url") (string r.return_url) no_fields))

pub record CreatePortalResponse : Type 0 where
  pub url : Text
