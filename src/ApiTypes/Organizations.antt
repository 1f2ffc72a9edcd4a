-- ===== src/ApiTypes/Organizations.antt =====
-- spooled/types/organizations.go. A type that has the fields of the same name and tags in spooled/resources is the
-- record of the resources.
use spooled_sdk_go.Common.{Bool, List, Option, Text}
use spooled_sdk_go.Resources.Values.{JsonObject, Time}
use spooled_sdk_go.Resources.Organizations.Types
use spooled_sdk_go.ApiTypes.ApiKeys.{CreateApiKeyResponse}

abbrev pub PlanTier : Type 0
PlanTier = Types.PlanTier

abbrev pub plan_tier_values : List PlanTier
plan_tier_values = Types.plan_tier_values

pub record Organization : Type 0 where
  pub id : Text
  pub name : Text
  pub slug : Text
  pub plan_tier : PlanTier
  pub billing_email : Option Text
  pub settings : JsonObject
  pub custom_limits : Option JsonObject
  pub stripe_customer_id : Option Text
  pub stripe_subscription_id : Option Text
  pub stripe_subscription_status : Option Text
  pub stripe_current_period_end : Option Time
  pub stripe_cancel_at_period_end : Option Bool
  pub created_at : Time
  pub updated_at : Time

pub record OrganizationSummary : Type 0 where
  pub id : Text
  pub name : Text
  pub slug : Text
  pub plan_tier : PlanTier
  pub created_at : Time

abbrev pub CreateOrganizationRequest : Type 0
CreateOrganizationRequest = Types.CreateOrganizationRequest

pub record CreateOrganizationResponse : Type 0 where
  pub organization : Organization
  pub api_key : CreateApiKeyResponse

pub record UpdateOrganizationRequest : Type 0 where
  pub name : Option Text
  pub billing_email : Option Text
  pub settings : Option JsonObject

abbrev pub PlanLimits : Type 0
PlanLimits = Types.PlanLimits

abbrev pub UsageItem : Type 0
UsageItem = Types.UsageItem

abbrev pub ResourceUsage : Type 0
ResourceUsage = Types.ResourceUsage

abbrev pub UsageWarning : Type 0
UsageWarning = Types.UsageWarning

abbrev pub UsageInfo : Type 0
UsageInfo = Types.UsageInfo

abbrev pub OrganizationMember : Type 0
OrganizationMember = Types.OrganizationMember

abbrev pub CheckSlugResponse : Type 0
CheckSlugResponse = Types.CheckSlugResponse

abbrev pub GenerateSlugResponse : Type 0
GenerateSlugResponse = Types.GenerateSlugResponse

abbrev pub WebhookTokenResponse : Type 0
WebhookTokenResponse = Types.WebhookTokenResponse
