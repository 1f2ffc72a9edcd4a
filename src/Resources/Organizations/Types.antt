-- ===== src/Resources/Organizations/Types.antt =====
-- The requests and the responses of spooled/resources/organizations.go, and the requests as JSON.
use spooled_sdk_go.Common.{Bool, Option, ℤ, Text, List, [], ◌∷◌, lit}
use spooled_sdk_go.Resources.Values.{
  Json, string, object, no_fields, field, JsonObject, Slice, Time, Float64, omit_nil, omit_object,
}
use spooled_sdk_go.Resources.ApiKeys.Types.{CreateApiKeyResponse}

abbrev pub PlanTier : Type 0
PlanTier = Text

-- The constants of `PlanTier`.
abbrev pub plan_tier_values : List PlanTier
plan_tier_values = lit "free" ∷ lit "starter" ∷ lit "pro" ∷ lit "enterprise" ∷ []

pub record Organization : Type 0 where
  pub id : Text
  pub name : Text
  pub slug : Text
  pub plan_tier : PlanTier
  pub billing_email : Option Text
  pub settings : JsonObject
  pub custom_limits : JsonObject
  pub stripe_customer_id : Option Text
  pub stripe_subscription_id : Option Text
  pub stripe_subscription_status : Option Text
  pub stripe_current_period_end : Option Time
  pub stripe_cancel_at_period_end : Option Bool
  pub created_at : Time
  pub updated_at : Time

pub record CreateOrganizationRequest : Type 0 where
  pub name : Text
  pub slug : Text
  pub billing_email : Option Text

unfoldable pub create_organization_request_json : CreateOrganizationRequest → Json
create_organization_request_json r = object (
    (field (lit "name") (string r.name) (
      field (lit "slug") (string r.slug)
        (omit_nil (lit "billing_email") string r.billing_email no_fields))))

pub record CreateOrganizationResponse : Type 0 where
  pub organization : Organization
  pub api_key : CreateApiKeyResponse

pub record UpdateOrganizationRequest : Type 0 where
  pub name : Option Text
  pub billing_email : Option Text
  pub settings : JsonObject

unfoldable pub update_organization_request_json : UpdateOrganizationRequest → Json
update_organization_request_json r = object (
    (omit_nil (lit "name") string r.name (
      omit_nil (lit "billing_email") string r.billing_email
        (omit_object (lit "settings") r.settings no_fields))))

pub record PlanLimits : Type 0 where
  pub tier : Text
  pub display_name : Text
  pub max_jobs_per_day : Option ℤ
  pub max_active_jobs : Option ℤ
  pub max_queues : Option ℤ
  pub max_workers : Option ℤ
  pub max_api_keys : Option ℤ
  pub max_schedules : Option ℤ
  pub max_workflows : Option ℤ
  pub max_webhooks : Option ℤ
  pub max_payload_size_bytes : ℤ
  pub rate_limit_requests_per_second : ℤ
  pub rate_limit_burst : ℤ
  pub job_retention_days : ℤ
  pub history_retention_days : ℤ

pub record UsageItem : Type 0 where
  pub current : ℤ
  pub limit : Option ℤ
  pub percentage : Option Float64
  pub is_disabled : Bool

pub record ResourceUsage : Type 0 where
  pub jobs_today : UsageItem
  pub active_jobs : UsageItem
  pub queues : UsageItem
  pub workers : UsageItem
  pub api_keys : UsageItem
  pub schedules : UsageItem
  pub workflows : UsageItem
  pub webhooks : UsageItem

pub record UsageWarning : Type 0 where
  pub resource : Text
  pub message : Text
  pub severity : Text

pub record UsageInfo : Type 0 where
  pub plan : Text
  pub plan_display_name : Text
  pub limits : PlanLimits
  pub usage : ResourceUsage
  pub warnings : Slice UsageWarning

pub record OrganizationMember : Type 0 where
  pub id : Text
  pub user_id : Text
  pub email : Text
  pub name : Text
  pub role : Text
  pub joined_at : Time
  pub invited_by : Option Text

pub record CheckSlugResponse : Type 0 where
  pub available : Bool
  pub slug : Text
  pub message : Option Text

pub record GenerateSlugResponse : Type 0 where
  pub slug : Text

pub record WebhookTokenResponse : Type 0 where
  pub webhook_token : Option Text
  pub webhook_url : Option Text
