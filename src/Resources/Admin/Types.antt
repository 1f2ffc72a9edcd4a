-- ===== src/Resources/Admin/Types.antt =====
-- The requests and the responses of spooled/resources/admin.go, and the requests as JSON.
use spooled_sdk_go.Common.{Bool, Option, ℤ, Text, List, lit}
use spooled_sdk_go.Resources.Values.{
  Json, boolean, integer, string, object, no_fields, field, JsonObject, Slice, Time, omit_nil,
  omit_slice, omit_object,
}
use spooled_sdk_go.Resources.Organizations.Types.{Organization, PlanLimits, PlanTier}

pub record AdminStats : Type 0 where
  pub total_organizations : ℤ
  pub total_jobs : ℤ
  pub total_workers : ℤ
  pub total_queues : ℤ
  pub total_api_keys : ℤ
  pub jobs_by_status : List (Text × ℤ)
  pub organizations_by_plan : List (Text × ℤ)

pub record PlanPrice : Type 0 where
  pub monthly_usd : ℤ
  pub yearly_usd : ℤ
  pub currency : Text

pub record PlanInfo : Type 0 where
  pub tier : PlanTier
  pub display_name : Text
  pub description : Text
  pub limits : PlanLimits
  pub price : Option PlanPrice

pub record ListOrganizationsParams : Type 0 where
  pub plan_tier : Option PlanTier
  pub search : Option Text
  pub limit : Option ℤ
  pub offset : Option ℤ

pub record AdminOrganizationList : Type 0 where
  pub organizations : Slice Organization
  pub total : ℤ
  pub limit : ℤ
  pub offset : ℤ

pub record AdminCreateOrganizationRequest : Type 0 where
  pub name : Text
  pub slug : Text
  pub plan_tier : Option PlanTier
  pub billing_email : Option Text
  pub custom_limits : JsonObject

unfoldable pub admin_create_organization_request_json : AdminCreateOrganizationRequest → Json
admin_create_organization_request_json r = object (
    (field (lit "name") (string r.name) (
      field (lit "slug") (string r.slug) (
        omit_nil (lit "plan_tier") string r.plan_tier (
          omit_nil (lit "billing_email") string r.billing_email
            (omit_object (lit "custom_limits") r.custom_limits no_fields))))))

pub record AdminUpdateOrganizationRequest : Type 0 where
  pub name : Option Text
  pub plan_tier : Option PlanTier
  pub billing_email : Option Text
  pub custom_limits : JsonObject
  pub is_active : Option Bool

unfoldable pub admin_update_organization_request_json : AdminUpdateOrganizationRequest → Json
admin_update_organization_request_json r = object (
    (omit_nil (lit "name") string r.name (
      omit_nil (lit "plan_tier") string r.plan_tier (
        omit_nil (lit "billing_email") string r.billing_email (
          omit_object (lit "custom_limits") r.custom_limits
            (omit_nil (lit "is_active") boolean r.is_active no_fields))))))

pub record AdminCreateApiKeyRequest : Type 0 where
  pub name : Text
  pub queues : Slice Text
  pub rate_limit : Option ℤ
  pub expires_at : Option Time

unfoldable pub admin_create_api_key_request_json : (Time → Text) → AdminCreateApiKeyRequest → Json
admin_create_api_key_request_json format r = object (
    (field (lit "name") (string r.name) (
      omit_slice (lit "queues") string r.queues (
        omit_nil (lit "rate_limit") integer r.rate_limit
          (omit_nil (lit "expires_at") (λ at. string (format at)) r.expires_at no_fields)))))
