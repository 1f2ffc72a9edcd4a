-- ===== src/ApiTypes/Admin.antt =====
-- spooled/types/admin.go. A type that has the fields of the same name and tags in spooled/resources is the
-- record of the resources.
use spooled_sdk_go.Common.{Bool, Option, Text, ℤ}
use spooled_sdk_go.Resources.Values.{JsonObject}
use spooled_sdk_go.Resources.Admin.Types
use spooled_sdk_go.Resources.Ingest.Types as IngestTypes
use spooled_sdk_go.ApiTypes.Organizations.{PlanTier}

abbrev pub AdminStats : Type 0
AdminStats = Types.AdminStats

abbrev pub PlanPrice : Type 0
PlanPrice = Types.PlanPrice

abbrev pub PlanInfo : Type 0
PlanInfo = Types.PlanInfo

pub record AdminListOrganizationsParams : Type 0 where
  pub plan_tier : Option PlanTier
  pub search : Option Text
  pub limit : Option ℤ
  pub offset : Option ℤ

pub record AdminCreateOrganizationRequest : Type 0 where
  pub name : Text
  pub slug : Text
  pub plan_tier : Option PlanTier
  pub billing_email : Option Text
  pub custom_limits : Option JsonObject

pub record AdminUpdateOrganizationRequest : Type 0 where
  pub name : Option Text
  pub plan_tier : Option PlanTier
  pub billing_email : Option Text
  pub custom_limits : Option JsonObject
  pub is_active : Option Bool

pub record AdminDeleteOrganizationParams : Type 0 where
  pub hard : Bool

abbrev pub AdminCreateApiKeyRequest : Type 0
AdminCreateApiKeyRequest = Types.AdminCreateApiKeyRequest

abbrev pub CustomWebhookRequest : Type 0
CustomWebhookRequest = IngestTypes.CustomWebhookRequest

abbrev pub CustomWebhookResponse : Type 0
CustomWebhookResponse = IngestTypes.CustomWebhookResponse
