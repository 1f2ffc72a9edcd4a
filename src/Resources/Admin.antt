-- ===== src/Resources/Admin.antt =====
-- spooled/resources/admin.go.
pub mod Types
use spooled_sdk_go.Common.{
  Bool, ◌++◌, Option, none, some, Text, List, [], lit, is_empty, if◌then◌else◌,
}
use spooled_sdk_go.Resources.Values.{Slice}
use spooled_sdk_go.Resources.{
  Decodes, Api, Nothing, set_value, set_option, Call, base_admin_get, base_admin_post,
  base_admin_post_only, base_admin_put, base_admin_delete, add_pagination_params,
}
use spooled_sdk_go.Resources.Admin.Types.{
  AdminStats, PlanInfo, ListOrganizationsParams, AdminOrganizationList,
  AdminCreateOrganizationRequest, AdminUpdateOrganizationRequest, AdminCreateApiKeyRequest,
  admin_create_organization_request_json, admin_update_organization_request_json,
  admin_create_api_key_request_json,
}
use spooled_sdk_go.Resources.Organizations.Types.{Organization, CreateOrganizationResponse}
use spooled_sdk_go.Resources.ApiKeys.Types.{CreateApiKeyResponse}

module _ (api : Api) where
  open api use {rt, packages}
  open rt use {encode_query}
  open packages use {format_time}

  unfoldable pub get_stats : ⦃d : Decodes AdminStats⦄ → Call api AdminStats
  unfolding base_admin_get
  get_stats = base_admin_get api (lit "/api/v1/admin/stats")

  unfoldable pub get_plans : ⦃d : Decodes (Slice PlanInfo)⦄ → Call api (Slice PlanInfo)
  unfolding base_admin_get
  get_plans = base_admin_get api (lit "/api/v1/admin/plans")

  unfoldable pub organizations_query : Option ListOrganizationsParams → List (Text × Text)
  unfolding add_pagination_params set_value
  organizations_query none = []
  organizations_query (some p) = add_pagination_params api p.limit p.offset (
      set_option (lit "search") (λ t. t) p.search
        (set_option (lit "plan_tier") (λ t. t) p.plan_tier []))

  unfoldable pub list_organizations :
      ⦃d : Decodes AdminOrganizationList⦄
      → Option ListOrganizationsParams
      → Call api AdminOrganizationList
  unfolding base_admin_get organizations_query
  list_organizations params =
      let query = organizations_query params in
      let path = lit "/api/v1/admin/organizations" in
      base_admin_get api (if is_empty query then path else path ++ (lit "?" ++ encode_query query))

  unfoldable pub create_organization :
      ⦃d : Decodes CreateOrganizationResponse⦄
      → AdminCreateOrganizationRequest
      → Call api CreateOrganizationResponse
  unfolding base_admin_post
  create_organization req =
      base_admin_post api (lit "/api/v1/admin/organizations")
        (some (admin_create_organization_request_json req))

  unfoldable pub get_organization : ⦃d : Decodes Organization⦄ → Text → Call api Organization
  unfolding base_admin_get
  get_organization id = base_admin_get api (lit "/api/v1/admin/organizations/" ++ id)

  unfoldable pub update_organization :
      ⦃d : Decodes Organization⦄ → Text → AdminUpdateOrganizationRequest → Call api Organization
  unfolding base_admin_put
  update_organization id req =
      base_admin_put api (lit "/api/v1/admin/organizations/" ++ id)
        (some (admin_update_organization_request_json req))

  unfoldable pub delete_organization : Text → Bool → Call api Nothing
  unfolding base_admin_delete
  delete_organization id hard =
      let path = lit "/api/v1/admin/organizations/" ++ id in
      base_admin_delete api (if hard then path ++ lit "?hard=true" else path)

  unfoldable pub reset_usage : Text → Call api Nothing
  unfolding base_admin_post_only
  reset_usage org_id =
      base_admin_post_only api
        (lit "/api/v1/admin/organizations/" ++ (org_id ++ lit "/reset-usage")) none

  unfoldable pub create_api_key :
      ⦃d : Decodes CreateApiKeyResponse⦄
      → Text
      → AdminCreateApiKeyRequest
      → Call api CreateApiKeyResponse
  unfolding base_admin_post
  create_api_key org_id req =
      base_admin_post api (lit "/api/v1/admin/organizations/" ++ (org_id ++ lit "/api-keys"))
        (some (admin_create_api_key_request_json format_time req))
