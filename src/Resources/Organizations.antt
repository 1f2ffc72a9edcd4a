-- ===== src/Resources/Organizations.antt =====
-- spooled/resources/organizations.go.
pub mod Types
use spooled_sdk_go.Common.{◌++◌, none, some, Text, lit}
use spooled_sdk_go.Resources.Values.{string, object, no_fields, field, Slice}
use spooled_sdk_go.Resources.{
  Decodes, Api, Nothing, Call, base_get, base_post, base_put, base_delete,
}
use spooled_sdk_go.Resources.Organizations.Types.{
  Organization, CreateOrganizationRequest, CreateOrganizationResponse, UpdateOrganizationRequest,
  UsageInfo, OrganizationMember, CheckSlugResponse, GenerateSlugResponse, WebhookTokenResponse,
  create_organization_request_json, update_organization_request_json,
}

module _ (api : Api) where
  unfoldable pub list : ⦃d : Decodes (Slice Organization)⦄ → Call api (Slice Organization)
  unfolding base_get
  list = base_get api (lit "/api/v1/organizations")

  unfoldable pub create :
      ⦃d : Decodes CreateOrganizationResponse⦄
      → CreateOrganizationRequest
      → Call api CreateOrganizationResponse
  unfolding base_post
  create req =
      base_post api (lit "/api/v1/organizations") (some (create_organization_request_json req))

  unfoldable pub get : ⦃d : Decodes Organization⦄ → Text → Call api Organization
  unfolding base_get
  get id = base_get api (lit "/api/v1/organizations/" ++ id)

  unfoldable pub update :
      ⦃d : Decodes Organization⦄ → Text → UpdateOrganizationRequest → Call api Organization
  unfolding base_put
  update id req =
      base_put api (lit "/api/v1/organizations/" ++ id)
        (some (update_organization_request_json req))

  unfoldable pub delete : Text → Call api Nothing
  unfolding base_delete
  delete id = base_delete api (lit "/api/v1/organizations/" ++ id)

  unfoldable pub usage : ⦃d : Decodes UsageInfo⦄ → Text → Call api UsageInfo
  unfolding base_get
  usage id = base_get api (lit "/api/v1/organizations/" ++ (id ++ lit "/usage"))

  unfoldable pub members :
      ⦃d : Decodes (Slice OrganizationMember)⦄ → Text → Call api (Slice OrganizationMember)
  unfolding base_get
  members id = base_get api (lit "/api/v1/organizations/" ++ (id ++ lit "/members"))

  unfoldable pub check_slug : ⦃d : Decodes CheckSlugResponse⦄ → Text → Call api CheckSlugResponse
  unfolding base_get
  check_slug slug = base_get api (lit "/api/v1/organizations/check-slug/" ++ slug)

  unfoldable pub generate_slug :
      ⦃d : Decodes GenerateSlugResponse⦄ → Text → Call api GenerateSlugResponse
  unfolding base_post
  generate_slug name =
      base_post api (lit "/api/v1/organizations/generate-slug")
        (some (object (field (lit "name") (string name) no_fields)))

  unfoldable pub get_webhook_token :
      ⦃d : Decodes WebhookTokenResponse⦄ → Text → Call api WebhookTokenResponse
  unfolding base_get
  get_webhook_token id = base_get api (lit "/api/v1/organizations/" ++ (id ++ lit "/webhook-token"))

  unfoldable pub regenerate_webhook_token :
      ⦃d : Decodes WebhookTokenResponse⦄ → Text → Call api WebhookTokenResponse
  unfolding base_post
  regenerate_webhook_token id =
      base_post api (lit "/api/v1/organizations/" ++ (id ++ lit "/webhook-token/regenerate")) none

  unfoldable pub clear_webhook_token : Text → Call api Nothing
  unfolding base_delete
  clear_webhook_token id =
      base_delete api (lit "/api/v1/organizations/" ++ (id ++ lit "/webhook-token"))
