-- ===== src/Resources/ApiKeys.antt =====
-- spooled/resources/api_keys.go.
pub mod Types
use spooled_sdk_go.Common.{◌++◌, some, Text, lit}
use spooled_sdk_go.Resources.Values.{Slice}
use spooled_sdk_go.Resources.{
  Decodes, Api, Nothing, Call, base_get, base_post, base_put, base_delete,
}
use spooled_sdk_go.Resources.ApiKeys.Types.{
  ApiKey, CreateApiKeyRequest, CreateApiKeyResponse, UpdateApiKeyRequest,
  create_api_key_request_json, update_api_key_request_json,
}

module _ (api : Api) where
  open api use {packages}
  open packages use {format_time}

  unfoldable pub list : ⦃d : Decodes (Slice ApiKey)⦄ → Call api (Slice ApiKey)
  unfolding base_get
  list = base_get api (lit "/api/v1/api-keys")

  unfoldable pub create :
      ⦃d : Decodes CreateApiKeyResponse⦄ → CreateApiKeyRequest → Call api CreateApiKeyResponse
  unfolding base_post
  create req =
      base_post api (lit "/api/v1/api-keys") (some (create_api_key_request_json format_time req))

  unfoldable pub get : ⦃d : Decodes ApiKey⦄ → Text → Call api ApiKey
  unfolding base_get
  get id = base_get api (lit "/api/v1/api-keys/" ++ id)

  unfoldable pub update : ⦃d : Decodes ApiKey⦄ → Text → UpdateApiKeyRequest → Call api ApiKey
  unfolding base_put
  update id req =
      base_put api (lit "/api/v1/api-keys/" ++ id) (some (update_api_key_request_json req))

  unfoldable pub delete : Text → Call api Nothing
  unfolding base_delete
  delete id = base_delete api (lit "/api/v1/api-keys/" ++ id)
