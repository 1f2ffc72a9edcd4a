-- ===== src/Resources/Webhooks.antt =====
-- spooled/resources/webhooks.go.
pub mod Types
use spooled_sdk_go.Common.{◌++◌, Option, none, some, Text, List, [], lit}
use spooled_sdk_go.Resources.Values.{Slice}
use spooled_sdk_go.Resources.{
  Decodes, Api, Nothing, set_value, set_option, Call, base_get, base_get_with_query, base_post,
  base_put, base_delete, add_pagination_params,
}
use spooled_sdk_go.Resources.Webhooks.Types.{
  OutgoingWebhook, CreateOutgoingWebhookRequest, UpdateOutgoingWebhookRequest, TestWebhookResponse,
  OutgoingWebhookDelivery, ListDeliveriesParams, RetryDeliveryResponse,
  create_outgoing_webhook_request_json, update_outgoing_webhook_request_json,
}

module _ (api : Api) where
  unfoldable pub list : ⦃d : Decodes (Slice OutgoingWebhook)⦄ → Call api (Slice OutgoingWebhook)
  unfolding base_get
  list = base_get api (lit "/api/v1/outgoing-webhooks")

  unfoldable pub create :
      ⦃d : Decodes OutgoingWebhook⦄ → CreateOutgoingWebhookRequest → Call api OutgoingWebhook
  unfolding base_post
  create req =
      base_post api (lit "/api/v1/outgoing-webhooks")
        (some (create_outgoing_webhook_request_json req))

  unfoldable pub get : ⦃d : Decodes OutgoingWebhook⦄ → Text → Call api OutgoingWebhook
  unfolding base_get
  get id = base_get api (lit "/api/v1/outgoing-webhooks/" ++ id)

  unfoldable pub update :
      ⦃d : Decodes OutgoingWebhook⦄ → Text → UpdateOutgoingWebhookRequest → Call api OutgoingWebhook
  unfolding base_put
  update id req =
      base_put api (lit "/api/v1/outgoing-webhooks/" ++ id)
        (some (update_outgoing_webhook_request_json req))

  unfoldable pub delete : Text → Call api Nothing
  unfolding base_delete
  delete id = base_delete api (lit "/api/v1/outgoing-webhooks/" ++ id)

  unfoldable pub test : ⦃d : Decodes TestWebhookResponse⦄ → Text → Call api TestWebhookResponse
  unfolding base_post
  test id = base_post api (lit "/api/v1/outgoing-webhooks/" ++ (id ++ lit "/test")) none

  unfoldable pub deliveries_query : Option ListDeliveriesParams → List (Text × Text)
  unfolding add_pagination_params set_value
  deliveries_query none = []
  deliveries_query (some p) =
      add_pagination_params api p.limit p.offset (set_option (lit "status") (λ t. t) p.status [])

  unfoldable pub deliveries :
      ⦃d : Decodes (Slice OutgoingWebhookDelivery)⦄
      → Text
      → Option ListDeliveriesParams
      → Call api (Slice OutgoingWebhookDelivery)
  unfolding base_get_with_query deliveries_query
  deliveries id params =
      base_get_with_query api (lit "/api/v1/outgoing-webhooks/" ++ (id ++ lit "/deliveries"))
        (deliveries_query params)

  unfoldable pub retry_delivery :
      ⦃d : Decodes RetryDeliveryResponse⦄ → Text → Text → Call api RetryDeliveryResponse
  unfolding base_post
  retry_delivery webhook_id delivery_id =
      base_post api
        (lit "/api/v1/outgoing-webhooks/" ++ (webhook_id ++ (lit "/retry/" ++ delivery_id))) none
