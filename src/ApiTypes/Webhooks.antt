-- ===== src/ApiTypes/Webhooks.antt =====
-- spooled/types/webhooks.go. A type that has the fields of the same name and tags in spooled/resources is the
-- record of the resources.
use spooled_sdk_go.Common.{Bool, List, Option, Text}
use spooled_sdk_go.Resources.Webhooks.Types

abbrev pub WebhookEvent : Type 0
WebhookEvent = Types.WebhookEvent

abbrev pub webhook_event_values : List WebhookEvent
webhook_event_values = Types.webhook_event_values

abbrev pub WebhookDeliveryStatus : Type 0
WebhookDeliveryStatus = Types.WebhookDeliveryStatus

abbrev pub webhook_delivery_status_values : List WebhookDeliveryStatus
webhook_delivery_status_values = Types.webhook_delivery_status_values

abbrev pub OutgoingWebhook : Type 0
OutgoingWebhook = Types.OutgoingWebhook

abbrev pub CreateOutgoingWebhookRequest : Type 0
CreateOutgoingWebhookRequest = Types.CreateOutgoingWebhookRequest

abbrev pub UpdateOutgoingWebhookRequest : Type 0
UpdateOutgoingWebhookRequest = Types.UpdateOutgoingWebhookRequest

abbrev pub TestWebhookResponse : Type 0
TestWebhookResponse = Types.TestWebhookResponse

abbrev pub OutgoingWebhookDelivery : Type 0
OutgoingWebhookDelivery = Types.OutgoingWebhookDelivery

abbrev pub ListDeliveriesParams : Type 0
ListDeliveriesParams = Types.ListDeliveriesParams

pub record RetryDeliveryResponse : Type 0 where
  pub success : Bool
  pub delivery_id : Text
  pub error : Option Text
