-- ===== src/Resources/Webhooks/Types.antt =====
-- The requests and the responses of spooled/resources/webhooks.go, and the requests as JSON.
use spooled_sdk_go.Common.{Bool, Option, ℤ, Text, List, [], ◌∷◌, lit}
use spooled_sdk_go.Resources.Values.{
  Json, boolean, string, object, no_fields, field, JsonObject, Slice, Time, slice_json, omit_nil,
}

abbrev pub WebhookEvent : Type 0
WebhookEvent = Text

-- The constants of `WebhookEvent`.
abbrev pub webhook_event_values : List WebhookEvent
webhook_event_values =
    lit "job.created"
    ∷ lit "job.started"
    ∷ lit "job.completed"
    ∷ lit "job.failed"
    ∷ lit "job.cancelled"
    ∷ lit "queue.paused"
    ∷ lit "queue.resumed"
    ∷ lit "worker.registered"
    ∷ lit "worker.deregistered"
    ∷ lit "schedule.triggered"
    ∷ []

abbrev pub WebhookDeliveryStatus : Type 0
WebhookDeliveryStatus = Text

-- The constants of `WebhookDeliveryStatus`.
abbrev pub webhook_delivery_status_values : List WebhookDeliveryStatus
webhook_delivery_status_values = lit "pending" ∷ lit "success" ∷ lit "failed" ∷ []

pub record OutgoingWebhook : Type 0 where
  pub id : Text
  pub organization_id : Text
  pub name : Text
  pub url : Text
  pub events : Slice WebhookEvent
  pub enabled : Bool
  pub failure_count : ℤ
  pub last_triggered_at : Option Time
  pub last_status : Option Text
  pub created_at : Time
  pub updated_at : Time

pub record CreateOutgoingWebhookRequest : Type 0 where
  pub name : Text
  pub url : Text
  pub events : Slice WebhookEvent
  pub secret : Option Text
  pub enabled : Option Bool

unfoldable pub create_outgoing_webhook_request_json : CreateOutgoingWebhookRequest → Json
create_outgoing_webhook_request_json r = object (
    (field (lit "name") (string r.name) (
      field (lit "url") (string r.url) (
        field (lit "events") ((slice_json string) r.events) (
          omit_nil (lit "secret") string r.secret
            (omit_nil (lit "enabled") boolean r.enabled no_fields))))))

pub record UpdateOutgoingWebhookRequest : Type 0 where
  pub name : Option Text
  pub url : Option Text
  pub events : Option (Slice WebhookEvent)
  pub secret : Option Text
  pub enabled : Option Bool

unfoldable pub update_outgoing_webhook_request_json : UpdateOutgoingWebhookRequest → Json
update_outgoing_webhook_request_json r = object (
    (omit_nil (lit "name") string r.name (
      omit_nil (lit "url") string r.url (
        omit_nil (lit "events") (slice_json string) r.events (
          omit_nil (lit "secret") string r.secret
            (omit_nil (lit "enabled") boolean r.enabled no_fields))))))

pub record TestWebhookResponse : Type 0 where
  pub success : Bool
  pub status_code : Option ℤ
  pub response_time_ms : ℤ
  pub error : Option Text

pub record OutgoingWebhookDelivery : Type 0 where
  pub id : Text
  pub webhook_id : Text
  pub event : WebhookEvent
  pub payload : JsonObject
  pub status : WebhookDeliveryStatus
  pub status_code : Option ℤ
  pub response_body : Option Text
  pub error : Option Text
  pub attempts : ℤ
  pub created_at : Time
  pub delivered_at : Option Time

pub record ListDeliveriesParams : Type 0 where
  pub status : Option WebhookDeliveryStatus
  pub limit : Option ℤ
  pub offset : Option ℤ

pub record RetryDeliveryResponse : Type 0 where
  pub success : Bool
  pub message : Option Text
  pub error : Option Text
