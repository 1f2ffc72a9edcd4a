-- ===== src/Resources/Ingest/Types.antt =====
-- The requests and the responses of spooled/resources/ingest.go, and the requests as JSON.
use spooled_sdk_go.Common.{Bool, Option, ℤ, Text, lit}
use spooled_sdk_go.Resources.Values.{
  Json, integer, string, object, no_fields, field, JsonObject, object_json, omit_nil,
}

pub record CustomWebhookRequest : Type 0 where
  pub queue_name : Text
  pub event_type : Option Text
  pub payload : JsonObject
  pub idempotency_key : Option Text
  pub priority : Option ℤ

unfoldable pub custom_webhook_request_json : CustomWebhookRequest → Json
custom_webhook_request_json r = object (
    (field (lit "queue_name") (string r.queue_name) (
      omit_nil (lit "event_type") string r.event_type (
        field (lit "payload") (object_json r.payload) (
          omit_nil (lit "idempotency_key") string r.idempotency_key
            (omit_nil (lit "priority") integer r.priority no_fields))))))

pub record CustomWebhookResponse : Type 0 where
  pub job_id : Text
  pub created : Bool

pub record GithubIngestOptions : Type 0 where
  pub github_event : Text
  pub signature : Text
  pub secret : Text
  pub webhook_token : Text
  pub forwarded_proto : Text

pub record StripeIngestOptions : Type 0 where
  pub timestamp : ℤ
  pub signature : Text
  pub secret : Text
  pub webhook_token : Text
  pub forwarded_proto : Text
