-- ===== src/Resources/ApiKeys/Types.antt =====
-- The requests and the responses of spooled/resources/api_keys.go, and the requests as JSON.
use spooled_sdk_go.Common.{Bool, Option, ℤ, Text, lit}
use spooled_sdk_go.Resources.Values.{
  Json, boolean, integer, string, object, no_fields, field, Slice, Time, omit_nil, omit_slice,
}

pub record ApiKey : Type 0 where
  pub id : Text
  pub organization_id : Option Text
  pub name : Text
  pub key_prefix : Option Text
  pub queues : Slice Text
  pub rate_limit : Option ℤ
  pub is_active : Bool
  pub created_at : Time
  pub last_used : Option Time
  pub expires_at : Option Time

pub record CreateApiKeyRequest : Type 0 where
  pub name : Text
  pub queues : Slice Text
  pub rate_limit : Option ℤ
  pub expires_at : Option Time

unfoldable pub create_api_key_request_json : (Time → Text) → CreateApiKeyRequest → Json
create_api_key_request_json format r = object (
    (field (lit "name") (string r.name) (
      omit_slice (lit "queues") string r.queues (
        omit_nil (lit "rate_limit") integer r.rate_limit
          (omit_nil (lit "expires_at") (λ at. string (format at)) r.expires_at no_fields)))))

pub record CreateApiKeyResponse : Type 0 where
  pub id : Text
  pub key : Text
  pub name : Text
  pub created_at : Time
  pub expires_at : Option Time

pub record UpdateApiKeyRequest : Type 0 where
  pub name : Option Text
  pub queues : Slice Text
  pub rate_limit : Option ℤ
  pub is_active : Option Bool

unfoldable pub update_api_key_request_json : UpdateApiKeyRequest → Json
update_api_key_request_json r = object (
    (omit_nil (lit "name") string r.name (
      omit_slice (lit "queues") string r.queues (
        omit_nil (lit "rate_limit") integer r.rate_limit
          (omit_nil (lit "is_active") boolean r.is_active no_fields)))))
