-- ===== src/ApiTypes/ApiKeys.antt =====
-- spooled/types/api_keys.go. A type that has the fields of the same name and tags in spooled/resources is the
-- record of the resources.
use spooled_sdk_go.Common.{Bool, Option, Text, ℤ}
use spooled_sdk_go.Resources.Values.{Slice, Time}
use spooled_sdk_go.Resources.ApiKeys.Types

abbrev pub ApiKey : Type 0
ApiKey = Types.ApiKey

pub record ApiKeySummary : Type 0 where
  pub id : Text
  pub name : Text
  pub queues : Slice Text
  pub rate_limit : Option ℤ
  pub is_active : Bool
  pub created_at : Time
  pub last_used : Option Time
  pub expires_at : Option Time

abbrev pub CreateApiKeyRequest : Type 0
CreateApiKeyRequest = Types.CreateApiKeyRequest

abbrev pub CreateApiKeyResponse : Type 0
CreateApiKeyResponse = Types.CreateApiKeyResponse

abbrev pub UpdateApiKeyRequest : Type 0
UpdateApiKeyRequest = Types.UpdateApiKeyRequest
