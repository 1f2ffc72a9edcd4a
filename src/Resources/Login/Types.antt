-- ===== src/Resources/Login/Types.antt =====
-- The requests and the responses of spooled/resources/auth.go, and the requests as JSON.
use spooled_sdk_go.Common.{Bool, Option, ℤ, Text, lit}
use spooled_sdk_go.Resources.Values.{Json, string, object, no_fields, field, Slice, Time}

pub record LoginRequest : Type 0 where
  pub api_key : Text

unfoldable pub login_request_json : LoginRequest → Json
login_request_json r = object ((field (lit "api_key") (string r.api_key) no_fields))

pub record LoginResponse : Type 0 where
  pub access_token : Text
  pub refresh_token : Text
  pub token_type : Text
  pub expires_in : ℤ
  pub refresh_expires_in : ℤ

pub record RefreshRequest : Type 0 where
  pub refresh_token : Text

unfoldable pub refresh_request_json : RefreshRequest → Json
refresh_request_json r = object ((field (lit "refresh_token") (string r.refresh_token) no_fields))

pub record RefreshResponse : Type 0 where
  pub access_token : Text
  pub token_type : Text
  pub expires_in : ℤ

pub record MeResponse : Type 0 where
  pub organization_id : Text
  pub api_key_id : Text
  pub queues : Slice Text
  pub issued_at : Time
  pub expires_at : Time

pub record ValidateRequest : Type 0 where
  pub token : Text

unfoldable pub validate_request_json : ValidateRequest → Json
validate_request_json r = object ((field (lit "token") (string r.token) no_fields))

pub record ValidateResponse : Type 0 where
  pub valid : Bool
  pub organization_id : Option Text
  pub api_key_id : Option Text
  pub expires_at : Option Time

pub record StartEmailLoginRequest : Type 0 where
  pub email : Text

unfoldable pub start_email_login_request_json : StartEmailLoginRequest → Json
start_email_login_request_json r = object ((field (lit "email") (string r.email) no_fields))

pub record StartEmailLoginResponse : Type 0 where
  pub success : Bool
  pub message : Option Text

pub record CheckEmailResponse : Type 0 where
  pub exists : Bool

pub record VerifyEmailRequest : Type 0 where
  pub email : Text
  pub code : Text

unfoldable pub verify_email_request_json : VerifyEmailRequest → Json
verify_email_request_json r =
    object ((field (lit "email") (string r.email) (field (lit "code") (string r.code) no_fields)))

pub record VerifyEmailResponse : Type 0 where
  pub access_token : Text
  pub refresh_token : Text
  pub token_type : Text
  pub expires_in : ℤ
  pub refresh_expires_in : ℤ
