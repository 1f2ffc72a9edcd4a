-- ===== src/Resources/Login.antt =====
-- spooled/resources/auth.go.
pub mod Types
use spooled_sdk_go.Common.{none, some, Text, lit}
use spooled_sdk_go.Resources.Values.{string, object, no_fields, field}
use spooled_sdk_go.Resources.{
  Decodes, Api, Nothing, Call, base_get, base_post, base_post_only, base_post_idempotent,
}
use spooled_sdk_go.Resources.Login.Types.{
  LoginRequest, LoginResponse, RefreshRequest, RefreshResponse, MeResponse, ValidateRequest,
  ValidateResponse, StartEmailLoginRequest, StartEmailLoginResponse, CheckEmailResponse,
  VerifyEmailRequest, VerifyEmailResponse, login_request_json, refresh_request_json,
  validate_request_json, start_email_login_request_json, verify_email_request_json,
}

module _ (api : Api) where
  unfoldable pub login : ⦃d : Decodes LoginResponse⦄ → LoginRequest → Call api LoginResponse
  unfolding base_post_idempotent
  login req = base_post_idempotent api (lit "/api/v1/auth/login") (some (login_request_json req))

  unfoldable pub refresh : ⦃d : Decodes RefreshResponse⦄ → RefreshRequest → Call api RefreshResponse
  unfolding base_post_idempotent
  refresh req =
      base_post_idempotent api (lit "/api/v1/auth/refresh") (some (refresh_request_json req))

  unfoldable pub logout : Call api Nothing
  unfolding base_post_only
  logout = base_post_only api (lit "/api/v1/auth/logout") none

  unfoldable pub me : ⦃d : Decodes MeResponse⦄ → Call api MeResponse
  unfolding base_get
  me = base_get api (lit "/api/v1/auth/me")

  unfoldable pub validate :
      ⦃d : Decodes ValidateResponse⦄ → ValidateRequest → Call api ValidateResponse
  unfolding base_post_idempotent
  validate req =
      base_post_idempotent api (lit "/api/v1/auth/validate") (some (validate_request_json req))

  unfoldable pub start_email_login :
      ⦃d : Decodes StartEmailLoginResponse⦄
      → StartEmailLoginRequest
      → Call api StartEmailLoginResponse
  unfolding base_post
  start_email_login req =
      base_post api (lit "/api/v1/auth/email/start") (some (start_email_login_request_json req))

  unfoldable pub check_email : ⦃d : Decodes CheckEmailResponse⦄ → Text → Call api CheckEmailResponse
  unfolding base_post
  check_email email =
      base_post api (lit "/api/v1/auth/email/check")
        (some (object (field (lit "email") (string email) no_fields)))

  unfoldable pub verify_email :
      ⦃d : Decodes VerifyEmailResponse⦄ → VerifyEmailRequest → Call api VerifyEmailResponse
  unfolding base_post
  verify_email req =
      base_post api (lit "/api/v1/auth/email/verify") (some (verify_email_request_json req))
