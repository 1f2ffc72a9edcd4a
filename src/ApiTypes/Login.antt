-- ===== src/ApiTypes/Login.antt =====
-- spooled/types/auth.go. A type that has the fields of the same name and tags in spooled/resources is the
-- record of the resources.
use spooled_sdk_go.Resources.Login.Types

abbrev pub LoginRequest : Type 0
LoginRequest = Types.LoginRequest

abbrev pub LoginResponse : Type 0
LoginResponse = Types.LoginResponse

abbrev pub RefreshRequest : Type 0
RefreshRequest = Types.RefreshRequest

abbrev pub RefreshResponse : Type 0
RefreshResponse = Types.RefreshResponse

abbrev pub MeResponse : Type 0
MeResponse = Types.MeResponse

abbrev pub ValidateRequest : Type 0
ValidateRequest = Types.ValidateRequest

abbrev pub ValidateResponse : Type 0
ValidateResponse = Types.ValidateResponse

abbrev pub StartEmailLoginRequest : Type 0
StartEmailLoginRequest = Types.StartEmailLoginRequest

abbrev pub StartEmailLoginResponse : Type 0
StartEmailLoginResponse = Types.StartEmailLoginResponse

abbrev pub CheckEmailResponse : Type 0
CheckEmailResponse = Types.CheckEmailResponse

abbrev pub VerifyEmailRequest : Type 0
VerifyEmailRequest = Types.VerifyEmailRequest

abbrev pub VerifyEmailResponse : Type 0
VerifyEmailResponse = Types.VerifyEmailResponse
