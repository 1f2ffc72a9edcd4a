-- ===== src/Errors.antt =====
-- internal/httpx/errors.go: the errors of the transport, and how callers tell them apart.
pub mod Parse
pub mod Classify
pub mod Public
use spooled_sdk_go.Common.{
  ℕ, ◌≤◌, Bool, true, false, ◌&&◌, ◌||◌, Option, none, some, ℤ, pos, Text, String, lit, leb, ltb,
  ◌==◌, if◌then◌else◌,
}

-- The fields of `APIError` but `Err`. `details` is the decoded JSON object, as its text.
pub record ApiError : Type 0 where
  pub status_code : ℕ
  pub code : Text
  pub message : Text
  pub details : Text
  pub request_id : Text
  pub raw_body : Text

-- The further fields of `RateLimitError`. A zero `Reset` is `none`.
pub record RateLimit : Type 0 where
  pub retry_after : ℤ
  pub limit : ℤ
  pub remaining : ℤ
  pub reset : Option ℤ

-- `base` is `APIError` itself; each other kind is a struct that embeds it. `timeout` holds the
-- client's timeout, in nanoseconds.
pub data Kind : Type 0 where
  base authentication authorization not_found conflict validation : Kind
  rate_limit : RateLimit → Kind
  payload_too_large server network : Kind
  timeout : ℤ → Kind
  circuit_breaker_open : Kind

-- The values of Go's `error` that the SDK makes or passes on. A `plain` error has no `Unwrap`
-- (`errors.New`, package context); `wrapped` is `fmt.Errorf` with `%w`; `api` is an error of
-- package httpx, with and without its field `Err`; `sdk` is one of package spooled.
pub data Error : Type 0 where
  plain : Text → Error
  wrapped : Text → Error → Error
  api : Kind → ApiError → Error
  api_caused : Kind → ApiError → Error → Error
  sdk : Kind → ApiError → Error
  sdk_caused : Kind → ApiError → Error → Error

-- `(*APIError).IsRetryable`.
unfoldable pub status_retryable : ApiError → Bool
status_retryable e =
    if leb 500 e.status_code && ltb e.status_code 600 then true else e.status_code == 429

-- The method `IsRetryable` of each type: its own, or that of the embedded `APIError`.
unfoldable pub kind_retryable : Kind → ApiError → Bool
unfolding status_retryable
kind_retryable server e = true
kind_retryable network e = true
kind_retryable (timeout t) e = true
kind_retryable circuit_breaker_open e = false
kind_retryable _ e = status_retryable e

-- `errors.As` for `*httpx.APIError`: an error of another kind unwraps to the one that it embeds.
unfoldable pub as_api_error : Error → Option ApiError
as_api_error (plain t) = none
as_api_error (wrapped t e) = as_api_error e
as_api_error (api k a) = some a
as_api_error (api_caused k a e) = some a
as_api_error (sdk k a) = none
as_api_error (sdk_caused k a e) = as_api_error e

-- `IsRetryable(err)`: the method of the error itself, or of an `APIError` further down.
unfoldable pub is_retryable : Error → Bool
unfolding kind_retryable status_retryable as_api_error
is_retryable (plain t) = false
is_retryable (wrapped t e) = elim (as_api_error e) [ none ↦ false | some a ↦ status_retryable a ]
is_retryable (api k a) = kind_retryable k a
is_retryable (api_caused k a e) = kind_retryable k a
is_retryable (sdk k a) = kind_retryable k a
is_retryable (sdk_caused k a e) = kind_retryable k a

-- `errors.As` for one of the other types of package httpx, which `matches` tells.
unfoldable pub as_kind : (Kind → Bool) → Error → Bool
as_kind matches (plain t) = false
as_kind matches (wrapped t e) = as_kind matches e
as_kind matches (api k a) = matches k
as_kind matches (api_caused k a e) = matches k || as_kind matches e
as_kind matches (sdk k a) = false
as_kind matches (sdk_caused k a e) = as_kind matches e

abbrev pub is_authentication : Kind → Bool
is_authentication authentication = true
is_authentication _ = false

abbrev pub is_not_found : Kind → Bool
is_not_found not_found = true
is_not_found _ = false

abbrev pub is_rate_limit : Kind → Bool
is_rate_limit (rate_limit r) = true
is_rate_limit _ = false

abbrev pub is_validation : Kind → Bool
is_validation validation = true
is_validation _ = false

unfoldable pub is_authentication_error : Error → Bool
unfolding as_kind
is_authentication_error e = as_kind is_authentication e

unfoldable pub is_not_found_error : Error → Bool
unfolding as_kind
is_not_found_error e = as_kind is_not_found e

unfoldable pub is_rate_limit_error : Error → Bool
unfolding as_kind
is_rate_limit_error e = as_kind is_rate_limit e

unfoldable pub is_validation_error : Error → Bool
unfolding as_kind
is_validation_error e = as_kind is_validation e

-- The text of an error, which the SDK only passes on.
abbrev blank : ApiError
blank = record {
  status_code = 0;
  code = lit "";
  message = lit "";
  details = lit "";
  request_id = lit "";
  raw_body = lit "";
}

-- `message` is `err.Error()`.
unfoldable pub new_network_error : Text → Error → Error
new_network_error message err =
    api_caused network (record blank { code = lit "network_error"; message = message }) err

-- `message` is the formatted "request timed out after %v".
unfoldable pub new_timeout_error : ℤ → Text → Error → Error
new_timeout_error t message err =
    api_caused (timeout t) (record blank { code = lit "timeout"; message = message }) err

unfoldable pub new_circuit_breaker_open_error : Error
new_circuit_breaker_open_error =
    api circuit_breaker_open
      (record blank { code = lit "circuit_breaker_open"; message = lit "circuit breaker is open" })
