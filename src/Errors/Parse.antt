-- ===== src/Errors/Parse.antt =====
-- `ParseErrorFromResponse` and `parseRateLimitError` of internal/httpx/errors.go.
use spooled_sdk_go.Common.{
  ℕ, Bool, not, ◌&&◌, Option, none, some, ℤ, pos, Text, lit, is_empty, leb, ◌==◌, if◌then◌else◌,
  scale, wrap64, [],
}
use spooled_sdk_go.Errors.{
  ApiError, RateLimit, Kind, base, authentication, authorization, not_found, conflict, validation,
  rate_limit, payload_too_large, server, Error, api,
}

-- The JSON fields of an error body.
pub record ErrorBody : Type 0 where
  pub code : Text
  pub message : Text
  pub details : Text
  pub error : Text

-- What package encoding/json, strconv and time do with the response's text.
pub record Decoders : Type 0 where
  pub error_body : Text → Option ErrorBody
  -- `strconv.Atoi`: the value (0 or a bound if it fails), and whether it succeeds.
  pub atoi : Text → ℤ × Bool
  -- `time.Until` of a date in the format RFC1123.
  pub until_rfc1123 : Text → Option ℤ
  -- `strconv.ParseInt(s, 10, 64)`.
  pub parse_int : Text → Option ℤ

unfoldable pub with_body : ApiError → ErrorBody → ApiError
with_body e b = record e {
  code = b.code;
  message = if is_empty b.message && not (is_empty b.error) then b.error else b.message;
  details = b.details;
}

-- A header that is absent reads as the empty text.
unfoldable pub parse_retry_after : Decoders → Text → ℤ
parse_retry_after d v =
    if is_empty v
    then pos 0
    else if (d.atoi v).1
    then wrap64 (scale 1_000_000_000 (d.atoi v).0)
    else elim (d.until_rfc1123 v) [ none ↦ pos 0 | some t ↦ t ]

unfoldable pub parse_number : Decoders → Text → ℤ
parse_number d v = if is_empty v then pos 0 else (d.atoi v).0

unfoldable pub parse_reset : Decoders → Text → Option ℤ
parse_reset d v = if is_empty v then none else d.parse_int v

-- `header` is the method `Get` of the response's headers.
unfoldable pub parse_rate_limit : Decoders → (Text → Text) → RateLimit
unfolding parse_retry_after parse_number parse_reset
parse_rate_limit d header = record {
  retry_after = parse_retry_after d (header (lit "Retry-After"));
  limit = parse_number d (header (lit "X-Ratelimit-Limit"));
  remaining = parse_number d (header (lit "X-Ratelimit-Remaining"));
  reset = parse_reset d (header (lit "X-Ratelimit-Reset"));
}

-- The `switch` on the status code.
unfoldable pub kind_of_status : Decoders → (Text → Text) → ℕ → Kind
kind_of_status d header status =
    if status == 401
    then authentication
    else if status == 403
    then authorization
    else if status == 404
    then not_found
    else if status == 409
    then conflict
    else if status == 400
    then validation
    else if status == 422
    then validation
    else if status == 429
    then rate_limit (parse_rate_limit d header)
    else if status == 413
    then payload_too_large
    else if leb 500 status
    then server
    else base

-- The error before the body is read.
abbrev pub fresh_error : ℕ → Text → (Text → Text) → ApiError
fresh_error status body header = record {
  status_code = status;
  code = [];
  message = [];
  details = [];
  request_id = header (lit "X-Request-ID");
  raw_body = body;
}

unfoldable pub base_error : Decoders → ℕ → Text → (Text → Text) → ApiError
unfolding with_body
base_error d status body header =
    let e = fresh_error status body header in
    if is_empty body then e else elim (d.error_body body) [ none ↦ e | some b ↦ with_body e b ]

unfoldable pub parse_error_from_response : Decoders → ℕ → Text → (Text → Text) → Error
unfolding kind_of_status base_error
parse_error_from_response d status body header =
    api (kind_of_status d header status) (base_error d status body header)
