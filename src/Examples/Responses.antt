-- ===== src/Examples/Responses.antt =====
-- The errors of httpx/errors.go and spooled/errors.go at concrete inputs.
use spooled_sdk_go.Common.{
  ◌≡◌, ◌↔◌, ◌≤◌, ◌||◌, none, some, true, false, Text, lit, [], ◌==◌, leb, pos, length,
}
use spooled_sdk_go.Errors.{
  Error, is_retryable, is_authentication_error, is_not_found_error, is_rate_limit_error,
  is_validation_error,
}
use spooled_sdk_go.Errors.Parse.{Decoders, ErrorBody, parse_error_from_response}
use spooled_sdk_go.Errors.Classify.{parse-retryable}
use spooled_sdk_go.Errors.Public.{
  public_blind, is_spooled_error, public_authentication_error, public_not_found_error,
  public_rate_limit_error, public_validation_error, validate_api_key, validate_api_key_iff,
  BeginsWith, valid_prefixes,
}

abbrev body_read : ErrorBody
body_read = record { code = lit "slow_down"; message = []; details = []; error = lit "too many" }

abbrev some_decoders : Decoders
some_decoders = record {
  error_body = λ text. some body_read;
  atoi = λ text. (pos 3, true);
  until_rfc1123 = λ text. none;
  parse_int = λ text. none;
}

abbrev one_header : Text → Text
one_header name = lit "3"

abbrev some_body : Text
some_body = lit "{}"

parse-retryable_example :
    is_retryable (parse_error_from_response some_decoders 503 some_body one_header)
    ≡ (503 == 429 || leb 500 503)
parse-retryable_example = parse-retryable some_decoders 503 some_body one_header

abbrev missing : Error
missing = parse_error_from_response some_decoders 404 some_body one_header

public_blind_example :
    (is_spooled_error missing ≡ false)
    × (is_authentication_error missing ≡ (404 == 401))
    × (public_authentication_error missing ≡ false)
    × (is_not_found_error missing ≡ (404 == 404))
    × (public_not_found_error missing ≡ false)
    × (is_rate_limit_error missing ≡ (404 == 429))
    × (public_rate_limit_error missing ≡ false)
    × (is_validation_error missing ≡ (404 == 400 || 404 == 422))
    × (public_validation_error missing ≡ false)
public_blind_example = public_blind some_decoders 404 some_body one_header

validate_api_key_iff_example : (validate_api_key (lit "sk_test_0123456789ab") ≡ none) ↔ (
    BeginsWith valid_prefixes (lit "sk_test_0123456789ab")
    × (20 ≤ length (lit "sk_test_0123456789ab")))
validate_api_key_iff_example = validate_api_key_iff (lit "sk_test_0123456789ab")
