-- ===== src/Errors/Classify.antt =====
-- What callers learn from the error of a response.
use spooled_sdk_go.Common.{
  ℕ, ◌∷◌, Option-cases, inl, inr, ◌≡◌, refl, [], if◌then◌else◌, not, ◌||◌, ◌&&◌, Option, none, some,
  Text, lit, is_empty, leb, ◌==◌, arith,
}
use spooled_sdk_go.Errors.{
  ApiError, is_retryable, as_api_error, is_authentication_error, is_not_found_error,
  is_rate_limit_error, is_validation_error,
}
use spooled_sdk_go.Errors.Parse.{
  Decoders, ErrorBody, parse_error_from_response, base_error, fresh_error, with_body,
}

-- The error of a response is worth a retry exactly when its status is 429 or at least 500.
pub parse-retryable :
    (d : Decoders) (status : ℕ) (body : Text) (header : Text → Text)
    → is_retryable (parse_error_from_response d status body header)
      ≡ (status == 429 || leb 500 status)
unfolding parse_error_from_response is_retryable
parse-retryable d status body header = ground arith

-- The four tests on the error of a response tell its status: 401 for authentication, 404 for not
-- found, 429 for a rate limit, and 400 or 422 for validation.
pub parse_tells :
    (d : Decoders) (status : ℕ) (body : Text) (header : Text → Text)
    → let e = parse_error_from_response d status body header in
      (is_authentication_error e ≡ (status == 401))
      × (is_not_found_error e ≡ (status == 404))
      × (is_rate_limit_error e ≡ (status == 429))
      × (is_validation_error e ≡ (status == 400 || status == 422))
unfolding parse_error_from_response is_authentication_error is_not_found_error is_rate_limit_error
    is_validation_error
parse_tells d status body header = (ground arith, ground arith, ground arith, ground arith)

-- The message that a response's body stands for: its field `message`, or `error` where that is
-- empty; nothing if there is no body, or if it is no JSON.
abbrev pub message_of : Option ErrorBody → Text
message_of none = []
message_of (some b) = if is_empty b.message then b.error else b.message

abbrev pub decoded : Decoders → Text → Option ErrorBody
decoded d body = if is_empty body then none else d.error_body body

with_body_message : (e : ApiError) (b : ErrorBody) → (with_body e b).message ≡ message_of (some b)
unfolding with_body
with_body_message e b = pick b.message b.error
  where
    pick :
        (m err : Text)
        → (if is_empty m && not (is_empty err) then err else m) ≡ (if is_empty m then err else m)
    pick [] [] = refl
    pick [] (c ∷ err) = refl
    pick (c ∷ m) err = refl

base_error_message :
    (d : Decoders) (status : ℕ) (body : Text) (header : Text → Text)
    → (base_error d status body header).message ≡ message_of (decoded d body)
unfolding base_error
base_error_message d status [] header = refl
base_error_message d status (c ∷ body) header = elim (Option-cases (d.error_body (c ∷ body))) [
  | inl e ↦ rw (e, base_error)
  | inr (b, e) ↦ rw (e, base_error) (with_body_message (fresh_error status (c ∷ body) header) b)
]

-- Whatever its type, the error of a response yields its `APIError`, with the status, the request's
-- id, the raw body, and the body's message, which falls back on the field `error`.
pub parse_carries :
    (d : Decoders) (status : ℕ) (body : Text) (header : Text → Text)
    → (a : ApiError) × (as_api_error (parse_error_from_response d status body header) ≡ some a)
      × (a.status_code ≡ status)
      × (a.request_id ≡ header (lit "X-Request-ID"))
      × (a.raw_body ≡ body)
      × (a.message ≡ message_of (decoded d body))
unfolding parse_error_from_response as_api_error base_error
parse_carries d status body header = (
  base_error d status body header,
  refl,
  ground arith,
  ground arith,
  ground arith,
  base_error_message d status body header,
)
