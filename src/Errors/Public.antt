-- ===== src/Errors/Public.antt =====
-- spooled/errors.go: the error types of package spooled, and `ValidateAPIKey`.
use spooled_sdk_go.Common.{
  ℕ, ◌==◌, ◌≡◌, refl, ◌≤◌, ◌↔◌, ◌⊎◌, inl, inr, Bool, true, false, ◌||◌, ◌++◌, Option, none, some,
  Text, lit, is_empty, ltb, length, List, [], ◌∷◌, arith, if◌then◌else◌, has_prefix, has_prefix_iff,
  not, false≢true, Bool-cases,
}
use spooled_sdk_go.Errors.{
  ApiError, Kind, base, Error, plain, wrapped, api, api_caused, sdk, sdk_caused, status_retryable,
  kind_retryable, is_authentication, is_not_found, is_rate_limit, is_validation,
  is_authentication_error, is_not_found_error, is_rate_limit_error, is_validation_error,
}
use spooled_sdk_go.Errors.Parse.{Decoders, parse_error_from_response}
use spooled_sdk_go.Errors.Classify.{parse_tells}

-- `errors.As` for `*spooled.APIError`. The other types of the package embed it and have its method
-- `Unwrap`, which leads past it to its field `Err`.
unfoldable pub as_spooled_error : Error → Option ApiError
as_spooled_error (plain t) = none
as_spooled_error (wrapped t e) = as_spooled_error e
as_spooled_error (api k a) = none
as_spooled_error (api_caused k a e) = as_spooled_error e
as_spooled_error (sdk base a) = some a
as_spooled_error (sdk _ a) = none
as_spooled_error (sdk_caused base a e) = some a
as_spooled_error (sdk_caused _ a e) = as_spooled_error e

unfoldable pub is_spooled_error : Error → Bool
unfolding as_spooled_error
is_spooled_error e = elim (as_spooled_error e) [ none ↦ false | some a ↦ true ]

-- `spooled.IsRetryable`.
unfoldable pub public_retryable : Error → Bool
unfolding kind_retryable status_retryable as_spooled_error
public_retryable (plain t) = false
public_retryable (wrapped t e) = elim (as_spooled_error e) [
  | none ↦ false
  | some a ↦ status_retryable a
]
public_retryable (api k a) = kind_retryable k a
public_retryable (api_caused k a e) = kind_retryable k a
public_retryable (sdk k a) = kind_retryable k a
public_retryable (sdk_caused k a e) = kind_retryable k a

-- `errors.As` for one of the other types of package spooled.
unfoldable pub as_public_kind : (Kind → Bool) → Error → Bool
as_public_kind matches (plain t) = false
as_public_kind matches (wrapped t e) = as_public_kind matches e
as_public_kind matches (api k a) = false
as_public_kind matches (api_caused k a e) = as_public_kind matches e
as_public_kind matches (sdk k a) = matches k
as_public_kind matches (sdk_caused k a e) = matches k || as_public_kind matches e

unfoldable pub public_authentication_error : Error → Bool
unfolding as_public_kind
public_authentication_error e = as_public_kind is_authentication e

unfoldable pub public_not_found_error : Error → Bool
unfolding as_public_kind
public_not_found_error e = as_public_kind is_not_found e

unfoldable pub public_rate_limit_error : Error → Bool
unfolding as_public_kind
public_rate_limit_error e = as_public_kind is_rate_limit e

unfoldable pub public_validation_error : Error → Bool
unfolding as_public_kind
public_validation_error e = as_public_kind is_validation e

-- Of the error of a response, the tests of package httpx tell its status: 401 for authentication,
-- 404 for a missing resource, 429 for a rate limit, 400 or 422 for validation. The tests that package
-- spooled exports under the same names never do: whatever the status and the body, they say that it is
-- no Spooled error at all, nor one of these kinds.
pub public_blind :
    (d : Decoders) (status : ℕ) (body : Text) (header : Text → Text)
    → let e = parse_error_from_response d status body header in
      (is_spooled_error e ≡ false)
      × (is_authentication_error e ≡ (status == 401))
      × (public_authentication_error e ≡ false)
      × (is_not_found_error e ≡ (status == 404))
      × (public_not_found_error e ≡ false)
      × (is_rate_limit_error e ≡ (status == 429))
      × (public_rate_limit_error e ≡ false)
      × (is_validation_error e ≡ (status == 400 || status == 422))
      × (public_validation_error e ≡ false)
unfolding parse_error_from_response is_spooled_error public_authentication_error
    public_not_found_error public_rate_limit_error public_validation_error
public_blind d status body header =
    let (a, n, r, v) = parse_tells d status body header in
    (refl, a, refl, n, refl, r, refl, v, refl)

abbrev pub valid_prefixes : List Text
valid_prefixes = lit "sk_live_" ∷ lit "sk_test_" ∷ lit "sp_live_" ∷ lit "sp_test_" ∷ []

-- The loop over the prefixes.
unfoldable pub has_valid_prefix : List Text → Text → Bool
has_valid_prefix [] key = false
has_valid_prefix (p ∷ ps) key =
    let rest = has_valid_prefix ps key in if has_prefix p key then true else rest

abbrev pub err_no_auth : Text
err_no_auth = lit "no authentication configured: set APIKey or AccessToken"

abbrev pub err_invalid_api_key : Text
err_invalid_api_key =
    lit "invalid API key format: must start with sk_live_, sk_test_, sp_live_, or sp_test_"

abbrev pub err_too_short : Text
err_too_short = lit "API key is too short: expected at least 20 characters"

-- `ValidateAPIKey`; `none` is a nil error.
unfoldable pub validate_api_key : Text → Option Text
unfolding has_valid_prefix
validate_api_key key =
    if is_empty key
    then some err_no_auth
    else if not (has_valid_prefix valid_prefixes key)
    then some err_invalid_api_key
    else if ltb (length key) 20
    then some err_too_short
    else none

-- One of the texts begins the key.
abbrev pub BeginsWith : List Text → Text → Type 0
BeginsWith [] key = ⊥
BeginsWith (p ∷ ps) key = ((rest : Text) × (key ≡ p ++ rest)) ⊎ BeginsWith ps key

has_valid_prefix_sound :
    (ps : List Text) (key : Text) → has_valid_prefix ps key ≡ true → BeginsWith ps key
unfolding has_valid_prefix
has_valid_prefix_sound [] key h = absurd (false≢true h)
has_valid_prefix_sound (p ∷ ps) key h = elim (Bool-cases (has_prefix p key)) [
  | inl e ↦ inl ((has_prefix_iff p key).0 e)
  | inr e ↦ inr (has_valid_prefix_sound ps key (rw (e, has_valid_prefix) at h))
]

has_valid_prefix_complete :
    (ps : List Text) (key : Text) → BeginsWith ps key → has_valid_prefix ps key ≡ true
unfolding has_valid_prefix
has_valid_prefix_complete [] key h = absurd h
has_valid_prefix_complete (p ∷ ps) key (inl b) = rw ((has_prefix_iff p key).1 b, has_valid_prefix)
has_valid_prefix_complete (p ∷ ps) key (inr b) = ground (arith, has_valid_prefix_complete ps key b)

accepts_when :
    (key : Text)
    → has_valid_prefix valid_prefixes key ≡ true
    → 20 ≤ length key
    → validate_api_key key ≡ none
unfolding validate_api_key
accepts_when [] h l = absurd (omega arith)
accepts_when (c ∷ key) h l = ground arith

accepts_only :
    (key : Text)
    → validate_api_key key ≡ none
    → (has_valid_prefix valid_prefixes key ≡ true) × (20 ≤ length key)
unfolding validate_api_key
accepts_only [] h = ground arith
accepts_only (c ∷ key) h = ground arith

-- An API key is accepted exactly when it begins with one of the four prefixes and is at least 20
-- bytes long.
pub validate_api_key_iff :
    (key : Text)
    → (validate_api_key key ≡ none) ↔ (BeginsWith valid_prefixes key × (20 ≤ length key))
validate_api_key_iff key = (
  λ h. let (v, l) = accepts_only key h in (has_valid_prefix_sound valid_prefixes key v, l),
  λ (b, l). accepts_when key (has_valid_prefix_complete valid_prefixes key b) l,
)
