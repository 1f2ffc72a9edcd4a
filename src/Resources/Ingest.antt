-- ===== src/Resources/Ingest.antt =====
-- spooled/resources/ingest.go.
pub mod Types
pub mod Signed
use spooled_sdk_go.Common.{
  not, ◌&&◌, ◌++◌, Option, none, some, ℤ, pos, is_zero, Text, List, [], ◌∷◌, lit, is_empty,
  if◌then◌else◌, ◌/◌,
}
use spooled_sdk_go.Resources.{
  Decodes, Api, Answer, returns, fails, panics, Nothing, plain_request, Call, perform,
  ignore_response, base_post, json_as, with_json,
}
use spooled_sdk_go.Transport.{Request, Response}
use spooled_sdk_go.Transport.Once.{ok, err}
use spooled_sdk_go.Errors.{plain}
use spooled_sdk_go.Resources.Ingest.Types.{
  CustomWebhookRequest, CustomWebhookResponse, GithubIngestOptions, StripeIngestOptions,
  custom_webhook_request_json,
}

module _ (api : Api) where
  open api use {rt, packages}
  open rt use {World, now}
  open packages use {itoa, hmac_sha256}

  unfoldable pub custom :
      ⦃d : Decodes CustomWebhookResponse⦄
      → Text
      → CustomWebhookRequest
      → Call api CustomWebhookResponse
  unfolding base_post
  custom org_id req =
      base_post api (lit "/api/v1/webhooks/" ++ (org_id ++ lit "/custom"))
        (some (custom_webhook_request_json req))

  -- What `CustomWithToken` makes of its response.
  unfoldable pub token_answer :
      ⦃d : Decodes CustomWebhookResponse⦄ → Option Response → Answer CustomWebhookResponse
  unfolding json_as
  token_answer none = panics
  token_answer (some resp) = elim (json_as api resp) [
    | err e ↦ fails e
    | ok none ↦ fails (plain (lit "empty response"))
    | ok (some out) ↦ returns out
  ]

  unfoldable pub custom_with_token :
      ⦃d : Decodes CustomWebhookResponse⦄
      → Text
      → Text
      → CustomWebhookRequest
      → Call api CustomWebhookResponse
  unfolding perform token_answer
  custom_with_token org_id webhook_token req =
      perform api token_answer
        (record (with_json api (some (custom_webhook_request_json req))
          (plain_request (lit "POST") (lit "/api/v1/webhooks/" ++ (org_id ++ lit "/custom")))) {
            headers = (lit "X-Webhook-Token", webhook_token) ∷ [];
          })

  unfoldable pub github_signature : Text → Text → Text
  github_signature secret body = lit "sha256=" ++ hmac_sha256 secret body

  unfoldable pub stripe_signature : Text → Text → ℤ → Text
  stripe_signature secret body timestamp =
      lit "t="
      ++ (itoa timestamp
          ++ (lit ",v1=" ++ hmac_sha256 secret (itoa timestamp ++ (lit "." ++ body))))

  -- The two headers that both kinds may carry; the headers are a map, whose keys differ here.
  abbrev optional_headers : Text → Text → List (Text × Text) → List (Text × Text)
  optional_headers token proto hs =
      let hs' = if is_empty token then hs else (lit "X-Webhook-Token", token) ∷ hs in
      if is_empty proto then hs' else (lit "X-Forwarded-Proto", proto) ∷ hs'

  -- The request of an ingestion. The raw body is not nil.
  abbrev pub ingest_request : Text → Text → List (Text × Text) → Request
  ingest_request path raw_body headers = record (plain_request (lit "POST") path) {
    raw_body = some raw_body;
    headers = headers;
  }

  unfoldable pub github_headers : GithubIngestOptions → Text → List (Text × Text)
  github_headers o signature = optional_headers o.webhook_token o.forwarded_proto (
      (lit "Content-Type", lit "application/json")
      ∷ (lit "X-GitHub-Event", o.github_event)
      ∷ (lit "X-Hub-Signature-256", signature)
      ∷ [])

  -- The signature that is sent: the given one, else the computed one, else none.
  unfoldable pub github_signed : GithubIngestOptions → Text → Text
  unfolding github_signature
  github_signed o raw_body =
      if is_empty o.signature && not (is_empty o.secret)
      then github_signature o.secret raw_body
      else o.signature

  unfoldable pub github : Text → Text → Option GithubIngestOptions → Call api Nothing
  unfolding perform github_headers github_signed
  github org_id raw_body none s = some (fails (plain (lit "GitHub ingest options are required")), s)
  github org_id raw_body (some o) s =
      if is_empty o.github_event
      then some (fails (plain (lit "GitHubEvent is required")), s)
      else if is_empty (github_signed o raw_body)
      then some
          (fails (plain (lit "GitHub signature is required (provide Signature or Secret)")), s)
      else perform api (ignore_response api)
          (ingest_request (lit "/api/v1/webhooks/" ++ (org_id ++ lit "/github")) raw_body
            (github_headers o (github_signed o raw_body)))
          s

  abbrev pub no_stripe_options : StripeIngestOptions
  no_stripe_options = record {
    timestamp = pos 0;
    signature = [];
    secret = [];
    webhook_token = [];
    forwarded_proto = [];
  }

  unfoldable pub stripe_headers : StripeIngestOptions → Text → List (Text × Text)
  stripe_headers o signature =
      optional_headers o.webhook_token o.forwarded_proto
        ((lit "Content-Type", lit "application/json") ∷ (lit "Stripe-Signature", signature) ∷ [])

  -- The clock is in nanoseconds, the timestamp in seconds.
  unfoldable pub stripe_signed : StripeIngestOptions → Text → World → Text
  unfolding stripe_signature
  stripe_signed o raw_body w =
      let timestamp = if is_zero o.timestamp then pos (now w / 1_000_000_000) else o.timestamp in
      if is_empty o.signature && not (is_empty o.secret)
      then stripe_signature o.secret raw_body timestamp
      else o.signature

  unfoldable pub stripe : Text → Text → Option StripeIngestOptions → Call api Nothing
  unfolding perform stripe_headers stripe_signed
  stripe org_id raw_body opts s =
      let o : StripeIngestOptions = elim opts [ none ↦ no_stripe_options | some o ↦ o ] in
      let signature = stripe_signed o raw_body s.world in
      if is_empty signature
      then some
          (fails (plain (lit "Stripe signature is required (provide Signature or Secret)")), s)
      else perform api (ignore_response api)
          (ingest_request (lit "/api/v1/webhooks/" ++ (org_id ++ lit "/stripe")) raw_body
            (stripe_headers o signature))
          s
