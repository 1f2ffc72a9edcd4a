-- ===== src/Resources/Ingest/Signed.antt =====
-- What a webhook needs to be ingested by spooled/resources/ingest.go, and what is sent for it.
use spooled_sdk_go.Common.{
  ◌/◌, ◌≡◌, refl, inl, inr, ◌⊎◌, true, false, ◌&&◌, ◌||◌, Bool-cases, ◌++◌, Option, none, some, pos,
  is_zero, Text, [], lit, is_empty, arith, if◌then◌else◌,
}
use spooled_sdk_go.Errors.{Error, plain}
use spooled_sdk_go.Transport.{Response, State, marshals}
use spooled_sdk_go.Transport.Once.{ok}
use spooled_sdk_go.Resources.Values.{null}
use spooled_sdk_go.Resources.{
  Api, Decodes, returns, fails, perform, ignore_response, decode_response, json_any, json_as,
  remarshal,
}
use spooled_sdk_go.Resources.Ingest.Types.{
  CustomWebhookResponse, GithubIngestOptions, StripeIngestOptions,
}
use spooled_sdk_go.Resources.Ingest.{
  github, github_signed, github_signature, github_headers, ingest_request, stripe, stripe_signed,
  stripe_signature, stripe_headers, no_stripe_options, token_answer,
}

module _ (api : Api) where
  open api use {rt, packages}
  open rt use {World, now}
  open packages use {marshal, hmac_sha256, itoa}

  -- The signature of a GitHub webhook: the given one, else the HMAC of the body under the secret.
  abbrev pub hub_signature : GithubIngestOptions → Text → Text
  hub_signature o raw_body =
      if is_empty o.signature then lit "sha256=" ++ hmac_sha256 o.secret raw_body else o.signature

  github_signed-is_empty :
      (o : GithubIngestOptions) (raw_body : Text)
      → is_empty (github_signed api o raw_body) ≡ (is_empty o.signature && is_empty o.secret)
  unfolding github_signed github_signature lit
  github_signed-is_empty o raw_body = ground arith

  github_signed-eq :
      (o : GithubIngestOptions) (raw_body : Text)
      → (is_empty o.signature && is_empty o.secret) ≡ false
      → github_signed api o raw_body ≡ hub_signature o raw_body
  unfolding github_signed github_signature
  github_signed-eq o raw_body h = ground (arith, h)

  -- A GitHub webhook with options is refused without a request exactly if it has no event's name or
  -- neither a signature nor a secret; another is posted with its raw body, under the given
  -- signature or else the HMAC of that body.
  pub github_cases :
      (org_id raw_body : Text) (o : GithubIngestOptions) (s : State World)
      → let unready = is_empty o.github_event || (is_empty o.signature && is_empty o.secret) in
        ((unready ≡ true)
          × ((e : Error) × (github api org_id raw_body (some o) s ≡ some (fails e, s))))
        ⊎ ((unready ≡ false)
            × (github api org_id raw_body (some o) s
                ≡ perform api
                    (ignore_response api)
                    (ingest_request api
                      (lit "/api/v1/webhooks/" ++ (org_id ++ lit "/github"))
                      raw_body
                      (github_headers api o (hub_signature o raw_body)))
                    s))
  unfolding github
  github_cases org_id raw_body o s = elim (Bool-cases (is_empty o.github_event)) [
    | inl e ↦ inl (rw e refl, (plain (lit "GitHubEvent is required"), rw (github, e) refl))
    | inr e ↦ elim (Bool-cases (is_empty o.signature && is_empty o.secret)) [
      | inl h ↦ inl (
        rw (e, h) refl,
        (
          plain (lit "GitHub signature is required (provide Signature or Secret)"),
          rw (github, e, github_signed-is_empty o raw_body, h) refl,
        ),
      )
      | inr h ↦ inr (
        rw (e, h) refl,
        rw (github, e, github_signed-is_empty o raw_body, h, github_signed-eq o raw_body h) refl,
      )
    ]
  ]

  abbrev pub stripe_header : StripeIngestOptions → Text → World → Text
  stripe_header o raw_body w =
      let timestamp = if is_zero o.timestamp then pos (now w / 1_000_000_000) else o.timestamp in
      if is_empty o.signature then stripe_signature api o.secret raw_body timestamp else o.signature

  stripe_signed-is_empty :
      (o : StripeIngestOptions) (raw_body : Text) (w : World)
      → is_empty (stripe_signed api o raw_body w) ≡ (is_empty o.signature && is_empty o.secret)
  unfolding stripe_signed stripe_signature lit
  stripe_signed-is_empty o raw_body w = ground arith

  stripe_signed-eq :
      (o : StripeIngestOptions) (raw_body : Text) (w : World)
      → (is_empty o.signature && is_empty o.secret) ≡ false
      → stripe_signed api o raw_body w ≡ stripe_header o raw_body w
  unfolding stripe_signed
  stripe_signed-eq o raw_body w h = ground (arith, h)

  -- A Stripe webhook is refused without a request exactly if the options (empty ones for nil) have
  -- neither a signature nor a secret; another is posted with its raw body, under the given
  -- signature or else one computed for the given timestamp, which is the clock's if it is 0.
  pub stripe_cases :
      (org_id raw_body : Text) (opts : Option StripeIngestOptions) (s : State World)
      → let o = elim opts as (λ x. StripeIngestOptions) [
        | none ↦ no_stripe_options api
        | some o ↦ o
      ] in
        let unready = is_empty o.signature && is_empty o.secret in
        ((unready ≡ true) × ((e : Error) × (stripe api org_id raw_body opts s ≡ some (fails e, s))))
        ⊎ ((unready ≡ false)
            × (stripe api org_id raw_body opts s
                ≡ perform api
                    (ignore_response api)
                    (ingest_request api
                      (lit "/api/v1/webhooks/" ++ (org_id ++ lit "/stripe"))
                      raw_body
                      (stripe_headers api o (stripe_header o raw_body s.world)))
                    s))
  unfolding stripe
  stripe_cases org_id raw_body none s =
      inl (refl, (plain (lit "Stripe signature is required (provide Signature or Secret)"), refl))
  stripe_cases org_id raw_body (some o) s =
      elim (Bool-cases (is_empty o.signature && is_empty o.secret)) [
        | inl h ↦ inl (
          h,
          (
            plain (lit "Stripe signature is required (provide Signature or Secret)"),
            rw (stripe, stripe_signed-is_empty o raw_body s.world, h) refl,
          ),
        )
        | inr h ↦ inr (
          h,
          rw
              (
                stripe,
                stripe_signed-is_empty o raw_body s.world,
                h,
                stripe_signed-eq o raw_body s.world h,
              )
              refl,
        )
      ]

  -- If nil marshals to a text that decodes to the zero value, a response with an empty body is the
  -- zero value and no error to the calls that decode it, but an error to `CustomWithToken`.
  pub empty_body :
      ⦃d : Decodes CustomWebhookResponse⦄ (resp : Response) (text : Text)
      (zero : CustomWebhookResponse)
      → marshal null ≡ marshals text
      → d.unmarshal text ≡ ok zero
      → resp.body ≡ []
      → (decode_response api (some resp) ≡ returns zero)
        × (token_answer api (some resp) ≡ fails (plain (lit "empty response")))
  unfolding decode_response json_any remarshal token_answer json_as
  empty_body ⦃d⦄ resp text zero m u e =
      (rw (decode_response, json_any, e, remarshal, m, u) refl, rw (token_answer, json_as, e) refl)
