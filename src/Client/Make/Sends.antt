-- ===== src/Client/Make/Sends.antt =====
-- The requests of a client that `NewClient` makes.
use spooled_sdk_go.Common.{
  ◌+◌, ◌≤◌, ◌≡◌, refl, sym, ap, ◌∙◌, inl, inr, Bool, true, false, Option, none, some, pos, Text,
  List, [], ◌∷◌, All, arith, Returns, Returns-mono,
}
use spooled_sdk_go.Retry.{new_retry_policy}
use spooled_sdk_go.Runtime.{Runtime}
use spooled_sdk_go.Transport.{Transport, Request, State, new_transport}
use spooled_sdk_go.Transport.Loop.{do_request}
use spooled_sdk_go.Transport.Rounds.{sent, OneOf}
use spooled_sdk_go.Transport.Limits.{do_sends, Within, retry_budget, refreshes-le}
use spooled_sdk_go.Client.{
  ClientConfig, ClientOption, with_retry, apply_option, apply_options, new_default_config,
  derive_urls, resolve_config, check_config,
}
use spooled_sdk_go.Client.Make.{transport_config, new_client}

abbrev pub sets_retry : {Float : Type 0} → ClientOption Float → Bool
sets_retry (with_retry r) = true
sets_retry _ = false

apply_option-retry :
    {Float : Type 0} (o : ClientOption Float) (c : ClientConfig Float)
    → sets_retry o ≡ false
    → (apply_option o c).retry ≡ c.retry
unfolding apply_option
apply_option-retry (with_retry r) c h = cc
apply_option-retry _ c h = refl

apply_options-retry :
    {Float : Type 0} (os : List (ClientOption Float)) (c : ClientConfig Float)
    → All (λ o. sets_retry o ≡ false) os
    → (apply_options os c).retry ≡ c.retry
unfolding apply_options
apply_options-retry [] c h = refl
apply_options-retry (o ∷ os) c h =
    apply_options-retry os (apply_option o c) h.1 ∙ apply_option-retry o c h.0

derive_urls-retry : {Float : Type 0} (c : ClientConfig Float) → (derive_urls c).retry ≡ c.retry
unfolding derive_urls
derive_urls-retry c = ground arith

pub default_retries :
    {Float : Type 0} (two : Float) (agent : Text) (os : List (ClientOption Float))
    → All (λ o. sets_retry o ≡ false) os
    → (resolve_config two agent os).retry ≡ (new_default_config two agent).retry
unfolding resolve_config
default_retries two agent os h =
    derive_urls-retry (apply_options os (new_default_config two agent))
    ∙ apply_options-retry os (new_default_config two agent) h

made :
    {A : Type 0} (o : Option Text) (p q : A)
    → elim o [ some e ↦ inl e | none ↦ inr p ] ≡ inr q
    → p ≡ q
made none p q h = cc
made (some e) p q h = cc

module _ (rt : Runtime) where
  open rt use {World, floats}
  open floats use {Float, two}

  -- What `NewTransport` makes of the default retries.
  pub three_retries :
      (agent : Text) (c : ClientConfig Float) (w : World)
      → c.retry ≡ (new_default_config two agent).retry
      → let (t, s) = new_transport rt agent (transport_config c) w in
        (t.retry.max_retries ≡ pos 3) × (s.log ≡ [])
  unfolding new_transport transport_config new_default_config new_retry_policy
  three_retries agent c w e = (rw e refl, refl)

  pub made_of :
      (agent : Text) (os : List (ClientOption Float)) (w : World) (t : Transport Float)
      (s : State World)
      → new_client rt agent os w ≡ inr (t, s)
      → new_transport rt agent (transport_config (resolve_config two agent os)) w ≡ (t, s)
  unfolding new_client
  made_of agent os w t s h = made (check_config (resolve_config two agent os)) _ (t, s) h

  -- A client made with any options but `WithRetry` answers each request with a response or an error,
  -- and not with both or neither, after at most four exchanges and one for a 401 (for a POST that is
  -- not marked idempotent, after at most two).
  pub client_sends :
      (agent : Text) (os : List (ClientOption Float)) (w : World) (t : Transport Float)
      (s : State World) (req : Request)
      → All (λ o. sets_retry o ≡ false) os
      → new_client rt agent os w ≡ inr (t, s)
      → Returns (λ r. OneOf r.0 × (sent r.1.log ≤ retry_budget req 3 + 2)) (do_request rt t req s)
  client_sends agent os w t s req h built =
      let m = made_of agent os w t s built in
      let c = resolve_config two agent os in
      let (r, l) = three_retries agent c w (default_retries two agent os h) in
      let log = ap (λ p. sent p.1.log) (sym m) ∙ ap sent l in
      let few = refreshes-le t.auto_refresh_token false s.token_refresher in
      Returns-mono (Within rt t req 3 s) _ (do_request rt t req s)
        (λ (o, s') (b, one). (one, omega arith))
        (do_sends rt t req 3 s (ap (λ p. p.0.retry.max_retries) (sym m) ∙ r) (omega arith))
