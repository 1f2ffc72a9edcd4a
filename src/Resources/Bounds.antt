-- ===== src/Resources/Bounds.antt =====
-- What the calls of base.go send and how they end, and the calls that are made of two.
use spooled_sdk_go.Common.{
  ℕ, ◌+◌, ◌≤◌, ◌<◌, ◌^◌, ◌≡◌, refl, ap, subst, inl, inr, true, false, Option, none, some, pos,
  negsuc, Text, lit, text_eq, arith, Returns, Returns-mono,
}
use spooled_sdk_go.Errors.{wrapped}
use spooled_sdk_go.Transport.{Request, Response, State, marshals, unmarshalable}
use spooled_sdk_go.Transport.Once.{ok, err}
use spooled_sdk_go.Transport.Loop.{Outcome, do_request, admit}
use spooled_sdk_go.Transport.Rounds.{sent, OneOf, refreshes}
use spooled_sdk_go.Transport.Limits.{retry_budget, Within, do_sends, do_negative, refreshes-le}
use spooled_sdk_go.Resources.Values.{Json}
use spooled_sdk_go.Resources.{
  Api, Decodes, Answer, returns, fails, panics, plain_request, with_json, Call, perform, and_then,
  json_any, remarshal, decode_response, ignore_response, base_post, base_post_only, base_get,
  then_call,
}

abbrev pub Settled : {B : Type 0} → Answer B → Type 0
Settled (returns b) = Unit
Settled (fails e) = Unit
Settled panics = ⊥

module _ (api : Api) where
  open api use {rt, packages, transport}
  open rt use {World}
  open packages use {marshal}

  -- A use of the response that does not dereference nil if there is a response.
  abbrev pub IsTotal : {B : Type 0} → (Option Response → Answer B) → Type 0
  IsTotal f = (resp : Response) → Settled (f (some resp))

  remarshal_settles : (B : Type 0) ⦃d : Decodes B⦄ (v : Json) → Settled {B = B} (remarshal api v)
  unfolding remarshal
  remarshal_settles B ⦃d⦄ v =
      elim (marshal v)
        as (λ p. Settled {B = B} (elim p [
          | unmarshalable e ↦ fails (wrapped (lit "failed to marshal") e)
          | marshals text ↦ elim (d.unmarshal text) [ ok b ↦ returns b | err e ↦ fails e ]
        ])) [
          | unmarshalable e ↦ tt
          | marshals text ↦
              elim (d.unmarshal text)
                as (λ r. Settled {B = B} (elim r [ ok b ↦ returns b | err e ↦ fails e ])) [
                  | ok b ↦ tt
                  | err e ↦ tt
                ]
        ]

  pub decode_response-IsTotal : (B : Type 0) ⦃d : Decodes B⦄ → IsTotal {B = B} (decode_response api)
  unfolding decode_response
  decode_response-IsTotal B resp =
      elim (json_any api resp)
        as (λ r. Settled {B = B} (elim r [ ok v ↦ remarshal api v | err e ↦ fails e ])) [
          | ok v ↦ remarshal_settles B v
          | err e ↦ tt
        ]

  -- A call settles and sends at most a number of requests.
  abbrev pub Sends : {B : Type 0} → ℕ → State World → Answer B × State World → Type 0
  Sends n s (a, s') = Settled a × (sent s'.log ≤ sent s.log + n)

  and_then-Sends :
      {B : Type 0} (f : Option Response → Answer B) (k : ℕ) (s : State World)
      (r : Option (Outcome × State World))
      → IsTotal f
      → Returns (λ p. (sent p.1.log ≤ sent s.log + k) × OneOf p.0) r
      → Returns (Sends k s) (and_then api f r)
  unfolding and_then
  and_then-Sends f k s none total h = h
  and_then-Sends f k s (some (o, s')) total (c, inl (resp, e, e')) = rw (e', e) (total resp, c)
  and_then-Sends f k s (some (o, s')) total (c, inr (x, e, e')) = rw e' (tt, c)

  -- The requests of a call: the attempts, and one more if a 401 can cause a refresh of the token.
  abbrev pub budget : Request → ℕ → State World → ℕ
  budget req n s =
      retry_budget req n + refreshes transport.auto_refresh_token false s.token_refresher + 1

  pub perform-budget :
      {B : Type 0} (f : Option Response → Answer B) (req : Request) (n : ℕ) (s : State World)
      → IsTotal f
      → transport.retry.max_retries ≡ pos n
      → n + 1 < 2 ^ 63
      → Returns (Sends (budget req n s) s) (perform api f req s)
  unfolding perform
  perform-budget f req n s total m b =
      and_then-Sends f (budget req n s) s (do_request rt transport req s) total (
        Returns-mono (Within rt transport req n s)
          (λ p. (sent p.1.log ≤ sent s.log + budget req n s) × OneOf p.0)
          (do_request rt transport req s) (λ p (c, one). (omega arith, one))
          (do_sends rt transport req n s m b))

  pub perform-Sends :
      {B : Type 0} (f : Option Response → Answer B) (req : Request) (n : ℕ) (s : State World)
      → IsTotal f
      → transport.retry.max_retries ≡ pos n
      → n + 1 < 2 ^ 63
      → Returns (Sends (retry_budget req n + 2) s) (perform api f req s)
  perform-Sends f req n s total m b =
      Returns-mono (Sends (budget req n s) s) (Sends (retry_budget req n + 2) s)
        (perform api f req s)
        (λ (a, s') (t, c).
          (t, omega (arith, c, refreshes-le transport.auto_refresh_token false s.token_refresher)))
        (perform-budget f req n s total m b)

  pub post_budget :
      (path : Text) (body : Option Json) (n : ℕ)
      → retry_budget (with_json api body (plain_request (lit "POST") path)) n ≡ 0
  unfolding lit text_eq
  post_budget path none n = refl
  post_budget path (some v) n = refl

  -- A POST that is not marked idempotent sends at most two requests, whatever the number of
  -- retries, and does not panic.
  pub base_post-Sends :
      (B : Type 0) ⦃d : Decodes B⦄ (path : Text) (body : Option Json) (n : ℕ) (s : State World)
      → transport.retry.max_retries ≡ pos n
      → n + 1 < 2 ^ 63
      → Returns (Sends {B = B} 2 s) (base_post api path body s)
  unfolding base_post
  base_post-Sends B path body n s m b =
      subst (λ k. Returns (Sends {B = B} (k + 2) s) (base_post api path body s))
        (post_budget path body n)
        (perform-Sends (decode_response api) (with_json api body (plain_request (lit "POST") path))
          n s (decode_response-IsTotal B) m b)

  pub base_get-Sends :
      (B : Type 0) ⦃d : Decodes B⦄ (path : Text) (n : ℕ) (s : State World)
      → transport.retry.max_retries ≡ pos n
      → n + 1 < 2 ^ 63
      → Returns (Sends {B = B} (n + 2) s) (base_get api path s)
  unfolding base_get text_eq lit
  base_get-Sends B path n s m b =
      perform-Sends (decode_response api) (plain_request (lit "GET") path) n s
        (decode_response-IsTotal B) m b

  pub then_call-Sends :
      {A B : Type 0} (j k : ℕ) (s : State World) (r : Option (Answer A × State World))
      (f : A → Call api B)
      → Returns (Sends j s) r
      → ((a : A) (s' : State World) → Returns (Sends k s') (f a s'))
      → Returns (Sends (j + k) s) (then_call api r f)
  unfolding then_call
  then_call-Sends j k s none f h g = h
  then_call-Sends j k s (some (returns a, s')) f (t, c) g =
      Returns-mono (Sends k s') (Sends (j + k) s) (f a s')
        (λ p (t', c'). (t', omega (arith, c, c'))) (g a s')
  then_call-Sends j k s (some (fails e, s')) f (t, c) g = (tt, omega (arith, c))
  then_call-Sends j k s (some (panics, s')) f (t, c) g = (t, omega (arith, c))

  pub base_post_only-Sends :
      (path : Text) (body : Option Json) (n : ℕ) (s : State World)
      → transport.retry.max_retries ≡ pos n
      → n + 1 < 2 ^ 63
      → Returns (Sends 2 s) (base_post_only api path body s)
  unfolding base_post_only
  base_post_only-Sends path body n s m b =
      subst (λ k. Returns (Sends (k + 2) s) (base_post_only api path body s))
        (post_budget path body n)
        (perform-Sends (ignore_response api) (with_json api body (plain_request (lit "POST") path))
          n s (λ resp. tt) m b)

  and_then_nil :
      (B : Type 0) ⦃d : Decodes B⦄ (s : State World) (r : Option (Outcome × State World))
      → Returns (λ p. (p.0 ≡ record { response = none; error = none }) × (p.1.log ≡ s.log)) r
      → Returns {A = Answer B × State World}
          (λ p. (p.0 ≡ panics) × (p.1.log ≡ s.log))
          (and_then api (decode_response api) r)
  unfolding and_then decode_response
  and_then_nil B s none h = h
  and_then_nil B s (some (o, s')) (e, l) =
      rw (ap (λ x. x.error) e, ap (λ x. x.response) e) (refl, l)

  -- With a negative number of retries (within an `int`), every call that decodes its response
  -- dereferences nil and sends nothing, if the circuit breaker admits it.
  pub negative_panics :
      (B : Type 0) ⦃d : Decodes B⦄ (req : Request) (k : ℕ) (s : State World)
      → transport.retry.max_retries ≡ negsuc k
      → k < 2 ^ 63
      → (admit rt s).0 ≡ true
      → Returns {A = Answer B × State World}
          (λ p. (p.0 ≡ panics) × (p.1.log ≡ s.log))
          (perform api (decode_response api) req s)
  unfolding perform
  negative_panics B req k s m b y =
      and_then_nil B s (do_request rt transport req s) (do_negative rt transport req k s m b y)
