-- ===== src/Transport/Limits.antt =====
-- Properties of `Do` as a whole.
use spooled_sdk_go.Common.{
  ℕ, ◌+◌, ◌≤◌, ◌<◌, ◌^◌, ◌≡◌, refl, ap, ◌∙◌, inl, inr, Bool, true, false, not, ◌&&◌, Option, none,
  some, pos, negsuc, ltb_ℤ, wrap64, ◌+ℤ◌, of_bits, lit, text_eq, arith, if◌then◌else◌, Bool-cases,
  Returns, Returns-mono,
}
use spooled_sdk_go.Errors.{Error, new_circuit_breaker_open_error}
use spooled_sdk_go.Breaker.{CircuitBreaker, open_, allow}
use spooled_sdk_go.Breaker.Recovery.{refuses}
use spooled_sdk_go.Auth.{TokenRefresher}
use spooled_sdk_go.Runtime.{Runtime}
use spooled_sdk_go.Transport.{Transport, Request, State}
use spooled_sdk_go.Transport.Loop.{
  Outcome, admit, refresh_proactively, should_retry, max_attempts, attempts, rounds, do_request,
}
use spooled_sdk_go.Transport.Rounds.{sent, refreshes, OneOf}
use spooled_sdk_go.Transport.Attempts.{attempts-end}

-- The attempts beyond the first: none for a POST that is not marked idempotent.
abbrev pub retry_budget : Request → ℕ → ℕ
retry_budget req n = if text_eq req.method (lit "POST") && not req.idempotent then 0 else n

pub refreshes-le : (auto f : Bool) (o : Option TokenRefresher) → refreshes auto f o ≤ 1
refreshes-le true true none = omega arith
refreshes-le true true (some tr) = omega arith
refreshes-le true false none = omega arith
refreshes-le true false (some tr) = omega arith
refreshes-le false f o = omega arith

module _ (rt : Runtime) where
  open rt use {World, floats, now}
  open floats use {Float}

  should_retry-lt :
      (t : Transport Float) (req : Request) (n : ℕ)
      → t.retry.max_retries ≡ pos n
      → (e : Error) (a : ℕ) → should_retry rt t req e a ≡ true
      → a < retry_budget req n
  unfolding should_retry
  should_retry-lt t req n m e a h = ground arith

  pub max_attempts-pos :
      (t : Transport Float) (n : ℕ)
      → t.retry.max_retries ≡ pos n
      → n + 1 < 2 ^ 63
      → max_attempts rt t ≡ pos (n + 1)
  unfolding max_attempts wrap64 ◌+ℤ◌
  max_attempts-pos t n m b = ground arith

  admit-keeps :
      (s : State World)
      → ((admit rt s).1.log ≡ s.log) × ((admit rt s).1.token_refresher ≡ s.token_refresher)
  unfolding admit
  admit-keeps s = ground arith

  proactive-keeps :
      (t : Transport Float) (s : State World)
      → ((refresh_proactively rt t s).log ≡ s.log)
        × (refreshes t.auto_refresh_token false (refresh_proactively rt t s).token_refresher
            ≡ refreshes t.auto_refresh_token false s.token_refresher)
  unfolding refresh_proactively
  proactive-keeps t s = (ground arith, ground arith)

  budget-le : (req : Request) (n : ℕ) → retry_budget req n ≤ n
  budget-le req n = ground arith

  pub start-keeps :
      (t : Transport Float) (s : State World)
      → let s' = refresh_proactively rt t (admit rt s).1 in
        (s'.log ≡ s.log)
        × (refreshes t.auto_refresh_token false s'.token_refresher
            ≡ refreshes t.auto_refresh_token false s.token_refresher)
  start-keeps t s =
      let (l, k) = admit-keeps s in
      let (l', k') = proactive-keeps t (admit rt s).1 in
      (l' ∙ l, k' ∙ ap (refreshes t.auto_refresh_token false) k)

  pub rounds-eq : (t : Transport Float) (n : ℕ) → t.retry.max_retries ≡ pos n → rounds rt t ≡ n + 3
  rounds-eq t n m = rw m

  -- The requests that a result sent, and its shape.
  abbrev pub Within : Transport Float → Request → ℕ → State World → Outcome × State World → Type 0
  Within t req n s (o, s') =
      (sent s'.log
        ≤ sent s.log
          + (retry_budget req n + refreshes t.auto_refresh_token false s.token_refresher)
          + 1)
      × OneOf o

  -- With n retries configured (n + 1 within an `int`), `Do` ends with a response or an error and
  -- not with both or neither, and sends at most one request, one for each retry that the request
  -- allows (n, or none for a POST not marked idempotent), and one more if a token refresher is
  -- there to answer a 401.
  pub do_sends :
      (t : Transport Float) (req : Request) (n : ℕ) (s : State World)
      → t.retry.max_retries ≡ pos n
      → n + 1 < 2 ^ 63
      → Returns (Within t req n s) (do_request rt t req s)
  unfolding do_request
  do_sends t req n s m b =
      let (l, k) = start-keeps t s in
      elim (Bool-cases (admit rt s).0) [
        | inl y ↦
            let s' = refresh_proactively rt t (admit rt s).1 in
            let left =
              retry_budget req n + refreshes t.auto_refresh_token false s'.token_refresher in
            rw (y, do_request)
              (rw (rounds-eq t n m) (
                Returns-mono (λ r. (sent r.1.log ≤ sent s'.log + left + 1) × OneOf r.0)
                  (Within t req n s) (attempts rt (n + 3) t req 0 false none s')
                  (λ r (c, one). (omega (arith, ap sent l, k), one))
                  (attempts-end rt (n + 3) left (retry_budget req n) n t req
                    (max_attempts-pos t n m b) (budget-le req n) (should_retry-lt t req n m) 0 false
                    none s' (omega arith) (omega arith)
                    (omega (
                      arith,
                      budget-le req n,
                      refreshes-le t.auto_refresh_token false s'.token_refresher,
                    )))))
        | inr n' ↦
            rw (n', do_request)
              (
                omega (arith, ap sent (admit-keeps s).0),
                inr (new_circuit_breaker_open_error, refl, refl),
              )
      ]

  admit-refused :
      (s : State World) (cb : CircuitBreaker)
      → s.circuit_breaker ≡ some cb
      → allow (now s.world) cb ≡ (false, cb)
      → admit rt s ≡ (false, s)
  unfolding admit
  admit-refused s cb h e = rw (h, admit, e)

  -- While the circuit breaker is open and its timeout has not passed, `Do` returns the circuit
  -- breaker's error, sends nothing and changes nothing.
  pub do_blocked :
      (t : Transport Float) (req : Request) (s : State World) (cb : CircuitBreaker) (timeout : ℕ)
      → s.circuit_breaker ≡ some cb
      → cb.state ≡ open_
      → cb.timeout ≡ pos timeout
      → now s.world < cb.last_state_change + timeout
      → do_request rt t req s
        ≡ some (record { response = none; error = some new_circuit_breaker_open_error }, s)
  unfolding do_request
  do_blocked t req s cb timeout h o e b =
      rw (admit-refused s cb h (refuses timeout (now s.world) cb o e b), do_request)

  max_attempts-negative :
      (t : Transport Float) (k : ℕ)
      → t.retry.max_retries ≡ negsuc k
      → k < 2 ^ 63
      → ltb_ℤ (pos 0) (max_attempts rt t) ≡ false
  unfolding max_attempts wrap64 ◌+ℤ◌ of_bits
  max_attempts-negative t k m b = ground arith

  rounds-negative : (t : Transport Float) (k : ℕ) → t.retry.max_retries ≡ negsuc k → rounds rt t ≡ 1
  rounds-negative t k m = rw m

  -- With a negative number of retries (within an `int`), `Do` sends nothing and returns neither a
  -- response nor an error, if the circuit breaker admits the request.
  pub do_negative :
      (t : Transport Float) (req : Request) (k : ℕ) (s : State World)
      → t.retry.max_retries ≡ negsuc k
      → k < 2 ^ 63
      → (admit rt s).0 ≡ true
      → Returns
          (λ r. (r.0 ≡ record { response = none; error = none }) × (r.1.log ≡ s.log))
          (do_request rt t req s)
  unfolding do_request attempts
  do_negative t req k s m b y =
      let e = max_attempts-negative t k m b in
      rw (y, do_request) (rw (rounds-negative t k m) (rw (e, attempts) (refl, (start-keeps t s).0)))
