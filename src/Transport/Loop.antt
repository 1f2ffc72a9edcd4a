-- ===== src/Transport/Loop.antt =====
-- `Do` of internal/httpx/transport.go: the circuit breaker, the token and the attempts.
use spooled_sdk_go.Common.{
  ℕ, zero, suc, ◌+◌, Bool, true, false, not, ◌&&◌, Option, none, some, ℤ, pos, negsuc, ltb_ℤ, leb_ℤ,
  ◌+ℤ◌, wrap64, Text, lit, is_empty, text_eq, ◌∷◌, if◌then◌else◌,
}
use spooled_sdk_go.Errors.{
  Error, is_authentication_error, is_retryable, new_circuit_breaker_open_error,
}
use spooled_sdk_go.Breaker.{allow, record_success, record_failure}
use spooled_sdk_go.Retry.{delay}
use spooled_sdk_go.Auth.{TokenRefresher, refresh_if_needed, force_refresh}
use spooled_sdk_go.Runtime.{Runtime}
use spooled_sdk_go.Transport.{Transport, Request, Response, State, waits}
use spooled_sdk_go.Transport.Once.{Result, ok, err, do_once}

-- The two results of `Do`; `none` is nil.
pub record Outcome : Type 0 where
  pub response : Option Response
  pub error : Option Error

-- What one round of the loop does: return, or go on with an attempt, whether a token refresh was
-- attempted, and the last error.
pub data Round (S : Type 0) : Type 0 where
  return : Outcome → S → Round S
  next : ℕ → Bool → Error → S → Round S

module _ (rt : Runtime) where
  open rt use {World, floats, now, random, wait}
  open floats use {Float}

  -- `t.circuitBreaker == nil || t.circuitBreaker.Allow()`.
  unfoldable pub admit : State World → Bool × State World
  admit s = elim s.circuit_breaker [
    | none ↦ (true, s)
    | some cb ↦
        let (admitted, cb') = allow (now s.world) cb in
        (admitted, record s { circuit_breaker = some cb' })
  ]

  -- The state after a refresh of the token.
  abbrev with_refresher : TokenRefresher → World → State World → State World
  with_refresher tr w s = record s { token_refresher = some tr; world = w }

  abbrev with_token : Text → State World → State World
  with_token token s = if is_empty token then s else record s { access_token = token }

  unfoldable pub refresh_proactively : Transport Float → State World → State World
  refresh_proactively t s = elim s.token_refresher [
    | none ↦ s
    | some tr ↦
        if t.auto_refresh_token
        then (let (e, tr', w) = refresh_if_needed rt tr s.world in
            let s' = with_refresher tr' w s in
            elim e [ some e ↦ s' | none ↦ with_token tr'.access_token s' ])
        else s
  ]

  unfoldable pub note_success : State World → State World
  note_success s = elim s.circuit_breaker [
    | none ↦ s
    | some cb ↦ record s { circuit_breaker = some (record_success (now s.world) cb) }
  ]

  unfoldable pub note_failure : State World → State World
  note_failure s = elim s.circuit_breaker [
    | none ↦ s
    | some cb ↦ record s { circuit_breaker = some (record_failure (now s.world) cb) }
  ]

  unfoldable pub should_retry : Transport Float → Request → Error → ℕ → Bool
  should_retry t req e attempt =
      if leb_ℤ t.retry.max_retries (pos attempt)
      then false
      else if text_eq req.method (lit "POST") && not req.idempotent
      then false
      else is_retryable e

  -- The wait before attempt `attempt`; an error if the context is done first.
  unfoldable pub pause : Transport Float → ℕ → State World → Option Error × State World
  pause t zero s = (none, s)
  pause t (suc k) s =
      let (r, w) = random s.world in
      let d = delay floats t.retry k r in
      let (e, w') = wait d w in (e, record s { world = w'; log = waits d ∷ s.log })

  -- What follows a failed attempt that no new token helps.
  unfoldable pub conclude :
      Transport Float → Request → ℕ → Bool → Error → State World → Round (State World)
  conclude t req attempt refreshed e s =
      if should_retry t req e attempt
      then next (attempt + 1) refreshed e (note_failure s)
      else return (record { response = none; error = some e }) (note_failure s)

  -- A forced refresh: whether it gave a token, and the state with that token.
  unfoldable pub renew : TokenRefresher → State World → Bool × State World
  renew tr s =
      let (e, tr', w) = force_refresh rt tr s.world in
      let s' = with_refresher tr' w s in
      elim e [
        | some e ↦ (false, s')
        | none ↦ (not (is_empty tr'.access_token), with_token tr'.access_token s')
      ]

  -- What follows the error of an attempt. A token that a 401 made the client refresh takes the
  -- attempt again.
  unfoldable pub after_error :
      Transport Float → Request → ℕ → Bool → Error → State World → Round (State World)
  after_error t req attempt refreshed e s = elim s.token_refresher [
    | none ↦ conclude t req attempt refreshed e s
    | some tr ↦
        if is_authentication_error e && (t.auto_refresh_token && not refreshed)
        then (let (fresh, s') = renew tr s in
            if fresh then next attempt true e s' else conclude t req attempt true e s')
        else conclude t req attempt refreshed e s
  ]

  -- What follows an exchange, and the wait before it.
  unfoldable pub after_reply :
      Transport Float → Request → ℕ → Bool → Result Response → State World → Round (State World)
  after_reply t req attempt refreshed (ok resp) s =
      return (record { response = some resp; error = none }) (note_success s)
  after_reply t req attempt refreshed (err e) s = after_error t req attempt refreshed e s

  unfoldable pub after_pause :
      Transport Float → Request → ℕ → Bool → Option Error → State World → Round (State World)
  unfolding after_reply
  after_pause t req attempt refreshed (some e) s =
      return (record { response = none; error = some e }) s
  after_pause t req attempt refreshed none s =
      let (r, s') = do_once rt t req s in after_reply t req attempt refreshed r s'

  unfoldable pub round : Transport Float → Request → ℕ → Bool → State World → Round (State World)
  unfolding after_pause
  round t req attempt refreshed s =
      let (cancelled, s') = pause t attempt s in after_pause t req attempt refreshed cancelled s'

  -- `maxAttempts`, an `int`.
  unfoldable pub max_attempts : Transport Float → ℤ
  max_attempts t = wrap64 (t.retry.max_retries +ℤ pos 1)

  -- The loop; `none` says that the fuel ran out.
  unfoldable pub attempts :
      ℕ
      → Transport Float
      → Request
      → ℕ
      → Bool
      → Option Error
      → State World
      → Option (Outcome × State World)
  attempts zero t req attempt refreshed last s = none
  attempts (suc fuel) t req attempt refreshed last s = elim (ltb_ℤ (pos attempt) (max_attempts t)) [
    | false ↦ some (record { response = none; error = last }, s)
    | true ↦ elim (round t req attempt refreshed s) [
      | return o s' ↦ some (o, s')
      | next attempt' refreshed' e s' ↦ attempts fuel t req attempt' refreshed' (some e) s'
    ]
  ]

  -- Rounds that are enough: one for each attempt, one more after a refresh, and the last test.
  abbrev pub rounds : Transport Float → ℕ
  rounds t = elim t.retry.max_retries [ pos n ↦ n + 3 | negsuc n ↦ 1 ]

  unfoldable pub do_request :
      Transport Float → Request → State World → Option (Outcome × State World)
  do_request t req s =
      let (admitted, s') = admit s in
      if admitted
      then attempts (rounds t) t req 0 false none (refresh_proactively t s')
      else some (record { response = none; error = some new_circuit_breaker_open_error }, s')
