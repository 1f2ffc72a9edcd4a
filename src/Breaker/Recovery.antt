-- ===== src/Breaker/Recovery.antt =====
-- How an open circuit blocks requests, and how a half-open one recovers.
use spooled_sdk_go.Common.{
  ℕ, zero, suc, ◌+◌, ◌-◌, ◌≤◌, ◌<◌, ◌≡◌, refl, ap, true, false, List, [], ◌∷◌, pos, All, arith,
  length, map,
}
use spooled_sdk_go.Breaker.Trip.{succeeded, record_outcome, record_outcomes}
use spooled_sdk_go.Breaker.{
  CircuitBreaker, closed, open_, half_open, allow, record_success, record_failure, Call, allows,
  successes, failures, resets, call, calls,
}

-- A call before `deadline` that is no reset.
abbrev pub IsBefore : ℕ → Call → Type 0
IsBefore deadline (allows now) = now < deadline
IsBefore deadline (successes now) = now < deadline
IsBefore deadline (failures now) = now < deadline
IsBefore deadline (resets now) = ⊥

call-open :
    (t : ℕ) (c : Call) (cb : CircuitBreaker)
    → cb.state ≡ open_
    → cb.timeout ≡ pos t
    → IsBefore (cb.last_state_change + t) c
    → call c cb ≡ cb
unfolding call allow record_success record_failure
call-open t (allows now) cb o e h = ground arith
call-open t (successes now) cb o e h = ground arith
call-open t (failures now) cb o e h = ground arith
call-open t (resets now) cb o e h = absurd h

pub refuses :
    (t now : ℕ) (cb : CircuitBreaker)
    → cb.state ≡ open_
    → cb.timeout ≡ pos t
    → now < cb.last_state_change + t
    → allow now cb ≡ (false, cb)
unfolding allow
refuses t now cb o e b = ground arith

calls-open :
    (t : ℕ) (cs : List Call) (cb : CircuitBreaker)
    → cb.state ≡ open_
    → cb.timeout ≡ pos t
    → All (IsBefore (cb.last_state_change + t)) cs
    → calls cs cb ≡ cb
unfolding calls
calls-open t [] cb o e h = refl
calls-open t (c ∷ cs) cb o e h = rw (call-open t c cb o e h.0) (calls-open t cs cb o e h.1)

-- Until its timeout has passed since it opened, an open circuit breaker is left as it is by any
-- sequence of calls but resets, and refuses every request.
pub open_blocks :
    (t now : ℕ) (cs : List Call) (cb : CircuitBreaker)
    → cb.state ≡ open_
    → cb.timeout ≡ pos t
    → All (IsBefore (cb.last_state_change + t)) cs
    → now < cb.last_state_change + t
    → (calls cs cb ≡ cb) × (allow now (calls cs cb) ≡ (false, cb))
open_blocks t now cs cb o e h b =
    let s = calls-open t cs cb o e h in (s, rw s (refuses t now cb o e b))

reopens :
    (t now : ℕ) (cb : CircuitBreaker)
    → cb.state ≡ open_
    → cb.timeout ≡ pos t
    → cb.last_state_change + t ≤ now
    → ((allow now cb).0 ≡ true)
      × ((allow now cb).1 ≡ record cb {
        state = half_open;
        failure_count = 0;
        success_count = 0;
        last_state_change = now;
      })
unfolding allow
reopens t now cb o e h = ground arith

-- Once its timeout has passed, an open circuit breaker admits the request and is half-open, with
-- no success or failure counted, whatever calls but resets came before the timeout.
pub open_reopens :
    (t now : ℕ) (cs : List Call) (cb : CircuitBreaker)
    → cb.state ≡ open_
    → cb.timeout ≡ pos t
    → All (IsBefore (cb.last_state_change + t)) cs
    → cb.last_state_change + t ≤ now
    → let (admitted, cb') = allow now (calls cs cb) in
      (admitted ≡ true)
      × (cb' ≡ record cb {
        state = half_open;
        failure_count = 0;
        success_count = 0;
        last_state_change = now;
      })
open_reopens t now cs cb o e a b = rw (calls-open t cs cb o e a) (reopens t now cb o e b)

-- A half-open circuit that is `left` successes short of its threshold.
record IsProbing (left : ℕ) (cb : CircuitBreaker) : Type 0 where
  probing : cb.state ≡ half_open
  short : cb.success_threshold ≡ pos (cb.success_count + left)

success_last :
    (now : ℕ) (cb : CircuitBreaker)
    → IsProbing 1 cb
    → ((record_success now cb).state ≡ closed) × ((record_success now cb).failure_count ≡ 0)
unfolding record_success
success_last now cb h = ground arith

success_more :
    (now left : ℕ) (cb : CircuitBreaker)
    → IsProbing (suc (suc left)) cb
    → IsProbing (suc left) (record_success now cb)
unfolding record_success
success_more now left cb h = ground arith

-- A closed circuit with no failure counted.
abbrev IsClosed : CircuitBreaker → Type 0
IsClosed cb = (cb.state ≡ closed) × (cb.failure_count ≡ 0)

success_keeps :
    (now : ℕ) (cb : CircuitBreaker) → IsClosed cb → IsClosed (record_outcome (succeeded now) cb)
unfolding record_outcome record_success
success_keeps now cb h = ground arith

successes-IsClosed :
    (ts : List ℕ) (cb : CircuitBreaker)
    → IsClosed cb
    → IsClosed (record_outcomes (map succeeded ts) cb)
unfolding record_outcomes
successes-IsClosed [] cb h = h
successes-IsClosed (t ∷ ts) cb h =
    successes-IsClosed ts (record_outcome (succeeded t) cb) (success_keeps t cb h)

recovers_from :
    (left : ℕ) (ts : List ℕ) (cb : CircuitBreaker)
    → IsProbing (suc left) cb
    → (left < length ts → IsClosed (record_outcomes (map succeeded ts) cb))
      × ((k : ℕ) → left ≡ length ts + k → IsProbing (suc k) (record_outcomes (map succeeded ts) cb))
unfolding record_outcomes record_outcome
recovers_from left [] cb h = (λ l. absurd (omega arith), λ k e. ground arith)
recovers_from zero (t ∷ ts) cb h = (
  λ l. successes-IsClosed ts (record_success t cb) (success_last t cb h),
  λ k e. absurd (omega arith),
)
recovers_from (suc left) (t ∷ ts) cb h =
    let ih = recovers_from left ts (record_success t cb) (success_more t left cb h) in
    (λ l. ih.0 (omega arith), λ k e. ih.1 k (omega arith))

failure_probing :
    (now : ℕ) (cb : CircuitBreaker)
    → cb.state ≡ half_open
    → record_failure now cb
      ≡ record cb { state = open_; failure_count = 0; success_count = 0; last_state_change = now }
unfolding record_failure
failure_probing now cb h = ground arith

-- A half-open circuit breaker that has counted no success yet and has a threshold of n + 1
-- successes is closed, with no failure counted, once n + 1 successes or more are recorded and
-- nothing else; after n or fewer it is still half-open, and a failure then opens it anew, its
-- timeout counted from that failure.
pub recovers :
    (n now : ℕ) (ts : List ℕ) (cb : CircuitBreaker)
    → cb.state ≡ half_open
    → cb.success_count ≡ 0
    → cb.success_threshold ≡ pos (suc n)
    → let cb' = record_outcomes (map succeeded ts) cb in
      (n < length ts → (cb'.state ≡ closed) × (cb'.failure_count ≡ 0))
      × (length ts ≤ n
          → (cb'.state ≡ half_open)
            × (record_failure now cb' ≡ record cb' {
              state = open_;
              failure_count = 0;
              success_count = 0;
              last_state_change = now;
            }))
recovers n now ts cb p z t =
    let r = recovers_from n ts cb (record { probing = p; short = ground arith }) in
    (
      r.0,
      λ l.
          let h = r.1 (n - length ts) (omega arith) in (h.probing, failure_probing now _ h.probing),
    )

allows-half_open :
    (now : ℕ) (cb : CircuitBreaker) → cb.state ≡ half_open → allow now cb ≡ (true, cb)
unfolding allow
allows-half_open now cb h = ground arith

-- A half-open circuit breaker admits any number of requests while no outcome is recorded, and
-- stays as it is.
pub half_open_admits :
    (now : ℕ) (ts : List ℕ) (cb : CircuitBreaker)
    → cb.state ≡ half_open
    → allow now (calls (map allows ts) cb) ≡ (true, cb)
unfolding calls call
half_open_admits now [] cb h = allows-half_open now cb h
half_open_admits now (t ∷ ts) cb h =
    rw (ap (λ r. r.1) (allows-half_open t cb h), calls) (half_open_admits now ts cb h)
