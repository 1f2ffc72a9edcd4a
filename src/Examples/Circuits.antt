-- ===== src/Examples/Circuits.antt =====
-- The circuit breaker of circuit_breaker.go at concrete inputs.
use spooled_sdk_go.Common.{◌<◌, ◌≤◌, ◌≡◌, refl, ◌↔◌, true, false, List, [], ◌∷◌, pos, map, arith}
use spooled_sdk_go.Breaker.{
  CircuitBreaker, CircuitBreakerConfig, Call, closed, open_, half_open, allows, successes, failures,
  resets, allow, record_failure, calls, new_circuit_breaker,
}
use spooled_sdk_go.Breaker.Invariant.{calls-IsCounting, IsCounting}
use spooled_sdk_go.Breaker.Trip.{opens_iff, record_outcomes, Outcome, succeeded, failed, HasStreak}
use spooled_sdk_go.Breaker.Recovery.{open_blocks, recovers}

abbrev two_failures : CircuitBreakerConfig
two_failures = record {
  enabled = true;
  failure_threshold = pos 2;
  success_threshold = pos 2;
  timeout = pos 100;
}

abbrev pub closed_breaker : CircuitBreaker
closed_breaker = record {
  state = closed;
  failure_count = 0;
  success_count = 0;
  failure_threshold = pos 2;
  success_threshold = pos 2;
  timeout = pos 100;
  last_state_change = 7;
}

abbrev pub open_breaker : CircuitBreaker
open_breaker = record closed_breaker { state = open_ }

abbrev half_open_breaker : CircuitBreaker
half_open_breaker = record closed_breaker { state = half_open }

abbrev some_calls : List Call
some_calls = failures 8 ∷ allows 9 ∷ failures 10 ∷ allows 200 ∷ successes 201 ∷ resets 202 ∷ []

abbrev some_outcomes : List Outcome
some_outcomes = failed 8 ∷ succeeded 9 ∷ failed 10 ∷ failed 11 ∷ []

abbrev early_calls : List Call
early_calls = allows 50 ∷ failures 60 ∷ successes 70 ∷ []

calls-IsCounting_example : IsCounting (calls some_calls (new_circuit_breaker two_failures 7))
calls-IsCounting_example = calls-IsCounting two_failures 7 some_calls

opens_iff_example :
    ((record_outcomes some_outcomes closed_breaker).state ≡ open_) ↔ HasStreak 2 some_outcomes
opens_iff_example = opens_iff 1 some_outcomes closed_breaker refl refl refl

open_blocks_example :
    (calls early_calls open_breaker ≡ open_breaker)
    × (allow 80 (calls early_calls open_breaker) ≡ (false, open_breaker))
open_blocks_example =
    open_blocks 100 80 early_calls open_breaker refl refl
      (omega arith, (omega arith, (omega arith, tt))) (omega arith)

recovers_example :
    let cb' = record_outcomes (map succeeded (20 ∷ 21 ∷ [])) half_open_breaker in
    (1 < 2 → (cb'.state ≡ closed) × (cb'.failure_count ≡ 0))
    × (2 ≤ 1
        → (cb'.state ≡ half_open)
          × (record_failure 30 cb' ≡ record cb' {
            state = open_;
            failure_count = 0;
            success_count = 0;
            last_state_change = 30;
          }))
recovers_example = recovers 1 30 (20 ∷ 21 ∷ []) half_open_breaker refl refl refl
