-- ===== src/Breaker/Invariant.antt =====
-- What holds of a circuit breaker between two calls.
use spooled_sdk_go.Common.{ℕ, ◌≡◌, true, Bool, List, [], ◌∷◌, ℤ, pos, ltb_ℤ, ◌||◌, ◌==◌, arith}
use spooled_sdk_go.Breaker.{
  CircuitBreaker, CircuitBreakerConfig, closed, open_, half_open, new_circuit_breaker, allow,
  record_success, record_failure, reset, Call, allows, successes, failures, resets, call, calls,
}

-- A counter is 0 or below its threshold.
abbrev pub counts : ℕ → ℤ → Bool
counts n threshold = n == 0 || ltb_ℤ (pos n) threshold

-- Failures are counted while closed and successes while half-open; elsewhere a counter is 0.
pub record IsCounting (cb : CircuitBreaker) : Type 0 where
  pub failures_low : counts cb.failure_count cb.failure_threshold ≡ true
  pub successes_low : counts cb.success_count cb.success_threshold ≡ true
  pub no_failures : cb.state ≡ open_ → cb.failure_count ≡ 0
  pub no_failures_probing : cb.state ≡ half_open → cb.failure_count ≡ 0
  pub no_successes : cb.state ≡ open_ → cb.success_count ≡ 0
  pub no_successes_closed : cb.state ≡ closed → cb.success_count ≡ 0

pub call-IsCounting : (c : Call) (cb : CircuitBreaker) → IsCounting cb → IsCounting (call c cb)
unfolding call allow record_success record_failure reset
call-IsCounting (allows now) cb h = ground arith
call-IsCounting (successes now) cb h = ground arith
call-IsCounting (failures now) cb h = ground arith
call-IsCounting (resets now) cb h = ground arith

pub calls-keeps_IsCounting :
    (cs : List Call) (cb : CircuitBreaker) → IsCounting cb → IsCounting (calls cs cb)
unfolding calls
calls-keeps_IsCounting [] cb h = h
calls-keeps_IsCounting (c ∷ cs) cb h =
    calls-keeps_IsCounting cs (call c cb) (call-IsCounting c cb h)

new-IsCounting : (cfg : CircuitBreakerConfig) (now : ℕ) → IsCounting (new_circuit_breaker cfg now)
unfolding new_circuit_breaker
new-IsCounting cfg now = ground arith

-- After any calls on a new circuit breaker, each counter is 0 or below its threshold (so `++` on
-- it stays within the range of the threshold's type), failures are counted only while the circuit
-- is closed, and successes only while it is half-open.
pub calls-IsCounting :
    (cfg : CircuitBreakerConfig) (now : ℕ) (cs : List Call)
    → IsCounting (calls cs (new_circuit_breaker cfg now))
calls-IsCounting cfg now cs =
    calls-keeps_IsCounting cs (new_circuit_breaker cfg now) (new-IsCounting cfg now)
