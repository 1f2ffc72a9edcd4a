-- ===== src/Breaker.antt =====
-- internal/httpx/circuit_breaker.go: the circuit breaker.
-- Each method holds the mutex throughout, so it is one step on the record. `now` is what
-- `time.Now()` returns to that call, in nanoseconds of the monotonic clock.
pub mod Invariant
pub mod Trip
pub mod Recovery
use spooled_sdk_go.Common.{
  ℕ, ◌+◌, Bool, true, false, List, [], ◌∷◌, ℤ, pos, sub_ℕ, leb_ℤ, is_zero, if◌then◌else◌,
}

pub data CircuitState : Type 0 where
  closed open_ half_open : CircuitState

pub record CircuitBreakerConfig : Type 0 where
  pub enabled : Bool
  pub failure_threshold : ℤ
  pub success_threshold : ℤ
  pub timeout : ℤ

-- The counters are natural numbers: each starts at 0, grows by one or is reset.
pub record CircuitBreaker : Type 0 where
  pub state : CircuitState
  pub failure_count : ℕ
  pub success_count : ℕ
  pub failure_threshold : ℤ
  pub success_threshold : ℤ
  pub timeout : ℤ
  pub last_state_change : ℕ

-- A field left at 0 takes its default.
abbrev pub or_default : ℤ → ℕ → ℤ
or_default v d = if is_zero v then pos d else v

unfoldable pub new_circuit_breaker : CircuitBreakerConfig → ℕ → CircuitBreaker
new_circuit_breaker cfg now = record {
  state = closed;
  failure_count = 0;
  success_count = 0;
  failure_threshold = or_default cfg.failure_threshold 5;
  success_threshold = or_default cfg.success_threshold 3;
  timeout = or_default cfg.timeout 30_000_000_000;
  last_state_change = now;
}

transition_to : CircuitState → ℕ → CircuitBreaker → CircuitBreaker
transition_to s now cb = record cb {
  state = s;
  failure_count = 0;
  success_count = 0;
  last_state_change = now;
}

-- `time.Since(cb.lastStateChange) >= cb.timeout`.
abbrev pub timed_out : ℕ → CircuitBreaker → Bool
timed_out now cb = leb_ℤ cb.timeout (sub_ℕ now cb.last_state_change)

-- The `switch` of each method, by the state.
allow_in : CircuitState → ℕ → CircuitBreaker → Bool × CircuitBreaker
unfolding transition_to
allow_in closed now cb = (true, cb)
allow_in open_ now cb =
    if timed_out now cb then (true, transition_to half_open now cb) else (false, cb)
allow_in half_open now cb = (true, cb)

unfoldable pub allow : ℕ → CircuitBreaker → Bool × CircuitBreaker
unfolding allow_in
allow now cb = allow_in cb.state now cb

success_in : CircuitState → ℕ → CircuitBreaker → CircuitBreaker
unfolding transition_to
success_in closed now cb = record cb { failure_count = 0 }
success_in open_ now cb = cb
success_in half_open now cb =
    let cb' = record cb { success_count = cb.success_count + 1 } in
    if leb_ℤ cb'.success_threshold (pos cb'.success_count)
    then transition_to closed now cb'
    else cb'

unfoldable pub record_success : ℕ → CircuitBreaker → CircuitBreaker
unfolding success_in
record_success now cb = success_in cb.state now cb

failure_in : CircuitState → ℕ → CircuitBreaker → CircuitBreaker
unfolding transition_to
failure_in closed now cb =
    let cb' = record cb { failure_count = cb.failure_count + 1 } in
    if leb_ℤ cb'.failure_threshold (pos cb'.failure_count) then transition_to open_ now cb' else cb'
failure_in open_ now cb = cb
failure_in half_open now cb = transition_to open_ now cb

unfoldable pub record_failure : ℕ → CircuitBreaker → CircuitBreaker
unfolding failure_in
record_failure now cb = failure_in cb.state now cb

unfoldable pub reset : ℕ → CircuitBreaker → CircuitBreaker
unfolding transition_to
reset now cb = transition_to closed now cb

-- The calls that goroutines make, in the order in which they take the mutex.
pub data Call : Type 0 where
  allows successes failures resets : ℕ → Call

unfoldable pub call : Call → CircuitBreaker → CircuitBreaker
call (allows now) cb = (allow now cb).1
call (successes now) cb = record_success now cb
call (failures now) cb = record_failure now cb
call (resets now) cb = reset now cb

unfoldable pub calls : List Call → CircuitBreaker → CircuitBreaker
calls [] cb = cb
calls (c ∷ cs) cb = calls cs (call c cb)
