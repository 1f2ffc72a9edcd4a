-- ===== src/Transport/Circuit.antt =====
-- What the steps of `Do` make of the circuit breaker.
use spooled_sdk_go.Common.{
  ℕ, ◌+◌, ◌<◌, ◌≡◌, refl, true, Option, none, some, pos, arith, leb, Option-cases, inl, inr,
  if◌then◌else◌,
}
use spooled_sdk_go.Breaker.{CircuitBreaker, closed, open_, allow, record_failure}
use spooled_sdk_go.Runtime.{Runtime}
use spooled_sdk_go.Transport.{Transport, Request, State}
use spooled_sdk_go.Transport.Once.{exchange, do_once}
use spooled_sdk_go.Transport.Loop.{admit, refresh_proactively, note_failure}
use spooled_sdk_go.Transport.Rounds.{sent}

-- After c failures in a row, with a threshold of k: open from k on, and counting before.
abbrev pub HasFailed : ℕ → ℕ → CircuitBreaker → Type 0
HasFailed k c cb =
    (cb.failure_threshold ≡ pos k)
    × (if leb k c then cb.state ≡ open_ else (cb.state ≡ closed) × (cb.failure_count ≡ c))

-- The same, of a transport's circuit breaker, if it has one.
abbrev pub HasCircuit : ℕ → ℕ → Option CircuitBreaker → Type 0
HasCircuit k c o = elim o [ none ↦ Unit | some cb ↦ HasFailed k c cb ]

record_failure-HasFailed :
    (k c now : ℕ) (cb : CircuitBreaker)
    → HasFailed k c cb
    → HasFailed k (c + 1) (record_failure now cb)
unfolding record_failure
record_failure-HasFailed k c now cb h = ground arith

allow-HasFailed :
    (k c now : ℕ) (cb : CircuitBreaker) → c < k → HasFailed k c cb → HasFailed k c (allow now cb).1
unfolding allow
allow-HasFailed k c now cb l h = ground arith

module _ (rt : Runtime) where
  open rt use {World, floats, now}
  open floats use {Float}

  pub note_failure-HasCircuit :
      (k c : ℕ) (s : State World)
      → HasCircuit k c s.circuit_breaker
      → HasCircuit k (c + 1) (note_failure rt s).circuit_breaker
  unfolding note_failure
  note_failure-HasCircuit k c s h = elim (Option-cases s.circuit_breaker) [
    | inl e ↦ rw (e, note_failure, e) tt
    | inr (cb, e) ↦ rw (e, note_failure) (record_failure-HasFailed k c (now s.world) cb (rw e at h))
  ]

  pub admit-HasCircuit :
      (k c : ℕ) (s : State World)
      → c < k
      → HasCircuit k c s.circuit_breaker
      → HasCircuit k c (admit rt s).1.circuit_breaker
  unfolding admit
  admit-HasCircuit k c s l h = elim (Option-cases s.circuit_breaker) [
    | inl e ↦ rw (e, admit, e) tt
    | inr (cb, e) ↦ rw (e, admit) (allow-HasFailed k c (now s.world) cb l (rw e at h))
  ]

  pub proactive-circuit :
      (t : Transport Float) (s : State World)
      → (refresh_proactively rt t s).circuit_breaker ≡ s.circuit_breaker
  unfolding refresh_proactively
  proactive-circuit t s = ground arith

  pub do_once-circuit :
      (t : Transport Float) (req : Request) (s : State World)
      → (do_once rt t req s).1.circuit_breaker ≡ s.circuit_breaker
  unfolding do_once exchange
  do_once-circuit t req s = ground arith

  pub note_failure-sent : (s : State World) → sent (note_failure rt s).log ≡ sent s.log
  unfolding note_failure
  note_failure-sent s = ground arith

  -- A closed circuit admits.
  pub admit-closed :
      (k c : ℕ) (s : State World) → c < k → HasCircuit k c s.circuit_breaker → (admit rt s).0 ≡ true
  unfolding admit allow
  admit-closed k c s l h = elim (Option-cases s.circuit_breaker) [
    | inl e ↦ rw (e, admit) refl
    | inr (cb, e) ↦ rw (e, admit) (ground (arith, (rw e at h)))
  ]
