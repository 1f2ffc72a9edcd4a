-- ===== src/Transport/Outage.antt =====
-- `Do` against a server that fails every exchange: its attempts, whatever the circuit breaker counts.
use spooled_sdk_go.Common.{
  ℕ, zero, suc, ◌+◌, ◌≤◌, ◌<◌, ◌^◌, ◌≡◌, refl, ap, ◌∙◌, Bool, true, false, Option, none, some, pos,
  ℤ, arith, Returns, Returns-mono, lt→ltb, ltb→lt, ltb, ◌-◌, subst, Bool-cases, Option-cases, inl,
  inr, if◌then◌else◌,
}
use spooled_sdk_go.Errors.{Error, is_retryable, is_authentication_error}
use spooled_sdk_go.Breaker.{CircuitBreaker}
use spooled_sdk_go.Runtime.{Runtime}
use spooled_sdk_go.Transport.{Transport, Request, State}
use spooled_sdk_go.Transport.Once.{err, do_once}
use spooled_sdk_go.Transport.Loop.{
  Outcome, Round, return, next, admit, refresh_proactively, note_failure, should_retry, pause,
  conclude, after_error, after_reply, after_pause, round, max_attempts, attempts, do_request,
}
use spooled_sdk_go.Transport.Rounds.{sent}
use spooled_sdk_go.Transport.Attempts.{Round-cases}
use spooled_sdk_go.Transport.Circuit.{
  do_once-circuit, note_failure-sent, proactive-circuit, note_failure-HasCircuit, admit-closed,
  admit-HasCircuit, HasCircuit,
}
use spooled_sdk_go.Transport.Limits.{retry_budget, max_attempts-pos, rounds-eq, start-keeps}

not_below : (a n : ℕ) → a ≤ n → ltb a n ≡ false → a ≡ n
not_below a n l h = ground arith

module _ (rt : Runtime) where
  open rt use {World, floats}
  open floats use {Float}

  -- Every exchange of the request sends it and fails with `x`, which is no 401; the request's
  -- context is never done.
  pub record IsFailing (t : Transport Float) (req : Request) (x : Error) : Type 0 where
    pub fails : (s : State World) → (do_once rt t req s).0 ≡ err x
    pub sends_one : (s : State World) → sent (do_once rt t req s).1.log ≡ sent s.log + 1
    pub other : is_authentication_error x ≡ false
    pub waits_out : (d : ℤ) (w : World) → (rt.wait d w).0 ≡ none

  -- The attempts beyond the first, with n retries: none after an error that no retry helps.
  abbrev pub retries : Request → Error → ℕ → ℕ
  retries req x n = if is_retryable x then retry_budget req n else 0

  module _ (t : Transport Float) (req : Request) (x : Error) (down : IsFailing t req x) (n : ℕ)
      (limit : t.retry.max_retries ≡ pos n) (I : ℕ → Option CircuitBreaker → Type 0)
      (counts : (c : ℕ) (s : State World)
        → I c s.circuit_breaker
        → I (c + 1) (note_failure rt s).circuit_breaker) where
    pause-down :
        (c a : ℕ) (s : State World)
        → I c s.circuit_breaker
        → ((pause rt t a s).0 ≡ none)
          × (sent (pause rt t a s).1.log ≡ sent s.log)
          × I c (pause rt t a s).1.circuit_breaker
    unfolding pause
    pause-down c zero s h = (refl, refl, h)
    pause-down c (suc a) s h = (down.waits_out _ _, refl, h)

    after_error-down :
        (a : ℕ) (f : Bool) (s : State World) (P : Round (State World) → Type 0)
        → P (conclude rt t req a f x s)
        → P (after_error rt t req a f x s)
    unfolding after_error
    after_error-down a f s P c = elim (Option-cases s.token_refresher) [
      | inl o ↦ rw (o, after_error) c
      | inr (_, o) ↦ rw (o, after_error) (rw down.other c)
    ]

    should_retry-down : (a : ℕ) → should_retry rt t req x a ≡ ltb a (retries req x n)
    unfolding should_retry
    should_retry-down a = ground (arith, limit)

    retries-le : retries req x n ≤ n
    retries-le = ground arith

    -- One round, and whether another follows.
    abbrev Ends : ℕ → ℕ → State World → Round (State World) → Type 0
    Ends c a s (return o s') =
        (a ≡ retries req x n)
        × (o ≡ record { response = none; error = some x })
        × (sent s'.log ≡ sent s.log + 1)
        × I (c + 1) s'.circuit_breaker
    Ends c a s (next a' f e s') =
        (a < retries req x n)
        × (a' ≡ a + 1)
        × (sent s'.log ≡ sent s.log + 1)
        × I (c + 1) s'.circuit_breaker

    conclude-Ends :
        (c a : ℕ) (f : Bool) (s s' : State World)
        → a ≤ retries req x n
        → sent s'.log ≡ sent s.log + 1
        → I c s'.circuit_breaker
        → Ends c a s (conclude rt t req a f x s')
    unfolding conclude
    conclude-Ends c a f s s' la l h =
        let l' : sent (note_failure rt s').log ≡ sent s.log + 1 = note_failure-sent rt s' ∙ l in
        let h' = counts c s' h in
        elim (Bool-cases (ltb a (retries req x n))) [
          | inl y ↦
              rw (should_retry-down a ∙ y, conclude) (ltb→lt a (retries req x n) y, refl, l', h')
          | inr z ↦
              rw (should_retry-down a ∙ z, conclude)
                (not_below a (retries req x n) la z, refl, l', h')
        ]

    round-Ends :
        (c a : ℕ) (f : Bool) (s : State World)
        → a ≤ retries req x n
        → I c s.circuit_breaker
        → Ends c a s (round rt t req a f s)
    unfolding round after_pause after_reply
    round-Ends c a f s la h =
        let (p, l, h') = pause-down c a s h in
        let s₁ = (pause rt t a s).1 in
        let s₂ = (do_once rt t req s₁).1 in
        rw (p, after_pause)
          (rw (down.fails s₁, after_reply)
            (after_error-down a f s₂ (Ends c a s) (
              conclude-Ends c a f s s₂ la (down.sends_one s₁ ∙ ap (λ m. m + 1) l)
                (rw (do_once-circuit rt t req s₁) h'))))

    -- What `Do` returns, and what it leaves, with m attempts still to make.
    abbrev pub Fails : ℕ → ℕ → State World → Outcome × State World → Type 0
    Fails c m s (o, s') =
        (o ≡ record { response = none; error = some x })
        × (sent s'.log ≡ sent s.log + m)
        × I (c + m) s'.circuit_breaker

    attempts-down :
        (fuel c a left : ℕ) (f : Bool) (last : Option Error) (s : State World)
        → max_attempts rt t ≡ pos (n + 1)
        → a + left ≡ retries req x n
        → left < fuel
        → I c s.circuit_breaker
        → Returns (Fails c (left + 1) s) (attempts rt fuel t req a f last s)
    unfolding attempts
    attempts-down zero c a left f last s ma al lf h = absurd (omega arith)
    attempts-down (suc fuel) c a left f last s ma al lf h =
        let fit = round-Ends c a f s (omega arith) h in
        rw (ma, lt→ltb a (n + 1) (omega (arith, retries-le)), attempts)
          (elim (Round-cases (round rt t req a f s)) [
            | inl (o, s', q) ↦
                let (an, oe, l, h') = subst (Ends c a s) q fit in
                rw q (oe, omega arith, subst (λ m. I m s'.circuit_breaker) (omega arith) h')
            | inr (a', f', e, s', q) ↦
                let (an, ae, l, h') = subst (Ends c a s) q fit in
                rw q (
                  Returns-mono (Fails (c + 1) (left - 1 + 1) s') (Fails c (left + 1) s)
                    (attempts rt fuel t req a' f' (some e) s')
                    (λ (o, s'') (oe, l', h'').
                      (oe, omega arith, subst (λ m. I m s''.circuit_breaker) (omega arith) h''))
                    (attempts-down fuel (c + 1) a' (left - 1) f' (some e) s' ma (omega arith)
                      (omega arith) h'))
          ])

    pub do_failing :
        (c : ℕ) (s : State World)
        → n + 1 < 2 ^ 63
        → (admit rt s).0 ≡ true
        → I c (admit rt s).1.circuit_breaker
        → Returns (Fails c (retries req x n + 1) s) (do_request rt t req s)
    unfolding do_request
    do_failing c s bound y h =
        let s₁ = (admit rt s).1 in
        let s₂ = refresh_proactively rt t s₁ in
        let m = retries req x n in
        rw (y, do_request)
          (rw (rounds-eq rt t n limit) (
            Returns-mono (Fails c (m + 1) s₂) (Fails c (m + 1) s)
              (attempts rt (n + 3) t req 0 false none s₂)
              (λ (o, s') (oe, l, h'). (oe, omega (arith, ap sent (start-keeps rt t s).0), h'))
              (attempts-down (n + 3) c 0 m false none s₂ (max_attempts-pos rt t n limit bound)
                (omega arith) (omega (arith, retries-le)) (rw (proactive-circuit rt t s₁) h))))

  -- Against a server that fails every exchange of a request with an error that is no 401, and with
  -- n retries (n + 1 within an `int`), `Do` makes n + 1 attempts if the error is retryable and the
  -- request may be repeated, and else one; it returns the error. Each attempt counts as a failure,
  -- whatever the error: a circuit breaker that is closed, after c failures in a row and with a
  -- threshold of k above c, is open afterwards if c and the attempts reach k, and else is closed
  -- and counts them all.
  pub do_outage :
      (t : Transport Float) (req : Request) (x : Error) (n k c : ℕ) (s : State World)
      → IsFailing t req x
      → t.retry.max_retries ≡ pos n
      → n + 1 < 2 ^ 63
      → c < k
      → HasCircuit k c s.circuit_breaker
      → Returns
          (λ r.
            (r.0 ≡ record { response = none; error = some x })
            × (sent r.1.log ≡ sent s.log + (retries req x n + 1))
            × HasCircuit k (c + (retries req x n + 1)) r.1.circuit_breaker)
          (do_request rt t req s)
  do_outage t req x n k c s down limit bound ck h =
      do_failing t req x down n limit (HasCircuit k) (note_failure-HasCircuit rt k) c s bound
        (admit-closed rt k c s ck h) (admit-HasCircuit rt k c s ck h)
