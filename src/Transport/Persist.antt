-- ===== src/Transport/Persist.antt =====
-- `Do` against a network that never answers.
use spooled_sdk_go.Common.{
  ℕ, ◌+◌, ◌<◌, ◌^◌, ◌≡◌, true, false, not, ◌&&◌, Option, none, some, pos, ℤ, Text, lit, text_eq,
  arith, Returns, Returns-mono, subst,
}
use spooled_sdk_go.Errors.{Error, new_network_error, is_retryable, is_authentication_error}
use spooled_sdk_go.Runtime.{Runtime, HttpRequest, no_reply}
use spooled_sdk_go.Transport.{Transport, Request, State}
use spooled_sdk_go.Transport.Once.{ok, err, prepare_body, full_url, read_reply, exchange, do_once}
use spooled_sdk_go.Transport.Loop.{admit, do_request}
use spooled_sdk_go.Transport.Rounds.{sent}
use spooled_sdk_go.Transport.Outage.{retries, IsFailing, do_failing}

-- Every exchange fails with `e` before an answer, and the request's context is never done.
pub record IsDead (rt : Runtime) (e : Error) : Type 0 where
  pub silent : (h : HttpRequest) (w : rt.World) → (rt.client_do h w).0 ≡ no_reply e
  pub undone : (w : rt.World) → rt.ctx_err w ≡ none
  pub waits_out : (d : ℤ) (w : rt.World) → (rt.wait d w).0 ≡ none

module _ (rt : Runtime) (e : Error) (dead : IsDead rt e) where
  open rt use {World, floats}
  open floats use {Float}

  -- The error of each attempt.
  abbrev pub network_error : Error
  network_error = new_network_error (rt.error_text e) e

  -- A request that `doOnce` can put together.
  abbrev pub IsWellFormed : Transport Float → Request → Option Text → Type 0
  IsWellFormed t req b =
      (prepare_body req ≡ ok b) × (rt.check_request req.method (full_url rt t req) ≡ none)

  read_reply-dead :
      (t : Transport Float) (w : World) → read_reply rt t w (no_reply e) ≡ err network_error
  unfolding read_reply
  read_reply-dead t w = rw (dead.undone w, read_reply)

  exchange-dead :
      (t : Transport Float) (h : HttpRequest) (s : State World)
      → ((exchange rt t h s).0 ≡ err network_error)
        × (sent (exchange rt t h s).1.log ≡ sent s.log + 1)
  unfolding exchange
  exchange-dead t h s =
      (rw (dead.silent h s.world) (read_reply-dead t (rt.client_do h s.world).1), omega arith)

  do_once-dead :
      (t : Transport Float) (req : Request) (b : Option Text) (s : State World)
      → IsWellFormed t req b
      → ((do_once rt t req s).0 ≡ err network_error)
        × (sent (do_once rt t req s).1.log ≡ sent s.log + 1)
  unfolding do_once
  do_once-dead t req b s (p, c) = rw (p, do_once) (rw (c, do_once) (exchange-dead t _ s))

  retries-dead :
      (req : Request) (n : ℕ)
      → (text_eq req.method (lit "POST") && not req.idempotent) ≡ false
      → retries rt req network_error n ≡ n
  unfolding is_retryable new_network_error
  retries-dead req n h = ground (arith, h)

  dead-IsFailing :
      (t : Transport Float) (req : Request) (b : Option Text)
      → is_authentication_error e ≡ false
      → IsWellFormed t req b
      → IsFailing rt t req network_error
  unfolding is_authentication_error new_network_error
  dead-IsFailing t req b h wf = record {
    fails = λ s. (do_once-dead t req b s wf).0;
    sends_one = λ s. (do_once-dead t req b s wf).1;
    other = h;
    waits_out = dead.waits_out;
  }

  -- Against a network that never answers (with an error that is no 401), `Do` with n retries (n + 1
  -- within an `int`) sends a request that may be repeated and can be put together n + 1 times, if
  -- the circuit breaker admits it, and returns the network error.
  pub do_persists :
      (t : Transport Float) (req : Request) (b : Option Text) (n : ℕ) (s : State World)
      → t.retry.max_retries ≡ pos n
      → n + 1 < 2 ^ 63
      → (admit rt s).0 ≡ true
      → (text_eq req.method (lit "POST") && not req.idempotent) ≡ false
      → is_authentication_error e ≡ false
      → IsWellFormed t req b
      → Returns
          (λ r.
            (r.0 ≡ record { response = none; error = some network_error })
            × (sent r.1.log ≡ sent s.log + (n + 1)))
          (do_request rt t req s)
  do_persists t req b n s m bound y idem auth wf =
      Returns-mono _ _ (do_request rt t req s)
        (λ r (o, l, _).
          (o, subst (λ m. sent r.1.log ≡ sent s.log + (m + 1)) (retries-dead req n idem) l))
        (do_failing rt t req network_error (dead-IsFailing t req b auth wf) n m (λ _ _. Unit)
          (λ _ _ _. tt) 0 s bound y tt)
