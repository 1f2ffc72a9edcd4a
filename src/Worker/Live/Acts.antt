-- ===== src/Worker/Live/Acts.antt =====
-- Each act of the worker with its call of the API, but for the poll.
use spooled_sdk_go.Common.{
  ℕ, ◌+◌, ◌≤◌, ◌<◌, ◌^◌, ◌≡◌, refl, inl, inr, true, false, Option, none, some, pos, Text, is_empty,
  arith, Bool-cases, Returns,
}
use spooled_sdk_go.Transport.{State}
use spooled_sdk_go.Transport.Rounds.{sent}
use spooled_sdk_go.Resources.Values.{JsonObject}
use spooled_sdk_go.Resources.{Api, Decodes, Answer, returns, fails, panics}
use spooled_sdk_go.Resources.Bounds.{Sends}
use spooled_sdk_go.Resources.Jobs.Types.{
  ClaimJobsResponse, RenewLeaseResponse, UpdateProgressRequest,
}
use spooled_sdk_go.Resources.Jobs.Sends.{
  complete-Sends, fail-Sends, renew_lease-Sends, update_progress-Sends,
}
use spooled_sdk_go.Resources.Workers.Types.{RegisterWorkerResponse}
use spooled_sdk_go.Resources.Workers.Sends.{register-Sends, heartbeat-Sends, deregister-Sends}
use spooled_sdk_go.Worker.{
  Worker, starting, registered, register_failed, stop_finished, job_returns, renew_job_lease,
  update_progress, send_worker_heartbeat,
}
use spooled_sdk_go.Worker.Steps.{
  starts, registration_fails, registers_as, stop_finishes, renews_lease, progresses, beats, here,
  then_, has_job,
}
use spooled_sdk_go.Worker.Steps
use spooled_sdk_go.Worker.Live.{
  Handled, gives, errs, after_call, start_live, finish_live, renew_live, progress_live, beat_live,
  end_stop_live, is_stopping, is_starting, is_accepted, register_answer,
}
use spooled_sdk_go.Worker.Live.Pending.{
  one, same-Asks, is_starting_lem, renew-pending, progress-pending, beat-pending, stopped-pending,
  is_stopping_lem, Asks, Goes,
}

module _ (api : Api) (hostname : Text) (metadata : JsonObject) ⦃c : Decodes ClaimJobsResponse⦄
    ⦃r : Decodes RegisterWorkerResponse⦄ ⦃l : Decodes RenewLeaseResponse⦄ where
  open api use {rt, transport}
  open rt use {World}

  abbrev pub Within : ℕ → Worker → State World → Worker × State World → Type 0
  Within k w s (v, s') = Goes w v × (sent s'.log ≤ sent s.log + k)

  pub after_call-Goes :
      {B : Type 0} (f : Answer B → Worker → Worker) (k : ℕ) (u w : Worker) (s : State World)
      (o : Option (Answer B × State World))
      → Returns (Sends api k s) o
      → ((a : Answer B) (s' : State World) → o ≡ some (a, s') → Goes u (f a w))
      → Returns (Within k u s) (after_call api hostname metadata f w o)
  unfolding after_call
  after_call-Goes f k u w s none h g = h
  after_call-Goes f k u w s (some (returns b, s')) h g = (g (returns b) s' refl, h.1)
  after_call-Goes f k u w s (some (fails e, s')) h g = (g (fails e) s' refl, h.1)
  after_call-Goes f k u w s (some (panics, s')) h g = absurd h.0

  module _ (n : ℕ) (m : transport.retry.max_retries ≡ pos n) (b : n + 1 < 2 ^ 63) where
    registered-Goes :
        (w : Worker) (a : Answer RegisterWorkerResponse)
        → Asks w.pending
        → w.state ≡ starting
        → Goes w (register_answer a w)
    unfolding register_answer registered register_failed
    registered-Goes w (returns resp) i e = (one (registers_as resp.id e), i)
    registered-Goes w (fails x) i e = (one (registration_fails e), i)
    registered-Goes w panics i e = (one (registration_fails e), i)

    pub start-Within :
        (w : Worker) (s : State World)
        → Asks w.pending
        → Returns (Within 2 w s) (start_live api hostname metadata w s)
    unfolding start_live
    start-Within w s i = elim (Bool-cases (is_starting w.state)) [
      | inr e ↦ rw e ((here, i), omega arith)
      | inl e ↦ rw e (
          after_call-Goes register_answer 2 w w s _ (register-Sends api n m b _ s)
            (λ a s' _. registered-Goes w a i (is_starting_lem w.state e)))
    ]

    pub finish-Within :
        (id : Text) (h : Handled) (w : Worker) (s : State World)
        → Asks w.pending
        → has_job id w.jobs_running ≡ true
        → Returns (Within 2 w s) (finish_live api hostname metadata id h w s)
    unfolding finish_live job_returns
    finish-Within id (gives x) w s i j =
        after_call-Goes (λ a. job_returns id false) 2 w w s _ (complete-Sends api n m b id _ s)
          (λ a s' _. (one (Steps.returns id false j), i))
    finish-Within id (errs x) w s i j =
        after_call-Goes (λ a. job_returns id true) 2 w w s _ (fail-Sends api n m b id _ s)
          (λ a s' _. (one (Steps.returns id true j), i))

    pub renew-Within :
        (id : Text) (w : Worker) (s : State World)
        → Asks w.pending
        → Returns (Within 2 w s) (renew_live api hostname metadata id w s)
    unfolding renew_live
    renew-Within id w s i =
        after_call-Goes (λ a. renew_job_lease id (is_accepted a)) 2 w w s _
          (renew_lease-Sends api n m b id _ s)
          (λ a s' _. (
            one (renews_lease id (is_accepted a)),
            same-Asks (renew-pending id (is_accepted a) w) i,
          ))

    pub progress-Within :
        (id : Text) (req : UpdateProgressRequest) (w : Worker) (s : State World)
        → Asks w.pending
        → Returns (Within 2 w s) (progress_live api hostname metadata id req w s)
    unfolding progress_live
    progress-Within id req w s i =
        after_call-Goes (λ a. update_progress id (is_accepted a)) 2 w w s _
          (update_progress-Sends api n m b id req s)
          (λ a s' _. (
            one (progresses id (is_accepted a)),
            same-Asks (progress-pending id (is_accepted a) w) i,
          ))

    pub beat-Within :
        (w : Worker) (s : State World)
        → Asks w.pending
        → Returns (Within 2 w s) (beat_live api hostname metadata w s)
    unfolding beat_live
    beat-Within w s i = elim (Bool-cases (is_empty w.worker_id)) [
      | inl e ↦ rw e ((here, i), omega arith)
      | inr e ↦ rw e (
          after_call-Goes (λ a. send_worker_heartbeat (is_accepted a)) 2 w w s _
            (heartbeat-Sends api n m b w.worker_id _ s)
            (λ a s' _. (one (beats (is_accepted a)), same-Asks (beat-pending (is_accepted a) w) i)))
    ]

    pub end_stop-Within :
        (w : Worker) (s : State World)
        → Asks w.pending
        → Returns (Within (n + 2) w s) (end_stop_live api hostname metadata w s)
    unfolding end_stop_live
    end_stop-Within w s i = elim (Bool-cases (is_stopping w.state)) [
      | inr e ↦ rw e ((here, i), omega arith)
      | inl e ↦ rw e (
          let goes : Goes w (stop_finished w) =
            (one (stop_finishes (is_stopping_lem w.state e)), same-Asks (stopped-pending w) i) in
          elim (Bool-cases (is_empty w.worker_id)) [
            | inl f ↦ rw f (goes, omega arith)
            | inr f ↦ rw f (
                after_call-Goes (λ a. stop_finished) (n + 2) w w s _
                  (deregister-Sends api n m b w.worker_id s) (λ a s' _. goes))
          ])
    ]
