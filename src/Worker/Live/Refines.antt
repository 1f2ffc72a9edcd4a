-- ===== src/Worker/Live/Refines.antt =====
-- The worker with its calls of the API does nothing but the steps of `Worker.Steps`.
use spooled_sdk_go.Common.{
  ℕ, Option, ◌+◌, ◌≤◌, ◌<◌, ◌^◌, ◌≡◌, refl, subst, inl, inr, true, none, some, ℤ, pos, leb_ℤ,
  length, Text, List, [], ◌∷◌, arith, Bool-cases, Option-cases, Returns, Returns-mono, false,
  if◌then◌else◌,
}
use spooled_sdk_go.Transport.{State}
use spooled_sdk_go.Transport.Rounds.{sent}
use spooled_sdk_go.Resources.Values.{JsonObject}
use spooled_sdk_go.Resources.{Api, Decodes, Answer, returns, fails, panics}
use spooled_sdk_go.Resources.Jobs.{claim}
use spooled_sdk_go.Resources.Jobs.Types.{ClaimJobsRequest, ClaimJobsResponse, RenewLeaseResponse}
use spooled_sdk_go.Resources.Jobs.Sends.{claim-Sends}
use spooled_sdk_go.Resources.Workers.Types.{RegisterWorkerResponse}
use spooled_sdk_go.Worker.{
  Worker, Options, new_worker, with_defaults, process, claim_failed, claim_answered, is_idle,
  context_ends,
}
use spooled_sdk_go.Worker.Steps.{
  processes, starts, ends_context, stops, polls, claim_fails, claim_answers, Reach, here, has_job,
}
use spooled_sdk_go.Worker.Capacity.{jobs-le-concurrency}
use spooled_sdk_go.Worker.Live.{
  job_ids, Act, process_, start_, register_, end_context, poll_, claim_, begin_poll, stop_,
  end_stop, beat, finish_job, renew, progress, poll_live, act, acts, claim_request, claim_answer,
}
use spooled_sdk_go.Worker.Live.Pending.{
  Reach-trans, one, start-pending, stop-pending, process_jobs-pending, new_worker-Asks, poll-Asks,
  same-Asks, Asks, Goes,
}
use spooled_sdk_go.Worker.Live.Acts.{
  Within, after_call-Goes, start-Within, finish-Within, renew-Within, progress-Within, beat-Within,
  end_stop-Within,
}

-- The requests that an act may send, with n retries.
abbrev pub cost : ℕ → Act → ℕ
cost n process_ = 0
cost n stop_ = 0
cost n start_ = 0
cost n poll_ = 0
cost n end_context = 0
cost n end_stop = n + 2
cost n _ = 2

abbrev pub total_cost : ℕ → List Act → ℕ
total_cost n [] = 0
total_cost n (a ∷ rest) = cost n a + total_cost n rest

module _ (api : Api) ⦃c : Decodes ClaimJobsResponse⦄ where
  open api use {rt}
  open rt use {World}

  -- The API gives at most as many jobs as a claim for one or more jobs asks for.
  pub record KeepsLimit : Type 0 where
    pub few :
        (req : ClaimJobsRequest) (limit : ℤ) (resp : ClaimJobsResponse) (s s' : State World)
        → req.limit ≡ some limit
        → leb_ℤ limit (pos 0) ≡ false
        → claim api req s ≡ some (returns resp, s')
        → leb_ℤ (pos (length (job_ids resp.jobs))) limit ≡ true

module _ (api : Api) (hostname : Text) (metadata : JsonObject) ⦃c : Decodes ClaimJobsResponse⦄
    ⦃r : Decodes RegisterWorkerResponse⦄ ⦃l : Decodes RenewLeaseResponse⦄ where
  open api use {rt, transport}
  open rt use {World}

  module _ (n : ℕ) (m : transport.retry.max_retries ≡ pos n) (b : n + 1 < 2 ^ 63) where
    claimed-Goes :
        (w : Worker) (limit : ℤ) (a : Answer ClaimJobsResponse) (s s' : State World)
        → KeepsLimit api
        → w.pending ≡ some limit
        → leb_ℤ limit (pos 0) ≡ false
        → claim api (claim_request api hostname metadata w limit) s ≡ some (a, s')
        → Goes w (claim_answer a w)
    unfolding claim_answer claim_failed claim_answered
    claimed-Goes w limit (returns resp) s s' k e i q = (
      one (
          claim_answers limit (job_ids resp.jobs) e
            (k.few (claim_request api hostname metadata w limit) limit resp s s' refl i q)),
      same-Asks (process_jobs-pending (job_ids resp.jobs) (record w { pending = none })) tt,
    )
    claimed-Goes w limit (fails x) s s' k e i q = (one (claim_fails limit e), tt)
    claimed-Goes w limit panics s s' k e i q = (one (claim_fails limit e), tt)

    poll-Within :
        (p : Option ℤ) (w : Worker) (s : State World)
        → KeepsLimit api
        → w.pending ≡ p
        → Asks w.pending
        → Returns (Within api hostname metadata 2 w s) (poll_live api hostname metadata p w s)
    unfolding poll_live
    poll-Within none w s k e i = ((here, i), omega arith)
    poll-Within (some limit) w s k e i =
        after_call-Goes api hostname metadata claim_answer 2 w w s _
          (claim-Sends api n m b (claim_request api hostname metadata w limit) s)
          (λ a s' q. claimed-Goes w limit a s s' k e (subst Asks e i) q)

    begin_poll-Goes :
        (p : Option ℤ) (w : Worker) → w.pending ≡ p → Asks w.pending → Goes w (begin_poll p w)
    unfolding begin_poll
    begin_poll-Goes none w e i = (one (polls e), poll-Asks w i)
    begin_poll-Goes (some limit) w e i = (here, i)

    end_context-Goes :
        (w : Worker) → Asks w.pending → Goes w (if is_idle w.state then w else context_ends w)
    unfolding context_ends
    end_context-Goes w i = elim (Bool-cases (is_idle w.state)) [
      | inl e ↦ rw e (here, i)
      | inr e ↦ rw e (one (ends_context e), i)
    ]

    act-Within :
        (a : Act) (w : Worker) (s : State World)
        → KeepsLimit api
        → Asks w.pending
        → Returns (Within api hostname metadata (cost n a) w s) (act api hostname metadata a w s)
    unfolding act process
    act-Within process_ w s k i = ((one processes, i), omega arith)
    act-Within start_ w s k i = ((one starts, same-Asks (start-pending w) i), omega arith)
    act-Within register_ w s k i = start-Within api hostname metadata n m b w s i
    act-Within end_context w s k i = (end_context-Goes w i, omega arith)
    act-Within poll_ w s k i = (begin_poll-Goes w.pending w refl i, omega arith)
    act-Within claim_ w s k i = poll-Within w.pending w s k refl i
    act-Within stop_ w s k i = ((one stops, same-Asks (stop-pending w) i), omega arith)
    act-Within end_stop w s k i = end_stop-Within api hostname metadata n m b w s i
    act-Within beat w s k i = beat-Within api hostname metadata n m b w s i
    act-Within (finish_job id h) w s k i = elim (Bool-cases (has_job id w.jobs_running)) [
      | inl j ↦ rw j (finish-Within api hostname metadata n m b id h w s i j)
      | inr j ↦ rw j ((here, i), omega arith)
    ]
    act-Within (progress id req) w s k i = progress-Within api hostname metadata n m b id req w s i
    act-Within (renew id) w s k i = renew-Within api hostname metadata n m b id w s i

    acts-Within :
        (more : List Act) (w : Worker) (s : State World)
        → KeepsLimit api
        → Asks w.pending
        → Returns
            (Within api hostname metadata (total_cost n more) w s)
            (acts api hostname metadata more w s)
    unfolding acts
    acts-Within [] w s k i = ((here, i), omega arith)
    acts-Within (a ∷ more) w s k i =
        let h = act-Within a w s k i in
        elim (Option-cases (act api hostname metadata a w s)) [
          | inl e ↦ absurd (subst (Returns (Within api hostname metadata (cost n a) w s)) e h)
          | inr ((v, s'), e) ↦
              let ((q, j), x) = subst (Returns (Within api hostname metadata (cost n a) w s)) e h in
              rw (e, acts)
                (Returns-mono (Within api hostname metadata (total_cost n more) v s')
                  (Within api hostname metadata (cost n a + total_cost n more) w s)
                  (acts api hostname metadata more v s')
                  (λ (u, s'') ((q', j'), x'). ((Reach-trans q q', j'), omega (arith, x, x')))
                  (acts-Within more v s' k j))
        ]

    -- A worker that calls the API through the transport, with n retries (n + 1 within an `int`) and
    -- an API that gives at most as many jobs as a claim for one or more jobs asks for. Its acts are
    -- taken in any order, one at a time: a call of the API and what follows it are one act, and the
    -- calls that `Start` and `poll` get to are acts of their own, which may come after others. From a
    -- new worker any list of acts ends, has been a sequence of steps of the worker, so that it has at
    -- most as many jobs as its concurrency k, and has sent at most the acts' total cost. One more act
    -- then ends too, is again a sequence of steps, and sends at most what it costs: two requests,
    -- n + 2 for the end of a stop, and none for an act that makes no call.
    pub live_refines :
        (o : Options) (k : ℕ) (more : List Act) (a : Act) (s : State World)
        → KeepsLimit api
        → (with_defaults o).concurrency ≡ pos k
        → Returns
            (λ r.
              Reach (new_worker o) r.0
              × (length r.0.jobs_running ≤ k)
              × (sent r.1.log ≤ sent s.log + total_cost n more)
              × Returns
                  (λ u. Reach r.0 u.0 × (sent u.1.log ≤ sent r.1.log + cost n a))
                  (act api hostname metadata a r.0 r.1))
            (acts api hostname metadata more (new_worker o) s)
    live_refines o k more a s keeps e =
        Returns-mono (Within api hostname metadata (total_cost n more) (new_worker o) s) _
          (acts api hostname metadata more (new_worker o) s)
          (λ (w, s') ((q, i), x). (
            q,
            (jobs-le-concurrency o k w e q).1,
            x,
            Returns-mono (Within api hostname metadata (cost n a) w s') _
                (act api hostname metadata a w s') (λ u ((q', _), x'). (q', x'))
                (act-Within a w s' keeps i),
          ))
          (acts-Within more (new_worker o) s keeps (new_worker-Asks o))
