-- ===== src/Examples/LiveWorkers.antt =====
-- The worker of worker/worker.go with its calls of the API at a concrete input: a server that answers.
use spooled_sdk_go.Common.{
  ◌+◌, ℕ, ℤ, pos, negsuc, leb_ℤ, ◌≡◌, true, false, Option, subst, inl, inr, Option-cases, ◌≤◌, refl,
  none, some, List, [], ◌∷◌, length, lit, arith, Returns,
}
use spooled_sdk_go.Transport.{State}
use spooled_sdk_go.Runtime.{Runtime, replied}
use spooled_sdk_go.Resources.{Api, Decodes}
use spooled_sdk_go.Resources.Workers.Types.{RegisterWorkerResponse}
use spooled_sdk_go.Transport.Once.{Result, ok, err}
use spooled_sdk_go.Resources.Values.{Json}
use spooled_sdk_go.Transport.Rounds.{sent}
use spooled_sdk_go.Transport.Loop.{Outcome}
use spooled_sdk_go.Resources.{
  Answer, returns, fails, perform, and_then, decode_response, json_any, remarshal, base_post,
}
use spooled_sdk_go.Resources.Jobs.{claim}
use spooled_sdk_go.Resources.Jobs.Types.{ClaimJobsResponse}
use spooled_sdk_go.Worker.{new_worker, with_defaults}
use spooled_sdk_go.Worker.Steps.{Reach}
use spooled_sdk_go.Worker.Live.{
  Act, process_, start_, register_, poll_, claim_, beat, stop_, end_stop, finish_job, gives, act,
  acts, job_ids,
}
use spooled_sdk_go.Worker.Live.Refines.{KeepsLimit, cost, total_cost, live_refines}
use spooled_sdk_go.Examples.Requests.{dead_network, some_transport, fresh_state}
use spooled_sdk_go.Examples.Calls.{some_packages}
use spooled_sdk_go.Examples.Clients.{lease_decoder}
use spooled_sdk_go.Examples.Workers.{some_options}

-- Every request is answered, a registration with an id and a claim with one job.
abbrev answering : Runtime
answering = record dead_network { client_do = λ h w. (replied 200 (lit "{}") (λ name. []), w + 1) }

abbrev answering_api : Api
answering_api = record { rt = answering; packages = some_packages; transport = some_transport }

abbrev one_job : ClaimJobsResponse
one_job = record {
  jobs = some (
      record {
        id = lit "j1";
        queue_name = lit "emails";
        payload = none;
        retry_count = pos 0;
        max_retries = pos 3;
        timeout_seconds = pos 60;
        lease_expires_at = none;
      }
      ∷ []);
}

instance abbrev one_job_decoder : Decodes ClaimJobsResponse
one_job_decoder = record { unmarshal = λ text. ok one_job }

instance abbrev id_decoder : Decodes RegisterWorkerResponse
id_decoder = record {
  unmarshal = λ text. ok (record {
    id = lit "w1";
    queue_name = lit "emails";
    lease_duration_secs = pos 30;
    heartbeat_interval_secs = pos 15;
  });
}

abbrev some_acts : List Act
some_acts =
    process_
    ∷ start_
    ∷ register_
    ∷ poll_
    ∷ beat
    ∷ claim_
    ∷ finish_job (lit "j1") (gives none)
    ∷ stop_
    ∷ end_stop
    ∷ []

-- The call returned no result, or one job.
abbrev IsSmall : Option (Answer ClaimJobsResponse × State ℕ) → Type 0
IsSmall (some (returns resp, s)) = length (job_ids resp.jobs) ≤ 1
IsSmall _ = Unit

decoded-IsSmall :
    (v : Result Json) (s : State ℕ)
    → IsSmall (some (elim v [ ok v ↦ remarshal answering_api v | err e ↦ fails e ], s))
unfolding remarshal
decoded-IsSmall (ok v) s = omega arith
decoded-IsSmall (err e) s = tt

call-IsSmall :
    (o : Outcome) (s : State ℕ)
    → IsSmall (and_then answering_api (decode_response answering_api) (some (o, s)))
unfolding and_then decode_response
call-IsSmall o s = elim (Option-cases o.error) [
  | inr (x, e) ↦ rw (e, and_then) tt
  | inl e ↦ elim (Option-cases o.response) [
    | inl f ↦ rw (e, and_then, f) tt
    | inr (resp, f) ↦ rw (e, and_then, f) (decoded-IsSmall (json_any answering_api resp) s)
  ]
]

small :
    (r : Option (Outcome × State ℕ)) (resp : ClaimJobsResponse) (s' : State ℕ)
    → and_then answering_api (decode_response answering_api) r ≡ some (returns resp, s')
    → length (job_ids resp.jobs) ≤ 1
unfolding and_then
small none resp s' e = cc
small (some (o, s)) resp s' e = subst IsSmall e (call-IsSmall o s)

at_least_one :
    (n : ℕ) (limit : ℤ) → leb_ℤ limit (pos 0) ≡ false → n ≤ 1 → leb_ℤ (pos n) limit ≡ true
at_least_one n (pos k) h l = ground (arith, h, l)
at_least_one n (negsuc k) h l = ground (arith, h)

answering-KeepsLimit : KeepsLimit answering_api
unfolding claim base_post perform
answering-KeepsLimit = record {
  few = λ req limit resp s s' _ h e.
      at_least_one (length (job_ids resp.jobs)) limit h (small _ resp s' e);
}

live_refines_example :
    Returns
      (λ r.
        Reach (new_worker some_options) r.0
        × (length r.0.jobs_running ≤ 2)
        × (sent r.1.log ≤ sent fresh_state.log + total_cost 3 some_acts)
        × Returns
            (λ u. Reach r.0 u.0 × (sent u.1.log ≤ sent r.1.log + cost 3 beat))
            (act answering_api (lit "host") none beat r.0 r.1))
      (acts answering_api (lit "host") none some_acts (new_worker some_options) fresh_state)
unfolding with_defaults
live_refines_example =
    live_refines answering_api (lit "host") none 3 refl (omega arith) some_options 2 some_acts beat
      fresh_state answering-KeepsLimit refl
