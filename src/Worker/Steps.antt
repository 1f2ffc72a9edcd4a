-- ===== src/Worker/Steps.antt =====
-- The orders in which the goroutines of a worker may act.
use spooled_sdk_go.Common.{
  ◌≡◌, Bool, true, false, if◌then◌else◌, [], ◌∷◌, none, some, ℤ, pos, leb_ℤ, length, Text, List,
  text_eq,
}
use spooled_sdk_go.Worker.{
  Worker, is_idle, context_ends, starting, stopping, process, start, register_failed, registered,
  stop, stop_finished, poll, claim_failed, claim_answered, job_begins, job_returns, renew_job_lease,
  update_progress, send_worker_heartbeat,
}

-- The job's goroutine is there.
abbrev pub has_job : Text → List Text → Bool
has_job k [] = false
has_job k (j ∷ js) = let rest = has_job k js in if text_eq j k then true else rest

-- A premise says that the goroutine that acts is at that point. The API gives a worker at most as
-- many jobs as it asked for.
pub data Step (w : Worker) : Worker → Type 0 where
  processes : Step w (process w)
  starts : Step w (start w).1
  ends_context : is_idle w.state ≡ false → Step w (context_ends w)
  registration_fails : w.state ≡ starting → Step w (register_failed w)
  registers_as : (id : Text) → w.state ≡ starting → Step w (registered id w)
  stops : Step w (stop w)
  stop_finishes : w.state ≡ stopping → Step w (stop_finished w)
  polls : w.pending ≡ none → Step w (poll w)
  claim_fails : (limit : ℤ) → w.pending ≡ some limit → Step w (claim_failed w)
  claim_answers :
      (limit : ℤ) (ids : List Text)
      → w.pending ≡ some limit
      → leb_ℤ (pos (length ids)) limit ≡ true
      → Step w (claim_answered ids w)
  begins : (id : Text) → has_job id w.jobs_running ≡ true → Step w (job_begins id w)
  returns :
      (id : Text) (failed : Bool)
      → has_job id w.jobs_running ≡ true
      → Step w (job_returns id failed w)
  renews_lease : (id : Text) (accepted : Bool) → Step w (renew_job_lease id accepted w)
  progresses : (id : Text) (accepted : Bool) → Step w (update_progress id accepted w)
  beats : (accepted : Bool) → Step w (send_worker_heartbeat accepted w)

pub data Reach (w : Worker) : Worker → Type 0 where
  here : Reach w w
  then_ : {u v : Worker} → Reach w u → Step u v → Reach w v
