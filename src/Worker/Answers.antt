-- ===== src/Worker/Answers.antt =====
-- How a worker answers the jobs that it has claimed.
use spooled_sdk_go.Common.{
  ℕ, ◌+◌, ◌≡◌, Bool, true, false, none, Text, List, [], ◌∷◌, arith, text_eq, text_eq_iff,
  if◌then◌else◌,
}
use spooled_sdk_go.Worker.{
  context_ends, Worker, Effect, emits, completes, fails, job_claimed, process, start,
  register_failed, registered, stop, stop_finished, poll, claim_failed, claim_answered, process_job,
  process_jobs, job_begins, job_returns, renew_job_lease, update_progress, send_worker_heartbeat,
  remove_job,
}
use spooled_sdk_go.Worker.Steps.{
  Step, ends_context, processes, starts, registration_fails, registers_as, stops, stop_finishes,
  polls, claim_fails, claim_answers, begins, returns, renews_lease, progresses, beats, has_job,
}

-- One if the texts are the same.
abbrev pub same : Text → Text → ℕ
same j id = if text_eq j id then 1 else 0

-- How often the API gave the job to the worker, and how often the worker answered it.
abbrev pub claim_of : Text → Effect → ℕ
claim_of id (emits (job_claimed j)) = same j id
claim_of id _ = 0

abbrev pub answer_of : Text → Effect → ℕ
answer_of id (completes j) = same j id
answer_of id (fails j) = same j id
answer_of id _ = 0

unfoldable pub claimed : Text → List Effect → ℕ
claimed id [] = 0
claimed id (e ∷ es) = claim_of id e + claimed id es

unfoldable pub answered : Text → List Effect → ℕ
answered id [] = 0
answered id (e ∷ es) = answer_of id e + answered id es

-- The goroutines of a job.
unfoldable pub copies : Text → List Text → ℕ
copies id [] = 0
copies id (j ∷ js) = same j id + copies id js

-- Each time that the job was given it has been answered, or has a goroutine.
abbrev IsAnswered : Text → Worker → Type 0
IsAnswered id w = claimed id w.log ≡ answered id w.log + copies id w.jobs_running

copies-remove_job :
    (id k : Text) (js : List Text)
    → has_job k js ≡ true
    → copies id (remove_job k js) + same k id ≡ copies id js
unfolding copies remove_job
copies-remove_job id k [] h = ground arith
copies-remove_job id k (j ∷ js) h =
    ground (arith, copies-remove_job id k js, text_eq_iff j k, text_eq_iff j id, text_eq_iff k id)

process_jobs-IsAnswered :
    (id : Text) (ids : List Text) (w : Worker)
    → IsAnswered id w
    → IsAnswered id (process_jobs ids w)
unfolding process_jobs process_job claimed answered copies
process_jobs-IsAnswered id [] w h = h
process_jobs-IsAnswered id (j ∷ ids) w h =
    process_jobs-IsAnswered id ids (process_job j w) (omega (arith, h))

job_returns-IsAnswered :
    (id k : Text) (failed : Bool) (w : Worker)
    → has_job k w.jobs_running ≡ true
    → IsAnswered id w
    → IsAnswered id (job_returns k failed w)
unfolding job_returns claimed answered
job_returns-IsAnswered id k true w j h = omega (arith, h, copies-remove_job id k w.jobs_running j)
job_returns-IsAnswered id k false w j h = omega (arith, h, copies-remove_job id k w.jobs_running j)

start-IsAnswered : (id : Text) (w : Worker) → IsAnswered id w → IsAnswered id (start w).1
unfolding start claimed answered
start-IsAnswered id w h = ground arith

stop-IsAnswered : (id : Text) (w : Worker) → IsAnswered id w → IsAnswered id (stop w)
unfolding stop claimed answered
stop-IsAnswered id w h = ground arith

stop_finished-IsAnswered :
    (id : Text) (w : Worker) → IsAnswered id w → IsAnswered id (stop_finished w)
unfolding stop_finished claimed answered
stop_finished-IsAnswered id w h = ground arith

poll-IsAnswered : (id : Text) (w : Worker) → IsAnswered id w → IsAnswered id (poll w)
unfolding poll claimed answered
poll-IsAnswered id w h = ground arith

lease-IsAnswered :
    (id k : Text) (a : Bool) (w : Worker) → IsAnswered id w → IsAnswered id (renew_job_lease k a w)
unfolding renew_job_lease claimed answered
lease-IsAnswered id k a w h = ground arith

progress-IsAnswered :
    (id k : Text) (a : Bool) (w : Worker) → IsAnswered id w → IsAnswered id (update_progress k a w)
unfolding update_progress claimed answered
progress-IsAnswered id k a w h = ground arith

heartbeat-IsAnswered :
    (id : Text) (a : Bool) (w : Worker)
    → IsAnswered id w
    → IsAnswered id (send_worker_heartbeat a w)
unfolding send_worker_heartbeat claimed answered
heartbeat-IsAnswered id a w h = ground arith

pub Step-IsAnswered : (id : Text) {w v : Worker} → Step w v → IsAnswered id w → IsAnswered id v
unfolding process register_failed registered claim_failed claim_answered job_begins claimed answered
    context_ends copies
Step-IsAnswered id processes h = h
Step-IsAnswered id {w} starts h = start-IsAnswered id w h
Step-IsAnswered id (ends_context s) h = h
Step-IsAnswered id (registration_fails s) h = h
Step-IsAnswered id (registers_as k s) h = omega (arith, h)
Step-IsAnswered id {w} stops h = stop-IsAnswered id w h
Step-IsAnswered id {w} (stop_finishes s) h = stop_finished-IsAnswered id w h
Step-IsAnswered id {w} (polls p) h = poll-IsAnswered id w h
Step-IsAnswered id (claim_fails l p) h = omega (arith, h)
Step-IsAnswered id {w} (claim_answers l ids p b) h =
    process_jobs-IsAnswered id ids (record w { pending = none }) h
Step-IsAnswered id (begins k j) h = omega (arith, h)
Step-IsAnswered id {w} (returns k failed j) h = job_returns-IsAnswered id k failed w j h
Step-IsAnswered id {w} (renews_lease k a) h = lease-IsAnswered id k a w h
Step-IsAnswered id {w} (progresses k a) h = progress-IsAnswered id k a w h
Step-IsAnswered id {w} (beats a) h = heartbeat-IsAnswered id a w h
