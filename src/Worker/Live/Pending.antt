-- ===== src/Worker/Live/Pending.antt =====
-- What the acts of the worker's goroutines do to the claim that is pending.
use spooled_sdk_go.Common.{
  ◌≡◌, refl, sym, subst, Bool, true, false, Option, none, some, ℤ, pos, leb_ℤ, Text, List, [], ◌∷◌,
  arith,
}
use spooled_sdk_go.Worker.{
  Worker, WorkerState, Options, idle, starting, running, stopping, stopped, errored, new_worker,
  poll, start, stop, stop_finished, process_job, process_jobs, renew_job_lease, update_progress,
  send_worker_heartbeat,
}
use spooled_sdk_go.Worker.Steps.{Step, Reach, here, then_}
use spooled_sdk_go.Worker.Live.{is_stopping, is_starting}

pub Reach-trans : {u v w : Worker} → Reach u v → Reach v w → Reach u w
Reach-trans r here = r
Reach-trans r (then_ q st) = then_ (Reach-trans r q) st

pub one : {w v : Worker} → Step w v → Reach w v
one st = then_ here st

pub start-error : (w : Worker) → ((start w).0 ≡ none) → (start w).1.state ≡ starting
unfolding start
start-error w h = ground (arith, h)

pub start-pending : (w : Worker) → (start w).1.pending ≡ w.pending
unfolding start
start-pending w = ground arith

pub renew-pending :
    (id : Text) (a : Bool) (w : Worker) → (renew_job_lease id a w).pending ≡ w.pending
unfolding renew_job_lease
renew-pending id a w = ground arith

pub progress-pending :
    (id : Text) (a : Bool) (w : Worker) → (update_progress id a w).pending ≡ w.pending
unfolding update_progress
progress-pending id a w = ground arith

pub beat-pending : (a : Bool) (w : Worker) → (send_worker_heartbeat a w).pending ≡ w.pending
unfolding send_worker_heartbeat
beat-pending a w = ground arith

pub stopped-pending : (w : Worker) → (stop_finished w).pending ≡ w.pending
unfolding stop_finished
stopped-pending w = ground arith

pub stop-pending : (w : Worker) → (stop w).pending ≡ w.pending
unfolding stop
stop-pending w = ground arith

pub is_stopping_lem : (u : WorkerState) → is_stopping u ≡ true → u ≡ stopping
is_stopping_lem stopping h = refl
is_stopping_lem idle h = cc
is_stopping_lem starting h = cc
is_stopping_lem running h = cc
is_stopping_lem stopped h = cc
is_stopping_lem errored h = cc

pub process_jobs-pending : (ids : List Text) (w : Worker) → (process_jobs ids w).pending ≡ w.pending
unfolding process_jobs process_job
process_jobs-pending [] w = refl
process_jobs-pending (id ∷ ids) w = process_jobs-pending ids (process_job id w)

pub is_starting_lem : (u : WorkerState) → is_starting u ≡ true → u ≡ starting
is_starting_lem starting h = refl
is_starting_lem stopping h = cc
is_starting_lem idle h = cc
is_starting_lem running h = cc
is_starting_lem stopped h = cc
is_starting_lem errored h = cc

-- A claim that is pending asks for at least one job.
abbrev pub Asks : Option ℤ → Type 0
Asks none = Unit
Asks (some limit) = leb_ℤ limit (pos 0) ≡ false

pub new_worker-Asks : (o : Options) → Asks (new_worker o).pending
unfolding new_worker
new_worker-Asks o = tt

pub poll-Asks : (w : Worker) → Asks w.pending → Asks (poll w).pending
unfolding poll
poll-Asks w h = ground (arith, h)

pub same-Asks : {p q : Option ℤ} → p ≡ q → Asks q → Asks p
same-Asks e h = subst Asks (sym e) h

-- An act takes the worker along its steps.
abbrev pub Goes : Worker → Worker → Type 0
Goes w v = Reach w v × Asks v.pending
