-- ===== src/Worker/Lifecycle.antt =====
-- The states of a worker, and what `stopOnce` does to them.
use spooled_sdk_go.Common.{
  ◌≡◌, refl, ◌∙◌, ◌≢◌, ◌⊎◌, Bool, true, false, Text, List, [], ◌∷◌, none, arith,
}
use spooled_sdk_go.Worker.{
  WorkerState, idle, starting, running, stopping, stopped, errored, Worker, context_ends, process,
  start, register_failed, registered, stop, stop_finished, poll, claim_failed, claim_answered,
  process_job, process_jobs, job_begins, job_returns, renew_job_lease, update_progress,
  send_worker_heartbeat,
}
use spooled_sdk_go.Worker.Steps.{
  Step, processes, starts, ends_context, registration_fails, registers_as, stops, stop_finishes,
  polls, claim_fails, claim_answers, begins, returns, renews_lease, progresses, beats, Reach, here,
  then_,
}

-- The diagram of the states.
infix 40 ◌⟶◌
pub data ◌⟶◌ : WorkerState → WorkerState → Type 0 where
  stay : {s : WorkerState} → s ⟶ s
  begin : idle ⟶ starting
  run : starting ⟶ running
  fail : starting ⟶ errored
  quit : running ⟶ stopping
  end : stopping ⟶ stopped

edge_of : {s u v : WorkerState} → s ≡ u → u ⟶ v → s ⟶ v
edge_of {v = v} e h = rw e h

edge_between : {s u v z : WorkerState} → s ≡ u → z ≡ v → u ⟶ v → s ⟶ z
edge_between e f h = rw (e, f) h

same_state : (s u : WorkerState) → u ≡ s → s ⟶ u
same_state s u e = rw e stay

start-edge : (w : Worker) → w.state ⟶ (start w).1.state
unfolding start
start-edge w = grind (arith, stay, begin)

stop-edge : (w : Worker) → w.state ⟶ (stop w).state
unfolding stop
stop-edge w = grind (arith, stay, quit)

poll-state : (w : Worker) → (poll w).state ≡ w.state
unfolding poll
poll-state w = ground arith

process_jobs-keeps :
    (ids : List Text) (w : Worker)
    → ((process_jobs ids w).state ≡ w.state)
      × ((process_jobs ids w).stop_used ≡ w.stop_used)
      × ((process_jobs ids w).cancelled ≡ w.cancelled)
unfolding process_jobs process_job
process_jobs-keeps [] w = (refl, refl, refl)
process_jobs-keeps (id ∷ ids) w = process_jobs-keeps ids (process_job id w)

job_returns-state :
    (id : Text) (failed : Bool) (w : Worker) → (job_returns id failed w).state ≡ w.state
unfolding job_returns
job_returns-state id true w = refl
job_returns-state id false w = refl

renew_job_lease-state :
    (id : Text) (a : Bool) (w : Worker) → (renew_job_lease id a w).state ≡ w.state
unfolding renew_job_lease
renew_job_lease-state id a w = ground arith

update_progress-flags :
    (id : Text) (a : Bool) (w : Worker)
    → ((update_progress id a w).state ≡ w.state)
      × ((update_progress id a w).stop_used ≡ w.stop_used)
      × ((update_progress id a w).cancelled ≡ w.cancelled)
unfolding update_progress
update_progress-flags id a w = (ground arith, ground arith, ground arith)

heartbeat-state : (a : Bool) (w : Worker) → (send_worker_heartbeat a w).state ≡ w.state
unfolding send_worker_heartbeat
heartbeat-state a w = ground arith

stop_finished-state : (w : Worker) → (stop_finished w).state ≡ stopped
unfolding stop_finished
stop_finished-state w = ground arith

-- Every step of a worker follows an edge of the diagram, or leaves its state.
pub Step-⟶ : {w v : Worker} → Step w v → w.state ⟶ v.state
unfolding process context_ends register_failed registered claim_failed claim_answered job_begins
Step-⟶ processes = stay
Step-⟶ {w} starts = start-edge w
Step-⟶ (ends_context s) = stay
Step-⟶ (registration_fails s) = edge_of s fail
Step-⟶ (registers_as id s) = edge_of s run
Step-⟶ {w} stops = stop-edge w
Step-⟶ {w} (stop_finishes s) = edge_between s (stop_finished-state w) end
Step-⟶ {w} (polls p) = same_state w.state (poll w).state (poll-state w)
Step-⟶ (claim_fails l p) = stay
Step-⟶ {w} (claim_answers l ids p b) =
    same_state _ _ (process_jobs-keeps ids (record w { pending = none })).0
Step-⟶ (begins id j) = stay
Step-⟶ {w} (returns id failed j) = same_state _ _ (job_returns-state id failed w)
Step-⟶ {w} (renews_lease id a) = same_state _ _ (renew_job_lease-state id a w)
Step-⟶ {w} (progresses id a) = same_state _ _ (update_progress-flags id a w).0
Step-⟶ {w} (beats a) = same_state _ _ (heartbeat-state a w)

-- The states that a `Stop` that does its work leads to.
abbrev pub is_quitting : WorkerState → Bool
is_quitting stopping = true
is_quitting stopped = true
is_quitting _ = false

-- `stopOnce` is used up, and the worker was not stopped.
pub record IsUnstoppable (w : Worker) : Type 0 where
  pub used : w.stop_used ≡ true
  pub live : is_quitting w.state ≡ false

-- A step that changes neither field.
keeps_IsUnstoppable :
    (w v : Worker)
    → v.stop_used ≡ w.stop_used
    → v.state ≡ w.state
    → IsUnstoppable w
    → IsUnstoppable v
keeps_IsUnstoppable w v a b h = record { used = a ∙ h.used; live = rw b h.live }

start-IsUnstoppable : (w : Worker) → IsUnstoppable w → IsUnstoppable (start w).1
unfolding start
start-IsUnstoppable w h = ground arith

poll-used : (w : Worker) → (poll w).stop_used ≡ w.stop_used
unfolding poll
poll-used w = ground arith

other_flags :
    (id : Text) (a : Bool) (w : Worker)
    → ((job_returns id a w).stop_used ≡ w.stop_used)
      × ((renew_job_lease id a w).stop_used ≡ w.stop_used)
      × ((send_worker_heartbeat a w).stop_used ≡ w.stop_used)
unfolding job_returns renew_job_lease send_worker_heartbeat
other_flags id true w = (refl, refl, ground arith)
other_flags id false w = (refl, refl, ground arith)

stop-used : (w : Worker) → w.stop_used ≡ true → stop w ≡ w
unfolding stop
stop-used w h = ground arith

Step-IsUnstoppable : {w v : Worker} → Step w v → IsUnstoppable w → IsUnstoppable v
unfolding process context_ends register_failed registered claim_failed claim_answered job_begins
Step-IsUnstoppable {w} processes h = keeps_IsUnstoppable w _ refl refl h
Step-IsUnstoppable {w} starts h = start-IsUnstoppable w h
Step-IsUnstoppable {w} (ends_context s) h = keeps_IsUnstoppable w _ refl refl h
Step-IsUnstoppable (registration_fails s) h = record { used = h.used; live = refl }
Step-IsUnstoppable (registers_as id s) h = record { used = h.used; live = refl }
Step-IsUnstoppable {w} stops h = rw (stop-used w h.used) h
Step-IsUnstoppable {w} (stop_finishes s) h = absurd (ground (arith, h.live))
Step-IsUnstoppable {w} (polls p) h = keeps_IsUnstoppable w (poll w) (poll-used w) (poll-state w) h
Step-IsUnstoppable {w} (claim_fails l p) h = keeps_IsUnstoppable w _ refl refl h
Step-IsUnstoppable {w} (claim_answers l ids p b) h =
    let (s, u, _) = process_jobs-keeps ids (record w { pending = none }) in
    keeps_IsUnstoppable w _ u s h
Step-IsUnstoppable {w} (begins id j) h = keeps_IsUnstoppable w _ refl refl h
Step-IsUnstoppable {w} (returns id a j) h =
    let f = other_flags id a w in keeps_IsUnstoppable w _ f.0 (job_returns-state id a w) h
Step-IsUnstoppable {w} (renews_lease id a) h =
    let f = other_flags id a w in keeps_IsUnstoppable w _ f.1 (renew_job_lease-state id a w) h
Step-IsUnstoppable {w} (progresses id a) h =
    let f = update_progress-flags id a w in keeps_IsUnstoppable w _ f.1 f.0 h
Step-IsUnstoppable {w} (beats a) h =
    let f = other_flags [] a w in keeps_IsUnstoppable w _ f.2 (heartbeat-state a w) h

Reach-IsUnstoppable : {w v : Worker} → Reach w v → IsUnstoppable w → IsUnstoppable v
Reach-IsUnstoppable here h = h
Reach-IsUnstoppable (then_ r st) h = Step-IsUnstoppable st (Reach-IsUnstoppable r h)

early-IsUnstoppable :
    (w : Worker)
    → (w.state ≡ idle) ⊎ (w.state ≡ starting)
    → w.stop_used ≡ false
    → IsUnstoppable (stop w)
unfolding stop
early-IsUnstoppable w s u = ground arith

-- After a first call of `Stop` while the worker is idle or starting, `Stop` never stops it: whatever
-- follows, calls of `Start` and the end of its context included, it is never stopping or stopped, and
-- every further call of `Stop` changes nothing. (The end of the context given to `Start` still ends its
-- loops.)
pub early_stop_disables :
    (w v : Worker)
    → (w.state ≡ idle) ⊎ (w.state ≡ starting)
    → w.stop_used ≡ false
    → Reach (stop w) v
    → (v.state ≢ stopping) × (v.state ≢ stopped) × (stop v ≡ v)
early_stop_disables w v s u r =
    let h = Reach-IsUnstoppable r (early-IsUnstoppable w s u) in
    (λ e. ground (arith, h.live), λ e. ground (arith, h.live), stop-used v h.used)

last : {s u : WorkerState} → s ⟶ u → s ≡ stopped → u ≡ stopped
last stay e = e
last begin e = cc
last run e = cc
last fail e = cc
last quit e = cc
last end e = refl

Step-stopped : {w v : Worker} → Step w v → w.state ≡ stopped → v.state ≡ stopped
Step-stopped st e = last (Step-⟶ st) e

-- A stopped worker stays stopped: it can be started no more.
pub stopped_final : {w v : Worker} → w.state ≡ stopped → Reach w v → v.state ≡ stopped
stopped_final e here = e
stopped_final e (then_ r st) = Step-stopped st (stopped_final e r)
