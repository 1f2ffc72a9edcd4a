-- ===== src/Worker/Capacity.antt =====
-- How many jobs a worker has at once.
use spooled_sdk_go.Common.{ℕ, ◌≤◌, ◌≡◌, refl, ap, ◌∙◌, sym, Bool, pos, Text, length, arith}
use spooled_sdk_go.Worker.{
  context_ends, Options, Worker, new_worker, with_defaults, process, start, register_failed,
  registered, stop, stop_finished, claim_failed, job_begins, renew_job_lease, update_progress,
  send_worker_heartbeat,
}
use spooled_sdk_go.Worker.Steps.{
  Step, ends_context, processes, starts, registration_fails, registers_as, stops, stop_finishes,
  polls, claim_fails, claim_answers, begins, returns, renews_lease, progresses, beats, Reach, here,
  then_,
}
use spooled_sdk_go.Worker.Room.{
  HasRoom, Fits-le, poll-HasRoom, claim_answered-HasRoom, job_returns-HasRoom,
}

-- Steps that leave the counters and the pending claim.
record Keeps (w v : Worker) : Type 0 where
  same_limit : v.opts.concurrency ≡ w.opts.concurrency
  same_count : v.job_count ≡ w.job_count
  same_jobs : v.jobs_running ≡ w.jobs_running
  same_pending : v.pending ≡ w.pending

Keeps-HasRoom : (c : ℕ) (w v : Worker) → Keeps w v → HasRoom c w → HasRoom c v
Keeps-HasRoom c w v k h = record {
  limit = k.same_limit ∙ h.limit;
  counted = k.same_count ∙ h.counted ∙ sym (ap length k.same_jobs);
  fits = rw (k.same_count, k.same_pending) h.fits;
}

start-Keeps : (w : Worker) → Keeps w (start w).1
unfolding start
start-Keeps w = ground arith

stop-Keeps : (w : Worker) → Keeps w (stop w)
unfolding stop
stop-Keeps w = ground arith

stop_finished-Keeps : (w : Worker) → Keeps w (stop_finished w)
unfolding stop_finished
stop_finished-Keeps w = ground arith

renew_job_lease-Keeps : (id : Text) (a : Bool) (w : Worker) → Keeps w (renew_job_lease id a w)
unfolding renew_job_lease
renew_job_lease-Keeps id a w = ground arith

update_progress-Keeps : (id : Text) (a : Bool) (w : Worker) → Keeps w (update_progress id a w)
unfolding update_progress
update_progress-Keeps id a w = ground arith

heartbeat-Keeps : (a : Bool) (w : Worker) → Keeps w (send_worker_heartbeat a w)
unfolding send_worker_heartbeat
heartbeat-Keeps a w = ground arith

pub Step-HasRoom : (c : ℕ) {w v : Worker} → Step w v → HasRoom c w → HasRoom c v
unfolding process context_ends register_failed registered claim_failed job_begins
Step-HasRoom c processes h = record { limit = h.limit; counted = h.counted; fits = h.fits }
Step-HasRoom c {w} starts h = Keeps-HasRoom c w (start w).1 (start-Keeps w) h
Step-HasRoom c (ends_context s) h = record { limit = h.limit; counted = h.counted; fits = h.fits }
Step-HasRoom c (registration_fails s) h = record {
  limit = h.limit;
  counted = h.counted;
  fits = h.fits;
}
Step-HasRoom c (registers_as id s) h = record {
  limit = h.limit;
  counted = h.counted;
  fits = h.fits;
}
Step-HasRoom c {w} stops h = Keeps-HasRoom c w (stop w) (stop-Keeps w) h
Step-HasRoom c {w} (stop_finishes s) h =
    Keeps-HasRoom c w (stop_finished w) (stop_finished-Keeps w) h
Step-HasRoom c {w} (polls p) h = poll-HasRoom c w h
Step-HasRoom c {w} (claim_fails l p) h = record {
  limit = h.limit;
  counted = h.counted;
  fits = Fits-le w.job_count c w.pending h.fits;
}
Step-HasRoom c {w} (claim_answers l ids p b) h = claim_answered-HasRoom c w l ids p b h
Step-HasRoom c (begins id j) h = record { limit = h.limit; counted = h.counted; fits = h.fits }
Step-HasRoom c {w} (returns id failed j) h = job_returns-HasRoom c w id failed j h
Step-HasRoom c {w} (renews_lease id a) h =
    Keeps-HasRoom c w (renew_job_lease id a w) (renew_job_lease-Keeps id a w) h
Step-HasRoom c {w} (progresses id a) h =
    Keeps-HasRoom c w (update_progress id a w) (update_progress-Keeps id a w) h
Step-HasRoom c {w} (beats a) h =
    Keeps-HasRoom c w (send_worker_heartbeat a w) (heartbeat-Keeps a w) h

Reach-HasRoom : (c : ℕ) {w v : Worker} → Reach w v → HasRoom c w → HasRoom c v
Reach-HasRoom c here h = h
Reach-HasRoom c (then_ r st) h = Step-HasRoom c st (Reach-HasRoom c r h)

new_worker-HasRoom :
    (o : Options) (c : ℕ) → (with_defaults o).concurrency ≡ pos c → HasRoom c (new_worker o)
unfolding new_worker
new_worker-HasRoom o c e = record { limit = e; counted = refl; fits = omega arith }

-- If the API never gives a worker more jobs than it asked for (the worker does not check this:
-- `Step` has it as a premise of a claim's answer), then in every order of its goroutines' steps a
-- worker whose concurrency (5 if it is given as 0) is c counts exactly the jobs that it has, and
-- never has more than c.
pub jobs-le-concurrency :
    (o : Options) (c : ℕ) (w : Worker)
    → (with_defaults o).concurrency ≡ pos c
    → Reach (new_worker o) w
    → (w.job_count ≡ length w.jobs_running) × (length w.jobs_running ≤ c)
jobs-le-concurrency o c w e r =
    let h = Reach-HasRoom c r (new_worker-HasRoom o c e) in
    (h.counted, omega (arith, h.counted, Fits-le w.job_count c w.pending h.fits))
