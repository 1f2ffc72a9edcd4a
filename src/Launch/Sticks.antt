-- ===== src/Launch/Sticks.antt =====
-- What a failed `Start` leaves.
use spooled_sdk_go.Common.{
  ◌≡◌, ◌≢◌, refl, inl, inr, ◌↔◌, Bool, true, false, Option, none, some, Text, List, [], ◌∷◌, arith,
  Bool-cases,
}
use spooled_sdk_go.Worker.{
  Worker, idle, running, errored, new_worker, process, start, register_failed, registered, stop,
}
use spooled_sdk_go.Launch.{
  SpooledWorkerOptions, SpooledWorker, Registered, refused, accepted, start_worker, made_worker,
  worker_options, start_spooled, stop_spooled, process_spooled, SpooledCall, starts_with, stops_it,
  spooled_calls,
}

-- The worker could be made, and will not run.
abbrev pub IsStuck : SpooledWorker → Type 0
IsStuck sw = (w : Worker) × (sw.worker ≡ some w) × (w.state ≢ running)

abbrev pub is_accepted : Registered → Bool
is_accepted refused = false
is_accepted (accepted id) = true

made_worker-handled :
    (o : SpooledWorkerOptions)
    → o.has_handler ≡ true
    → made_worker o ≡ process (new_worker (worker_options o))
unfolding made_worker
made_worker-handled o h = rw (h, made_worker)

made_worker-unhandled :
    (o : SpooledWorkerOptions)
    → o.has_handler ≡ false
    → made_worker o ≡ new_worker (worker_options o)
unfolding made_worker
made_worker-unhandled o h = rw (h, made_worker)

idle_not_running : idle ≢ running
idle_not_running e = ground arith

errored_not_running : errored ≢ running
errored_not_running e = ground arith

-- How `Start` ends for a worker that no one started yet.
pub data Outcome (o : SpooledWorkerOptions) : Registered → Option Text × Worker → Type 0 where
  unhandled :
      {r : Registered} {e : Text} {w : Worker}
      → o.has_handler ≡ false
      → w.state ≢ running
      → Outcome o r (some e, w)
  unregistered :
      {e : Text} {w : Worker}
      → o.has_handler ≡ true
      → w.state ≢ running
      → Outcome o refused (some e, w)
  launched :
      {id : Text} {w : Worker}
      → o.has_handler ≡ true
      → w.state ≡ running
      → Outcome o (accepted id) (none, w)

start_worker-Outcome :
    (r : Registered) (o : SpooledWorkerOptions) → Outcome o r (start_worker r (made_worker o))
unfolding start_worker start process new_worker register_failed registered
start_worker-Outcome r o = elim (Bool-cases o.has_handler) [
  | inl h ↦ rw (made_worker-handled o h) (handled r o h)
  | inr h ↦ rw (made_worker-unhandled o h) (unhandled h idle_not_running)
]
  where
    handled :
        (r : Registered) (o : SpooledWorkerOptions)
        → o.has_handler ≡ true
        → Outcome o r (start_worker r (process (new_worker (worker_options o))))
    handled refused o h = unregistered h errored_not_running
    handled (accepted id) o h = launched h refl

-- `stop` leaves alone a worker that does not run, but for its mark that it was called.
stop_idle : (w : Worker) → w.state ≢ running → (stop w).state ≢ running
unfolding stop
stop_idle w n = ground (arith, n)

-- The calls change nothing that lets a stuck worker run.
Start-IsStuck :
    (r : Registered) (sw : SpooledWorker) → IsStuck sw → (start_spooled r sw) ≡ (none, sw)
unfolding start_spooled
Start-IsStuck r sw (w, e, n) = rw e refl

Stop-IsStuck : (sw : SpooledWorker) → IsStuck sw → IsStuck (stop_spooled sw)
unfolding stop_spooled
Stop-IsStuck sw (w, e, n) = rw e (stop w, refl, stop_idle w n)

calls-IsStuck :
    (cs : List SpooledCall) (sw : SpooledWorker) → IsStuck sw → IsStuck (spooled_calls cs sw)
unfolding spooled_calls
calls-IsStuck [] sw h = h
calls-IsStuck (starts_with r ∷ cs) sw h =
    rw (spooled_calls, Start-IsStuck r sw h) (calls-IsStuck cs sw h)
calls-IsStuck (stops_it ∷ cs) sw h = calls-IsStuck cs (stop_spooled sw) (Stop-IsStuck sw h)

-- What `start_spooled` does to a worker that was not started.
start_spooled-fresh :
    (r : Registered) (sw : SpooledWorker)
    → sw.worker ≡ none
    → let (e, w) = start_worker r (made_worker sw.opts) in
      start_spooled r sw ≡ (e, record sw { worker = some w })
unfolding start_spooled
start_spooled-fresh r sw h = rw h refl

nil_iff :
    {o : SpooledWorkerOptions} {r : Registered} {p : Option Text × Worker}
    → Outcome o r p
    → (p.0 ≡ none) ↔ (
        (o.has_handler ≡ true)
        × (is_accepted r ≡ true)
        × ((w : Worker) × (some p.1 ≡ some w) × (w.state ≡ running)))
nil_iff (unhandled h n) = (λ e. ground arith, λ (h', a, rest). ground (arith, h, h'))
nil_iff (unregistered h n) = (λ e. ground arith, λ (h', a, rest). ground (arith, a))
nil_iff (launched {w = w} h e) = (λ z. (h, refl, (w, refl, e)), λ z. refl)

failed_first :
    (r : Registered) (sw : SpooledWorker) (e : Text)
    → sw.worker ≡ none
    → (start_spooled r sw).0 ≡ some e
    → IsStuck (start_spooled r sw).1
failed_first r sw e h failed =
    let p = start_worker r (made_worker sw.opts) in
    rw (start_spooled-fresh r sw h) (
      p.1,
      refl,
      stuck_of (start_worker-Outcome r sw.opts) (rw (start_spooled-fresh r sw h) at failed),
    )
  where
    stuck_of :
        {o : SpooledWorkerOptions} {r : Registered} {p : Option Text × Worker}
        → Outcome o r p
        → p.0 ≡ some e
        → p.1.state ≢ running
    stuck_of (unhandled h n) e = n
    stuck_of (unregistered h n) e = n
    stuck_of (launched h z) e = ground (arith, e)

-- After a first `Start` that returns an error, whatever `Start` and `Stop` calls follow, the inner
-- worker is there and does not run, every further `Start` returns nil and leaves the worker as it is
-- even if the API would accept it, and `Process` panics.
pub failed_start_final :
    (r : Registered) (sw : SpooledWorker) (e : Text)
    → sw.worker ≡ none
    → (start_spooled r sw).0 ≡ some e
    → (cs : List SpooledCall)
    → let last = spooled_calls cs (start_spooled r sw).1 in
      IsStuck last
      × ((r' : Registered) → start_spooled r' last ≡ (none, last))
      × (process_spooled last ≡ none)
unfolding process_spooled
failed_start_final r sw e h failed cs =
    let stuck = calls-IsStuck cs (start_spooled r sw).1 (failed_first r sw e h failed) in
    let (w, e, n) = stuck in (stuck, λ r'. Start-IsStuck r' _ stuck, rw e refl)

-- The first `Start` returns nil exactly if a handler was given and the API accepts the registration,
-- and the worker then runs.
pub first_start :
    (r : Registered) (sw : SpooledWorker)
    → sw.worker ≡ none
    → ((start_spooled r sw).0 ≡ none) ↔ (
        (sw.opts.has_handler ≡ true)
        × (is_accepted r ≡ true)
        × ((w : Worker) × ((start_spooled r sw).1.worker ≡ some w) × (w.state ≡ running)))
first_start r sw h = rw (start_spooled-fresh r sw h) (nil_iff (start_worker-Outcome r sw.opts))
