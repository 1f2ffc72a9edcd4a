-- ===== src/Examples/Workers.antt =====
-- The worker of worker/worker.go at concrete inputs.
use spooled_sdk_go.Common.{◌+ℤ◌, ◌≤◌, ◌≡◌, ◌≢◌, refl, inr, false, [], ◌∷◌, pos, length, lit}
use spooled_sdk_go.Worker.{
  Worker, Options, stopping, stopped, new_worker, process, start, registered, stop, poll,
  claim_answered, available_slots, job_returns,
}
use spooled_sdk_go.Worker.Steps.{
  Step, Reach, here, then_, processes, starts, registers_as, polls, claim_answers,
}
use spooled_sdk_go.Worker.Capacity.{jobs-le-concurrency}
use spooled_sdk_go.Worker.Lifecycle.{early_stop_disables, ◌⟶◌, Step-⟶}

abbrev pub some_options : Options
some_options = record {
  queue_name = lit "emails";
  concurrency = pos 2;
  lease_duration = pos 30;
  worker_type = lit "go";
  version = lit "0.1.0";
}

abbrev started : Worker
started = (start (process (new_worker some_options))).1

abbrev polled : Worker
polled = poll (registered (lit "w1") started)

abbrev working : Worker
working = claim_answered (lit "j1" ∷ lit "j2" ∷ []) polled

working-Reach : Reach (new_worker some_options) working
unfolding start process new_worker registered poll claim_answered lit available_slots ◌+ℤ◌
working-Reach =
    then_
      (then_ (then_ (then_ (then_ here processes) starts) (registers_as (lit "w1") refl))
        (polls refl))
      (claim_answers (pos 2) (lit "j1" ∷ lit "j2" ∷ []) refl refl)

jobs-le-concurrency_example :
    (working.job_count ≡ length working.jobs_running) × (length working.jobs_running ≤ 2)
unfolding new_worker
jobs-le-concurrency_example = jobs-le-concurrency some_options 2 working refl working-Reach

registered-Step : Step started (registered (lit "w1") started)
unfolding start process new_worker
registered-Step = registers_as (lit "w1") refl

Step-⟶_example : started.state ⟶ (registered (lit "w1") started).state
Step-⟶_example = Step-⟶ registered-Step

abbrev too_early : Worker
too_early = stop started

early_stop_disables_example :
    ((registered (lit "w1") too_early).state ≢ stopping)
    × ((registered (lit "w1") too_early).state ≢ stopped)
    × (stop (registered (lit "w1") too_early) ≡ registered (lit "w1") too_early)
unfolding start process new_worker stop
early_stop_disables_example =
    early_stop_disables started (registered (lit "w1") too_early) (inr refl) refl
      (then_ here (registers_as (lit "w1") refl))

abbrev ended : Worker
ended = record (new_worker some_options) { state = stopped }

abbrev answered_one : Worker
answered_one = job_returns (lit "j1") false working
