-- ===== src/Worker/Room.antt =====
-- The room that a worker of spooled/worker/worker.go has for jobs, in a poll, its answer and the end of a job.
use spooled_sdk_go.Common.{
  ℕ, ◌+◌, ◌-◌, ◌≤◌, ◌≡◌, refl, ap, ◌∙◌, sym, subst, ◌⊎◌, Bool, true, false, Option, none, some, ℤ,
  pos, negsuc, leb_ℤ, sub_ℕ, ◌+ℤ◌, Text, List, [], ◌∷◌, length, arith, inl, inr,
}
use spooled_sdk_go.Worker.{
  Worker, available_slots, poll, claim_answered, process_job, process_jobs, job_returns, remove_job,
}
use spooled_sdk_go.Worker.Steps.{has_job}

-- The jobs that a worker has, with those that its pending claim may bring, are at most c.
abbrev pub Fits : ℕ → Option ℤ → ℕ → Type 0
Fits n none c = n ≤ c
Fits n (some (pos k)) c = n + k ≤ c
Fits n (some (negsuc k)) c = n ≤ c

pub record HasRoom (c : ℕ) (w : Worker) : Type 0 where
  pub limit : w.opts.concurrency ≡ pos c
  pub counted : w.job_count ≡ length w.jobs_running
  pub fits : Fits w.job_count w.pending c

pub Fits-le : (n c : ℕ) (p : Option ℤ) → Fits n p c → n ≤ c
Fits-le n c none h = h
Fits-le n c (some (pos k)) h = omega arith
Fits-le n c (some (negsuc k)) h = h

Fits-fewer : (n m c : ℕ) (p : Option ℤ) → m ≤ n → Fits n p c → Fits m p c
Fits-fewer n m c none l h = omega arith
Fits-fewer n m c (some (pos k)) l h = omega arith
Fits-fewer n m c (some (negsuc k)) l h = omega arith

length-remove_job :
    (k : Text) (js : List Text) → has_job k js ≡ true → length (remove_job k js) + 1 ≡ length js
unfolding remove_job
length-remove_job k [] h = ground arith
length-remove_job k (j ∷ js) h = ground (arith, length-remove_job k js)

process_job-count :
    (id : Text) (w : Worker)
    → ((process_job id w).job_count ≡ w.job_count + 1)
      × (length (process_job id w).jobs_running ≡ length w.jobs_running + 1)
      × ((process_job id w).pending ≡ w.pending)
      × ((process_job id w).opts.concurrency ≡ w.opts.concurrency)
unfolding process_job
process_job-count id w = (refl, omega arith, refl, refl)

process_jobs-count :
    (ids : List Text) (w : Worker)
    → ((process_jobs ids w).job_count ≡ w.job_count + length ids)
      × (length (process_jobs ids w).jobs_running ≡ length w.jobs_running + length ids)
      × ((process_jobs ids w).pending ≡ w.pending)
      × ((process_jobs ids w).opts.concurrency ≡ w.opts.concurrency)
unfolding process_jobs
process_jobs-count [] w = (omega arith, omega arith, refl, refl)
process_jobs-count (id ∷ ids) w =
    let (a, b, p, o) = process_jobs-count ids (process_job id w) in
    let (a', b', p', o') = process_job-count id w in (omega arith, omega arith, p ∙ p', o ∙ o')

slots : (c n : ℕ) → n ≤ c → (pos c +ℤ sub_ℕ 0 n) ≡ pos (c - n)
unfolding ◌+ℤ◌
slots c n h = ground arith

poll-keeps :
    (w : Worker)
    → ((poll w).opts.concurrency ≡ w.opts.concurrency)
      × ((poll w).job_count ≡ w.job_count)
      × ((poll w).jobs_running ≡ w.jobs_running)
      × (((poll w).pending ≡ w.pending) ⊎ ((poll w).pending ≡ some (available_slots w)))
unfolding poll
poll-keeps w = (ground arith, ground arith, ground arith, ground arith)

available : (c : ℕ) (w : Worker) → HasRoom c w → available_slots w ≡ pos (c - w.job_count)
unfolding available_slots
available c w h = rw h.limit (slots c w.job_count (Fits-le w.job_count c w.pending h.fits))

pub poll-HasRoom : (c : ℕ) (w : Worker) → HasRoom c w → HasRoom c (poll w)
poll-HasRoom c w h =
    let (o, n, r, p) = poll-keeps w in
    record {
      limit = o ∙ h.limit;
      counted = n ∙ h.counted ∙ sym (ap length r);
      fits = rw n (elim p [
        | inl e ↦ rw e h.fits
        | inr e ↦ rw (e, available c w h) (omega (arith, Fits-le w.job_count c w.pending h.fits))
      ]);
    }

pub claim_answered-HasRoom :
    (c : ℕ) (w : Worker) (l : ℤ) (ids : List Text)
    → w.pending ≡ some l
    → leb_ℤ (pos (length ids)) l ≡ true
    → HasRoom c w
    → HasRoom c (claim_answered ids w)
unfolding claim_answered
claim_answered-HasRoom c w l ids p b h =
    let (n, r, q, o) = process_jobs-count ids (record w { pending = none }) in
    record {
      limit = o ∙ h.limit;
      counted = omega (arith, h.counted);
      fits = rw q (rw n (brings l b (subst (λ x. Fits w.job_count x c) p h.fits)));
    }
  where
    brings :
        (l : ℤ)
        → leb_ℤ (pos (length ids)) l ≡ true
        → Fits w.job_count (some l) c
        → w.job_count + length ids ≤ c
    brings (pos k) b f = ground arith
    brings (negsuc k) b f = ground arith

job_returns-keeps :
    (id : Text) (failed : Bool) (w : Worker)
    → ((job_returns id failed w).opts.concurrency ≡ w.opts.concurrency)
      × ((job_returns id failed w).job_count ≡ w.job_count - 1)
      × ((job_returns id failed w).jobs_running ≡ remove_job id w.jobs_running)
      × ((job_returns id failed w).pending ≡ w.pending)
unfolding job_returns
job_returns-keeps id true w = (refl, refl, refl, refl)
job_returns-keeps id false w = (refl, refl, refl, refl)

pub job_returns-HasRoom :
    (c : ℕ) (w : Worker) (id : Text) (failed : Bool)
    → has_job id w.jobs_running ≡ true
    → HasRoom c w
    → HasRoom c (job_returns id failed w)
job_returns-HasRoom c w id failed j h =
    let (o, n, r, p) = job_returns-keeps id failed w in
    record {
      limit = o ∙ h.limit;
      counted = rw (n, r) (omega (arith, h.counted, length-remove_job id w.jobs_running j));
      fits = rw (n, p) (Fits-fewer w.job_count (w.job_count - 1) c w.pending (omega arith) h.fits);
    }
