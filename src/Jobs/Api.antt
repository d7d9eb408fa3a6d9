-- ===== src/Jobs/Api.antt =====
-- The three controls of apps/api/routers/jobs.py, with the statuses in which each is refused.
pub mod Laws
use synthetos.Prelude.{
  ℕ, ◌≡◌, refl, ◌⊎◌, inl, inr, Bool, true, false, not, Option, none, some, [], ◌∷◌, ◌++◌, arith,
  if◌then◌else◌, update_where, Option-cases,
}
use synthetos.Jobs.{
  JobStatus, pending, claimed, paused, running, completed, failed, cancelled, Job, Queue, JobEvent,
  job_cancelled, job_paused, job_resumed, has_id, get_job,
}

-- 404, 409 with the job's status, or the answer.
pub data Response (A : Type 0) : Type 0 where
  not_found : Response A
  conflict : JobStatus → Response A
  done : A → Response A

abbrev pub can_cancel : JobStatus → Bool
can_cancel completed = false
can_cancel failed = false
can_cancel cancelled = false
can_cancel _ = true

abbrev pub can_pause : JobStatus → Bool
can_pause pending = true
can_pause claimed = true
can_pause running = true
can_pause _ = false

abbrev pub can_resume : JobStatus → Bool
can_resume paused = true
can_resume _ = false

module _ {P : Type 0} where
  -- The shared shape of the three handlers: look up, guard, write the row, log.
  unfoldable pub control :
      (JobStatus → Bool)
      → (Job P → Job P)
      → JobEvent
      → Queue P
      → Option (Job P)
      → Response (Queue P)
  control allowed change event q none = not_found
  control allowed change event q (some j) =
      if not (allowed j.status)
      then conflict j.status
      else done (record {
        jobs = update_where (has_id j.id) change q.jobs;
        events = q.events ++ event ∷ [];
      })

  unfoldable pub cancel_job : ℕ → ℕ → Queue P → Response (Queue P)
  unfolding control
  cancel_job i now q =
      control can_cancel (λ j. record j { status = cancelled; completed_at = some now })
        (job_cancelled i) q (get_job i q)

  unfoldable pub api_pause_job : ℕ → Queue P → Response (Queue P)
  unfolding control
  api_pause_job i q =
      control can_pause (λ j. record j { status = paused }) (job_paused i) q (get_job i q)

  unfoldable pub api_resume_job : ℕ → Queue P → Response (Queue P)
  unfolding control
  api_resume_job i q =
      control can_resume
        (λ j. record j {
          status = pending;
          claimed_by = none;
          claimed_at = none;
          heartbeat_at = none;
        })
        (job_resumed i) q (get_job i q)
