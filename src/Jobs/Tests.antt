-- ===== src/Jobs/Tests.antt =====
-- The queue's theorems at a concrete table.
use synthetos.Prelude.{
  ℕ, ◌≡◌, refl, ◌-◌, ◌+◌, Bool, false, none, some, [], ◌∷◌, arith, map, count_if, length,
}
use synthetos.Prelude.Int.{pos}
use synthetos.Jobs.{
  JobStatus, pending, running, cancelled, Job, Queue, JobEvent, create_job, claim_job,
  reclaim_stale_jobs, is_stale, next_job, get_job,
}
use synthetos.Jobs.Claim.{IsClaim, claim_job-IsClaim}
use synthetos.Jobs.Reclaim.{reclaim_row, reclaim_stale_jobs_lem}
use synthetos.Jobs.Releases.{releases}
use synthetos.Jobs.Sound.{IsSound}
use synthetos.Jobs.Life.{empty, begin, next, create, claim, reclaim, Life-IsSound}
use synthetos.Jobs.Api.{conflict, done, cancel_job, api_pause_job, api_resume_job}
use synthetos.Jobs.Api.Laws.{cancel_job-final, resume_after_pause}

abbrev P : Type 0
P = ℕ

abbrev job : ℕ → JobStatus → ℕ → ℕ → Job P
job id status priority created = record {
  id = id;
  cycle_id = none;
  job_type = "echo";
  status = status;
  payload = none;
  priority = pos priority;
  created_at = created;
  claimed_by = none;
  claimed_at = none;
  heartbeat_at = none;
  completed_at = none;
  reclaim_count = 0;
  result = none;
  error = none;
}

abbrev table : Queue P
table = record {
  jobs = job 1 pending 0 10 ∷ job 2 pending 10 12 ∷ job 3 pending 10 11 ∷ job 4 running 20 1 ∷ [];
  events = [];
}

abbrev unlocked : ℕ → Bool
unlocked _ = false

-- The higher priority first, then the earlier creation; what is not pending is passed over.
claims_third : next_job unlocked table.jobs ≡ some (job 3 pending 10 11)
unfolding next_job
claims_third = refl

claim_job-IsClaim_example : IsClaim unlocked 9 100 table (claim_job unlocked 9 100 table)
claim_job-IsClaim_example = claim_job-IsClaim unlocked 9 100 table (omega arith)

abbrev held : Job P
held = record (job 4 running 20 1) { claimed_at = some 50; heartbeat_at = some 60 }

abbrev old_table : Queue P
old_table = record { jobs = job 1 pending 0 10 ∷ held ∷ []; events = [] }

reclaim_stale_jobs_lem_example :
    let ((reclaims, failures), q') = reclaim_stale_jobs 30 3 100 old_table in
    let stale = is_stale {P = P} (100 - 30) in
    (q'.jobs ≡ map (reclaim_row 30 3 100 (100 - 30)) old_table.jobs)
    × (reclaims + failures ≡ count_if stale old_table.jobs)
    × (length q'.events ≡ length old_table.events + count_if stale old_table.jobs)
    × (count_if stale q'.jobs ≡ 0)
reclaim_stale_jobs_lem_example = reclaim_stale_jobs_lem 30 3 100 old_table

-- A job is created, claimed and lost twice; the second time its one release is used up.
abbrev lost : Queue P → Queue P
lost q = (reclaim_stale_jobs 30 1 200 (claim_job unlocked 9 100 q).1).1

abbrev first_job : Queue P
first_job = (create_job 1 none "echo" none (pos 0) 10 (empty {P = P})).1

lost_twice : releases 1 (lost (lost first_job)).events ≡ 1
unfolding reclaim_stale_jobs claim_job create_job next_job
lost_twice = refl

Life-IsSound_example : IsSound 1 (lost (lost first_job))
Life-IsSound_example = Life-IsSound 1 (
    next
      (next
        (next
          (next (next begin (create 1 none "echo" none (pos 0) 10 (tt, refl)))
            (claim unlocked 9 100))
          (reclaim 30 200))
        (claim unlocked 9 100))
      (reclaim 30 200))

abbrev cancelled_table : Queue P
cancelled_table = record {
  jobs = record (job 1 cancelled 0 10) { completed_at = some 20 } ∷ [];
  events = JobEvent.job_cancelled 1 ∷ [];
}

cancel_job-final_example :
    (cancel_job 1 30 cancelled_table ≡ conflict cancelled)
    × (api_pause_job 1 cancelled_table ≡ conflict cancelled)
    × (api_resume_job 1 cancelled_table ≡ conflict cancelled)
unfolding cancel_job get_job
cancel_job-final_example =
    cancel_job-final 1 20 30 (record { jobs = job 1 pending 0 10 ∷ []; events = [] }) refl

abbrev paused_table : Queue P
paused_table = record {
  jobs = job 1 JobStatus.paused 0 10 ∷ [];
  events = JobEvent.job_paused 1 ∷ [];
}

resume_after_pause_example :
    (u : Queue P) × (j : Job P) × (api_resume_job 1 paused_table ≡ done u)
    × (get_job 1 u ≡ some j)
    × (j.status ≡ pending)
    × (j.claimed_by ≡ none)
    × (api_resume_job 1 u ≡ conflict pending)
unfolding api_pause_job get_job
resume_after_pause_example =
    resume_after_pause 1 (record { jobs = job 1 pending 0 10 ∷ []; events = [] }) refl
