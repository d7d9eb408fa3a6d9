-- ===== src/Jobs.antt =====
-- The job queue of libs/core/services/job_service.py. A row's payload and result are of a type of
-- the caller's choice; what the database locks for other workers is a test on identifiers.
pub mod Updates
pub mod Claim
pub mod Pending
pub mod Reclaim
pub mod Api
pub mod Releases
pub mod Sound
pub mod Life
mod Tests
use Prim.Native.String.{String}
use synthetos.Prelude.{
  ℕ, suc, ◌+◌, ◌-◌, ◌==◌, ltb, Bool, true, false, ◌&&◌, ◌||◌, not, Option, none, some, List, [],
  ◌∷◌, ◌++◌, if◌then◌else◌, holds, is_some, first_where, update_where,
}
use synthetos.Prelude.Int.{ℤ, pos, ltb_ℤ}

pub data JobStatus : Type 0 where
  pending claimed paused running completed failed cancelled : JobStatus

-- What `error` holds: the text of `fail_job`, or the one that the reclaim composes.
pub data JobError : Type 0 where
  message : String → JobError
  reclaim_exhausted_after : ℕ → ℕ → JobError

pub record Job (P : Type 0) : Type 0 where
  pub id : ℕ
  pub cycle_id : Option ℕ
  pub job_type : String
  pub status : JobStatus
  pub payload : Option P
  pub priority : ℤ
  pub created_at : ℕ
  pub claimed_by : Option ℕ
  pub claimed_at : Option ℕ
  pub heartbeat_at : Option ℕ
  pub completed_at : Option ℕ
  pub reclaim_count : ℕ
  pub result : Option P
  pub error : Option JobError

-- The events of a job, with its identifier; those of the reclaim carry the job's count.
pub data JobEvent : Type 0 where
  reclaimed reclaim_exhausted : ℕ → ℕ → JobEvent
  job_cancelled job_paused job_resumed : ℕ → JobEvent

pub record Queue (P : Type 0) : Type 0 where
  pub jobs : List (Job P)
  pub events : List JobEvent

abbrev pub is_pending : JobStatus → Bool
is_pending pending = true
is_pending _ = false

-- `status IN (claimed, running)`
abbrev pub is_held : JobStatus → Bool
is_held claimed = true
is_held running = true
is_held _ = false

-- The two counts that the reclaim returns, `reclaimed` and `failed_exhausted`.
abbrev pub Counts : Type 0
Counts = ℕ × ℕ

module _ {P : Type 0} where
  abbrev pub has_id : ℕ → Job P → Bool
  has_id i j = j.id == i

  unfoldable pub new_job : ℕ → Option ℕ → String → Option P → ℤ → ℕ → Job P
  new_job id cycle_id job_type payload priority now = record {
    id = id;
    cycle_id = cycle_id;
    job_type = job_type;
    status = pending;
    payload = payload;
    priority = priority;
    created_at = now;
    claimed_by = none;
    claimed_at = none;
    heartbeat_at = none;
    completed_at = none;
    reclaim_count = 0;
    result = none;
    error = none;
  }

  -- `id` is the fresh `uuid7()`.
  unfoldable pub create_job : ℕ → Option ℕ → String → Option P → ℤ → ℕ → Queue P → Job P × Queue P
  unfolding new_job
  create_job id cycle_id job_type payload priority now q =
      let job = new_job id cycle_id job_type payload priority now in
      (job, record q { jobs = q.jobs ++ job ∷ [] })

  unfoldable pub get_job : ℕ → Queue P → Option (Job P)
  get_job i q = first_where (has_id i) q.jobs

  -- `ORDER BY priority DESC, created_at`
  abbrev pub before : Job P → Job P → Bool
  before a b =
      ltb_ℤ b.priority a.priority
      || (not (ltb_ℤ a.priority b.priority) && ltb a.created_at b.created_at)

  -- Pending, and not locked by another transaction (`SKIP LOCKED`).
  abbrev pub is_eligible : (ℕ → Bool) → Job P → Bool
  is_eligible locked j = is_pending j.status && not (locked j.id)

  abbrev pub earlier : Job P → Option (Job P) → Job P
  earlier j none = j
  earlier j (some k) = if before k j then k else j

  -- The subquery with `LIMIT 1`; of equals the one that stands first.
  pub next_job : (ℕ → Bool) → List (Job P) → Option (Job P)
  next_job locked [] = none
  next_job locked (j ∷ js) =
      let rest = next_job locked js in if is_eligible locked j then some (earlier j rest) else rest

  abbrev pub claim_row : ℕ → ℕ → Job P → Job P
  claim_row worker now j = record j {
    status = claimed;
    claimed_by = some worker;
    claimed_at = some now;
  }

  -- The rest of the statement for the row that the subquery finds, and the new row read back.
  pub claim_found : ℕ → ℕ → Queue P → Option (Job P) → Option (Job P) × Queue P
  unfolding get_job
  claim_found worker now q none = (none, q)
  claim_found worker now q (some j) =
      let q' = record q { jobs = update_where (has_id j.id) (claim_row worker now) q.jobs } in
      (get_job j.id q', q')

  unfoldable pub claim_job : (ℕ → Bool) → ℕ → ℕ → Queue P → Option (Job P) × Queue P
  unfolding claim_found next_job
  claim_job locked worker now q = claim_found worker now q (next_job locked q.jobs)

  abbrev pub with_queue : Queue P → Option (Job P) → Option (Job P × Queue P)
  with_queue q none = none
  with_queue q (some j) = some (j, q)

  -- `UPDATE … WHERE id = job_id`, then the row, whose absence is the `AssertionError` `none`.
  pub update_job : ℕ → (Job P → Job P) → Queue P → Option (Job P × Queue P)
  unfolding get_job
  update_job i change q =
      let q' = record q { jobs = update_where (has_id i) change q.jobs } in
      with_queue q' (get_job i q')

  unfoldable pub start_job : ℕ → Queue P → Option (Job P × Queue P)
  unfolding update_job
  start_job i = update_job i (λ j. record j { status = running })

  unfoldable pub complete_job : ℕ → Option P → ℕ → Queue P → Option (Job P × Queue P)
  unfolding update_job
  complete_job i result now =
      update_job i (λ j. record j { status = completed; result = result; completed_at = some now })

  unfoldable pub fail_job : ℕ → String → ℕ → Queue P → Option (Job P × Queue P)
  unfolding update_job
  fail_job i error now =
      update_job i
        (λ j. record j { status = failed; error = some (message error); completed_at = some now })

  pub heartbeat_job : ℕ → ℕ → Queue P → Queue P
  heartbeat_job i now q = record q {
    jobs = update_where (has_id i) (λ j. record j { heartbeat_at = some now }) q.jobs;
  }

  -- The result is stored only if one is given.
  unfoldable pub pause_job : ℕ → Option P → Queue P → Option (Job P × Queue P)
  unfolding update_job
  pause_job i result = update_job i (λ j. record j {
    status = paused;
    result = elim result [ none ↦ j.result | some r ↦ some r ];
  })

  pub resume_job : ℕ → Queue P → Option (Job P × Queue P)
  unfolding update_job
  resume_job i = update_job i (λ j. record j {
    status = pending;
    claimed_by = none;
    claimed_at = none;
    heartbeat_at = none;
  })

  -- The `WHERE` clause of the reclaim; a comparison with NULL is not true.
  abbrev pub is_stale : ℕ → Job P → Bool
  is_stale cutoff j =
      is_held j.status
      && (not (is_some j.heartbeat_at) && holds (λ t. ltb t cutoff) j.claimed_at
          || holds (λ t. ltb t cutoff) j.heartbeat_at)

  abbrev pub exhaust_row : ℕ → ℕ → Job P → Job P
  exhaust_row timeout now j = record j {
    status = failed;
    error = some (reclaim_exhausted_after j.reclaim_count timeout);
    completed_at = some now;
  }

  abbrev pub release_row : Job P → Job P
  release_row j = record j {
    status = pending;
    claimed_by = none;
    claimed_at = none;
    heartbeat_at = none;
    reclaim_count = j.reclaim_count + 1;
  }

  -- The body of the loop for a stale job.
  pub reclaim_one : ℕ → ℕ → ℕ → Job P → Job P × JobEvent × Counts
  reclaim_one timeout max_reclaims now j =
      if ltb max_reclaims (j.reclaim_count + 1)
      then (exhaust_row timeout now j, reclaim_exhausted j.id j.reclaim_count, (0, 1))
      else (release_row j, reclaimed j.id (j.reclaim_count + 1), (1, 0))

  pub reclaim_rows : ℕ → ℕ → ℕ → ℕ → List (Job P) → List (Job P) × List JobEvent × Counts
  unfolding reclaim_one
  reclaim_rows timeout max_reclaims now cutoff [] = ([], [], (0, 0))
  reclaim_rows timeout max_reclaims now cutoff (j ∷ js) =
      let (js', es, (n, m)) = reclaim_rows timeout max_reclaims now cutoff js in
      let (j', e, (a, b)) = reclaim_one timeout max_reclaims now j in
      if is_stale cutoff j then (j' ∷ js', e ∷ es, (a + n, b + m)) else (j ∷ js', es, (n, m))

  -- The cutoff is in the past: with a timeout longer than the clock's reading nothing is stale.
  unfoldable pub reclaim_stale_jobs : ℕ → ℕ → ℕ → Queue P → Counts × Queue P
  unfolding reclaim_rows
  reclaim_stale_jobs timeout max_reclaims now q =
      let (js, es, counts) = reclaim_rows timeout max_reclaims now (now - timeout) q.jobs in
      (counts, record { jobs = js; events = q.events ++ es })
