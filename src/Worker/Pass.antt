-- ===== src/Worker/Pass.antt =====
-- The loop of apps/worker/main.py: the periodic tasks when they are due, then a job from the claim
-- to its outcome.
pub mod Drain
pub mod Cancelled
use synthetos.Prelude.{ℕ, ◌-◌, leb, Bool, Option, none, some, List, [], ◌∷◌, if◌then◌else◌}
use synthetos.Jobs.{Job, Queue, claim_job, start_job}
use synthetos.Worker.{
  Document, job_started, WorkerDb, Registry, execute, resolve_charter_id, build_operator_input,
  emit,
}
use synthetos.Worker.Persist.{Stop, row_missing, Saved, saved, stopped, persist}
use synthetos.Worker.Periodic.{Settings, run_periodic_tasks}

-- The readings of a pass: the monotonic clock, the clock at the claim and at the outcome, the rows
-- that others have locked, and the identifier for a periodic job.
pub record Tick : Type 0 where
  pub mono : ℕ
  pub now : ℕ
  pub later : ℕ
  pub locked : ℕ → Bool
  pub fresh : ℕ

-- After the claim: `start_job` and its event, committed; then the operator; then the outcome. What
-- was committed stays when an exception leaves the loop.
pub data Turn : Type 0 where
  going : WorkerDb → Turn
  ended : Stop → WorkerDb → Turn

pub outcome_of : WorkerDb → Saved → Turn
outcome_of before (saved db) = going db
outcome_of before (stopped stop) = ended stop before

pub started : Registry → ℕ → ℕ → WorkerDb → Option (Job Document × Queue Document) → Turn
unfolding outcome_of persist execute build_operator_input resolve_charter_id
started registry worker later db none = ended row_missing db
started registry worker later db (some (j, q)) =
    let db0 = record db { queue = q } in
    let db1 = emit (resolve_charter_id j db0) j.cycle_id worker (job_started j.id j.job_type) db0 in
    let (r, db2) = execute registry (build_operator_input j db1) db1 in
    outcome_of db2 (persist worker later j.id r db2)

pub work_on : Registry → ℕ → ℕ → ℕ → WorkerDb → Turn
unfolding started start_job
work_on registry worker later job_id db =
    started registry worker later db (start_job job_id db.queue)

-- The claim is a transaction of its own; without a job the worker sleeps.
pub claimed : Registry → ℕ → ℕ → WorkerDb → Option (Job Document) × Queue Document → Turn
unfolding work_on
claimed registry worker later db (none, q) = going (record db { queue = q })
claimed registry worker later db (some j, q) =
    work_on registry worker later j.id (record db { queue = q })

unfoldable pub pass : Registry → ℕ → Tick → WorkerDb → Turn
unfolding claimed claim_job
pass registry worker t db =
    claimed registry worker t.later db (claim_job t.locked worker t.now db.queue)

-- `now_mono - last_periodic >= settings.worker_periodic_tick_s`
abbrev pub is_due : Settings → ℕ → Tick → Bool
is_due settings last t = leb settings.worker_periodic_tick_s (t.mono - last)

abbrev pub maintained : Settings → ℕ → Tick → WorkerDb → ℕ × WorkerDb
maintained settings last t db =
    if is_due settings last t
    then (t.mono, run_periodic_tasks settings t.fresh t.now db)
    else (last, db)

abbrev pub and_then : Turn → (WorkerDb → Turn) → Turn
and_then (going db) next = next db
and_then (ended stop db) next = ended stop db

-- As many passes as there are ticks before the shutdown.
pub loop : Settings → Registry → ℕ → ℕ → List Tick → WorkerDb → Turn
unfolding pass
loop settings registry worker last [] db = going db
loop settings registry worker last (t ∷ ts) db =
    let (last', db') = maintained settings last t db in
    and_then (pass registry worker t db') (loop settings registry worker last' ts)

-- The start: the periodic tasks once, then the loop.
pub run : Settings → Registry → ℕ → Tick → List Tick → WorkerDb → Turn
unfolding loop run_periodic_tasks
run settings registry worker t ts db =
    loop settings registry worker t.mono ts (run_periodic_tasks settings t.fresh t.now db)
