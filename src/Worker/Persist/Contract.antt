-- ===== src/Worker/Persist/Contract.antt =====
-- The contract of the transaction that persists an outcome (apps/worker/main.py).
use synthetos.Prelude.{
  ℕ, ◌≡◌, Bool, true, false, some, List, [], ◌∷◌, ◌++◌, ◌≤◌, not, ◌||◌, ◌≢◌, if◌then◌else◌,
}
use synthetos.Cycle.{StatusError, ok, err, apply_state_patch}
use synthetos.Jobs.{JobStatus, completed, failed, paused, cancelled, Job, get_job}
use synthetos.Jobs.Updates.{others, pending_count}
use synthetos.Worker.{
  Document, OperatorResult, LogEntry, WorkerEvent, job_cancelled_acknowledged,
  job_paused_at_checkpoint, job_completed, job_failed, WorkerDb, resolve_charter_id,
}
use synthetos.Worker.Persist.{Stop, refused, Saved, saved, stopped, is_cancelled, is_paused}

-- The status that an outcome gives to a job that had a status when it was read again.
abbrev pub final_status : Bool → JobStatus → JobStatus
final_status success status =
    if is_cancelled status
    then cancelled
    else if success
    then (if is_paused status then paused else completed)
    else failed

-- The verdict that the log gets for it.
abbrev pub verdict : Job Document → OperatorResult → WorkerEvent
verdict j r =
    if is_cancelled j.status
    then job_cancelled_acknowledged j.id
    else if r.success
    then (if is_paused j.status
        then job_paused_at_checkpoint j.id
        else job_completed j.id r.summary)
    else job_failed j.id r.error

abbrev pub Extends : List LogEntry → List LogEntry → Type 0
Extends old new = (more : List LogEntry) × (new ≡ old ++ more)

-- The new log: what the old one and the operator's events have become, then the verdict.
abbrev pub IsTold : ℕ → Job Document → OperatorResult → WorkerDb → WorkerDb → Type 0
IsTold worker j r db db' =
    (before : List LogEntry) × Extends db.log before
    × (db'.log
        ≡ before
          ++ record {
            charter_id = resolve_charter_id j db;
            cycle_id = j.cycle_id;
            actor_id = worker;
            event = verdict j r;
          }
            ∷ [])

abbrev pub SameSessions : WorkerDb → WorkerDb → Type 0
SameSessions db db' =
    (db'.discovery ≡ db.discovery)
    × (db'.analysis ≡ db.analysis)
    × (db'.ideation ≡ db.ideation)
    × (db'.runs ≡ db.runs)

-- The job has its final status and the last event is its verdict; no other job and no event of the
-- queue changes, and no job becomes pending. The sessions and runs change by a failure alone, and
-- the cycles by the patch of a success alone.
pub record IsStored (worker now : ℕ) (j : Job Document) (r : OperatorResult) (db db' : WorkerDb)
    : Type 0 where
  pub row : Job Document
  pub stored : get_job j.id db'.queue ≡ some row
  pub status : row.status ≡ final_status r.success j.status
  pub same_others : others j.id db'.queue ≡ others j.id db.queue
  pub same_events : db'.queue.events ≡ db.queue.events
  pub no_more_pending : pending_count db'.queue ≤ pending_count db.queue
  pub told : IsTold worker j r db db'
  pub same_sessions : final_status r.success j.status ≢ failed → SameSessions db db'
  pub cycles :
      if is_cancelled j.status || not r.success
      then (db'.store ≡ db.store)
      else (apply_state_patch j.cycle_id (resolve_charter_id j db) r.state_patch now db.store
          ≡ ok db'.store)

-- A stop is the refusal of a success's patch.
abbrev pub IsRefusal : ℕ → Job Document → OperatorResult → WorkerDb → Stop → Type 0
IsRefusal now j r db stop =
    (e : StatusError) × (stop ≡ refused e)
    × (is_cancelled j.status ≡ false)
    × (r.success ≡ true)
    × (apply_state_patch j.cycle_id (resolve_charter_id j db) r.state_patch now db.store ≡ err e)

abbrev pub IsPersisted : ℕ → ℕ → Job Document → OperatorResult → WorkerDb → Saved → Type 0
IsPersisted worker now j r db (saved db') = IsStored worker now j r db db'
IsPersisted worker now j r db (stopped stop) = IsRefusal now j r db stop
