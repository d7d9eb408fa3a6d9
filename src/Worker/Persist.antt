-- ===== src/Worker/Persist.antt =====
-- The part of the loop of apps/worker/main.py that persists the outcome of a job, in one
-- transaction: all of it is committed, or an exception leaves the loop and nothing is.
pub mod Contract
pub mod Outcome
use Prim.Native.String.{String}
use text.Mathlib.Text.{◌==◌ as str_eq}
use synthetos.Prelude.{ℕ, Bool, true, false, Option, none, some, if◌then◌else◌}
use synthetos.Cycle.{Store, StatusError, Result, ok, err, apply_state_patch}
use synthetos.Jobs.{
  Job, JobStatus, paused, cancelled, Queue, get_job, pause_job, complete_job, fail_job,
}
use synthetos.Worker.{
  Document, outcome, OperatorResult, WorkerEvent, job_cancelled_acknowledged,
  job_paused_at_checkpoint, job_completed, job_failed, discovery_session_failed,
  ideation_session_failed, execution_run_failed, analysis_session_failed, WorkerDb,
  resolve_charter_id, emit, persist_operator_events,
}
use synthetos.Worker.Failure.{
  Mark, AnalysisMark, mark_discovery_job_failed, mark_analysis_job_failed, mark_ideation_job_failed,
  mark_execution_job_failed,
}

-- The exceptions that leave `run`: a refused change of status, and the assertion of the job service.
pub data Stop : Type 0 where
  refused : StatusError → Stop
  row_missing : Stop

pub data Saved : Type 0 where
  saved : WorkerDb → Saved
  stopped : Stop → Saved

abbrev pub is_cancelled : JobStatus → Bool
is_cancelled cancelled = true
is_cancelled _ = false

abbrev pub is_paused : JobStatus → Bool
is_paused paused = true
is_paused _ = false

abbrev pub result_document : OperatorResult → Document
result_document r = outcome r.summary r.state_patch r.artifacts r.events

-- `result.error or "unknown error"`
abbrev pub error_text : Option String → String
error_text none = "unknown error"
error_text (some e) = if str_eq e "" then "unknown error" else e

-- A statement of the job service, then an event of the worker.
pub written :
    Option ℕ
    → Job Document
    → ℕ
    → WorkerEvent
    → WorkerDb
    → Option (Job Document × Queue Document)
    → Saved
written charter j worker event db none = stopped row_missing
written charter j worker event db (some (_, q)) =
    saved (emit charter j.cycle_id worker event (record db { queue = q }))

-- A job that a client paused meanwhile stays paused, with its result.
pub finish : ℕ → ℕ → Job Document → OperatorResult → Option ℕ → WorkerDb → Saved
unfolding written
finish worker now j r charter db =
    if is_paused j.status
    then written charter j worker (job_paused_at_checkpoint j.id) db
        (pause_job j.id (some (result_document r)) db.queue)
    else written charter j worker (job_completed j.id r.summary) db
        (complete_job j.id (some (result_document r)) now db.queue)

pub patched : ℕ → ℕ → Job Document → OperatorResult → Option ℕ → WorkerDb → Result Store → Saved
unfolding finish
patched worker now j r charter db (err e) = stopped (refused e)
patched worker now j r charter db (ok s) = finish worker now j r charter (record db { store = s })

pub persist_success : ℕ → ℕ → Job Document → OperatorResult → Option ℕ → WorkerDb → Saved
unfolding patched persist_operator_events
persist_success worker now j r charter db =
    patched worker now j r charter (persist_operator_events charter j.cycle_id worker r.events db)
      (apply_state_patch j.cycle_id charter r.state_patch now db.store)

-- The event of a session or a run that the failure changed.
abbrev pub announce : Option ℕ → Job Document → ℕ → (ℕ → WorkerEvent) → Mark → WorkerDb → WorkerDb
announce charter j worker event none db = db
announce charter j worker event (some (i, changed)) db =
    if changed then emit charter j.cycle_id worker (event i) db else db

abbrev pub announce_analysis :
    Option ℕ → Job Document → ℕ → (ℕ → ℕ → WorkerEvent) → AnalysisMark → WorkerDb → WorkerDb
announce_analysis charter j worker event none db = db
announce_analysis charter j worker event (some (i, paper, changed)) db =
    if changed then emit charter j.cycle_id worker (event i paper) db else db

-- The events after the failure is stored, in the code's order.
pub announce_sessions :
    ℕ
    → Job Document
    → OperatorResult
    → Option ℕ
    → Mark
    → AnalysisMark
    → Mark
    → Mark
    → WorkerDb
    → WorkerDb
announce_sessions worker j r charter discovery analysis ideation execution db =
    announce_analysis charter j worker
      (λ i paper. analysis_session_failed i paper j.job_type r.error) analysis
      (announce charter j worker (λ i. discovery_session_failed i j.job_type r.error) discovery
        (announce charter j worker (λ i. execution_run_failed i j.job_type r.error) execution
          (announce charter j worker (λ i. ideation_session_failed i j.job_type r.error) ideation
            db)))

pub announce_failure :
    ℕ
    → Job Document
    → OperatorResult
    → Option ℕ
    → Mark
    → AnalysisMark
    → Mark
    → Mark
    → WorkerDb
    → WorkerDb
unfolding announce_sessions
announce_failure worker j r charter discovery analysis ideation execution db =
    emit charter j.cycle_id worker (job_failed j.id r.error)
      (announce_sessions worker j r charter discovery analysis ideation execution db)

-- `fail_job`, and what follows it.
pub failure_stored :
    (WorkerDb → WorkerDb) → WorkerDb → Option (Job Document × Queue Document) → Saved
failure_stored after db none = stopped row_missing
failure_stored after db (some (_, q)) = saved (after (record db { queue = q }))

-- The four marks, in the code's order.
pub marked : Job Document → String → ℕ → WorkerDb → (Mark × AnalysisMark × Mark × Mark) × WorkerDb
marked j error now db =
    let (discovery, db1) = mark_discovery_job_failed j error now db in
    let (analysis, db2) = mark_analysis_job_failed j error now db1 in
    let (ideation, db3) = mark_ideation_job_failed j error now db2 in
    let (execution, db4) = mark_execution_job_failed j error now db3 in
    ((discovery, analysis, ideation, execution), db4)

pub persist_failure : ℕ → ℕ → Job Document → OperatorResult → Option ℕ → WorkerDb → Saved
unfolding failure_stored announce_failure persist_operator_events marked mark_discovery_job_failed
    mark_analysis_job_failed mark_ideation_job_failed mark_execution_job_failed
persist_failure worker now j r charter db =
    let error = error_text r.error in
    let ((discovery, analysis, ideation, execution), db') =
      marked j error now (persist_operator_events charter j.cycle_id worker r.events db) in
    failure_stored (announce_failure worker j r charter discovery analysis ideation execution) db'
      (fail_job j.id error now db'.queue)

pub persist_outcome : ℕ → ℕ → Job Document → OperatorResult → Option ℕ → WorkerDb → Saved
unfolding persist_success persist_failure
persist_outcome worker now j r charter db =
    if is_cancelled j.status
    then saved (emit charter j.cycle_id worker (job_cancelled_acknowledged j.id) db)
    else if r.success
    then persist_success worker now j r charter db
    else persist_failure worker now j r charter db

-- The row is read again: one that is gone, or that was cancelled meanwhile, keeps its place.
unfoldable pub persist : ℕ → ℕ → ℕ → OperatorResult → WorkerDb → Saved
unfolding persist_outcome resolve_charter_id
persist worker now job_id r db = elim (get_job job_id db.queue) [
  | none ↦ saved db
  | some j ↦ persist_outcome worker now j r (resolve_charter_id j db) db
]
