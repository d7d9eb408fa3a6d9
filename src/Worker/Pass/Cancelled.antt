-- ===== src/Worker/Pass/Cancelled.antt =====
-- A cancellation that comes between the claim and the start of a job (apps/worker/main.py).
use Prim.Native.String.{String}
use mathlib.Core.Path.{subst, ap₂}
use synthetos.Prelude.{ℕ, ◌≡◌, refl, sym, ◌∙◌, true, Option, none, some}
use synthetos.Cycle.{raw_target}
use synthetos.Cycle.Writers.{apply_state_patch-idle}
use synthetos.Jobs.{running, completed, Job, Queue, get_job, start_job}
use synthetos.Jobs.Api.{done, cancel_job}
use synthetos.Jobs.Api.Laws.{cancel_job-stored}
use synthetos.Jobs.Updates.{job_type_of, IsWritten, start_job-IsWritten}
use synthetos.Worker.{
  Document, OperatorInput, OperatorResult, WorkerDb, Registry, execute, job_started,
  resolve_charter_id, build_operator_input, emit,
}
use synthetos.Worker.Persist.{Saved, saved, stopped}
use synthetos.Worker.Persist.Contract.{IsPersisted, final_status}
use synthetos.Worker.Persist.Outcome.{persist-IsPersisted}
use synthetos.Worker.Pass.{Turn, going, outcome_of, started, work_on}

abbrev pub Completes : ℕ → Turn → Type 0
Completes id turn =
    (db' : WorkerDb) × (turn ≡ going db')
    × (row : Job Document) × (get_job id db'.queue ≡ some row)
    × (row.status ≡ completed)

module _ (registry : Registry) (r : OperatorResult) (worker later : ℕ) where
  saved-Completes :
      (k : Job Document) (db : WorkerDb) (out : Saved)
      → k.status ≡ running
      → r.success ≡ true
      → raw_target r.state_patch ≡ none
      → IsPersisted worker later k r db out
      → Completes k.id (outcome_of db out)
  unfolding outcome_of
  saved-Completes k db (saved db') runs good idle h =
      (db', refl, h.row, h.stored, h.status ∙ ap₂ final_status good runs)
  saved-Completes k db (stopped stop) runs good idle (e, _, _, _, bad) =
      cc (bad, apply_state_patch-idle k.cycle_id _ r.state_patch later db.store idle)

  started-Completes :
      (id : ℕ) (db : WorkerDb) (out : Option (Job Document × Queue Document))
      (w : IsWritten running id db.queue out)
      → r.success ≡ true
      → raw_target r.state_patch ≡ none
      → (kind : String) → w.row.job_type ≡ kind
      → ((i : OperatorInput) (d : WorkerDb) → i.job_type ≡ kind → execute registry i d ≡ (r, d))
      → Completes id (started registry worker later db out)
  unfolding started
  started-Completes id db out w good idle kind of_kind plain =
      let db0 = record db { queue = w.table } in
      let db1 =
        emit (resolve_charter_id w.row db0) w.row.cycle_id worker
          (job_started w.row.id w.row.job_type) db0 in
      let here = subst (λ i. get_job i w.table ≡ some w.row) (sym w.same_id) w.stored in
      subst (λ i. Completes i (started registry worker later db out)) w.same_id
        (rw (w.answer, plain (build_operator_input w.row db1) db1 of_kind)
          (saved-Completes w.row db1 _ w.new_status good idle
            (persist-IsPersisted worker later w.row.id r db1 w.row here)))

-- A job that is cancelled after its claim, before the worker starts it, is started, executed and
-- completed all the same, if its operator succeeds, names no status and leaves the tables alone.
pub cancel_before_start-Completes :
    (registry : Registry) (r : OperatorResult) (worker now later id : ℕ) (db : WorkerDb)
    (q : Queue Document) (j : Job Document)
    → get_job id db.queue ≡ some j
    → cancel_job id now db.queue ≡ done q
    → r.success ≡ true
    → raw_target r.state_patch ≡ none
    → ((i : OperatorInput) (d : WorkerDb) → i.job_type ≡ j.job_type → execute registry i d ≡ (r, d))
    → Completes id (work_on registry worker later id (record db { queue = q }))
unfolding work_on
cancel_before_start-Completes registry r worker now later id db q j found gone good idle plain =
    let (j', found', k, stored, kind) = cancel_job-stored id now db.queue gone in
    let w = start_job-IsWritten id q k stored in
    started-Completes registry r worker later id (record db { queue = q }) (start_job id q) w good
      idle j.job_type (w.same_type k stored ∙ kind ∙ job_type_of (sym found' ∙ found)) plain
