-- ===== src/Execution/Stages.antt =====
-- The diagram of the stages that a run goes through, from its set-up to its recommendation, and what
-- it asks of an operator's answer (libs/execution/operators and libs/verification/operators).
use Prim.Native.String.{String}
use mathlib.Core.Path.{subst, ap₂}
use synthetos.Prelude.{
  ℕ, ◌==◌, ==_refl, ◌≡◌, refl, sym, ap, ◌∙◌, true, not, Option, none, some, List, select,
  first_where-update_where, select-update_where, first_where, update_where,
}
use synthetos.Prelude.Int.{pos}
use synthetos.Cycle.{CycleStatus, verifying}
use synthetos.Jobs.{Queue, create_job}
use synthetos.Remediation.Strategies.{FailureClass, dependency, runtime}
use synthetos.Execution.{
  RunStatus, building, capturing, completed, failed, paused, cancelled, ExecRun, ExecSpec,
  ExecPayload, run_record, run_with, failed_run, ExecDb, Answer, succeeded, errored, ExecInput,
  enqueue_next, is_run, load_run_record, find_spec, with_run, of_id, of_row, with_spec, of_spec,
}

pub data Stage : Type 0 where
  set_up launch capture check explain : Stage

-- What a stage's answer depends on; the operators' modules say what each is.
pub data Cause : Type 0 where
  all_ready something_missing : Cause
  workspace_missing container_raised user_paused user_cancelled exit_zero exit_other : Cause
  metrics_good metrics_bad : Cause
  judged_failed judged_fine : Cause

-- A run goes on, for a cause: the stage, its status before and after, the job of the next stage, and
-- the status that the cycle gets.
pub data Leads (why : Cause → Type 0)
    : Stage → RunStatus → RunStatus → String → Option CycleStatus → Type 0 where
  prepared : {s : RunStatus} → why all_ready → Leads why set_up s building "execution_run" none
  exited : {s : RunStatus} → why exit_zero → Leads why launch s capturing "execution_capture" none
  crashed :
      {s : RunStatus}
      → why exit_other
      → Leads why launch s failed "verification_check" (some verifying)
  measured :
      {s : RunStatus}
      → why metrics_good
      → Leads why capture s completed "verification_check" (some verifying)
  unmeasured :
      {s : RunStatus}
      → why metrics_bad
      → Leads why capture s failed "verification_check" (some verifying)
  rejected : {s : RunStatus} → why judged_failed → Leads why check s s "auto_remediate" none
  accepted : {s : RunStatus} → why judged_fine → Leads why check s s "signal_classify" none
  explained : {s : RunStatus} → Leads why explain s s "recommend" none

-- A run rests: the user has paused or cancelled it.
pub data Rests (why : Cause → Type 0) : Stage → RunStatus → Type 0 where
  held : why user_paused → Rests why launch paused
  called_off : why user_cancelled → Rests why launch cancelled

-- A run fails with no next stage.
pub data Fails (why : Cause → Type 0) : Stage → Option FailureClass → Type 0 where
  unprepared : why something_missing → Fails why set_up (some dependency)
  no_workspace : why workspace_missing → Fails why launch (some dependency)
  no_container : why container_raised → Fails why launch (some runtime)

abbrev pub other_runs : ℕ → List ExecRun → List ExecRun
other_runs i = select (λ r. not (is_run i r))

abbrev pub run_of : ExecPayload → ℕ
run_of (run_record i) = i
run_of (run_with i _) = i
run_of (failed_run i) = i

-- The run's row in the new table, which has the other runs as they were.
pub record IsRowOf (run row : ExecRun) (old new : List ExecRun) : Type 0 where
  pub stored : first_where (is_run run.id) new ≡ some row
  pub same_id : row.id ≡ run.id
  pub same_others : other_runs run.id new ≡ other_runs run.id old

-- One job of the run for the next stage, and no other.
abbrev pub HandsOver : ExecInput → ExecRun → String → Queue ExecPayload → Queue ExecPayload → Type 0
HandsOver i run job q q' =
    (p : ExecPayload) × (run_of p ≡ run.id)
    × (q' ≡ (create_job i.new_job_id (some run.cycle_id) job (some p) (pos 10) i.now q).1)

pub data IsStep (why : Cause → Type 0) (stage : Stage) (i : ExecInput) (run : ExecRun) (db : ExecDb)
    : Answer → Type 0 where
  goes_on :
      {db' : ExecDb} {patch : Option CycleStatus} {row : ExecRun} {job : String}
      → IsRowOf run row db.runs db'.runs
      → Leads why stage run.status row.status job patch
      → HandsOver i run job db.queue db'.queue
      → IsStep why stage i run db (succeeded db' patch)
  rests :
      {db' : ExecDb} {row : ExecRun}
      → IsRowOf run row db.runs db'.runs
      → Rests why stage row.status
      → db'.queue ≡ db.queue
      → IsStep why stage i run db (succeeded db' none)
  fails :
      {db' : ExecDb} {row : ExecRun}
      → IsRowOf run row db.runs db'.runs
      → row.status ≡ failed
      → Fails why stage row.failure_class
      → db'.queue ≡ db.queue
      → IsStep why stage i run db (errored db')

-- An operator that finds the run and its spec goes on with them.
pub with_run_lem :
    (P : Answer → Type 0) (i : ExecInput) (db : ExecDb) (next : ExecRun → Answer) (r : ℕ)
    (run : ExecRun)
    → i.run_record_id ≡ some r
    → load_run_record r db ≡ some run
    → P (next run)
    → P (with_run i db next)
unfolding with_run
with_run_lem P i db next r run named found h =
    let e : of_id i.run_record_id db next ≡ next run =
      ap (λ o. of_id o db next) named ∙ ap (λ o. of_row o next) found in
    subst P (sym e) h

pub with_spec_lem :
    (P : Answer → Type 0) (run : ExecRun) (db : ExecDb) (next : ExecSpec → Answer) (spec : ExecSpec)
    → find_spec run.experiment_spec_id db ≡ some spec
    → P (next spec)
    → P (with_spec run db next)
unfolding with_spec
with_spec_lem P run db next spec known h = subst P (sym (ap (λ o. of_spec o db next) known)) h

-- A row that is written over the run's is its row.
write-IsRowOf :
    (run row : ExecRun) (old : List ExecRun)
    → first_where (is_run run.id) old ≡ some run
    → row.id ≡ run.id
    → IsRowOf run row old (update_where (is_run row.id) (λ _. row) old)
write-IsRowOf run row old found same =
    let mine : is_run run.id row ≡ true = ap (λ n. n == run.id) same ∙ ==_refl run.id in
    record {
      stored =
          subst
            (λ k. first_where (is_run run.id) (update_where (is_run k) (λ _. row) old) ≡ some row)
            (sym same)
            (first_where-update_where (is_run run.id) (λ _. row) (λ _ _. mine) old run found);
      same_id = same;
      same_others =
          subst
            (λ k.
              other_runs run.id (update_where (is_run k) (λ _. row) old) ≡ other_runs run.id old)
            (sym same) (select-update_where (is_run run.id) (λ _. row) (λ _ _. mine) old);
    }

pub written-IsRowOf :
    (run row : ExecRun) (old mid : List ExecRun)
    → first_where (is_run run.id) old ≡ some run
    → mid ≡ old
    → row.id ≡ run.id
    → IsRowOf run row old (update_where (is_run row.id) (λ _. row) mid)
written-IsRowOf run row old mid found same own =
    subst (λ l. IsRowOf run row old (update_where (is_run row.id) (λ _. row) l)) (sym same)
      (write-IsRowOf run row old found own)

-- The run's own row, where the runs are left alone.
pub same-IsRowOf :
    (run : ExecRun) (old : List ExecRun)
    → first_where (is_run run.id) old ≡ some run
    → IsRowOf run run old old
same-IsRowOf run old found = record { stored = found; same_id = refl; same_others = refl }

-- The job that `enqueue_next` adds.
pub enqueue_next-HandsOver :
    (i : ExecInput) (run : ExecRun) (db mid : ExecDb) (cycle : ℕ) (job : String) (p : ExecPayload)
    → cycle ≡ run.cycle_id
    → run_of p ≡ run.id
    → mid.queue ≡ db.queue
    → HandsOver i run job db.queue (enqueue_next i cycle job p mid).queue
unfolding enqueue_next
enqueue_next-HandsOver i run db mid cycle job p same own queue = (
  p,
  own,
  ap₂ (λ c q. (create_job i.new_job_id (some c) job (some p) (pos 10) i.now q).1) same queue,
)
