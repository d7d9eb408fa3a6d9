-- ===== src/Verification/Operators/Pipeline.antt =====
-- The operators of libs/execution and libs/verification as one table of stages.
use synthetos.Prelude.Int.{pos}
use synthetos.Prelude.{ℕ, ◌≡◌, ◌≢◌, ◌≤◌, none, some, length}
use synthetos.Execution.Metrics.{parse_metrics}
use synthetos.Execution.{ExecRun, ExecSpec, ExecDb, Answer, ExecInput, load_run_record, find_spec}
use synthetos.Execution.Operators.{
  SetupWorld, execution_setup, RunWorld, at_end, at_pause, at_cancel, execution_run, CaptureWorld,
  execution_capture,
}
use synthetos.Execution.Operators.Causes.{
  IsReady, IsMissing, HasNoWorkspace, HasRaised, HasEnded, HasMetrics, HasErrors,
}
use synthetos.Execution.Operators.Steps.{
  execution_setup-IsStep, execution_run-IsStep, execution_capture-IsStep,
}
use synthetos.Execution.Stages.{
  Cause, all_ready, something_missing, workspace_missing, container_raised, user_paused,
  user_cancelled, exit_zero, exit_other, metrics_good, metrics_bad, judged_failed, judged_fine,
  Stage, set_up, launch, capture, check, explain, IsStep,
}
use synthetos.Verification.Operators.{verification_check, reports_of, verification_postmortem}
use synthetos.Verification.Operators.Steps.{
  IsRejected, IsAccepted, verification_check-IsStep, verification_postmortem-IsStep,
}

-- What the operators meet outside of the tables.
pub record Worlds : Type 0 where
  pub setup : SetupWorld
  pub run : RunWorld
  pub capture : CaptureWorld

pub operate : Stage → Worlds → ExecInput → ExecDb → Answer
operate set_up w = execution_setup w.setup
operate launch w = execution_run w.run
operate capture w = execution_capture w.capture
operate check w = verification_check
operate explain w = verification_postmortem

-- What the answers depend on: the set-up, the workspace and the end of the container, the metrics file
-- and the verdict.
abbrev pub Holds : Worlds → ExecInput → ExecRun → ExecSpec → Cause → Type 0
Holds w i run spec all_ready = IsReady w.setup i spec
Holds w i run spec something_missing = IsMissing w.setup i spec
Holds w i run spec workspace_missing = HasNoWorkspace w.run run
Holds w i run spec container_raised = HasRaised w.run run
Holds w i run spec user_paused = HasEnded w.run run at_pause (λ c. Unit)
Holds w i run spec user_cancelled = HasEnded w.run run at_cancel (λ c. Unit)
Holds w i run spec exit_zero = HasEnded w.run run at_end (λ c. c ≡ pos 0)
Holds w i run spec exit_other = HasEnded w.run run at_end (λ c. c ≢ pos 0)
Holds w i run spec metrics_good = HasMetrics w.capture spec
Holds w i run spec metrics_bad = HasErrors w.capture spec
Holds w i run spec judged_failed = IsRejected run spec
Holds w i run spec judged_fine = IsAccepted run spec

-- At every stage of a run whose row and spec are in the tables, with numbers in the metrics file
-- that a float can hold and one report of the run at most, the operator follows the diagram for the
-- cause that it meets: the run goes on with one job for the next stage and the cycle's status that
-- belongs to it, by the set-up being ready, the exit code, the errors of the metrics file and the
-- verdict; it rests when the container's run was paused or cancelled; or it fails with its class and no
-- job when the set-up or the workspace is missing or the container raised. The other runs stay as they
-- are.
pub operate-IsStep :
    (stage : Stage) (w : Worlds) (i : ExecInput) (db : ExecDb) (r : ℕ) (run : ExecRun)
    (spec : ExecSpec)
    → i.run_record_id ≡ some r
    → load_run_record r db ≡ some run
    → find_spec run.experiment_spec_id db ≡ some spec
    → parse_metrics w.capture.metrics spec.metrics ≢ none
    → length (reports_of run.id db) ≤ 1
    → IsStep (Holds w i run spec) stage i run db (operate stage w i db)
unfolding operate
operate-IsStep set_up w i db r run spec named found known readable few =
    execution_setup-IsStep (Holds w i run spec) i db r run spec named found known w.setup (λ h. h)
      (λ h. h)
operate-IsStep launch w i db r run spec named found known readable few =
    execution_run-IsStep (Holds w i run spec) i db r run spec named found known w.run (λ h. h)
      (λ h. h) (λ h. h) (λ h. h) (λ h. h) (λ h. h)
operate-IsStep capture w i db r run spec named found known readable few =
    execution_capture-IsStep (Holds w i run spec) i db r run spec named found known w.capture
      (λ h. h) (λ h. h) readable
operate-IsStep check w i db r run spec named found known readable few =
    verification_check-IsStep (Holds w i run spec) i db r run named found spec known (λ h. h)
      (λ h. h)
operate-IsStep explain w i db r run spec named found known readable few =
    verification_postmortem-IsStep (Holds w i run spec) i db r run named found few
