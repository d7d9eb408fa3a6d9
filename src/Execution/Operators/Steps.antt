-- ===== src/Execution/Operators/Steps.antt =====
-- The operators of libs/execution/operators follow the diagram of the stages.
use mathlib.Core.Path.{subst}
use synthetos.Prelude.{
  sym, ℕ, ◌≡◌, refl, Option, none, some, if_cases, is_some, not, first_where, first_where-passes,
  ==→eq, ◌≢◌, ◌||◌,
}
use synthetos.Prelude.Int.{pos}
use synthetos.Remediation.Strategies.{dependency}
use synthetos.Execution.Metrics.{ParsedMetrics, parse_metrics}
use synthetos.Execution.{
  ExecRun, ExecSpec, RunError, workspace_setup, running, container_started, log, ExecDb, ExecInput,
  load_run_record, is_run, find_spec,
}
use synthetos.Execution.Stages.{
  Cause, all_ready, something_missing, workspace_missing, container_raised, user_paused,
  user_cancelled, exit_zero, exit_other, metrics_good, metrics_bad, set_up, launch, capture,
  no_workspace, IsStep, with_run_lem, with_spec_lem,
}
use synthetos.Execution.Operators.Causes.{
  IsReady, IsMissing, HasNoWorkspace, HasRaised, HasEnded, HasMetrics, HasErrors, workspace_there,
  workspace_gone,
}
use synthetos.Execution.Operators.{
  SetupWorld, of_parsed, execution_setup, RunWorld, at_end, at_pause, at_cancel, execution_run,
  CaptureWorld, execution_capture,
}
use synthetos.Execution.Operators.Prepared.{give_up-IsStep, worktree-IsStep}
use synthetos.Execution.Operators.Launched.{outcome-IsStep, captured-IsStep}

-- The set-up, the run and the capture of a run whose row and spec are in the tables follow the
-- diagram of the stages: the run goes on with one job for the next stage, rests, or fails with its
-- class and no job; only the capture may raise, by a number of the file that no float holds.
module _ (why : Cause → Type 0) (i : ExecInput) (db : ExecDb) (r : ℕ) (run : ExecRun)
    (spec : ExecSpec) (named : i.run_record_id ≡ some r) (found : load_run_record r db ≡ some run)
    (known : find_spec run.experiment_spec_id db ≡ some spec) where
  here : first_where (is_run run.id) db.runs ≡ some run
  unfolding load_run_record
  here =
      subst (λ k. first_where (is_run k) db.runs ≡ some run)
        (sym (==→eq run.id r (first_where-passes (is_run r) db.runs found))) found

  pub execution_setup-IsStep :
      (world : SetupWorld)
      → (IsReady world i spec → why all_ready)
      → (IsMissing world i spec → why something_missing)
      → IsStep why set_up i run db (execution_setup world i db)
  unfolding execution_setup
  execution_setup-IsStep world ready missing =
      with_run_lem (IsStep why set_up i run db) i db _ r run named found (
        with_spec_lem (IsStep why set_up i run db) run db _ spec known (
          worktree-IsStep why i run db here spec world ready missing
            (record run { status = workspace_setup; started_at = some i.now }) world.worktree refl
            (refl, refl, refl, refl)))

  pub execution_run-IsStep :
      (world : RunWorld)
      → (HasNoWorkspace world run → why workspace_missing)
      → (HasRaised world run → why container_raised)
      → (HasEnded world run at_pause (λ c. Unit) → why user_paused)
      → (HasEnded world run at_cancel (λ c. Unit) → why user_cancelled)
      → (HasEnded world run at_end (λ c. c ≡ pos 0) → why exit_zero)
      → (HasEnded world run at_end (λ c. c ≢ pos 0) → why exit_other)
      → IsStep why launch i run db (execution_run world i db)
  unfolding execution_run
  execution_run-IsStep world missing raises pauses cancels zero_code other_code =
      with_run_lem (IsStep why launch i run db) i db _ r run named found (
        if_cases (IsStep why launch i run db)
          (not (is_some run.workspace_path) || not world.workspace_exists) _ _
          (λ gone.
            give_up-IsStep why i run db here launch (record run { status = running }) dependency
              RunError.no_workspace db (refl, refl, refl, refl)
              (no_workspace
                (missing (workspace_gone run.workspace_path world.workspace_exists gone))))
          (λ present.
            outcome-IsStep why i run db here world zero_code other_code pauses cancels raises
              (workspace_there run.workspace_path world.workspace_exists present)
              (record run { status = running }) (log (container_started run.id) db) world.outcome
              refl (refl, refl, refl, refl)))

  parsed-IsStep :
      (world : CaptureWorld) (run' : ExecRun) (o : Option ParsedMetrics)
      → parse_metrics world.metrics spec.metrics ≡ o
      → (HasMetrics world spec → why metrics_good)
      → (HasErrors world spec → why metrics_bad)
      → (run'.id ≡ run.id) × (run'.cycle_id ≡ run.cycle_id)
      → o ≢ none
      → IsStep why capture i run db (of_parsed i run' db o)
  unfolding of_parsed
  parsed-IsStep world run' none e good bad h readable = absurd (readable refl)
  parsed-IsStep world run' (some p) e good bad h readable =
      captured-IsStep why i run db here run' p (λ fine. good (p, e, fine))
        (λ wrong. bad (p, e, wrong)) (h.0, h.1, refl, refl)

  pub execution_capture-IsStep :
      (world : CaptureWorld)
      → (HasMetrics world spec → why metrics_good)
      → (HasErrors world spec → why metrics_bad)
      → parse_metrics world.metrics spec.metrics ≢ none
      → IsStep why capture i run db (execution_capture world i db)
  unfolding execution_capture
  execution_capture-IsStep world good bad readable =
      with_run_lem (IsStep why capture i run db) i db _ r run named found (
        with_spec_lem (IsStep why capture i run db) run db _ spec known (
          parsed-IsStep world (record run { artifact_manifest = some world.manifest })
            (parse_metrics world.metrics spec.metrics) refl good bad (refl, refl) readable))
