-- ===== src/Verification/Operators.antt =====
-- The operators verification_check and verification_postmortem of libs/verification/operators. The
-- patterns and the earlier run only add to the report's warnings; what the language model answers
-- only fills texts of the postmortem.
pub mod Steps
pub mod Pipeline
pub mod Repeated
use Prim.Native.String.{String}
use synthetos.Prelude.{
  ℕ, ◌==◌, Bool, true, false, Option, none, some, List, [], ◌∷◌, ◌++◌, if◌then◌else◌, is_some,
  or_default, select,
}
use synthetos.Remediation.Strategies.{FailureClass, unknown}
use synthetos.Execution.Metrics.{Named}
use synthetos.Execution.{
  RunStatus, failed, ExecRun, ExecSpec, Verdict, VerificationReport, FailurePostmortem,
  check_started, check_completed, postmortem_generated, run_record, failed_run, ExecDb, Answer,
  succeeded, raised, ExecInput, log, enqueue_next, with_run, with_spec,
}
use synthetos.Verification.{Evidence, compare_to_baseline, verdict_of}

abbrev pub is_failed : RunStatus → Bool
is_failed RunStatus.failed = true
is_failed _ = false

abbrev pub is_failure : Verdict → Bool
is_failure Verdict.failed = true
is_failure _ = false

abbrev pub add_report : VerificationReport → ExecDb → ExecDb
add_report r db = record db { reports = db.reports ++ r ∷ [] }

-- `run.metrics_output or {}` and the like
abbrev pub evidence_of : ExecRun → ExecSpec → Evidence
evidence_of run spec = record {
  metrics = or_default run.metrics_output [];
  spec_metrics = spec.metrics;
  baseline = spec.baseline;
  manifest = or_default run.artifact_manifest [];
  expected = spec.expected_artifacts;
}

abbrev pub next_job : Verdict → String
next_job verdict = if is_failure verdict then "auto_remediate" else "signal_classify"

-- The report, its event and the next job.
abbrev pub reported : ExecInput → ExecRun → VerificationReport → ExecDb → Answer
reported i run r db =
    succeeded
      (enqueue_next i run.cycle_id (next_job r.verdict) (run_record run.id)
        (log (check_completed run.id r.verdict) (add_report r db)))
      none

unfoldable pub judged : ExecInput → ExecRun → ExecSpec → ExecDb → Answer
unfolding verdict_of enqueue_next
judged i run spec db =
    let e = evidence_of run spec in
    reported i run
      (record {
        run_record_id = run.id;
        verdict = verdict_of e;
        baseline_comparison = some (compare_to_baseline e.metrics e.spec_metrics e.baseline);
      })
      db

unfoldable pub verification_check : ExecInput → ExecDb → Answer
unfolding with_run with_spec judged
verification_check i db = with_run i db (λ run. with_spec run db (λ spec.
    let db' = log (check_started run.id) db in
    if is_failed run.status
    then reported i run
        (record { run_record_id = run.id; verdict = Verdict.failed; baseline_comparison = none })
        db'
    else judged i run spec db'))

-- `scalar_one_or_none` raises for a run with several reports.
abbrev pub reports_of : ℕ → ExecDb → List VerificationReport
reports_of run db = select (λ r. r.run_record_id == run) db.reports

unfoldable pub post_mortem : ExecInput → ExecRun → Bool → ExecDb → Answer
unfolding enqueue_next
post_mortem i run has_report db =
    succeeded
      (enqueue_next i run.cycle_id "recommend" (failed_run run.id) (
        log (postmortem_generated run.id) (record db {
          postmortems =
              db.postmortems
              ++ record {
                run_record_id = run.id;
                has_report = has_report;
                failure_class = or_default run.failure_class (unknown "unknown");
              }
                ∷ [];
        })))
      none

abbrev pub of_reports : ExecInput → ExecRun → ExecDb → List VerificationReport → Answer
of_reports i run db [] = post_mortem i run false db
of_reports i run db (_ ∷ []) = post_mortem i run true db
of_reports i run db (_ ∷ (_ ∷ _)) = raised

unfoldable pub verification_postmortem : ExecInput → ExecDb → Answer
unfolding with_run post_mortem
verification_postmortem i db = with_run i db (λ run. of_reports i run db (reports_of run.id db))
