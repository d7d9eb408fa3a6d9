-- ===== src/Execution.antt =====
-- The tables of the operators of libs/execution and libs/verification, and the ways in which they
-- end. A run's path, image and command are texts; the texts of errors and summaries, the bodies of
-- events and the files that are written are left out.
pub mod Metrics
pub mod Operators
pub mod Stages
pub mod Control
use Prim.Native.String.{String}
use synthetos.Prelude.{
  ℕ, ◌==◌, Bool, Option, none, some, List, [], ◌∷◌, ◌++◌, first_where, update_where,
}
use synthetos.Prelude.Int.{ℤ, pos}
use synthetos.Cycle.{CycleStatus}
use synthetos.Jobs.{Queue, create_job}
use synthetos.Remediation.Strategies.{FailureClass, Overrides, Memory}
use synthetos.Execution.Metrics.{Named, MetricSpec, MetricVerdict}

pub data RunStatus : Type 0 where
  pending workspace_setup building running capturing completed failed paused cancelled : RunStatus

-- An entry of a manifest; `suffix` is that of its path, lowered and without the dot.
pub record Artifact : Type 0 where
  pub name : String
  pub suffix : String

-- An expected artifact: `type` lowered and empty if absent, `required` true if absent.
pub record ExpectedArtifact : Type 0 where
  pub name : String
  pub type : String
  pub required : Bool

pub record Limits : Type 0 where
  pub memory : Memory
  pub timeout : ℕ
  pub gpu : Bool
  pub gpu_count : ℕ

-- The text of `run.error`, by where it comes from.
pub data RunError : Type 0 where
  worktree_creation_failed worktree_commit_failed empty_commit_sha : RunError
  image_build_failed no_workspace container_failed : RunError
  exited_with : ℤ → RunError
  bad_metrics : RunError

-- A row of `run_records`.
pub record ExecRun : Type 0 where
  pub id : ℕ
  pub experiment_spec_id : ℕ
  pub cycle_id : ℕ
  pub status : RunStatus
  pub failure_class : Option FailureClass
  pub error : Option RunError
  pub started_at : Option ℕ
  pub completed_at : Option ℕ
  pub workspace_path : Option String
  pub commit_sha : Option String
  pub image_ref : Option String
  pub command : Option String
  pub resource_limits : Option Limits
  pub container_id : Option String
  pub exit_code : Option ℕ
  pub metrics_output : Option (Named ℤ)
  pub artifact_manifest : Option (List Artifact)

-- A row of `experiment_specs`, as far as these operators read it. A Dockerfile is its list of lines.
pub record ExecSpec : Type 0 where
  pub id : ℕ
  pub files : List (String × String)
  pub entry_point : Option String
  pub base_image : String
  pub dockerfile : List String
  pub memory_gb : Option ℕ
  pub timeout_seconds : Option ℕ
  pub gpu_required : Option Bool
  pub gpu_count : Option ℕ
  pub metrics : List MetricSpec
  pub baseline : Named ℤ
  pub expected_artifacts : List ExpectedArtifact

pub data Verdict : Type 0 where
  passed inconclusive failed : Verdict

-- A row of `verification_reports`; of the comparison the verdicts of the metrics.
pub record VerificationReport : Type 0 where
  pub run_record_id : ℕ
  pub verdict : Verdict
  pub baseline_comparison : Option (List MetricVerdict)

pub record FailurePostmortem : Type 0 where
  pub run_record_id : ℕ
  pub has_report : Bool
  pub failure_class : FailureClass

pub data ExecEvent : Type 0 where
  workspace_created image_built container_started run_completed artifacts_captured : ℕ → ExecEvent
  run_failed : ℕ → FailureClass → ExecEvent
  check_started : ℕ → ExecEvent
  check_completed : ℕ → Verdict → ExecEvent
  postmortem_generated : ℕ → ExecEvent

-- A job's run, with the overrides for its set-up, or the mark of a failed run.
pub data ExecPayload : Type 0 where
  run_record : ℕ → ExecPayload
  run_with : ℕ → Overrides → ExecPayload
  failed_run : ℕ → ExecPayload

pub record ExecDb : Type 0 where
  pub runs : List ExecRun
  pub specs : List ExecSpec
  pub reports : List VerificationReport
  pub postmortems : List FailurePostmortem
  pub queue : Queue ExecPayload
  pub events : List ExecEvent

-- A result, whose patch may name a status; an error result, before or after a commit; an exception.
pub data Answer : Type 0 where
  succeeded : ExecDb → Option CycleStatus → Answer
  errored : ExecDb → Answer
  raised : Answer

-- What an operator reads of its job, the clock and a fresh identifier.
pub record ExecInput : Type 0 where
  pub run_record_id : Option ℕ
  pub overrides : Overrides
  pub now : ℕ
  pub new_job_id : ℕ

abbrev pub is_run : ℕ → ExecRun → Bool
is_run i r = r.id == i

-- `load_run_record`; without a row it raises.
unfoldable pub load_run_record : ℕ → ExecDb → Option ExecRun
load_run_record i db = first_where (is_run i) db.runs

abbrev pub find_spec : ℕ → ExecDb → Option ExecSpec
find_spec i db = first_where (λ s. s.id == i) db.specs

abbrev pub write_run : ExecRun → ExecDb → ExecDb
write_run r db = record db { runs = update_where (is_run r.id) (λ _. r) db.runs }

abbrev pub log : ExecEvent → ExecDb → ExecDb
log e db = record db { events = db.events ++ e ∷ [] }

-- `enqueue_next` and `enqueue_next_verification`
unfoldable pub enqueue_next : ExecInput → ℕ → String → ExecPayload → ExecDb → ExecDb
unfolding create_job
enqueue_next i cycle job_type payload db = record db {
  queue = (create_job i.new_job_id (some cycle) job_type (some payload) (pos 10) i.now db.queue).1;
}

-- The start of every operator: the job's run, without whose identifier the result is an error.
abbrev pub of_row : Option ExecRun → (ExecRun → Answer) → Answer
of_row none next = raised
of_row (some run) next = next run

abbrev pub of_id : Option ℕ → ExecDb → (ExecRun → Answer) → Answer
of_id none db next = errored db
of_id (some r) db next = of_row (load_run_record r db) next

unfoldable pub with_run : ExecInput → ExecDb → (ExecRun → Answer) → Answer
unfolding load_run_record
with_run i db next = of_id i.run_record_id db next

abbrev pub of_spec : Option ExecSpec → ExecDb → (ExecSpec → Answer) → Answer
of_spec none db next = errored db
of_spec (some spec) db next = next spec

unfoldable pub with_spec : ExecRun → ExecDb → (ExecSpec → Answer) → Answer
with_spec run db next = of_spec (find_spec run.experiment_spec_id db) db next
