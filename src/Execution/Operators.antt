-- ===== src/Execution/Operators.antt =====
-- The operators execution_setup, execution_run and execution_capture of libs/execution/operators.
-- What git, Docker and the file system answer are arguments; the tables are those of the operator's
-- own session, and what others write while the container runs reaches it as the way it ended.
pub mod Causes
pub mod Prepared
pub mod Launched
pub mod Steps
use Prim.Native.String.{String, ◌++◌ as joined}
use text.Mathlib.Text.{◌==◌ as str_eq, find?}
use synthetos.Prelude.{
  ℕ, ◌==◌, Bool, true, false, ◌||◌, not, Option, none, some, List, [], ◌∷◌, ◌++◌, if◌then◌else◌,
  is_some, any_of, or_default,
}
use synthetos.Prelude.Int.{ℤ, pos, negsuc}
use synthetos.Cycle.{verifying}
use synthetos.Remediation.Strategies.{
  FailureClass, metric_parse, dependency, oom, timeout, invalid_artifact, runtime, unknown,
  Overrides, extra_pip_packages, patched_files, gigabytes,
}
use synthetos.Execution.Metrics.{MetricsFile, ParsedMetrics, parse_metrics, is_ok}
use synthetos.Execution.{
  RunStatus, workspace_setup, building, running, capturing, completed, failed, paused, cancelled,
  Artifact, Limits, RunError, worktree_creation_failed, worktree_commit_failed, empty_commit_sha,
  image_build_failed, no_workspace, container_failed, exited_with, bad_metrics, ExecRun, ExecSpec,
  workspace_created, image_built, container_started, run_completed, artifacts_captured, run_failed,
  run_record, ExecDb, Answer, succeeded, errored, raised, ExecInput, write_run, log, enqueue_next,
  with_run, with_spec,
}

-- What the set-up meets: the worktree's path, the hash of a commit of files and the image of a
-- Dockerfile, each of which may raise.
pub record SetupWorld : Type 0 where
  pub worktree : Option String
  pub commit : List (String × String) → Option String
  pub image : List String → Option String

abbrev failed_run : ExecRun → FailureClass → RunError → ℕ → ExecRun
failed_run run class error now = record run {
  status = failed;
  failure_class = some class;
  error = some error;
  completed_at = some now;
}

-- A failure that is committed and ends the chain.
abbrev give_up : ExecInput → ExecRun → FailureClass → RunError → ExecDb → Answer
give_up i run class error db = errored (write_run (failed_run run class error i.now) db)

-- `existing_files.update(patched_files)`
abbrev put : String → String → List (String × String) → List (String × String)
put k v [] = (k, v) ∷ []
put k v (e ∷ es) = let rest = put k v es in if str_eq e.0 k then (k, v) ∷ es else e ∷ rest

unfoldable pub updated : List (String × String) → List (String × String) → List (String × String)
updated files [] = files
updated files (e ∷ es) = updated (put e.0 e.1 files) es

unfoldable pub files_of : ExecSpec → Overrides → List (String × String)
unfolding updated
files_of spec (patched_files patched) = updated spec.files patched
files_of spec _ = spec.files

-- `' '.join(extra_pkgs)` after `RUN pip install`
abbrev words : List String → String
words [] = ""
words (w ∷ []) = w
words (w ∷ (v ∷ ws)) = joined w (joined " " (words (v ∷ ws)))

abbrev pip_line : List String → String
pip_line packages = joined "RUN pip install " (words packages)

abbrev image_of : ExecSpec → String
image_of spec = if str_eq spec.base_image "" then "python:3.12-slim" else spec.base_image

-- The Dockerfile that is built; none is built without one.
abbrev install : ExecSpec → List String → List String
install spec [] = spec.dockerfile
install spec (p ∷ ps) = elim spec.dockerfile [
  | [] ↦ joined "FROM " (image_of spec) ∷ pip_line (p ∷ ps) ∷ []
  | ◌∷◌ _ _ ↦ spec.dockerfile ++ pip_line (p ∷ ps) ∷ []
]

unfoldable pub dockerfile_of : ExecSpec → Overrides → List String
dockerfile_of spec (extra_pip_packages packages) = install spec packages
dockerfile_of spec _ = spec.dockerfile

-- Limits that a remediation has set stay.
unfoldable pub limits_of : ExecSpec → Option Limits → Limits
limits_of spec (some limits) = limits
limits_of spec none = record {
  memory = gigabytes (or_default spec.memory_gb 16);
  timeout = or_default spec.timeout_seconds 3600;
  gpu = or_default spec.gpu_required false;
  gpu_count = or_default spec.gpu_count 1;
}

-- The end of the set-up: the image is there.
unfoldable pub finish_setup : ExecInput → ExecRun → ExecSpec → String → ExecDb → Answer
unfolding limits_of enqueue_next
finish_setup i run spec image db =
    let run' = record run {
      image_ref = some image;
      command = some (joined "python " (or_default spec.entry_point "run_experiment.py"));
      resource_limits = some (limits_of spec run.resource_limits);
    } in
    succeeded
      (enqueue_next i run.cycle_id "execution_run" (run_record run.id)
        (log (workspace_created run.id) (write_run run' db)))
      none

unfoldable pub of_image : ExecInput → ExecRun → ExecSpec → Option String → ExecDb → Answer
unfolding finish_setup
of_image i run spec none db = give_up i run dependency image_build_failed db
of_image i run spec (some image) db = finish_setup i run spec image (log (image_built run.id) db)

unfoldable pub build_image :
    ExecInput → ExecRun → ExecSpec → SetupWorld → List String → ExecDb → Answer
unfolding of_image
build_image i run spec world [] db = finish_setup i run spec (image_of spec) db
build_image i run spec world (line ∷ lines) db = of_image i run spec (world.image (line ∷ lines)) db

-- After the worktree: the commit, whose hash must not be empty, then the image.
unfoldable pub of_commit :
    ExecInput → ExecRun → ExecSpec → SetupWorld → Option String → ExecDb → Answer
unfolding build_image dockerfile_of
of_commit i run spec world none db = give_up i run dependency worktree_commit_failed db
of_commit i run spec world (some sha) db =
    if str_eq sha ""
    then give_up i run dependency empty_commit_sha db
    else build_image i (record run { commit_sha = some sha; status = building }) spec world
        (dockerfile_of spec i.overrides) db

unfoldable pub of_worktree :
    ExecInput → ExecRun → ExecSpec → SetupWorld → Option String → ExecDb → Answer
unfolding of_commit files_of
of_worktree i run spec world none db = give_up i run dependency worktree_creation_failed db
of_worktree i run spec world (some path) db =
    of_commit i (record run { workspace_path = some path }) spec world
      (world.commit (files_of spec i.overrides)) db

unfoldable pub execution_setup : SetupWorld → ExecInput → ExecDb → Answer
unfolding with_run with_spec of_worktree
execution_setup world i db = with_run i db (λ run. with_spec run db (λ spec.
    of_worktree i (record run { status = workspace_setup; started_at = some i.now }) spec world
      world.worktree db))

-- How the container ended.
pub data Terminal : Type 0 where
  at_end at_pause at_cancel : Terminal

pub record RunOutcome : Type 0 where
  pub exit_code : ℤ
  pub terminal_state : Terminal
  pub container_id : String

-- What the run meets: whether the workspace is there, the container's end, which may raise, and the
-- last lines of its output, lowered.
pub record RunWorld : Type 0 where
  pub workspace_exists : Bool
  pub outcome : Option RunOutcome
  pub tail : String

-- `any(s in lower for s in signals)`
abbrev mentions : String → List String → Bool
mentions text = any_of (λ s. is_some (find? text s))

abbrev pub is_code : ℕ → ℤ → Bool
is_code n (pos m) = m == n
is_code n (negsuc m) = false

unfoldable pub classify_failure : ℤ → String → FailureClass
classify_failure code lower =
    if is_code 137 code || mentions lower ("oom" ∷ "out of memory" ∷ "killed" ∷ "signal 9" ∷ [])
    then oom
    else if mentions lower ("timeout" ∷ [])
    then timeout
    else if mentions lower ("modulenotfounderror" ∷ "importerror" ∷ "no such file" ∷ [])
    then dependency
    else if mentions lower
        ("filenotfounderror" ∷ "artifact" ∷ "missing output" ∷ "expected output" ∷ [])
    then invalid_artifact
    else if not (is_code 0 code)
    then runtime
    else unknown "unknown"

-- `exit_code if exit_code >= 0 else None`
abbrev code_of : ℤ → Option ℕ
code_of (pos n) = some n
code_of (negsuc _) = none

abbrev then_verify : ExecInput → ExecRun → ExecDb → Answer
then_verify i run db =
    succeeded (enqueue_next i run.cycle_id "verification_check" (run_record run.id) db)
      (some verifying)

-- The container's exit, by its code.
unfoldable pub exit_of : RunWorld → ExecInput → ExecRun → ℤ → ExecDb → Answer
unfolding enqueue_next classify_failure
exit_of world i run code db =
    if not (is_code 0 code)
    then then_verify i run (
        log (run_failed run.id (classify_failure code world.tail)) (
          write_run (failed_run run (classify_failure code world.tail) (exited_with code) i.now)
            db))
    else succeeded
        (enqueue_next i run.cycle_id "execution_capture" (run_record run.id)
          (log (run_completed run.id) (write_run (record run { status = capturing }) db)))
        none

unfoldable pub ended : RunWorld → ExecInput → ExecRun → ℤ → ExecDb → Terminal → Answer
unfolding exit_of
ended world i run code db at_pause = succeeded (write_run (record run { status = paused }) db) none
ended world i run code db at_cancel =
    succeeded (write_run (record run { status = cancelled; completed_at = some i.now }) db) none
ended world i run code db at_end = exit_of world i run code db

unfoldable pub of_outcome : RunWorld → ExecInput → ExecRun → ExecDb → Option RunOutcome → Answer
unfolding ended
of_outcome world i run db none = give_up i run runtime container_failed db
of_outcome world i run db (some o) =
    ended world i
      (record run { container_id = some o.container_id; exit_code = code_of o.exit_code })
      o.exit_code db o.terminal_state

unfoldable pub execution_run : RunWorld → ExecInput → ExecDb → Answer
unfolding with_run of_outcome
execution_run world i db = with_run i db (λ run.
    if not (is_some run.workspace_path) || not world.workspace_exists
    then give_up i (record run { status = running }) dependency no_workspace db
    else of_outcome world i (record run { status = running }) (log (container_started run.id) db)
        world.outcome)

-- What the capture meets: the files of the run, and its metrics file.
pub record CaptureWorld : Type 0 where
  pub manifest : List Artifact
  pub metrics : MetricsFile

unfoldable pub captured : ExecInput → ExecRun → ParsedMetrics → ExecDb → Answer
unfolding enqueue_next
captured i run p db =
    let run' = record run { metrics_output = some p.values } in
    if is_ok p
    then then_verify i run (
        log (artifacts_captured run.id)
          (write_run (record run' { status = completed; completed_at = some i.now }) db))
    else then_verify i run (
        log (run_failed run.id metric_parse)
          (write_run (failed_run run' metric_parse bad_metrics i.now) db))

unfoldable pub of_parsed : ExecInput → ExecRun → ExecDb → Option ParsedMetrics → Answer
unfolding captured
of_parsed i run db none = raised
of_parsed i run db (some p) = captured i run p db

unfoldable pub execution_capture : CaptureWorld → ExecInput → ExecDb → Answer
unfolding with_run with_spec of_parsed parse_metrics
execution_capture world i db = with_run i db (λ run. with_spec run db (λ spec.
    of_parsed i (record run { artifact_manifest = some world.manifest }) db
      (parse_metrics world.metrics spec.metrics)))
