-- ===== src/Verification/Tests.antt =====
-- Tests and examples of the run's stages (libs/execution and libs/verification).
use Prim.Native.String.{String}
use synthetos.Prelude.{◌≡◌, refl, ◌≢◌, ◌↔◌, true, none, some, List, [], ◌∷◌, arith, map}
use synthetos.Prelude.Int.{pos}
use synthetos.Domain.{maximize}
use synthetos.Jobs.{Job}
use synthetos.Remediation.Strategies.{no_overrides, extra_pip_packages, dependency, oom, runtime}
use synthetos.Execution.Metrics.{MetricSpec, float, bool, too_large, object, parse_metrics}
use synthetos.Execution.{
  pending, ExecRun, ExecSpec, passed, failed, ExecDb, Answer, succeeded, errored, raised, ExecInput,
  load_run_record,
}
use synthetos.Execution.Operators.{
  at_end, classify_failure, dockerfile_of, execution_setup, execution_run,
}
use synthetos.Execution.Stages.{launch, IsStep}
use synthetos.Verification.{Evidence, has_thresholds, verdict_of}
use synthetos.Verification.Judged.{verdict_of_iff}
use synthetos.Verification.Parts.{IsSatisfied}
use synthetos.Verification.Operators.{verification_check, verification_postmortem}
use synthetos.Verification.Operators.Pipeline.{Worlds, Holds, operate, operate-IsStep}
use synthetos.Verification.Operators.Repeated.{checked_twice-raises}

abbrev accuracy : MetricSpec
accuracy = record {
  name = some "accuracy";
  direction = maximize;
  threshold = some (pos 80);
  min = some (pos 0);
  max = some (pos 100);
}

abbrev spec : ExecSpec
spec = record {
  id = 3;
  files = ("run_experiment.py", "print(1)") ∷ [];
  entry_point = none;
  base_image = "";
  dockerfile = [];
  memory_gb = none;
  timeout_seconds = some 60;
  gpu_required = none;
  gpu_count = none;
  metrics = accuracy ∷ [];
  baseline = ("accuracy", pos 70) ∷ [];
  expected_artifacts = record { name = "model.bin"; type = "bin"; required = true } ∷ [];
}

abbrev run : ExecRun
run = record {
  id = 5;
  experiment_spec_id = 3;
  cycle_id = 1;
  status = pending;
  failure_class = none;
  error = none;
  started_at = none;
  completed_at = none;
  workspace_path = some "/w/5";
  commit_sha = none;
  image_ref = none;
  command = none;
  resource_limits = none;
  container_id = none;
  exit_code = none;
  metrics_output = none;
  artifact_manifest = none;
}

abbrev db : ExecDb
db = record {
  runs = run ∷ [];
  specs = spec ∷ [];
  reports = [];
  postmortems = [];
  queue = record { jobs = []; events = [] };
  events = [];
}

abbrev input : ExecInput
input = record { run_record_id = some 5; overrides = no_overrides; now = 40; new_job_id = 11 }

-- The container ends with code 137.
abbrev worlds : Worlds
worlds = record {
  setup = record { worktree = some "/w/5"; commit = λ _. some "c0ffee"; image = λ _. some "exp" };
  run = record {
    workspace_exists = true;
    outcome = some (record { exit_code = pos 137; terminal_state = at_end; container_id = "k1" });
    tail = "epoch 3";
  };
  capture = record {
    manifest = record { name = "model.bin"; suffix = "bin" } ∷ [];
    metrics = object (("accuracy", float (pos 85)) ∷ []);
  };
}

abbrev job_types : Answer → List String
job_types (succeeded after _) = map (λ (j : Job _). j.job_type) after.queue.jobs
job_types (errored after) = "errored" ∷ map (λ (j : Job _). j.job_type) after.queue.jobs
job_types raised = "raised" ∷ []

setup_hands_over : job_types (execution_setup worlds.setup input db) ≡ "execution_run" ∷ []
unfolding execution_setup
setup_hands_over = refl

crash_is_verified : job_types (execution_run worlds.run input db) ≡ "verification_check" ∷ []
unfolding execution_run
crash_is_verified = refl

killed_is_oom : classify_failure (pos 137) "epoch 3" ≡ oom
unfolding classify_failure
killed_is_oom = refl

import_is_dependency :
    classify_failure (pos 1) "modulenotfounderror: no module named x" ≡ dependency
unfolding classify_failure
import_is_dependency = refl

bare_exit_is_runtime : classify_failure (pos 2) "assertion" ≡ runtime
unfolding classify_failure
bare_exit_is_runtime = refl

packages_are_installed :
    dockerfile_of spec (extra_pip_packages ("torch" ∷ "numpy" ∷ []))
    ≡ "FROM python:3.12-slim" ∷ "RUN pip install torch numpy" ∷ []
unfolding dockerfile_of
packages_are_installed = refl

-- The file of a run with a Boolean, one that is not a number, and one that no float holds.
bool_is_value :
    parse_metrics (object (("accuracy", bool true) ∷ [])) spec.metrics
    ≡ some (record { values = ("accuracy", pos 1) ∷ []; errors = [] })
unfolding parse_metrics
bool_is_value = refl

huge_raises : parse_metrics (object (("accuracy", too_large) ∷ [])) spec.metrics ≡ none
unfolding parse_metrics
huge_raises = refl

abbrev evidence : Evidence
evidence = record {
  metrics = ("accuracy", pos 85) ∷ ("loss", pos 2) ∷ [];
  spec_metrics = spec.metrics;
  baseline = spec.baseline;
  manifest = worlds.capture.manifest;
  expected = spec.expected_artifacts;
}

evidence_passes : verdict_of evidence ≡ passed
unfolding verdict_of
evidence_passes = refl

verdict_of_iff_example :
    (verdict_of evidence ≢ failed ↔ IsSatisfied evidence)
    × (verdict_of evidence ≡ passed
        ↔ IsSatisfied evidence × (has_thresholds evidence.spec_metrics ≡ true))
verdict_of_iff_example = verdict_of_iff evidence

found : load_run_record 5 db ≡ some run
unfolding load_run_record
found = refl

measured :
    parse_metrics worlds.capture.metrics spec.metrics
    ≡ some (record { values = ("accuracy", pos 85) ∷ []; errors = [] })
unfolding parse_metrics
measured = refl

readable : parse_metrics worlds.capture.metrics spec.metrics ≢ none
readable e = cc (measured, e)

operate-IsStep_example :
    IsStep (Holds worlds input run spec) launch input run db (operate launch worlds input db)
operate-IsStep_example =
    operate-IsStep launch worlds input db 5 run spec refl found refl readable (omega arith)

checked_twice-raises_example :
    (db1 : ExecDb) × (db2 : ExecDb) × (verification_check input db ≡ succeeded db1 none)
    × (verification_check input db1 ≡ succeeded db2 none)
    × (verification_postmortem input db2 ≡ raised)
checked_twice-raises_example = checked_twice-raises input db 5 run spec refl found refl refl
