-- ===== src/Lib.antt =====
-- Verification of Synthetos, a program that runs research cycles: it proposes hypotheses, compiles
-- experiments, runs them and decides how to go on. Services keep the tables, a worker claims jobs
-- from a queue and runs one operator for each, and an operator writes rows, enqueues the next job and
-- hands back a patch of the cycle's status. What is modelled is the logic that decides: the states of
-- a cycle, the queue and its worker, the execution and verification of runs and their control, the
-- autonomous loop and its compiler of specs, the remediation of failed runs, the reading of successful ones, and the library of
-- patterns.
--
-- The files, with the code that they model:
--
--   Prelude          lists, Boolean tests, dictionaries and integers that the other files share
--   Domain           rows and enums of several parts (libs/core/types.py and the tables' attributes)
--   Cycle            CycleStatus, ALLOWED_TRANSITIONS and validate_transition of
--                    libs/core/state_machine.py, transition_cycle and create_cycle of
--                    libs/core/services/cycle_service.py, and _apply_state_patch of
--                    apps/worker/main.py; Cycle/Reach has the moves, Cycle/Logged,
--                    Cycle/Writers and Cycle/History the log of the events
--   Jobs             libs/core/services/job_service.py, one function for each of its operations;
--                    Jobs/Api has the controls of apps/api/routers/jobs.py; Jobs/Life the sequences
--                    of operations, Jobs/Claim, Jobs/Reclaim, Jobs/Releases and Jobs/Sound what the
--                    operations keep, Jobs/Updates and Jobs/Pending what they do to a row and to
--                    the pending jobs
--   Worker           libs/core/operators.py and the tables of apps/worker/main.py; Worker/Failure has
--                    the marks of failed sessions and runs, Worker/Persist the outcome of a job,
--                    Worker/Pass the loop from the claim to the outcome, Worker/Periodic
--                    apps/worker/periodic.py
--   Execution        the tables and helpers of libs/execution/operators/_common.py; Metrics is
--                    libs/execution/metrics.py, Operators has setup.py, run.py and capture.py of
--                    libs/execution/operators with what their answers depend on in Operators/Causes,
--                    Stages the diagram of a run, Control start_run and control_run of
--                    libs/core/services/experiment_service.py
--   Verification     baseline.py, contracts.py and the verdict of libs/verification; Operators has
--                    operators/check.py and operators/postmortem.py, Judged and Parts what a verdict
--                    means
--   Autonomy         AutonomyPolicy of libs/autonomy/policy.py; below it Budget (budget.py), Gates
--                    (gates.py), Lifecycle (hypothesis_lifecycle.py), Repetition (repetition.py)
--   Autonomy/Loop    the operator of libs/autonomy/operators/loop_decide.py: the tables and the ends
--                    of the operator in Loop, steps 1 to 5 in Loop/Operator, steps 6 to 8 in
--                    Loop/Decide, the change of the hypothesis in Loop/Pivot; what a call leaves
--                    behind in Loop/Effects, Loop/Steps and Loop/Turns, limits and resumed gates in
--                    Loop/Rows and Loop/Resume, the check before an execution in Loop/Masked
--   Protocols        validate_spec of libs/protocols/validation.py, read in Protocols/Validity; Compile
--                    the tables and the stored specs of libs/protocols/operators/compile.py,
--                    Compile/Operator its ends and the whole operator, with what it leaves in
--                    Operator/Stored and Operator/Contract, and the worker's view of its patch in
--                    Operator/Patches
--   Analysis         Chunking is chunk_document of libs/analysis/chunking.py; Chunking/Growth, Bound
--                    and Cut have what the limit leaves of a document
--   Remediation      Recommendations (recommendations.py), Frontier (frontier.py), Signals
--                    (signal_classification.py) and Strategies (strategies.py) of
--                    libs/remediation, Attempts (operators/remediate.py and the
--                    lineage in operators/_common.py), Reading and Classify (operators/signal.py) and
--                    Recommend (operators/recommend.py)
--   Patterns         Decay (decay.py), Sweep (operators/decay.py), Aggregate and Aggregate/Fields (aggregate of
--                    consolidation.py), Upsert (upsert_pattern of upsert.py and compute_confidence of
--                    consolidation.py), Observations (upsert_observations of upsert.py) and Injection
--                    (injection.py) of libs/patterns
--
-- How the parts meet: transitions of a cycle (Cycle) are the patches that the operators hand back;
-- jobs (Jobs) are created by the operators through create_job; the worker (Worker) claims a job, runs
-- the operator that is registered for its type and persists the outcome over the queue and the
-- cycles. A run goes from setup over run and capture (Execution) to check and postmortem
-- (Verification); a failed run is remediated, a successful one is classified (Remediation), and both
-- come to recommend, which reads the frontier and the lineage and sends an autonomous cycle to
-- loop_decide; the loop reads the budget, the gates, the lifecycle and the repetition of Autonomy, and
-- for a new hypothesis enqueues protocol_compile, which writes specs into the same tables and prepares
-- the next run (Protocols).
--
-- How the model is built. A table is a list of rows in the order of insertion, and a session is the
-- tables that go in and come out; an operator that fails or raises commits nothing, so its result
-- carries no tables. Identifiers are numbers, fresh ones are arguments, and so is the clock, with one
-- reading for a call where the code takes several. Limits are natural numbers; elapsed time is in
-- microseconds and hours are in millionths. Metric values are integers: only their order is used,
-- and in Signals they are in units of 1e-8, with ratios and deviations exact. Two digests are equal
-- exactly when the texts are. The rows that another transaction has locked are an argument of
-- claim_job.
--
-- Loops are recursion on lists; the worker's loop is one on the list of its turns, so a theorem on it
-- says how many turns are enough. The one walk that is not, from a run to its parents, is on fuel: a
-- parent is an earlier row with a smaller identifier, so the identifier of the run is enough, and
-- more fuel gives the same lineage.
--
-- Not modelled: reasons, summaries and the bodies of events; files, git, containers, language models,
-- embeddings and sources of papers, whose answers are arguments where an operator uses them; the
-- telemetry and the control callback of a running container, where the way that it ended is an
-- argument, and the heartbeat thread, which is among the others that change the tables between the
-- worker's steps; the pattern match of error output and the repair of an artifact's path, whose
-- results are arguments of select_strategy; the table classes, which are not in the repository; the
-- hypothesis sessions and the look-ups of experiment_service.py and the other services; the usage of
-- skills and the event that the result of a compilation carries; discovery, ideation and the rest of
-- analysis, pipelines around language models; the API but for
-- the controls of a job, the command line and the web application; of patterns, approvals, retrieval,
-- the extraction of candidates and the operator that consolidates them.
pub mod Prelude
pub mod Domain
pub mod Cycle
pub mod Jobs
pub mod Autonomy
pub mod Remediation
pub mod Patterns
pub mod Worker
pub mod Execution
pub mod Verification
pub mod Protocols
pub mod Analysis
