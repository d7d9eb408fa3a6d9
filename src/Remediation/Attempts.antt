-- ===== src/Remediation/Attempts.antt =====
-- The operator `auto_remediate` of libs/remediation/operators/remediate.py and the lineage of a run
-- in libs/remediation/operators/_common.py. What a language model answers, and what is found in the
-- error output, are arguments; reasons and the pattern hints are left out. Actions stand in the
-- order of their creation.
pub mod Lineage
pub mod Bound
pub mod Chain
use Prim.Native.String.{String}
use synthetos.Prelude.{
  ℕ, suc, zero, ◌+◌, ◌==◌, leb, Bool, true, false, not, Option, none, some, List, [], ◌∷◌, ◌++◌,
  map, if◌then◌else◌, any_of, first_where, select, length, or_default,
}
use synthetos.Prelude.Int.{pos}
use synthetos.Cycle.{CycleStatus, running}
use synthetos.Jobs.{Queue, create_job}
use synthetos.Remediation.Strategies.{
  FailureClass, unknown, Strategy, skip, debug_broad, Tier, focused, broad, Overrides, no_overrides,
  extra_pip_packages, memory_gb, timeout_s, patched_files, StrategyResult, Memory, gigabytes,
  Attempt, Failure, is_broad, select_strategy,
}

pub record Run : Type 0 where
  pub id : ℕ
  pub parent_run_id : Option ℕ
  pub experiment_spec_id : ℕ
  pub cycle_id : ℕ
  pub run_number : ℕ
  pub failure_class : Option FailureClass
  pub memory : Option Memory
  pub timeout : Option ℕ

pub data ActionOutcome : Type 0 where
  exhausted skipped retry_created : ActionOutcome

pub record RemediationAction : Type 0 where
  pub run_record_id : ℕ
  pub retry_run_id : Option ℕ
  pub failure_class : FailureClass
  pub strategy : Strategy
  pub strategy_tier : Tier
  pub outcome : ActionOutcome
  pub attempt_number : ℕ

pub data RemedyEvent : Type 0 where
  remediation_started remediation_exhausted remediation_skipped : ℕ → RemedyEvent
  strategy_escalated : ℕ → RemedyEvent
  retry_run_created : ℕ → ℕ → RemedyEvent

-- A job's run, and the overrides for its set-up.
pub data RemedyPayload : Type 0 where
  postmortem_of : ℕ → RemedyPayload
  setup_of : ℕ → Overrides → RemedyPayload

pub record RemedyDb : Type 0 where
  pub runs : List Run
  pub spec_ids : List ℕ
  pub actions : List RemediationAction
  pub queue : Queue RemedyPayload
  pub events : List RemedyEvent

-- An error of the result, or an exception that leaves the operator; both commit nothing.
pub data RemedyOutcome : Type 0 where
  committed : RemedyDb → Option CycleStatus → RemedyOutcome
  failed : RemedyOutcome
  raised : RemedyOutcome

pub record RemedyInput : Type 0 where
  pub run_record_id : Option ℕ
  pub missing_modules : List String
  pub artifact_fix : Option (List (String × String))
  pub debug_files : List (String × String)
  pub now : ℕ
  pub new_run_id : ℕ
  pub new_job_id : ℕ

abbrev pub default_max_attempts : ℕ
default_max_attempts = 3

abbrev pub find_run : ℕ → List Run → Option Run
find_run i = first_where (λ r. r.id == i)

-- The walk to the root, newest first. A parent is an earlier row, with a smaller identifier, so the
-- run's identifier bounds the length of the walk. The code turns the list round, and only membership
-- is read of it.
abbrev pub parent_of : Option Run → Option ℕ
parent_of none = none
parent_of (some r) = r.parent_run_id

unfoldable pub walk : ℕ → List Run → Option ℕ → List ℕ
walk fuel runs none = []
walk zero runs (some i) = []
walk (suc fuel) runs (some i) = i ∷ walk fuel runs (parent_of (find_run i runs))

unfoldable pub load_lineage_run_ids : ℕ → List Run → List ℕ
unfolding walk
load_lineage_run_ids i runs = walk (suc i) runs (some i)

abbrev pub is_in : List ℕ → ℕ → Bool
is_in ids i = any_of (λ k. k == i) ids

unfoldable pub load_lineage_actions : ℕ → RemedyDb → List RemediationAction
unfolding load_lineage_run_ids
load_lineage_actions i db =
    select (λ a. is_in (load_lineage_run_ids i db.runs) a.run_record_id) db.actions

abbrev pub log : RemedyEvent → RemedyDb → RemedyDb
log e db = record db { events = db.events ++ e ∷ [] }

abbrev pub enqueue : RemedyInput → ℕ → String → RemedyPayload → RemedyDb → RemedyDb
enqueue i cycle job_type payload db = record db {
  queue = (create_job i.new_job_id (some cycle) job_type (some payload) (pos 10) i.now db.queue).1;
}

abbrev pub class_of : Run → FailureClass
class_of run = or_default run.failure_class (unknown "unknown")

abbrev pub action_row : Run → ℕ → Strategy → Tier → ActionOutcome → Option ℕ → RemediationAction
action_row run attempts strategy tier outcome retry = record {
  run_record_id = run.id;
  retry_run_id = retry;
  failure_class = class_of run;
  strategy = strategy;
  strategy_tier = tier;
  outcome = outcome;
  attempt_number = attempts + 1;
}

abbrev pub add_action : RemediationAction → RemedyDb → RemedyDb
add_action a db = record db { actions = db.actions ++ a ∷ [] }

-- The action that ends the remediation, with its postmortem.
abbrev pub finish : RemedyInput → Run → RemediationAction → RemedyDb → RemedyOutcome
finish i run a db =
    committed
      (enqueue i run.cycle_id "verification_postmortem" (postmortem_of run.id) (add_action a db))
      none

-- A raised limit goes to the run; the other overrides go to its set-up.
abbrev pub new_memory : Overrides → Option Memory → Option Memory
new_memory (memory_gb n) m = some (gigabytes n)
new_memory _ m = m

abbrev pub new_timeout : Overrides → Option ℕ → Option ℕ
new_timeout (timeout_s n) t = some n
new_timeout _ t = t

abbrev pub setup_overrides : Overrides → Overrides
setup_overrides (extra_pip_packages names) = extra_pip_packages names
setup_overrides (patched_files files) = patched_files files
setup_overrides _ = no_overrides

abbrev pub retry_run : RemedyInput → Run → Overrides → Run
retry_run i run o = record {
  id = i.new_run_id;
  parent_run_id = some run.id;
  experiment_spec_id = run.experiment_spec_id;
  cycle_id = run.cycle_id;
  run_number = run.run_number + 1;
  failure_class = none;
  memory = new_memory o run.memory;
  timeout = new_timeout o run.timeout;
}

abbrev pub add_run : Run → RemedyDb → RemedyDb
add_run r db = record db { runs = db.runs ++ r ∷ [] }

unfoldable pub retry : RemedyInput → Run → ℕ → StrategyResult → Overrides → RemedyDb → RemedyOutcome
retry i run attempts s o db =
    committed
      (enqueue i run.cycle_id "execution_setup" (setup_of i.new_run_id (setup_overrides o)) (
        log (retry_run_created run.id i.new_run_id) (
          add_action
            (action_row run attempts s.strategy s.strategy_tier retry_created (some i.new_run_id))
            (add_run (retry_run i run o) db))))
      (some running)

-- With no fix from the model the attempt is skipped.
abbrev pub debug :
    RemedyInput → Run → ℕ → StrategyResult → List (String × String) → RemedyDb → RemedyOutcome
debug i run attempts s [] db =
    finish i run (action_row run attempts debug_broad broad skipped none) db
debug i run attempts s (f ∷ fs) db = retry i run attempts s (patched_files (f ∷ fs)) db

unfoldable pub apply_strategy : RemedyInput → Run → ℕ → StrategyResult → RemedyDb → RemedyOutcome
unfolding retry
apply_strategy i run attempts s db =
    if not s.remediable
    then finish i run (action_row run attempts s.strategy s.strategy_tier skipped none)
        (log (remediation_skipped run.id) db)
    else if is_broad s.strategy
    then debug i run attempts s i.debug_files (log (strategy_escalated run.id) db)
    else retry i run attempts s s.overrides db

abbrev pub failure_of : RemedyInput → Run → List RemediationAction → Failure
failure_of i run prior = record {
  failure_class = class_of run;
  missing_modules = i.missing_modules;
  memory = run.memory;
  timeout = run.timeout;
  prior =
      map
        (λ (a : RemediationAction). record {
          strategy = a.strategy;
          failure_class = a.failure_class;
        })
        prior;
  artifact_fix = i.artifact_fix;
}

unfoldable pub remediate : RemedyInput → Run → List RemediationAction → RemedyDb → RemedyOutcome
unfolding apply_strategy select_strategy
remediate i run prior db =
    if leb default_max_attempts (length prior)
    then finish i run (action_row run (length prior) skip focused exhausted none)
        (log (remediation_exhausted run.id) db)
    else apply_strategy i run (length prior) (select_strategy (failure_of i run prior)) db

abbrev pub with_run : RemedyInput → Option Run → RemedyDb → RemedyOutcome
with_run i none db = raised
with_run i (some run) db =
    if any_of (λ s. s == run.experiment_spec_id) db.spec_ids
    then remediate i run (load_lineage_actions run.id db) (log (remediation_started run.id) db)
    else raised

abbrev pub with_id : RemedyInput → Option ℕ → RemedyDb → RemedyOutcome
with_id i none db = failed
with_id i (some r) db = with_run i (find_run r db.runs) db

unfoldable pub auto_remediate : RemedyInput → RemedyDb → RemedyOutcome
unfolding remediate load_lineage_actions
auto_remediate i db = with_id i i.run_record_id db
