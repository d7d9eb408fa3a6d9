-- ===== src/Autonomy/Loop.antt =====
-- The tables of the autonomous loop, and the ways in which the operator `loop_decide` ends: the
-- helpers of libs/autonomy/operators/loop_decide.py. Reasons, summaries of a result and the bodies
-- of the events' payloads are left out. A path that fails, or raises, commits nothing.
pub mod Pivot
pub mod Decide
pub mod Effects
pub mod Steps
pub mod Turns
pub mod Rows
pub mod Masked
pub mod Resume
mod Tests
pub mod Operator
use Prim.Native.String.{String}
use synthetos.Prelude.{
  ℕ, suc, ◌+◌, ◌==◌, max, Bool, true, false, ◌&&◌, Option, none, some, List, [], ◌∷◌, ◌++◌,
  if◌then◌else◌, update_where, count_if, select, length,
}
use synthetos.Prelude.Int.{pos}
use synthetos.Domain.{Signal, RecommendationType, MetricFrontier, HardwareProfile, ExperimentSpec}
use synthetos.Cycle.{CycleStatus, running, reporting}
use synthetos.Jobs.{Job, Queue, JobStatus, create_job, has_id}
use synthetos.Autonomy.{AutonomyPolicy}
use synthetos.Autonomy.Budget.{AutonomyBudget}
use synthetos.Autonomy.Gates.{GateName}
use synthetos.Autonomy.Lifecycle.{HypothesisStatus, HypothesisCard}

pub record RunRecord : Type 0 where
  pub id : ℕ
  pub experiment_spec_id : ℕ
  pub charter_id : ℕ
  pub cycle_id : ℕ
  pub run_number : ℕ
  pub is_pending : Bool

pub record RunRecommendation : Type 0 where
  pub id : ℕ
  pub recommendation_type : RecommendationType

-- A cycle with the policy that its configuration holds.
pub record CycleConfig : Type 0 where
  pub id : ℕ
  pub policy : AutonomyPolicy

pub data Decision : Type 0 where
  continue_current vary_parameters pivot_hypothesis : Decision
  stop_budget stop_gate stop_halt stop_exhausted : Decision

pub data NextAction : Type 0 where
  rerun_spec recompile_spec compile_new_hypothesis execution_setup : NextAction

-- A context summary is named by the iteration in its path.
pub record LoopDecision : Type 0 where
  pub cycle_id : ℕ
  pub run_record_id : ℕ
  pub recommendation_id : ℕ
  pub iteration_number : ℕ
  pub decision : Decision
  pub gate_triggered : Option GateName
  pub budget_total_runs : ℕ
  pub hypothesis_card_id : Option ℕ
  pub next_hypothesis_card_id : Option ℕ
  pub next_action : Option NextAction
  pub context_summary : Option ℕ
  pub created_at : ℕ

pub data LoopEvent : Type 0 where
  budget_updated : ℕ → LoopEvent
  gate_resumed : ℕ → LoopEvent
  budget_exceeded : LoopEvent
  context_summarized : ℕ → LoopEvent
  hypothesis_status_changed : ℕ → HypothesisStatus → HypothesisStatus → LoopEvent
  repetition_detected : ℕ → LoopEvent
  hypothesis_selected : ℕ → LoopEvent
  loop_decision_made : ℕ → Decision → LoopEvent
  loop_completed : ℕ → Decision → LoopEvent
  gate_triggered_at : ℕ → GateName → LoopEvent
  pattern_applied : ℕ → LoopEvent

-- The payloads of the jobs that the loop creates.
pub data LoopPayload : Type 0 where
  run_record : ℕ → LoopPayload
  report_cycle : ℕ → LoopPayload
  compile_card : ℕ → Option ℕ → Option ℕ → LoopPayload
  prepared_run : ℕ → LoopPayload

pub record LoopDb : Type 0 where
  pub runs : List RunRecord
  pub recommendations : List RunRecommendation
  pub specs : List ExperimentSpec
  pub cycles : List CycleConfig
  pub cards : List HypothesisCard
  pub decisions : List LoopDecision
  pub budgets : List AutonomyBudget
  pub signals : List (ℕ × Signal)
  pub frontiers : List MetricFrontier
  pub sessions : List (ℕ × ℕ)
  pub queue : Queue LoopPayload
  pub events : List LoopEvent

pub data LoopError : Type 0 where
  missing_payload recommendation_not_found run_not_found cycle_not_found : LoopError
  no_hypothesis_session multiple_results : LoopError

-- The end of the operator: a committed database with the patch of the cycle's status, or an error.
pub data Outcome : Type 0 where
  committed : LoopDb → Option CycleStatus → Outcome
  failed : LoopError → Outcome

-- What the helpers are handed: the job, the run with its recommendation and budget, the iteration,
-- the hypothesis, the context summary; the clock and the fresh identifiers.
pub record Turn : Type 0 where
  pub job_id : ℕ
  pub run : RunRecord
  pub rec : RunRecommendation
  pub budget : AutonomyBudget
  pub iteration : ℕ
  pub hypothesis_card_id : Option ℕ
  pub context_summary : Option ℕ
  pub now : ℕ
  pub new_run_id : ℕ
  pub new_job_id : ℕ

abbrev pub log : LoopEvent → LoopDb → LoopDb
log e db = record db { events = db.events ++ e ∷ [] }

abbrev pub enqueue : Turn → String → LoopPayload → ℕ → LoopDb → LoopDb
enqueue t job_type payload priority db = record db {
  queue =
      (create_job t.new_job_id (some t.run.cycle_id) job_type (some payload) (pos priority) t.now
        db.queue).1;
}

abbrev pub decision_row :
    Turn → Decision → Option NextAction → Option ℕ → Option GateName → LoopDecision
decision_row t decision next_action next_card gate = record {
  cycle_id = t.run.cycle_id;
  run_record_id = t.run.id;
  recommendation_id = t.rec.id;
  iteration_number = t.iteration;
  decision = decision;
  gate_triggered = gate;
  budget_total_runs = t.budget.total_runs;
  hypothesis_card_id = t.hypothesis_card_id;
  next_hypothesis_card_id = next_card;
  next_action = next_action;
  context_summary = t.context_summary;
  created_at = t.now;
}

abbrev pub persist_decision :
    Turn → Decision → Option NextAction → Option ℕ → Option GateName → LoopDb → LoopDb
persist_decision t decision next_action next_card gate db = record db {
  decisions = db.decisions ++ decision_row t decision next_action next_card gate ∷ [];
}

abbrev pub is_over_budget : Decision → Bool
is_over_budget stop_budget = true
is_over_budget _ = false

-- Stop the loop and enqueue its report.
unfoldable pub stop : Turn → Decision → LoopDb → Outcome
stop t decision db =
    let noted = if is_over_budget decision then log budget_exceeded db else db in
    committed
      (log (loop_completed t.iteration decision) (
        enqueue t "loop_report" (report_cycle t.run.cycle_id) 5
          (persist_decision t decision none none none noted)))
      (some reporting)

-- Pause the operator's own job at a gate; the cycle keeps its status.
unfoldable pub pause_for_gate : Turn → GateName → LoopDb → Outcome
pause_for_gate t gate db =
    let paused = record db {
      queue = record (db.queue) {
        jobs =
            update_where (has_id t.job_id) (λ j. record j { status = JobStatus.paused })
              db.queue.jobs;
      };
    } in
    committed
      (log (gate_triggered_at t.iteration gate)
        (persist_decision t stop_gate none none (some gate) paused))
      none

abbrev pub max_run_number : ℕ → List RunRecord → ℕ
max_run_number spec [] = 0
max_run_number spec (r ∷ rs) =
    max (if r.experiment_spec_id == spec then r.run_number else 0) (max_run_number spec rs)

-- A new pending run of a spec, with its job.
abbrev pub add_run : Turn → ℕ → LoopDb → LoopDb
add_run t spec_id db = enqueue t "execution_setup" (run_record t.new_run_id) 10 (record db {
  runs =
      db.runs
      ++ record {
        id = t.new_run_id;
        experiment_spec_id = spec_id;
        charter_id = t.run.charter_id;
        cycle_id = t.run.cycle_id;
        run_number = max_run_number spec_id db.runs + 1;
        is_pending = true;
      }
        ∷ [];
})

unfoldable pub continue_run : Turn → ExperimentSpec → LoopDb → Outcome
continue_run t spec db =
    committed
      (log (loop_decision_made t.iteration continue_current)
        (persist_decision t continue_current (some rerun_spec) none none (add_run t spec.id db)))
      (some running)

-- `column == value`, which for `None` is `IS NULL`.
abbrev pub same_card : Option ℕ → Option ℕ → Bool
same_card none none = true
same_card (some a) (some b) = a == b
same_card _ _ = false

abbrev pub is_of_card : Option ℕ → ℕ → ExperimentSpec → Bool
is_of_card card cycle s = same_card s.hypothesis_card_id card && s.cycle_id == cycle

abbrev pub session_of : ℕ → List (ℕ × ℕ) → Option ℕ
session_of cycle [] = none
session_of cycle (e ∷ es) = if e.0 == cycle then some e.1 else session_of cycle es

abbrev pub vary_in : Turn → Option ℕ → LoopDb → Outcome
vary_in t none db = failed no_hypothesis_session
vary_in t (some session) db =
    let variation = count_if (is_of_card t.hypothesis_card_id t.run.cycle_id) db.specs + 1 in
    committed
      (log (loop_decision_made t.iteration vary_parameters) (
        persist_decision t vary_parameters (some recompile_spec) none none (
          enqueue t "protocol_compile" (compile_card session t.hypothesis_card_id (some variation))
            10 db)))
      (some running)

-- Recompile the spec with a variation; the payload names the session, the card and the variation.
unfoldable pub vary_parameters_of : Turn → LoopDb → Outcome
vary_parameters_of t db = vary_in t (session_of t.run.cycle_id db.sessions) db
