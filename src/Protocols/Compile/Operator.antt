-- ===== src/Protocols/Compile/Operator.antt =====
-- The end of protocol_compile, by who asked for it, and the whole operator.
pub mod Patches
pub mod Stored
pub mod Contract
use Prim.Native.String.{String}
use synthetos.Prelude.{
  ℕ, suc, ◌+◌, ◌==◌, Bool, true, false, ◌&&◌, Option, none, some, List, [], ◌∷◌, ◌++◌,
  if◌then◌else◌, first_where, count_if, length,
}
use synthetos.Prelude.Int.{pos}
use synthetos.Domain.{ExperimentSpec}
use synthetos.Cycle.{CycleStatus, protocol_ready, loop_deciding}
use synthetos.Jobs.{Job, JobStatus, create_job, new_job}
use synthetos.Autonomy.{AutonomyPolicy, default_policy}
use synthetos.Autonomy.Budget.{AutonomyBudget, load_or_create_budget}
use synthetos.Autonomy.Gates.{GateName}
use synthetos.Autonomy.Lifecycle.{HypothesisCard}
use synthetos.Autonomy.Loop.{
  CycleConfig, LoopDb, LoopDecision, run_record, prepared_run, stop_gate, execution_setup,
  max_run_number,
}
use synthetos.Autonomy.Loop.Pivot.{check_execution}
use synthetos.Protocols.{CompiledSpec, is_nonempty}
use synthetos.Protocols.Compile.{
  HypothesisSession, CompileInput, compilation_completed, gate_triggered, CompileDb, no_session_id,
  session_not_found, out_of_scope, no_hypotheses, compilation_failed, CompileOutcome, failed, ended,
  cards_of, mark_selected, persist_specs,
}

-- The policy of the cycle; with no cycle that of an empty configuration.
abbrev pub policy_of : Option CycleConfig → AutonomyPolicy
policy_of none = default_policy
policy_of (some c) = c.policy

abbrev pub cycle_of : ℕ → LoopDb → Option CycleConfig
cycle_of cycle db = first_where (λ (c : CycleConfig). c.id == cycle) db.cycles

-- `_persist_loop_gate`: nothing without the run, the recommendation and the cycle.
abbrev pub gate_decision :
    CompileInput
    → ExperimentSpec
    → HypothesisSession
    → AutonomyBudget
    → GateName
    → ℕ
    → ℕ
    → List LoopDecision
    → LoopDecision
gate_decision i spec hs budget gate run recommendation decisions = record {
  cycle_id = spec.cycle_id;
  run_record_id = run;
  recommendation_id = recommendation;
  iteration_number = count_if (λ (d : LoopDecision). d.cycle_id == spec.cycle_id) decisions + 1;
  decision = stop_gate;
  gate_triggered = some gate;
  budget_total_runs = budget.total_runs;
  hypothesis_card_id = i.loop_context.hypothesis_card_id;
  next_hypothesis_card_id = spec.hypothesis_card_id;
  next_action = some execution_setup;
  context_summary = i.loop_context.context_summary;
  created_at = i.now;
}

abbrev pub persist_loop_gate :
    CompileInput
    → ExperimentSpec
    → HypothesisSession
    → AutonomyBudget
    → GateName
    → Option ℕ
    → Option ℕ
    → Option CycleConfig
    → LoopDb
    → LoopDb
persist_loop_gate i spec hs budget gate (some run) (some recommendation) (some cycle) db =
    record db {
      decisions =
          db.decisions ++ gate_decision i spec hs budget gate run recommendation db.decisions ∷ [];
    }
persist_loop_gate i spec hs budget gate _ _ _ db = db

-- The run of the first spec that was compiled, and the budget's row.
abbrev pub add_loop_run : CompileInput → HypothesisSession → ExperimentSpec → LoopDb → LoopDb
add_loop_run i hs spec db = record db {
  runs =
      db.runs
      ++ record {
        id = i.new_run_id;
        experiment_spec_id = spec.id;
        charter_id = hs.charter_id;
        cycle_id = spec.cycle_id;
        run_number = max_run_number spec.id db.runs + 1;
        is_pending = true;
      }
        ∷ [];
  budgets = (load_or_create_budget spec.cycle_id i.now db.budgets).1;
}

-- A gate pauses the run before its setup: a paused job that holds it, and the decision.
unfoldable pub pause_run :
    CompileInput → HypothesisSession → ExperimentSpec → GateName → CompileDb → CompileOutcome
unfolding new_job
pause_run i hs spec gate db =
    let t = add_loop_run i hs spec db.tables in
    let job =
      new_job i.new_job_id (some spec.cycle_id) "loop_decide" (some (prepared_run i.new_run_id))
        (pos 10) i.now in
    let queued = record t {
      queue = record (t.queue) {
        jobs = t.queue.jobs ++ record job { status = JobStatus.paused } ∷ [];
      };
    } in
    ended true
      (record db {
        tables =
            persist_loop_gate i spec hs
              (load_or_create_budget spec.cycle_id i.now db.tables.budgets).0 gate
              i.loop_context.run_record_id i.loop_context.recommendation_id
              (cycle_of spec.cycle_id db.tables) queued;
        events = db.events ++ gate_triggered gate i.new_run_id spec.id ∷ [];
      })
      (some loop_deciding)

-- The setup of the run is enqueued, and the cycle keeps its status.
unfoldable pub set_up_run :
    CompileInput → HypothesisSession → ExperimentSpec → CompileDb → CompileOutcome
set_up_run i hs spec db =
    let t = add_loop_run i hs spec db.tables in
    ended true
      (record db {
        tables = record t {
          queue =
              (create_job i.new_job_id (some spec.cycle_id) "execution_setup"
                (some (run_record i.new_run_id)) (pos 10) i.now t.queue).1;
        };
      })
      none

abbrev pub at_gate :
    CompileInput → HypothesisSession → ExperimentSpec → Option GateName → CompileDb → CompileOutcome
at_gate i hs spec none db = set_up_run i hs spec db
at_gate i hs spec (some gate) db = pause_run i hs spec gate db

abbrev pub with_compiled :
    CompileInput → HypothesisSession → Option ExperimentSpec → CompileDb → CompileOutcome
with_compiled i hs none db = ended false db none
with_compiled i hs (some spec) db =
    at_gate i hs spec
      (check_execution (policy_of (cycle_of spec.cycle_id db.tables))
        i.loop_context.current_hardware_profile spec)
      db

-- The first commit is made; with no valid spec the call fails all the same.
abbrev pub conclude : CompileInput → HypothesisSession → List ℕ → CompileDb → CompileOutcome
conclude i hs [] db = ended false db none
conclude i hs (first ∷ ids) db =
    if i.from_loop
    then with_compiled i hs (first_where (λ (s : ExperimentSpec). s.id == first) db.tables.specs) db
    else ended true db (some protocol_ready)

abbrev pub completed : ℕ → List ℕ → CompileDb → CompileDb
completed rejected ids db = record db {
  events = db.events ++ compilation_completed (length ids) rejected ∷ [];
}

unfoldable pub compile_cards :
    CompileInput
    → HypothesisSession
    → List HypothesisCard
    → Option (List CompiledSpec)
    → CompileDb
    → CompileOutcome
unfolding persist_specs pause_run set_up_run check_execution mark_selected
compile_cards i hs cards none db = failed compilation_failed
compile_cards i hs cards (some specs) db =
    let r =
      persist_specs i hs i.first_spec_id cards specs
        (record db { tables = mark_selected i.now cards db.tables }) in
    conclude i hs r.0 (completed r.1 r.0 r.2)

abbrev pub with_cards :
    CompileInput → HypothesisSession → Option (List HypothesisCard) → CompileDb → CompileOutcome
with_cards i hs none db = failed out_of_scope
with_cards i hs (some []) db = failed no_hypotheses
with_cards i hs (some (c ∷ cs)) db = compile_cards i hs (c ∷ cs) i.answer db

abbrev pub with_session : CompileInput → Option HypothesisSession → CompileDb → CompileOutcome
with_session i none db = failed session_not_found
with_session i (some hs) db = with_cards i hs (cards_of i hs db.tables) db

unfoldable pub protocol_compile : CompileInput → CompileDb → CompileOutcome
unfolding compile_cards cards_of
protocol_compile i db = elim i.hypothesis_session_id [
  | none ↦ failed no_session_id
  | some s ↦ with_session i (first_where (λ (h : HypothesisSession). h.id == s) db.sessions) db
]
