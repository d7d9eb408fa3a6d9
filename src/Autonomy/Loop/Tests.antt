-- ===== src/Autonomy/Loop/Tests.antt =====
-- The theorems on the operator `loop_decide` at concrete tables.
use synthetos.Prelude.{
  leb, ◌≡◌, refl, ◌↔◌, ◌&&◌, ◌||◌, holds, is_some, true, false, none, some, List, [], ◌∷◌, arith,
}
use synthetos.Domain.{continue_current, CodePlan, BuildRecipe, ExperimentSpec}
use synthetos.Autonomy.{AutonomyPolicy, default_gates, default_policy}
use synthetos.Autonomy.Gates.{
  before_network_execution, detect_network_access, is_hardware_escalation,
}
use synthetos.Autonomy.Repetition.{detect_repetition}
use synthetos.Autonomy.Loop.{
  RunRecord, RunRecommendation, CycleConfig, stop_gate, LoopDecision, LoopDb, committed, failed,
  multiple_results,
}
use synthetos.Autonomy.Loop.Operator.{LoopInput, loop_decide}
use synthetos.Autonomy.Loop.Rows.{Rows, IsBudgetStop, run_limit-IsBudgetStop}
use synthetos.Autonomy.Loop.Pivot.{check_execution}
use synthetos.Autonomy.Loop.Masked.{check_execution_iff}
use synthetos.Autonomy.Loop.Resume.{resumed_network_gate-fails}
use synthetos.Autonomy.Loop.Turns.{IsAnswer, loop_decide-IsAnswer}

abbrev run : RunRecord
run = record {
  id = 3;
  experiment_spec_id = 2;
  charter_id = 1;
  cycle_id = 7;
  run_number = 1;
  is_pending = false;
}

abbrev recommendation : RunRecommendation
recommendation = record { id = 4; recommendation_type = continue_current }

-- A plan that says that it needs the network.
abbrev plan : CodePlan
plan = record {
  requires_network = some true;
  network_access = none;
  files = none;
  entry_point = none;
  dependencies = none;
  instructions = none;
}

abbrev recipe : BuildRecipe
recipe = record { requires_network = none; network_access = none; dockerfile_content = none }

abbrev spec : ExperimentSpec
spec = record {
  id = 2;
  cycle_id = 7;
  hypothesis_card_id = some 5;
  validated = true;
  created_at = 1;
  hardware_profile = none;
  base_image = none;
  code_plan = plan;
  build_recipe = recipe;
  stop_conditions = [];
  fingerprint = "a";
  without_controls = "b";
  controls = none;
}

abbrev cycle : AutonomyPolicy → CycleConfig
cycle policy = record { id = 7; policy = policy }

abbrev tables : AutonomyPolicy → List LoopDecision → LoopDb
tables policy decisions = record {
  runs = run ∷ [];
  recommendations = recommendation ∷ [];
  specs = spec ∷ [];
  cycles = cycle policy ∷ [];
  cards = [];
  decisions = decisions;
  budgets = [];
  signals = [];
  frontiers = [];
  sessions = [];
  queue = record { jobs = []; events = [] };
  events = [];
}

abbrev input : LoopInput
input = record {
  job_id = 9;
  prepared_run_record_id = none;
  recommendation_id = some 4;
  run_record_id = some 3;
  now = 100;
  new_run_id = 30;
  new_job_id = 31;
  applied_patterns = [];
}

abbrev rows : AutonomyPolicy → Rows
rows policy = record { rec = recommendation; run = run; cycle = cycle policy }

loop_decide-IsAnswer_example :
    IsAnswer input (tables default_policy []) (loop_decide input (tables default_policy []))
loop_decide-IsAnswer_example = loop_decide-IsAnswer input (tables default_policy []) refl

-- The first run is the last one.
abbrev one_run : AutonomyPolicy
one_run = record default_policy { max_total_runs = some 1 }

run_limit-IsBudgetStop_example :
    IsBudgetStop (tables one_run []) (loop_decide input (tables one_run []))
run_limit-IsBudgetStop_example =
    run_limit-IsBudgetStop input (tables one_run []) (rows one_run) 5 1
      (refl, (4, refl, refl), (3, refl, refl), refl) refl refl refl (omega arith)

abbrev guarded : AutonomyPolicy
guarded = record default_policy {
  checkpoint_gates = record default_gates { before_network_execution = true };
}

-- The pause that was approved.
abbrev gate : LoopDecision
gate = record {
  cycle_id = 7;
  run_record_id = 3;
  recommendation_id = 4;
  iteration_number = 1;
  decision = stop_gate;
  gate_triggered = some before_network_execution;
  budget_total_runs = 1;
  hypothesis_card_id = some 5;
  next_hypothesis_card_id = none;
  next_action = none;
  context_summary = none;
  created_at = 50;
}

abbrev paused : LoopDb
paused = tables guarded (gate ∷ [])

no_repeat : (detect_repetition paused.specs 7 spec).is_duplicate ≡ false
unfolding detect_repetition
no_repeat = refl

needs_network : detect_network_access plan recipe ≡ true
unfolding detect_network_access
needs_network = refl

resumed_network_gate-fails_example :
    (db' : LoopDb) × (loop_decide input paused ≡ committed db' none)
    × (loop_decide input db' ≡ failed multiple_results)
resumed_network_gate-fails_example =
    resumed_network_gate-fails input paused (rows guarded) gate spec
      (refl, (4, refl, refl), (3, refl, refl), refl) refl refl refl (refl, refl, refl)
      (needs_network, no_repeat)

-- A gate after every run masks the one for the network.
check_execution_iff_example :
    is_some (check_execution guarded none spec) ≡ true
    ↔ (false ≡ false)
      × (holds (λ n. leb n 0) none ≡ false)
      × ((false && is_hardware_escalation none none || true && detect_network_access plan recipe)
          ≡ true)
check_execution_iff_example = check_execution_iff guarded none spec
