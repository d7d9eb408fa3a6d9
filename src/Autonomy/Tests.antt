-- ===== src/Autonomy/Tests.antt =====
-- The theorems on budgets, gates, hypotheses and repetition at concrete inputs.
use synthetos.Prelude.{
  ◌*◌, ℕ, ◌+◌, ◌≡◌, refl, ◌↔◌, ◌≤◌, true, false, none, some, List, [], ◌∷◌, length,
}
use synthetos.Prelude.Dict.{count_of, sum_values}
use synthetos.Prelude.Int.{pos}
use synthetos.Domain.{
  advancing, parameter_variation, maximize, MetricFrontier, dict, CodePlan, BuildRecipe, Controls,
  num, nil, cons, ExperimentSpec,
}
use synthetos.Autonomy.{AutonomyPolicy, default_gates, default_policy}
use synthetos.Autonomy.Budget.{new_budget}
use synthetos.Autonomy.Budget.Limits.{run_all, runs_of, run_all-counts}
use synthetos.Autonomy.Gates.{GateContext, evaluate_gates, before_hardware_escalation, pause_at}
use synthetos.Autonomy.Gates.Firing.{is_met, IsDecision, evaluate_gates-IsDecision}
use synthetos.Autonomy.Lifecycle.{
  HypothesisStatus, compiled, promising, validated, HypothesisCard, compute_lifecycle_status,
}
use synthetos.Autonomy.Lifecycle.Moves.{Move, compute_lifecycle_status-iff-Move}
use synthetos.Autonomy.Lifecycle.Progress.{
  Iteration, Turn, rewritten, updated, step, after, changes, rewrites, stage, changes_bounded,
}

-- Three runs of two hypotheses.
abbrev runs : List (ℕ × ℕ)
runs = (10, 1) ∷ (20, 2) ∷ (30, 1) ∷ []

run_all-counts_example :
    let b = run_all runs (new_budget 7 5) in
    (b.total_runs ≡ length runs)
    × (sum_values b.runs_per_hypothesis ≡ length runs)
    × ((card : ℕ) → count_of card b.runs_per_hypothesis ≡ runs_of card runs)
run_all-counts_example = run_all-counts 7 5 runs

abbrev limited : AutonomyPolicy
limited = record default_policy { max_total_runs = some 3 }

-- The next run wants more memory.
abbrev escalating : GateContext
escalating = record {
  runs_since_last_gate = 1;
  next_hardware_profile = some (record { gpu_count = some 1; memory_gb = some 32 });
  current_hardware_profile = some (record { gpu_count = some 1; memory_gb = some 16 });
  is_result_promotion = false;
  has_network_access = true;
}

abbrev guarded : AutonomyPolicy
guarded = record default_policy {
  checkpoint_gates = record default_gates {
    before_hardware_escalation = true;
    before_network_execution = true;
  };
}

escalation_pauses : evaluate_gates guarded escalating ≡ pause_at before_hardware_escalation
unfolding evaluate_gates
escalation_pauses = refl

evaluate_gates-IsDecision_example :
    IsDecision (is_met guarded escalating) (evaluate_gates guarded escalating)
evaluate_gates-IsDecision_example = evaluate_gates-IsDecision guarded escalating

abbrev frontier : MetricFrontier
frontier = record {
  charter_id = 1;
  hypothesis_card_id = 1;
  primary_metric_direction = maximize;
  best_run_id = 4;
  best_experiment_spec_id = 2;
  best_metric_value = some (pos 9);
  total_runs = 4;
  successful_runs = 3;
  runs_since_improvement = 1;
}

compute_lifecycle_status-iff-Move_example :
    (compute_lifecycle_status promising
        (some advancing)
        (some frontier)
        parameter_variation
        (some (dict (some (pos 8)) ∷ []))
      ≡ some validated)
    ↔ Move
        (some advancing)
        (some frontier)
        parameter_variation
        (some (dict (some (pos 8)) ∷ []))
        promising
        validated
compute_lifecycle_status-iff-Move_example =
    compute_lifecycle_status-iff-Move (some advancing) (some frontier) parameter_variation
      (some (dict (some (pos 8)) ∷ [])) promising validated

abbrev iteration : ℕ → Iteration
iteration now = record {
  now = now;
  signal = some advancing;
  frontier = some frontier;
  recommendation = parameter_variation;
  conditions = some (dict (some (pos 8)) ∷ []);
}

abbrev card : HypothesisStatus → HypothesisCard
card s = record {
  id = 1;
  hypothesis_session_id = 5;
  charter_id = 2;
  cycle_id = 7;
  status = s;
  rank = none;
  updated_at = 0;
}

-- The hypothesis is compiled again after it has become promising.
abbrev turns : List Turn
turns =
    updated (iteration 1) ∷ updated (iteration 2) ∷ rewritten compiled ∷ updated (iteration 3) ∷ []

changes_bounded_example :
    (changes turns (card compiled) ≤ 4 + 5 * rewrites turns)
    × (stage (after turns (card compiled)).status
        ≤ stage (step (iteration 4) (after turns (card compiled))).status)
changes_bounded_example = changes_bounded turns (card compiled) (iteration 4)

abbrev plan : CodePlan
plan = record {
  requires_network = none;
  network_access = none;
  files = none;
  entry_point = some "main.py";
  dependencies = none;
  instructions = none;
}

abbrev recipe : BuildRecipe
recipe = record { requires_network = none; network_access = none; dockerfile_content = none }

abbrev spec : ℕ → ExperimentSpec
spec i = record {
  id = i;
  cycle_id = 7;
  hypothesis_card_id = some 1;
  validated = true;
  created_at = i;
  hardware_profile = none;
  base_image = none;
  code_plan = plan;
  build_recipe = recipe;
  stop_conditions = [];
  fingerprint = "a";
  without_controls = "b";
  controls = none;
}

abbrev controls : ℕ → Controls
controls n = record { items = cons (num (pos n)) nil; dumped = "" }
