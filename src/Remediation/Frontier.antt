-- ===== src/Remediation/Frontier.antt =====
-- The metric frontier of a hypothesis line: libs/remediation/frontier.py. Times and the metric's name
-- are left out; the table's other rows stay as they are.
pub mod Summary
pub mod Best
pub mod Again
use synthetos.Prelude.{
  ℕ, ◌+◌, ◌==◌, Bool, true, false, ◌&&◌, Option, none, some, List, [], ◌∷◌, ◌++◌, if◌then◌else◌,
  first_where, update_where,
}
use synthetos.Prelude.Int.{ℤ, ltb_ℤ}
use synthetos.Domain.{Direction, maximize, minimize, other, MetricFrontier}

-- What a run brings to its line.
pub record Observation : Type 0 where
  pub experiment_spec_id : ℕ
  pub run_id : ℕ
  pub metric_direction : Direction
  pub metric_value : ℤ
  pub is_successful : Bool

-- Every direction but "maximize" minimizes.
unfoldable pub is_improvement : ℤ → ℤ → Direction → Bool
is_improvement current best maximize = ltb_ℤ best current
is_improvement current best minimize = ltb_ℤ current best
is_improvement current best other = ltb_ℤ current best

abbrev pub is_of_line : ℕ → ℕ → MetricFrontier → Bool
is_of_line charter card f = f.charter_id == charter && f.hypothesis_card_id == card

abbrev pub first_frontier : ℕ → ℕ → Observation → MetricFrontier
first_frontier charter card o = record {
  charter_id = charter;
  hypothesis_card_id = card;
  primary_metric_direction = o.metric_direction;
  best_run_id = o.run_id;
  best_experiment_spec_id = o.experiment_spec_id;
  best_metric_value = some o.metric_value;
  total_runs = 1;
  successful_runs = if o.is_successful then 1 else 0;
  runs_since_improvement = 0;
}

-- The row after one more run, which improves it or not.
abbrev pub counted : Observation → MetricFrontier → MetricFrontier
counted o f = record f {
  total_runs = f.total_runs + 1;
  successful_runs = if o.is_successful then f.successful_runs + 1 else f.successful_runs;
}

abbrev pub with_result : Observation → Bool → MetricFrontier → MetricFrontier
with_result o true f = record (counted o f) {
  best_run_id = o.run_id;
  best_experiment_spec_id = o.experiment_spec_id;
  best_metric_value = some o.metric_value;
  runs_since_improvement = 0;
}
with_result o false f = record (counted o f) {
  runs_since_improvement = f.runs_since_improvement + 1;
}

abbrev pub improves : Observation → ℤ → Bool
improves o best = is_improvement o.metric_value best o.metric_direction && o.is_successful

-- A comparison with a missing best value raises, which is `none`.
abbrev pub update_row : Observation → MetricFrontier → Option ℤ → Option (MetricFrontier × Bool)
update_row o f none = none
update_row o f (some best) = some (with_result o (improves o best) f, improves o best)

abbrev pub store :
    ℕ
    → ℕ
    → List MetricFrontier
    → Option (MetricFrontier × Bool)
    → Option (MetricFrontier × Bool × List MetricFrontier)
store charter card table none = none
store charter card table (some (f, improved)) =
    some (f, improved, update_where (is_of_line charter card) (λ _. f) table)

abbrev pub upsert_found :
    ℕ
    → ℕ
    → Observation
    → List MetricFrontier
    → Option MetricFrontier
    → Option (MetricFrontier × Bool × List MetricFrontier)
upsert_found charter card o table none =
    let f = first_frontier charter card o in some (f, true, table ++ f ∷ [])
upsert_found charter card o table (some f) =
    store charter card table (update_row o f f.best_metric_value)

-- The frontier, whether the run improved it, and the table.
unfoldable pub upsert_frontier :
    ℕ → ℕ → Observation → List MetricFrontier → Option (MetricFrontier × Bool × List MetricFrontier)
unfolding is_improvement
upsert_frontier charter card o table =
    upsert_found charter card o table (first_where (is_of_line charter card) table)
