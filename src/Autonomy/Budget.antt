-- ===== src/Autonomy/Budget.antt =====
-- The run budget of a cycle: libs/autonomy/budget.py. The `detail` texts are left out.
pub mod Limits
use synthetos.Prelude.{
  ℕ, ◌+◌, ◌-◌, ◌*◌, ◌==◌, leb, Bool, true, false, Option, none, some, List, [], ◌∷◌, ◌++◌,
  if◌then◌else◌, holds, first_where, update_where,
}
use synthetos.Prelude.Dict.{Dict, insert, count_of}
use synthetos.Autonomy.{AutonomyPolicy}

-- A row of `autonomy_budgets`; times are in microseconds.
pub record AutonomyBudget : Type 0 where
  pub cycle_id : ℕ
  pub total_runs : ℕ
  pub wall_clock_elapsed : ℕ
  pub runs_per_hypothesis : Dict ℕ
  pub started_at : ℕ
  pub last_run_completed_at : Option ℕ
  pub updated_at : ℕ

pub data LimitName : Type 0 where
  max_total_runs max_wall_clock_hours max_runs_per_hypothesis : LimitName

pub record BudgetCheckResult : Type 0 where
  pub exceeded : Bool
  pub limit_name : Option LimitName

abbrev pub within : BudgetCheckResult
within = record { exceeded = false; limit_name = none }

abbrev pub over : LimitName → BudgetCheckResult
over name = record { exceeded = true; limit_name = some name }

abbrev pub is_of_cycle : ℕ → AutonomyBudget → Bool
is_of_cycle cycle b = b.cycle_id == cycle

pub new_budget : ℕ → ℕ → AutonomyBudget
new_budget cycle now = record {
  cycle_id = cycle;
  total_runs = 0;
  wall_clock_elapsed = 0;
  runs_per_hypothesis = [];
  started_at = now;
  last_run_completed_at = none;
  updated_at = now;
}

abbrev load_found :
    ℕ → ℕ → List AutonomyBudget → Option AutonomyBudget → AutonomyBudget × List AutonomyBudget
load_found cycle now table (some b) = (b, table)
load_found cycle now table none = (new_budget cycle now, table ++ new_budget cycle now ∷ [])

-- The budget, and the table with a fresh row if there was none.
pub load_or_create_budget : ℕ → ℕ → List AutonomyBudget → AutonomyBudget × List AutonomyBudget
unfolding new_budget
load_or_create_budget cycle now table =
    load_found cycle now table (first_where (is_of_cycle cycle) table)

unfoldable pub increment_budget : ℕ → ℕ → AutonomyBudget → AutonomyBudget
increment_budget now hypothesis_card_id b = record b {
  total_runs = b.total_runs + 1;
  last_run_completed_at = some now;
  wall_clock_elapsed = now - b.started_at;
  updated_at = now;
  runs_per_hypothesis =
      insert hypothesis_card_id (count_of hypothesis_card_id b.runs_per_hypothesis + 1)
        b.runs_per_hypothesis;
}

-- `elapsed_s / 3600 >= hours`, for a limit that is set.
abbrev pub is_out_of_time : AutonomyPolicy → AutonomyBudget → Bool
is_out_of_time policy b =
    holds (λ hours. leb (3600 * hours) b.wall_clock_elapsed) policy.max_wall_clock_hours

unfoldable pub check_budget : AutonomyPolicy → AutonomyBudget → BudgetCheckResult
check_budget policy b =
    if holds (λ limit. leb limit b.total_runs) policy.max_total_runs
    then over max_total_runs
    else if is_out_of_time policy b
    then over max_wall_clock_hours
    else within

unfoldable pub check_per_hypothesis_budget : AutonomyPolicy → AutonomyBudget → ℕ → BudgetCheckResult
check_per_hypothesis_budget policy b hypothesis_card_id = elim policy.max_runs_per_hypothesis [
  | none ↦ within
  | some limit ↦
      if leb limit (count_of hypothesis_card_id b.runs_per_hypothesis)
      then over max_runs_per_hypothesis
      else within
]
