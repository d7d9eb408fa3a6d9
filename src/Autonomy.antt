-- ===== src/Autonomy.antt =====
-- The autonomous loop of libs/autonomy. This file has the policy models of libs/autonomy/policy.py.
-- Limits are natural numbers; hours are counted in millionths and elapsed time in microseconds, so
-- that the comparisons of budget.py are between whole numbers.
pub mod Budget
pub mod Gates
pub mod Lifecycle
pub mod Repetition
pub mod Loop
mod Tests
use synthetos.Prelude.{ℕ, Bool, false, Option, none}

pub record CheckpointGateConfig : Type 0 where
  pub after_every_run : Bool
  pub after_every_n_runs : Option ℕ
  pub before_hardware_escalation : Bool
  pub before_result_promotion : Bool
  pub before_network_execution : Bool

pub data Mode : Type 0 where
  supervised autonomous : Mode

pub record AutonomyPolicy : Type 0 where
  pub mode : Mode
  pub max_total_runs : Option ℕ
  pub max_wall_clock_hours : Option ℕ
  pub max_runs_per_hypothesis : Option ℕ
  pub summary_interval : ℕ
  pub checkpoint_gates : CheckpointGateConfig

-- All gates are off by default, and no limit is set.
abbrev pub default_gates : CheckpointGateConfig
default_gates = record {
  after_every_run = false;
  after_every_n_runs = none;
  before_hardware_escalation = false;
  before_result_promotion = false;
  before_network_execution = false;
}

abbrev pub default_policy : AutonomyPolicy
default_policy = record {
  mode = supervised;
  max_total_runs = none;
  max_wall_clock_hours = none;
  max_runs_per_hypothesis = none;
  summary_interval = 5;
  checkpoint_gates = default_gates;
}
