-- ===== src/Domain.antt =====
-- The rows and enums that several parts of the program read: hypothesis cards, experiment specs and
-- metric frontiers, as the code of libs/autonomy, libs/remediation and libs/protocols uses them (the
-- table classes are not in the repository). Metric values are integers: their order is what counts.
use Prim.Native.String.{String}
use synthetos.Prelude.{ℕ, Bool, Option, List}
use synthetos.Prelude.Int.{ℤ}

pub data Signal : Type 0 where
  advancing stalled regressing noisy breakthrough : Signal

-- The types that compute_recommendation documents.
pub data RecommendationType : Type 0 where
  mechanical_recovery parameter_variation hypothesis_pivot continue_current halt :
      RecommendationType

-- The texts "maximize", "minimize" and any other.
pub data Direction : Type 0 where
  maximize minimize other : Direction

-- A row of `metric_frontiers`.
pub record MetricFrontier : Type 0 where
  pub charter_id : ℕ
  pub hypothesis_card_id : ℕ
  pub primary_metric_direction : Direction
  pub best_run_id : ℕ
  pub best_experiment_spec_id : ℕ
  pub best_metric_value : Option ℤ
  pub total_runs : ℕ
  pub successful_runs : ℕ
  pub runs_since_improvement : ℕ

-- A stop condition: not a dict, or a dict with or without a threshold.
pub data StopCondition : Type 0 where
  no_dict : StopCondition
  dict : Option ℤ → StopCondition

-- The keys of a hardware profile that a gate reads.
pub record HardwareProfile : Type 0 where
  pub gpu_count : Option ℕ
  pub memory_gb : Option ℕ

-- What the network detection reads of `code_plan`; `files` is `none` if it is no dict.
pub record CodePlan : Type 0 where
  pub requires_network : Option Bool
  pub network_access : Option Bool
  pub files : Option (List (String × String))
  pub entry_point : Option String
  pub dependencies : Option String
  pub instructions : Option String

pub record BuildRecipe : Type 0 where
  pub requires_network : Option Bool
  pub network_access : Option Bool
  pub dockerfile_content : Option String

-- JSON values; the fields of an object stand in the order of their sorted keys.
mutual
  pub data Json : Type 0 where
    null : Json
    bool : Bool → Json
    num : ℤ → Json
    str : String → Json
    arr : Items → Json
    obj : Fields → Json

  pub data Items : Type 0 where
    nil : Items
    cons : Json → Items → Items

  pub data Fields : Type 0 where
    end : Fields
    field : String → Json → Fields → Fields

-- A spec's controls: the list, and its text by `json.dumps`.
pub record Controls : Type 0 where
  pub items : Items
  pub dumped : String

-- A row of `experiment_specs`. `fingerprint` is the digest of code plan, controls, metrics and
-- baseline, `without_controls` the canonical text of the other three.
pub record ExperimentSpec : Type 0 where
  pub id : ℕ
  pub cycle_id : ℕ
  pub hypothesis_card_id : Option ℕ
  pub validated : Bool
  pub created_at : ℕ
  pub hardware_profile : Option HardwareProfile
  pub base_image : Option String
  pub code_plan : CodePlan
  pub build_recipe : BuildRecipe
  pub stop_conditions : List StopCondition
  pub fingerprint : String
  pub without_controls : String
  pub controls : Option Controls
