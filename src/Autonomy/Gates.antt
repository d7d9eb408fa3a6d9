-- ===== src/Autonomy/Gates.antt =====
-- The checkpoint gates of the loop: libs/autonomy/gates.py. The `reason` texts are left out, and a
-- plan is read as the fields that the code looks at, a dependency list as its text.
pub mod Firing
use Prim.Native.String.{String}
use text.Mathlib.Text.{find?}
use synthetos.Prelude.{
  ℕ, ltb, leb, Bool, true, false, ◌&&◌, ◌||◌, Option, none, some, List, [], ◌∷◌, ◌++◌, map,
  if◌then◌else◌, holds, is_some, any_of,
}
use synthetos.Domain.{HardwareProfile, CodePlan, BuildRecipe, ExperimentSpec}
use synthetos.Autonomy.{AutonomyPolicy, CheckpointGateConfig}

pub record GateContext : Type 0 where
  pub runs_since_last_gate : ℕ
  pub next_hardware_profile : Option HardwareProfile
  pub current_hardware_profile : Option HardwareProfile
  pub is_result_promotion : Bool
  pub has_network_access : Bool

pub data GateName : Type 0 where
  after_every_run after_every_n_runs before_hardware_escalation : GateName
  before_result_promotion before_network_execution : GateName

pub record GateResult : Type 0 where
  pub should_pause : Bool
  pub gate_name : Option GateName

abbrev pub pass : GateResult
pass = record { should_pause = false; gate_name = none }

abbrev pub pause_at : GateName → GateResult
pause_at g = record { should_pause = true; gate_name = some g }

-- `profile.get(key, 0)`
abbrev pub amount : Option ℕ → ℕ
amount none = 0
amount (some n) = n

unfoldable pub is_hardware_escalation : Option HardwareProfile → Option HardwareProfile → Bool
is_hardware_escalation current none = false
is_hardware_escalation none (some next) = false
is_hardware_escalation (some current) (some next) =
    if ltb (amount current.gpu_count) (amount next.gpu_count)
    then true
    else ltb (amount current.memory_gb) (amount next.memory_gb)

unfoldable pub evaluate_gates : AutonomyPolicy → GateContext → GateResult
unfolding is_hardware_escalation
evaluate_gates policy context =
    let gates = policy.checkpoint_gates in
    if gates.after_every_run
    then pause_at after_every_run
    else if holds (λ n. leb n context.runs_since_last_gate) gates.after_every_n_runs
    then pause_at after_every_n_runs
    else if gates.before_hardware_escalation
        && is_hardware_escalation context.current_hardware_profile context.next_hardware_profile
    then pause_at before_hardware_escalation
    else if gates.before_result_promotion && context.is_result_promotion
    then pause_at before_result_promotion
    else if gates.before_network_execution && context.has_network_access
    then pause_at before_network_execution
    else pass

abbrev pub flag : Option Bool → Bool
flag none = false
flag (some b) = b

abbrev pub contents : Option (List (String × String)) → List String
contents none = []
contents (some fs) = map (λ (f : String × String). f.1) fs

abbrev pub listed : Option String → List String
listed none = []
listed (some s) = s ∷ []

-- The texts that are searched.
abbrev pub text_blobs : CodePlan → BuildRecipe → List String
text_blobs plan recipe =
    contents plan.files
    ++ (listed plan.entry_point
        ++ (listed plan.dependencies
            ++ (listed plan.instructions ++ listed recipe.dockerfile_content)))

abbrev pub heuristics : List String
heuristics =
    "requests." ∷ "httpx." ∷ "urllib.request" ∷ "https://" ∷ "http://" ∷ "wget " ∷ "curl " ∷ []

-- `marker in blob`
abbrev pub contains : String → String → Bool
contains blob marker = is_some (find? blob marker)

unfoldable pub detect_network_access : CodePlan → BuildRecipe → Bool
detect_network_access plan recipe =
    if any_of flag (
      plan.requires_network ∷ plan.network_access ∷ recipe.requires_network ∷ recipe.network_access
      ∷ [])
    then true
    else any_of (λ blob. any_of (contains blob) heuristics) (text_blobs plan recipe)

pub record NextSpecPreview : Type 0 where
  pub spec_id : Option ℕ
  pub hardware_profile : Option HardwareProfile
  pub has_network_access : Bool

unfoldable pub preview_next_spec : Option ExperimentSpec → NextSpecPreview
unfolding detect_network_access
preview_next_spec none = record {
  spec_id = none;
  hardware_profile = none;
  has_network_access = false;
}
preview_next_spec (some spec) = record {
  spec_id = some spec.id;
  hardware_profile = spec.hardware_profile;
  has_network_access = detect_network_access spec.code_plan spec.build_recipe;
}
