-- ===== src/Autonomy/Lifecycle.antt =====
-- The lifecycle of a hypothesis: libs/autonomy/hypothesis_lifecycle.py. Metric values are integers:
-- only their order is used.
pub mod Moves
pub mod Progress
use Prim.Native.String.{String}
use text.Mathlib.Text.{◌==◌ as str_eq}
use synthetos.Prelude.{
  ℕ, leb, Bool, true, false, ◌&&◌, ◌||◌, not, Option, none, some, List, [], ◌∷◌, if◌then◌else◌,
  any_of, is_some,
}
use synthetos.Prelude.Int.{ℤ, leb_ℤ}
use synthetos.Domain.{
  Signal, advancing, breakthrough, RecommendationType, hypothesis_pivot, Direction, maximize,
  minimize, other, MetricFrontier, StopCondition, no_dict, dict,
}

pub data HypothesisStatus : Type 0 where
  candidate selected compiled rejected deferred : HypothesisStatus
  active promising stalled deprioritized validated : HypothesisStatus

abbrev pub status_text : HypothesisStatus → String
status_text candidate = "candidate"
status_text selected = "selected"
status_text compiled = "compiled"
status_text rejected = "rejected"
status_text deferred = "deferred"
status_text active = "active"
status_text promising = "promising"
status_text stalled = "stalled"
status_text deprioritized = "deprioritized"
status_text validated = "validated"

abbrev pub is_status : HypothesisStatus → HypothesisStatus → Bool
is_status a b = str_eq (status_text a) (status_text b)

abbrev pub stall_threshold : ℕ
stall_threshold = 5

unfoldable pub valid_transitions : HypothesisStatus → List HypothesisStatus
valid_transitions compiled = active ∷ []
valid_transitions active = promising ∷ HypothesisStatus.stalled ∷ deprioritized ∷ []
valid_transitions promising = HypothesisStatus.stalled ∷ validated ∷ []
valid_transitions HypothesisStatus.stalled = deprioritized ∷ []
valid_transitions deferred = active ∷ []
valid_transitions _ = []

abbrev pub reaches : Direction → ℤ → ℤ → Bool
reaches maximize best threshold = leb_ℤ threshold best
reaches minimize best threshold = leb_ℤ best threshold
reaches other best threshold = false

-- The frontier against the first stop condition.
abbrev meets : Direction → Option ℤ → Option ℤ → Bool
meets d best none = false
meets d none (some threshold) = false
meets d (some best) (some threshold) = reaches d best threshold

unfoldable pub check_stop_conditions : List StopCondition → MetricFrontier → Bool
check_stop_conditions [] f = false
check_stop_conditions (no_dict ∷ rest) f = false
check_stop_conditions (dict threshold ∷ rest) f =
    meets f.primary_metric_direction f.best_metric_value threshold

abbrev pub is_pivot : RecommendationType → Bool
is_pivot hypothesis_pivot = true
is_pivot _ = false

-- `signal in ("advancing", "breakthrough")`
abbrev pub is_progress : Option Signal → Bool
is_progress (some advancing) = true
is_progress (some breakthrough) = true
is_progress _ = false

-- `frontier is not None and spec is not None`, and the conditions are met.
abbrev pub is_target_met : Option (List StopCondition) → Option MetricFrontier → Bool
is_target_met none f = false
is_target_met (some conditions) none = false
is_target_met (some conditions) (some f) = check_stop_conditions conditions f

abbrev pub is_stalling : Option MetricFrontier → Bool
is_stalling none = false
is_stalling (some f) = leb stall_threshold f.runs_since_improvement

-- The spec is given by its stop conditions.
unfoldable pub compute_lifecycle_status :
    HypothesisStatus
    → Option Signal
    → Option MetricFrontier
    → RecommendationType
    → Option (List StopCondition)
    → Option HypothesisStatus
unfolding valid_transitions check_stop_conditions
compute_lifecycle_status current signal frontier recommendation conditions =
    let allowed = valid_transitions current in
    let allows = λ (s : HypothesisStatus). any_of (is_status s) allowed in
    if elim allowed [ [] ↦ true | _ ∷ _ ↦ false ]
    then none
    else if (is_status current compiled || is_status current deferred) && allows active
    then some active
    else if is_pivot recommendation && allows deprioritized
    then some deprioritized
    else if is_status current promising && allows validated && is_target_met conditions frontier
    then some validated
    else if is_progress signal && allows promising
    then some promising
    else if is_stalling frontier && allows HypothesisStatus.stalled
    then some HypothesisStatus.stalled
    else none

-- A card of the portfolio.
pub record HypothesisCard : Type 0 where
  pub id : ℕ
  pub hypothesis_session_id : ℕ
  pub charter_id : ℕ
  pub cycle_id : ℕ
  pub status : HypothesisStatus
  pub rank : Option ℕ
  pub updated_at : ℕ

abbrev apply_status : ℕ → HypothesisCard → Option HypothesisStatus → HypothesisCard
apply_status now card none = card
apply_status now card (some s) =
    if not (is_status s card.status) then record card { status = s; updated_at = now } else card

unfoldable pub update_hypothesis_status :
    ℕ
    → HypothesisCard
    → Option Signal
    → Option MetricFrontier
    → RecommendationType
    → Option (List StopCondition)
    → HypothesisCard
unfolding compute_lifecycle_status
update_hypothesis_status now card signal frontier recommendation conditions =
    apply_status now card
      (compute_lifecycle_status card.status signal frontier recommendation conditions)
