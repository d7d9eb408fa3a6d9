-- ===== src/Autonomy/Loop/Decide.antt =====
-- The steps 6 to 8 of the operator `loop_decide` of libs/autonomy/operators/loop_decide.py: the
-- summary, the lifecycle of the hypothesis, and the action on the recommendation.
use synthetos.Prelude.{
  ℕ, ◌%◌, ◌==◌, ltb, leb, Bool, false, ◌&&◌, not, Option, none, some, List, [], ◌∷◌, if◌then◌else◌,
  update_where, first_where, is_some,
}
use synthetos.Domain.{
  Signal, RecommendationType, hypothesis_pivot, continue_current, halt, MetricFrontier,
  StopCondition, ExperimentSpec,
}
use synthetos.Autonomy.{AutonomyPolicy}
use synthetos.Autonomy.Gates.{GateName}
use synthetos.Autonomy.Lifecycle.{HypothesisCard, is_status, update_hypothesis_status}
use synthetos.Autonomy.Repetition.{detect_repetition}
use synthetos.Autonomy.Loop.{
  stop_halt, context_summarized, hypothesis_status_changed, repetition_detected, LoopDb, Outcome,
  Turn, log, stop, pause_for_gate, continue_run, vary_parameters_of,
}
use synthetos.Autonomy.Loop.Pivot.{has_card_id, pivot, check_execution}

-- The loop's view of the rows that belong to the run.
abbrev pub spec_of : ℕ → List ExperimentSpec → Option ExperimentSpec
spec_of i = first_where (λ s. s.id == i)

abbrev pub card_of : Option ℕ → LoopDb → Option HypothesisCard
card_of none db = none
card_of (some i) db = first_where (has_card_id i) db.cards

abbrev pub signal_of : ℕ → List (ℕ × Signal) → Option Signal
signal_of run [] = none
signal_of run (e ∷ es) = if e.0 == run then some e.1 else signal_of run es

abbrev pub frontier_of : ℕ → Option ℕ → List MetricFrontier → Option MetricFrontier
frontier_of charter none fs = none
frontier_of charter (some card) fs =
    first_where (λ f. f.charter_id == charter && f.hypothesis_card_id == card) fs

abbrev pub conditions_of : Option ExperimentSpec → Option (List StopCondition)
conditions_of none = none
conditions_of (some s) = some s.stop_conditions

abbrev pub card_id_of : Option ExperimentSpec → Option ℕ
card_id_of none = none
card_id_of (some s) = s.hypothesis_card_id

-- Everything that the steps after the budget read.
pub record Frame : Type 0 where
  pub turn : Turn
  pub policy : AutonomyPolicy
  pub spec : Option ExperimentSpec

-- Step 8: act on the recommendation, which may have been changed by the repetition check.
abbrev pub is_repeated : Frame → ExperimentSpec → LoopDb → Bool
is_repeated f spec db = (detect_repetition db.specs f.turn.run.cycle_id spec).is_duplicate

abbrev pub rerun_or_pause : Frame → ExperimentSpec → Option GateName → LoopDb → Outcome
rerun_or_pause f spec none db = continue_run f.turn spec db
rerun_or_pause f spec (some gate) db = pause_for_gate f.turn gate db

unfoldable pub act_continue : Frame → ExperimentSpec → LoopDb → Outcome
unfolding detect_repetition
act_continue f spec db =
    if is_repeated f spec db
    then vary_parameters_of f.turn (log (repetition_detected spec.id) db)
    else rerun_or_pause f spec (check_execution f.policy spec.hardware_profile spec) db

-- With no spec only a pivot goes on.
unfoldable pub act : Frame → RecommendationType → Option ExperimentSpec → LoopDb → Outcome
unfolding act_continue
act f halt spec db = stop f.turn stop_halt db
act f hypothesis_pivot spec db = pivot f.turn f.policy spec db
act f continue_current (some spec) db = act_continue f spec db
act f _ (some spec) db = vary_parameters_of f.turn db
act f _ none db = stop f.turn stop_halt db

-- Step 7: the lifecycle of the card.
abbrev pub note_change : HypothesisCard → HypothesisCard → LoopDb → LoopDb
note_change old new db =
    if not (is_status new.status old.status)
    then log (hypothesis_status_changed old.id old.status new.status) db
    else db

abbrev pub new_card : Frame → HypothesisCard → LoopDb → HypothesisCard
new_card f card db =
    update_hypothesis_status f.turn.now card (signal_of f.turn.run.id db.signals)
      (frontier_of f.turn.run.charter_id f.turn.hypothesis_card_id db.frontiers)
      f.turn.rec.recommendation_type (conditions_of f.spec)

unfoldable pub update_card : Frame → Option HypothesisCard → LoopDb → LoopDb
update_card f none db = db
update_card f (some card) db =
    let card' = new_card f card db in
    note_change card card'
      (record db { cards = update_where (has_card_id card.id) (λ _. card') db.cards })

-- Step 6: the summary at the interval's boundary, unless the resumed decision has one.
unfoldable pub should_generate_summary : ℕ → ℕ → Bool
should_generate_summary total_runs interval =
    if leb interval 0 then false else ltb 0 total_runs && total_runs % interval == 0

abbrev pub summarized : Frame → Frame
summarized f = record f { turn = record (f.turn) { context_summary = some f.turn.iteration } }

abbrev pub is_summary_due : Frame → Bool
is_summary_due f =
    not (is_some f.turn.context_summary)
    && should_generate_summary f.turn.budget.total_runs f.policy.summary_interval

unfoldable pub proceed_with : Frame → LoopDb → Outcome
unfolding act update_card
proceed_with f db =
    act f f.turn.rec.recommendation_type f.spec
      (update_card f (card_of f.turn.hypothesis_card_id db) db)

unfoldable pub proceed : Frame → LoopDb → Outcome
unfolding should_generate_summary proceed_with
proceed f db =
    if is_summary_due f
    then proceed_with (summarized f) (log (context_summarized f.turn.iteration) db)
    else proceed_with f db
