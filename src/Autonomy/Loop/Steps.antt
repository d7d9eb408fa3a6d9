-- ===== src/Autonomy/Loop/Steps.antt =====
-- The effects of the steps 4 to 8 of the operator `loop_decide`, each by itself.
use synthetos.Prelude.{◌≡◌, refl, inl, inr, Option, none, some, not, Bool-cases}
use synthetos.Domain.{
  RecommendationType, mechanical_recovery, parameter_variation, hypothesis_pivot, continue_current,
  halt, ExperimentSpec,
}
use synthetos.Autonomy.Gates.{GateName, evaluate_gates}
use synthetos.Autonomy.Lifecycle.{HypothesisCard, is_status}
use synthetos.Autonomy.Loop.{
  stop_budget, stop_halt, LoopDb, log, repetition_detected, context_summarized,
}
use synthetos.Autonomy.Loop.Pivot.{check_execution}
use synthetos.Autonomy.Loop.Decide.{
  Frame, act, act_continue, rerun_or_pause, is_repeated, update_card, note_change, new_card,
  proceed, proceed_with, summarized, is_summary_due, card_of,
}
use synthetos.Autonomy.Loop.Operator.{
  pausing_gate, gate_context, checkpoint, is_over, limit_or_gate,
}
use synthetos.Autonomy.Loop.Effects.{
  view, IsTurn, view-log-if, IsTurn-view, stop-IsTurn, pause_for_gate-IsTurn, continue_run-IsTurn,
  vary_parameters_of-IsTurn, pivot-IsTurn,
}

rerun_or_pause-IsTurn :
    (f : Frame) (s : ExperimentSpec) (g : Option GateName) (db : LoopDb)
    → IsTurn f.turn.run (view db) (rerun_or_pause f s g db)
rerun_or_pause-IsTurn f s none db = continue_run-IsTurn f.turn s db
rerun_or_pause-IsTurn f s (some g) db = pause_for_gate-IsTurn f.turn g db

act_continue-IsTurn :
    (f : Frame) (s : ExperimentSpec) (db : LoopDb)
    → IsTurn f.turn.run (view db) (act_continue f s db)
unfolding act_continue
act_continue-IsTurn f s db = elim (Bool-cases (is_repeated f s db)) [
  | inl e ↦ rw e (vary_parameters_of-IsTurn f.turn (log (repetition_detected s.id) db))
  | inr e ↦ rw e (rerun_or_pause-IsTurn f s (check_execution f.policy s.hardware_profile s) db)
]

act-IsTurn :
    (f : Frame) (r : RecommendationType) (s : Option ExperimentSpec) (db : LoopDb)
    → IsTurn f.turn.run (view db) (act f r s db)
unfolding act
act-IsTurn f halt s db = stop-IsTurn f.turn stop_halt db (refl, refl)
act-IsTurn f hypothesis_pivot s db = pivot-IsTurn f.turn f.policy s db
act-IsTurn f continue_current (some s) db = act_continue-IsTurn f s db
act-IsTurn f continue_current none db = stop-IsTurn f.turn stop_halt db (refl, refl)
act-IsTurn f parameter_variation (some s) db = vary_parameters_of-IsTurn f.turn db
act-IsTurn f parameter_variation none db = stop-IsTurn f.turn stop_halt db (refl, refl)
act-IsTurn f mechanical_recovery (some s) db = vary_parameters_of-IsTurn f.turn db
act-IsTurn f mechanical_recovery none db = stop-IsTurn f.turn stop_halt db (refl, refl)

view-note_change :
    (old new : HypothesisCard) (db : LoopDb) → view (note_change old new db) ≡ view db
view-note_change old new db = view-log-if (not (is_status new.status old.status)) db _ refl

pub view-update_card :
    (f : Frame) (c : Option HypothesisCard) (db : LoopDb) → view (update_card f c db) ≡ view db
unfolding update_card
view-update_card f none db = refl
view-update_card f (some c) db = view-note_change c (new_card f c db) _

proceed_with-IsTurn : (f : Frame) (db : LoopDb) → IsTurn f.turn.run (view db) (proceed_with f db)
unfolding proceed_with
proceed_with-IsTurn f db =
    let card = card_of f.turn.hypothesis_card_id db in
    let db' = update_card f card db in
    IsTurn-view f.turn.run (view db') (view db) (proceed_with f db) (view-update_card f card db)
      (act-IsTurn f f.turn.rec.recommendation_type f.spec db')

pub proceed-IsTurn : (f : Frame) (db : LoopDb) → IsTurn f.turn.run (view db) (proceed f db)
unfolding proceed
proceed-IsTurn f db = elim (Bool-cases (is_summary_due f)) [
  | inl e ↦ rw e (proceed_with-IsTurn (summarized f) (log (context_summarized f.turn.iteration) db))
  | inr e ↦ rw e (proceed_with-IsTurn f db)
]

checkpoint-IsTurn :
    (f : Frame) (g : Option GateName) (db : LoopDb)
    → IsTurn f.turn.run (view db) (checkpoint f g db)
unfolding checkpoint
checkpoint-IsTurn f none db = proceed-IsTurn f db
checkpoint-IsTurn f (some g) db = pause_for_gate-IsTurn f.turn g db

pub limit_or_gate-IsTurn :
    (f : Frame) (db : LoopDb) → IsTurn f.turn.run (view db) (limit_or_gate f db)
unfolding limit_or_gate
limit_or_gate-IsTurn f db =
    elim (Bool-cases (is_over f.policy f.turn.budget f.turn.hypothesis_card_id)) [
      | inl e ↦ rw e (stop-IsTurn f.turn stop_budget db (refl, refl))
      | inr e ↦
          rw e (checkpoint-IsTurn f (pausing_gate (evaluate_gates f.policy (gate_context f db))) db)
    ]
