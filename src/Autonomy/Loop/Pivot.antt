-- ===== src/Autonomy/Loop/Pivot.antt =====
-- `_pivot_hypothesis` of libs/autonomy/operators/loop_decide.py: the next card by rank, and how the
-- loop goes on with it.
use synthetos.Prelude.{
  ℕ, ◌==◌, ltb, Bool, true, false, ◌&&◌, ◌||◌, Option, none, some, List, [], ◌∷◌, if◌then◌else◌,
  update_where,
}
use synthetos.Domain.{HardwareProfile, ExperimentSpec}
use synthetos.Cycle.{running}
use synthetos.Autonomy.{AutonomyPolicy}
use synthetos.Autonomy.Gates.{
  GateContext, GateName, before_hardware_escalation, before_network_execution, evaluate_gates,
  preview_next_spec, NextSpecPreview,
}
use synthetos.Autonomy.Lifecycle.{
  candidate, compiled, deferred, rejected, deprioritized, HypothesisCard, is_status,
}
use synthetos.Autonomy.Loop.{
  Turn, LoopDb, Outcome, committed, pivot_hypothesis, stop_exhausted, rerun_spec,
  compile_new_hypothesis, loop_decision_made, hypothesis_selected, compile_card, log, enqueue,
  persist_decision, add_run, stop, pause_for_gate, session_of, same_card,
}

abbrev pub has_card_id : ℕ → HypothesisCard → Bool
has_card_id i c = c.id == i

abbrev pub drop_card : ℕ → HypothesisCard → HypothesisCard
drop_card now c =
    if is_status c.status deprioritized || is_status c.status rejected
    then c
    else record c { status = deprioritized; updated_at = now }

-- The current card, if there is one, is given up.
abbrev pub deprioritize : Turn → LoopDb → LoopDb
deprioritize t db = elim t.hypothesis_card_id [
  | none ↦ db
  | some i ↦ record db { cards = update_where (has_card_id i) (drop_card t.now) db.cards }
]

abbrev pub is_viable : ℕ → HypothesisCard → Bool
is_viable cycle c =
    c.cycle_id == cycle
    && (is_status c.status candidate
        || (is_status c.status compiled || is_status c.status deferred))

-- `ORDER BY rank ASC NULLS LAST`
abbrev pub ranks_before : Option ℕ → Option ℕ → Bool
ranks_before none r = false
ranks_before (some a) none = true
ranks_before (some a) (some b) = ltb a b

abbrev pub better_card : HypothesisCard → Option HypothesisCard → HypothesisCard
better_card c none = c
better_card c (some d) = if ranks_before d.rank c.rank then d else c

-- The first viable card by rank; of equals the one that stands first.
unfoldable pub next_card : ℕ → List HypothesisCard → Option HypothesisCard
next_card cycle [] = none
next_card cycle (c ∷ cs) =
    let rest = next_card cycle cs in if is_viable cycle c then some (better_card c rest) else rest

abbrev newer_spec : ExperimentSpec → Option ExperimentSpec → ExperimentSpec
newer_spec s none = s
newer_spec s (some r) = if ltb s.created_at r.created_at then r else s

-- The latest validated spec of a card.
unfoldable pub latest_spec : ℕ → List ExperimentSpec → Option ExperimentSpec
latest_spec card [] = none
latest_spec card (s ∷ ss) =
    let rest = latest_spec card ss in
    if same_card s.hypothesis_card_id (some card) && s.validated
    then some (newer_spec s rest)
    else rest

-- The context of the check before the next run is executed.
abbrev pub execution_context : Option HardwareProfile → NextSpecPreview → GateContext
execution_context current preview = record {
  runs_since_last_gate = 0;
  next_hardware_profile = preview.hardware_profile;
  current_hardware_profile = current;
  is_result_promotion = false;
  has_network_access = preview.has_network_access;
}

-- Only these two gates pause before an execution.
abbrev pub execution_gate : Option GateName → Option GateName
execution_gate (some before_hardware_escalation) = some before_hardware_escalation
execution_gate (some before_network_execution) = some before_network_execution
execution_gate _ = none

unfoldable pub check_execution :
    AutonomyPolicy → Option HardwareProfile → ExperimentSpec → Option GateName
unfolding evaluate_gates preview_next_spec
check_execution policy current next =
    let r = evaluate_gates policy (execution_context current (preview_next_spec (some next))) in
    if r.should_pause then execution_gate r.gate_name else none

unfoldable pub profile_of : Option ExperimentSpec → Option HardwareProfile
profile_of none = none
profile_of (some s) = s.hardware_profile

unfoldable pub rerun_card : Turn → HypothesisCard → ExperimentSpec → LoopDb → Outcome
rerun_card t next spec db =
    committed
      (log (loop_decision_made t.iteration pivot_hypothesis) (
        persist_decision t pivot_hypothesis (some rerun_spec) (some next.id) none
          (add_run t spec.id db)))
      (some running)

abbrev pub compile_in : Turn → HypothesisCard → Option ℕ → LoopDb → Outcome
compile_in t next none db = stop t stop_exhausted db
compile_in t next (some session) db =
    committed
      (log (loop_decision_made t.iteration pivot_hypothesis) (
        persist_decision t pivot_hypothesis (some compile_new_hypothesis) (some next.id) none
          (enqueue t "protocol_compile" (compile_card session (some next.id) none) 10 db)))
      (some running)

unfoldable pub run_or_pause :
    Turn → HypothesisCard → ExperimentSpec → Option GateName → LoopDb → Outcome
unfolding rerun_card pause_for_gate
run_or_pause t next spec none db = rerun_card t next spec db
run_or_pause t next spec (some gate) db = pause_for_gate t gate db

-- A compiled card with a validated spec is run; any other card is compiled.
unfoldable pub with_spec :
    Turn
    → AutonomyPolicy
    → Option ExperimentSpec
    → HypothesisCard
    → Option ExperimentSpec
    → LoopDb
    → Outcome
unfolding stop run_or_pause check_execution profile_of
with_spec t policy current next none db =
    compile_in t next (session_of t.run.cycle_id db.sessions) db
with_spec t policy current next (some spec) db =
    run_or_pause t next spec (check_execution policy (profile_of current) spec) db

unfoldable pub with_card :
    Turn → AutonomyPolicy → Option ExperimentSpec → Option HypothesisCard → LoopDb → Outcome
unfolding with_spec latest_spec
with_card t policy current none db = stop t stop_exhausted db
with_card t policy current (some next) db =
    with_spec t policy current next
      (if is_status next.status compiled then latest_spec next.id db.specs else none)
      (log (hypothesis_selected next.id) db)

unfoldable pub pivot : Turn → AutonomyPolicy → Option ExperimentSpec → LoopDb → Outcome
unfolding with_card next_card
pivot t policy current db =
    let dropped = deprioritize t db in
    with_card t policy current (next_card t.run.cycle_id dropped.cards) dropped
