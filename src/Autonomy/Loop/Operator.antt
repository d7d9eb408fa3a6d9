-- ===== src/Autonomy/Loop/Operator.antt =====
-- The operator `loop_decide` of libs/autonomy/operators/loop_decide.py as a whole, with its steps 1
-- to 5: the rows, the budget, a resumed gate, the limits and the gates. The pattern injection only
-- appends its audit events; the identifiers of the patterns are an argument.
use synthetos.Prelude.{
  ℕ, ◌+◌, ◌-◌, ◌==◌, ltb, Bool, true, false, ◌&&◌, ◌||◌, Option, none, some, List, [], ◌∷◌, ◌++◌,
  map, if◌then◌else◌, update_where, first_where, select, count_if, holds,
}
use synthetos.Prelude.Int.{pos}
use synthetos.Domain.{ExperimentSpec}
use synthetos.Cycle.{running}
use synthetos.Jobs.{create_job}
use synthetos.Autonomy.{AutonomyPolicy}
use synthetos.Autonomy.Budget.{
  AutonomyBudget, load_or_create_budget, increment_budget, check_budget,
  check_per_hypothesis_budget, is_of_cycle,
}
use synthetos.Autonomy.Gates.{GateContext, GateName, GateResult, evaluate_gates}
use synthetos.Autonomy.Lifecycle.{
  HypothesisStatus, validated, HypothesisCard, is_status, compute_lifecycle_status,
}
use synthetos.Autonomy.Loop.{
  RunRecord, RunRecommendation, CycleConfig, Decision, stop_gate, stop_budget, LoopDecision,
  budget_updated, gate_resumed, pattern_applied, LoopDb, missing_payload, recommendation_not_found,
  run_not_found, cycle_not_found, multiple_results, Outcome, committed, failed, run_record, log,
  stop, pause_for_gate,
}
use synthetos.Autonomy.Loop.Pivot.{profile_of}
use synthetos.Autonomy.Loop.Decide.{
  Frame, spec_of, card_of, signal_of, frontier_of, card_id_of, proceed,
}

-- A row that a query for one row at most finds; several rows raise.
pub data AtMostOne {ℓ} (A : Type ℓ) : Type ℓ where
  nothing : AtMostOne A
  single : A → AtMostOne A
  several : AtMostOne A

abbrev pub one_of {ℓ} : {A : Type ℓ} → List A → AtMostOne A
one_of [] = nothing
one_of (x ∷ []) = single x
one_of (x ∷ (y ∷ xs)) = several

abbrev pub is_gate_stop : Decision → Bool
is_gate_stop stop_gate = true
is_gate_stop _ = false

abbrev pub is_gate_of_run : ℕ → LoopDecision → Bool
is_gate_of_run run d = d.run_record_id == run && is_gate_stop d.decision

-- The total at the cycle's latest gate; 0 before the first.
abbrev later_gate : LoopDecision → Option LoopDecision → LoopDecision
later_gate d none = d
later_gate d (some e) = if ltb d.created_at e.created_at then e else d

unfoldable pub last_gate : ℕ → List LoopDecision → Option LoopDecision
last_gate cycle [] = none
last_gate cycle (d ∷ ds) =
    let rest = last_gate cycle ds in
    if d.cycle_id == cycle && is_gate_stop d.decision then some (later_gate d rest) else rest

abbrev pub runs_at : Option LoopDecision → ℕ
runs_at none = 0
runs_at (some d) = d.budget_total_runs

-- The job, its payload, the clock and the fresh identifiers.
pub record LoopInput : Type 0 where
  pub job_id : ℕ
  pub prepared_run_record_id : Option ℕ
  pub recommendation_id : Option ℕ
  pub run_record_id : Option ℕ
  pub now : ℕ
  pub new_run_id : ℕ
  pub new_job_id : ℕ
  pub applied_patterns : List ℕ

abbrev pub find_run : ℕ → LoopDb → Option RunRecord
find_run i db = first_where (λ r. r.id == i) db.runs

abbrev pub find_rec : ℕ → LoopDb → Option RunRecommendation
find_rec i db = first_where (λ r. r.id == i) db.recommendations

abbrev pub find_cycle : ℕ → LoopDb → Option CycleConfig
find_cycle i db = first_where (λ c. c.id == i) db.cycles

-- Step 5: the gates, with the run's own profile as the current and the next one.
abbrev pub is_validated : Option HypothesisStatus → Bool
is_validated = holds (is_status validated)

abbrev pub is_result_promotion :
    Frame → Option HypothesisCard → Option ExperimentSpec → LoopDb → Bool
is_result_promotion f (some card) (some spec) db = is_validated (
    compute_lifecycle_status card.status (signal_of f.turn.run.id db.signals)
      (frontier_of f.turn.run.charter_id f.turn.hypothesis_card_id db.frontiers)
      f.turn.rec.recommendation_type (some spec.stop_conditions))
is_result_promotion f _ _ db = false

abbrev pub gate_context : Frame → LoopDb → GateContext
gate_context f db = record {
  runs_since_last_gate =
      f.turn.budget.total_runs - runs_at (last_gate f.turn.run.cycle_id db.decisions);
  next_hardware_profile = profile_of f.spec;
  current_hardware_profile = profile_of f.spec;
  is_result_promotion = is_result_promotion f (card_of f.turn.hypothesis_card_id db) f.spec db;
  has_network_access = false;
}

abbrev pub pausing_gate : GateResult → Option GateName
pausing_gate r = if r.should_pause then r.gate_name else none

unfoldable pub checkpoint : Frame → Option GateName → LoopDb → Outcome
unfolding proceed pause_for_gate
checkpoint f none db = proceed f db
checkpoint f (some gate) db = pause_for_gate f.turn gate db

-- Step 4: the limits of the cycle and of the hypothesis.
abbrev pub is_over : AutonomyPolicy → AutonomyBudget → Option ℕ → Bool
is_over policy b none = (check_budget policy b).exceeded
is_over policy b (some card) =
    (check_budget policy b).exceeded || (check_per_hypothesis_budget policy b card).exceeded

unfoldable pub limit_or_gate : Frame → LoopDb → Outcome
unfolding checkpoint
limit_or_gate f db =
    if is_over f.policy f.turn.budget f.turn.hypothesis_card_id
    then stop f.turn stop_budget db
    else checkpoint f (pausing_gate (evaluate_gates f.policy (gate_context f db))) db

-- Step 2: the frame of a turn, and the run counted when there is a hypothesis.
abbrev pub frame_of :
    LoopInput
    → RunRecommendation
    → RunRecord
    → CycleConfig
    → AutonomyBudget
    → Option ExperimentSpec
    → ℕ
    → Option ℕ
    → Frame
frame_of i rec run cycle budget spec iteration summary = record {
  turn = record {
    job_id = i.job_id;
    run = run;
    rec = rec;
    budget = budget;
    iteration = iteration;
    hypothesis_card_id = card_id_of spec;
    context_summary = summary;
    now = i.now;
    new_run_id = i.new_run_id;
    new_job_id = i.new_job_id;
  };
  policy = cycle.policy;
  spec = spec;
}

abbrev pub counted : ℕ → Option ℕ → AutonomyBudget → AutonomyBudget
counted now none b = b
counted now (some card) b = increment_budget now card b

abbrev pub write_budget : ℕ → Option ℕ → AutonomyBudget → LoopDb → LoopDb
write_budget run none b db = db
write_budget run (some card) b db =
    log (budget_updated run)
      (record db { budgets = update_where (is_of_cycle b.cycle_id) (λ _. b) db.budgets })

abbrev pub next_iteration : ℕ → List LoopDecision → ℕ
next_iteration cycle ds = count_if (λ d. d.cycle_id == cycle) ds + 1

-- A run that has no gate decision is counted and checked; one that has is resumed.
unfoldable pub with_gate :
    LoopInput
    → RunRecommendation
    → RunRecord
    → CycleConfig
    → AutonomyBudget
    → Option ExperimentSpec
    → AtMostOne LoopDecision
    → LoopDb
    → Outcome
unfolding limit_or_gate
with_gate i rec run cycle b spec several db = failed multiple_results
with_gate i rec run cycle b spec (single d) db =
    proceed (frame_of i rec run cycle b spec d.iteration_number d.context_summary)
      (log (gate_resumed d.iteration_number) db)
with_gate i rec run cycle b spec nothing db =
    let b' = counted i.now (card_id_of spec) b in
    limit_or_gate (frame_of i rec run cycle b' spec (next_iteration run.cycle_id db.decisions) none)
      (write_budget run.id (card_id_of spec) b' db)

abbrev note_patterns : List ℕ → LoopDb → LoopDb
note_patterns ps db = record db { events = db.events ++ map pattern_applied ps }

-- The budget's row, made if there was none, and the patterns' audit events.
abbrev pub prepare : LoopInput → ℕ → LoopDb → LoopDb
prepare i cycle db = record (note_patterns i.applied_patterns db) {
  budgets = (load_or_create_budget cycle i.now db.budgets).1;
}

unfoldable pub with_cycle :
    LoopInput → RunRecommendation → RunRecord → Option CycleConfig → LoopDb → Outcome
unfolding with_gate
with_cycle i rec run none db = failed cycle_not_found
with_cycle i rec run (some cycle) db =
    with_gate i rec run cycle (load_or_create_budget run.cycle_id i.now db.budgets).0
      (spec_of run.experiment_spec_id db.specs)
      (one_of (select (is_gate_of_run run.id) db.decisions)) (prepare i run.cycle_id db)

unfoldable pub with_rows :
    LoopInput → Option RunRecommendation → Option RunRecord → LoopDb → Outcome
unfolding with_cycle
with_rows i none run db = failed recommendation_not_found
with_rows i (some rec) none db = failed run_not_found
with_rows i (some rec) (some run) db = with_cycle i rec run (find_cycle run.cycle_id db) db

unfoldable pub with_ids : LoopInput → Option ℕ → Option ℕ → LoopDb → Outcome
unfolding with_rows
with_ids i none run db = failed missing_payload
with_ids i (some rec) none db = failed missing_payload
with_ids i (some rec) (some run) db = with_rows i (find_rec rec db) (find_run run db) db

-- An approved run that is prepared already is only started.
unfoldable pub start_prepared : LoopInput → Option RunRecord → LoopDb → Outcome
start_prepared i none db = failed run_not_found
start_prepared i (some run) db =
    committed
      (record db {
        queue =
            (create_job i.new_job_id (some run.cycle_id) "execution_setup"
              (some (run_record run.id)) (pos 10) i.now db.queue).1;
      })
      (some running)

unfoldable pub dispatch : LoopInput → Option ℕ → LoopDb → Outcome
unfolding with_ids start_prepared
dispatch i none db = with_ids i i.recommendation_id i.run_record_id db
dispatch i (some run) db = start_prepared i (find_run run db) db

unfoldable pub loop_decide : LoopInput → LoopDb → Outcome
loop_decide i db = dispatch i i.prepared_run_record_id db
