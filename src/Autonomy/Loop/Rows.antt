-- ===== src/Autonomy/Loop/Rows.antt =====
-- A call of the operator `loop_decide` whose run, recommendation and cycle are in the tables, and the
-- limit of runs in it.
use synthetos.Prelude.{ℕ, ◌+◌, ◌≡◌, refl, ◌≤◌, true, none, some, [], ◌∷◌, ◌++◌, select, le→leb}
use synthetos.Cycle.{reporting}
use synthetos.Autonomy.{AutonomyPolicy}
use synthetos.Autonomy.Budget.{
  AutonomyBudget, load_or_create_budget, increment_budget, check_budget,
}
use synthetos.Autonomy.Loop.{
  RunRecord, RunRecommendation, CycleConfig, stop_budget, LoopDecision, LoopDb, Outcome, committed,
  stop,
}
use synthetos.Autonomy.Loop.Decide.{spec_of, card_id_of}
use synthetos.Autonomy.Loop.Operator.{
  nothing, one_of, is_gate_of_run, LoopInput, find_run, find_rec, find_cycle, is_over,
  limit_or_gate, with_gate, prepare, with_cycle, loop_decide, dispatch, with_ids, with_rows,
}

-- The rows of a call: its recommendation, its run and the run's cycle.
pub record Rows : Type 0 where
  pub rec : RunRecommendation
  pub run : RunRecord
  pub cycle : CycleConfig

-- The payload names a recommendation and a run, and the tables have the rows.
abbrev pub IsFound : LoopInput → LoopDb → Rows → Type 0
IsFound i db rows =
    (i.prepared_run_record_id ≡ none)
    × ((k : ℕ) × (i.recommendation_id ≡ some k) × (find_rec k db ≡ some rows.rec))
    × ((r : ℕ) × (i.run_record_id ≡ some r) × (find_run r db ≡ some rows.run))
    × (find_cycle rows.run.cycle_id db ≡ some rows.cycle)

pub loop_decide-IsFound :
    (i : LoopInput) (db : LoopDb) (rows : Rows)
    → IsFound i db rows
    → loop_decide i db
      ≡ with_gate i rows.rec rows.run rows.cycle
          (load_or_create_budget rows.run.cycle_id i.now db.budgets).0
          (spec_of rows.run.experiment_spec_id db.specs)
          (one_of (select (is_gate_of_run rows.run.id) db.decisions))
          (prepare i rows.run.cycle_id db)
unfolding loop_decide dispatch with_ids with_rows with_cycle
loop_decide-IsFound i db rows
      (not_prepared, (k, rec_id, found_rec), (r, run_id, found_run), found_cycle) =
    rw (not_prepared, rec_id, run_id, found_rec, found_run, found_cycle) refl

-- A call that ends in a report: a last decision, no new run.
abbrev pub IsBudgetStop : LoopDb → Outcome → Type 0
IsBudgetStop db o =
    (db' : LoopDb) × (d : LoopDecision) × (o ≡ committed db' (some reporting))
    × (d.decision ≡ stop_budget)
    × (db'.decisions ≡ db.decisions ++ d ∷ [])
    × (db'.runs ≡ db.runs)

is_over-limit :
    (policy : AutonomyPolicy) (b : AutonomyBudget) (card limit : ℕ)
    → policy.max_total_runs ≡ some limit
    → limit ≤ b.total_runs
    → is_over policy b (some card) ≡ true
unfolding check_budget
is_over-limit policy b card limit set h = rw (set, le→leb limit b.total_runs h) refl

-- The run that takes the cycle to its limit, or that finds it over the limit, is the last one: when
-- the run has a hypothesis and no gate decision, and the limit is at most the runs of the cycle with
-- this one, the call stops with the budget's decision and makes no run.
pub run_limit-IsBudgetStop :
    (i : LoopInput) (db : LoopDb) (rows : Rows) (card limit : ℕ)
    → IsFound i db rows
    → one_of (select (is_gate_of_run rows.run.id) db.decisions) ≡ nothing
    → card_id_of (spec_of rows.run.experiment_spec_id db.specs) ≡ some card
    → rows.cycle.policy.max_total_runs ≡ some limit
    → limit ≤ (load_or_create_budget rows.run.cycle_id i.now db.budgets).0.total_runs + 1
    → IsBudgetStop db (loop_decide i db)
unfolding with_gate limit_or_gate increment_budget stop
run_limit-IsBudgetStop i db rows card limit found no_gate has_card set h =
    let b = (load_or_create_budget rows.run.cycle_id i.now db.budgets).0 in
    rw
      (
        loop_decide-IsFound i db rows found,
        no_gate,
        has_card,
        is_over-limit rows.cycle.policy (increment_budget i.now card b) card limit set h,
      )
      (_, _, refl, refl, refl, refl)
