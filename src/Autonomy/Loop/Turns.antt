-- ===== src/Autonomy/Loop/Turns.antt =====
-- The whole operator `loop_decide`: every call ends in a turn with its effects, or in an error that
-- the payload or the tables account for.
use synthetos.Prelude.{
  ℕ, ◌≡◌, refl, ◌∙◌, ◌⊎◌, inl, inr, Option, none, some, List, select, update_where,
}
use synthetos.Domain.{ExperimentSpec}
use synthetos.Autonomy.Budget.{AutonomyBudget, load_or_create_budget, increment_budget, is_of_cycle}
use synthetos.Autonomy.Loop.{
  RunRecord, RunRecommendation, CycleConfig, LoopDecision, gate_resumed, LoopDb, missing_payload,
  recommendation_not_found, run_not_found, cycle_not_found, no_hypothesis_session, multiple_results,
  Outcome, committed, failed, log,
}
use synthetos.Autonomy.Loop.Decide.{proceed, card_id_of, spec_of}
use synthetos.Autonomy.Loop.Operator.{
  AtMostOne, nothing, single, several, one_of, is_gate_of_run, LoopInput, find_run, find_rec,
  find_cycle, limit_or_gate, frame_of, counted, write_budget, next_iteration, with_gate, prepare,
  with_cycle, loop_decide, dispatch, with_ids, with_rows,
}
use synthetos.Autonomy.Loop.Effects.{View, view, fixed_of, IsTurn, IsTurn-view}
use synthetos.Autonomy.Loop.Steps.{proceed-IsTurn, limit_or_gate-IsTurn}

-- The budgets after a call: the cycle's row, made if there was none, counts the run unless a gate
-- of the run is resumed or there is no hypothesis.
abbrev counted_table :
    ℕ
    → Option ℕ
    → AtMostOne LoopDecision
    → AutonomyBudget × List AutonomyBudget
    → List AutonomyBudget
counted_table now (some card) nothing (b, table) =
    update_where (is_of_cycle b.cycle_id) (λ _. increment_budget now card b) table
counted_table now card g (b, table) = table

counted_table-single :
    (now : ℕ) (card : Option ℕ) (d : LoopDecision) (p : AutonomyBudget × List AutonomyBudget)
    → counted_table now card (single d) p ≡ p.1
counted_table-single now none d p = refl
counted_table-single now (some c) d p = refl

abbrev pub budgets_after : LoopInput → RunRecord → LoopDb → List AutonomyBudget
budgets_after i run db =
    counted_table i.now (card_id_of (spec_of run.experiment_spec_id db.specs))
      (one_of (select (is_gate_of_run run.id) db.decisions))
      (load_or_create_budget run.cycle_id i.now db.budgets)

abbrev pub view_after : LoopInput → RunRecord → LoopDb → View
view_after i run db = record (view db) {
  fixed = record (fixed_of db) { budgets = budgets_after i run db };
}

view-write_budget :
    (run now : ℕ) (card : Option ℕ) (b : AutonomyBudget) (db : LoopDb)
    → view (write_budget run card (counted now card b) db) ≡ record (view db) {
      fixed = record (fixed_of db) { budgets = counted_table now card nothing (b, db.budgets) };
    }
unfolding increment_budget
view-write_budget run now none b db = refl
view-write_budget run now (some c) b db = refl

-- What a call may answer: an error with its cause, or a turn of the run that the payload names.
abbrev pub IsAnswer : LoopInput → LoopDb → Outcome → Type 0
IsAnswer i db (failed missing_payload) = (i.recommendation_id ≡ none) ⊎ (i.run_record_id ≡ none)
IsAnswer i db (failed recommendation_not_found) =
    (r : ℕ) × (i.recommendation_id ≡ some r) × (find_rec r db ≡ none)
IsAnswer i db (failed run_not_found) = (r : ℕ) × (i.run_record_id ≡ some r) × (find_run r db ≡ none)
IsAnswer i db (failed cycle_not_found) =
    (r : ℕ) × (run : RunRecord) × (i.run_record_id ≡ some r)
    × (find_run r db ≡ some run)
    × (find_cycle run.cycle_id db ≡ none)
IsAnswer i db (failed multiple_results) =
    (r : ℕ) × (run : RunRecord) × (i.run_record_id ≡ some r)
    × (find_run r db ≡ some run)
    × (one_of (select (is_gate_of_run run.id) db.decisions) ≡ several)
IsAnswer i db o =
    (r : ℕ) × (run : RunRecord) × (i.run_record_id ≡ some r)
    × (find_run r db ≡ some run)
    × IsTurn run (view_after i run db) o

turn-IsAnswer :
    (i : LoopInput) (db : LoopDb) (r : ℕ) (run : RunRecord) (o : Outcome)
    → i.run_record_id ≡ some r
    → find_run r db ≡ some run
    → IsTurn run (view_after i run db) o
    → IsAnswer i db o
turn-IsAnswer i db r run (committed db' p) e g h = (r, run, e, g, h)
turn-IsAnswer i db r run (failed no_hypothesis_session) e g h = (r, run, e, g, h)
turn-IsAnswer i db r run (failed missing_payload) e g h = cc
turn-IsAnswer i db r run (failed recommendation_not_found) e g h = cc
turn-IsAnswer i db r run (failed run_not_found) e g h = cc
turn-IsAnswer i db r run (failed cycle_not_found) e g h = cc
turn-IsAnswer i db r run (failed multiple_results) e g h = cc

with_gate-IsAnswer :
    (i : LoopInput) (db : LoopDb) (r : ℕ) (rec : RunRecommendation) (run : RunRecord)
    (c : CycleConfig) (s : Option ExperimentSpec) (g : AtMostOne LoopDecision)
    → i.run_record_id ≡ some r
    → find_run r db ≡ some run
    → spec_of run.experiment_spec_id db.specs ≡ s
    → one_of (select (is_gate_of_run run.id) db.decisions) ≡ g
    → IsAnswer i db (
        with_gate i rec run c
          (load_or_create_budget run.cycle_id i.now db.budgets).0
          s
          g
          (prepare i run.cycle_id db))
unfolding with_gate
with_gate-IsAnswer i db r rec run c s several e found spec gates = (r, run, e, found, gates)
with_gate-IsAnswer i db r rec run c s (single d) e found spec gates =
    let b = (load_or_create_budget run.cycle_id i.now db.budgets).0 in
    let f = frame_of i rec run c b s d.iteration_number d.context_summary in
    let noted = log (gate_resumed d.iteration_number) (prepare i run.cycle_id db) in
    turn-IsAnswer i db r run (proceed f noted) e found (
      IsTurn-view run (view noted) (view_after i run db) (proceed f noted)
        (rw
          (
            spec,
            gates,
            counted_table-single i.now (card_id_of s) d
                (load_or_create_budget run.cycle_id i.now db.budgets),
          )
          refl)
        (proceed-IsTurn f noted))
with_gate-IsAnswer i db r rec run c s nothing e found spec gates =
    let b = (load_or_create_budget run.cycle_id i.now db.budgets).0 in
    let card = card_id_of s in
    let b' = counted i.now card b in
    let f = frame_of i rec run c b' s (next_iteration run.cycle_id db.decisions) none in
    let written = write_budget run.id card b' (prepare i run.cycle_id db) in
    turn-IsAnswer i db r run (limit_or_gate f written) e found (
      IsTurn-view run (view written) (view_after i run db) (limit_or_gate f written)
        (view-write_budget run.id i.now card b (prepare i run.cycle_id db) ∙ rw (spec, gates) refl)
        (limit_or_gate-IsTurn f written))

with_cycle-IsAnswer :
    (i : LoopInput) (db : LoopDb) (r : ℕ) (rec : RunRecommendation) (run : RunRecord)
    (c : Option CycleConfig)
    → i.run_record_id ≡ some r
    → find_run r db ≡ some run
    → find_cycle run.cycle_id db ≡ c
    → IsAnswer i db (with_cycle i rec run c db)
unfolding with_cycle
with_cycle-IsAnswer i db r rec run none e found missing = (r, run, e, found, missing)
with_cycle-IsAnswer i db r rec run (some c) e found _ =
    with_gate-IsAnswer i db r rec run c (spec_of run.experiment_spec_id db.specs)
      (one_of (select (is_gate_of_run run.id) db.decisions)) e found refl refl

with_rows-IsAnswer :
    (i : LoopInput) (db : LoopDb) (k r : ℕ) (rec : Option RunRecommendation)
    (run : Option RunRecord)
    → i.recommendation_id ≡ some k
    → i.run_record_id ≡ some r
    → find_rec k db ≡ rec
    → find_run r db ≡ run
    → IsAnswer i db (with_rows i rec run db)
unfolding with_rows
with_rows-IsAnswer i db k r none run d e no_rec found = (k, d, no_rec)
with_rows-IsAnswer i db k r (some rec) none d e _ no_run = (r, e, no_run)
with_rows-IsAnswer i db k r (some rec) (some run) d e _ found =
    with_cycle-IsAnswer i db r rec run (find_cycle run.cycle_id db) e found refl

with_ids-IsAnswer :
    (i : LoopInput) (db : LoopDb) (rec run : Option ℕ)
    → i.recommendation_id ≡ rec
    → i.run_record_id ≡ run
    → IsAnswer i db (with_ids i rec run db)
unfolding with_ids
with_ids-IsAnswer i db none run d e = inl d
with_ids-IsAnswer i db (some k) none d e = inr e
with_ids-IsAnswer i db (some k) (some r) d e =
    with_rows-IsAnswer i db k r (find_rec k db) (find_run r db) d e refl refl

-- Every call without a prepared run answers an error whose cause is in the payload or the tables,
-- or it commits: one more decision, for the run that the payload names, with the patch of the
-- cycle's status that belongs to it; one more job, unless it is a gate's decision; one more run
-- exactly for a rerun; the budget counts the run once if it has a hypothesis and no gate of it is
-- resumed; and the recommendations, specs, cycles, signals, frontiers and sessions are as before.
pub loop_decide-IsAnswer :
    (i : LoopInput) (db : LoopDb)
    → i.prepared_run_record_id ≡ none
    → IsAnswer i db (loop_decide i db)
unfolding loop_decide dispatch
loop_decide-IsAnswer i db not_prepared =
    rw not_prepared (with_ids-IsAnswer i db i.recommendation_id i.run_record_id refl refl)
