-- ===== src/Autonomy/Loop/Effects.antt =====
-- What one turn of the operator `loop_decide` leaves behind, whichever way it ends: its decision, the
-- patch of the cycle's status, and the rows and jobs that it makes.
use synthetos.Prelude.{
  ℕ, ◌+◌, ◌≡◌, refl, sym, inl, inr, Bool, true, false, Option, none, some, List, [], ◌∷◌, ◌++◌,
  if◌then◌else◌, arith, length, length-append, length-update_where, update_where, Bool-cases,
}
use synthetos.Domain.{Signal, MetricFrontier, ExperimentSpec}
use synthetos.Cycle.{CycleStatus, running, reporting}
use synthetos.Jobs.{Queue, create_job, JobStatus, has_id}
use synthetos.Autonomy.{AutonomyPolicy}
use synthetos.Autonomy.Budget.{AutonomyBudget}
use synthetos.Autonomy.Gates.{GateName}
use synthetos.Autonomy.Lifecycle.{HypothesisCard, is_status, compiled}
use synthetos.Autonomy.Loop.{
  RunRecord, RunRecommendation, CycleConfig, Decision, stop_budget, stop_gate, stop_halt,
  stop_exhausted, LoopDecision, NextAction, rerun_spec, LoopDb, LoopPayload, no_hypothesis_session,
  Outcome, committed, failed, Turn, log, stop, pause_for_gate, continue_run, vary_parameters_of,
  vary_in, session_of, is_over_budget, hypothesis_selected, loop_completed, enqueue, report_cycle,
  persist_decision,
}
use synthetos.Autonomy.Loop.Pivot.{
  pivot, with_card, with_spec, run_or_pause, rerun_card, compile_in, next_card, latest_spec,
  profile_of, check_execution, deprioritize, drop_card, has_card_id,
}

-- The tables that a turn leaves as they are once the run is counted.
pub record Fixed : Type 0 where
  pub recommendations : List RunRecommendation
  pub specs : List ExperimentSpec
  pub cycles : List CycleConfig
  pub signals : List (ℕ × Signal)
  pub frontiers : List MetricFrontier
  pub sessions : List (ℕ × ℕ)
  pub budgets : List AutonomyBudget

-- These tables, and those in which a turn leaves rows.
pub record View : Type 0 where
  pub decisions : List LoopDecision
  pub runs : List RunRecord
  pub queue : Queue LoopPayload
  pub fixed : Fixed

abbrev pub fixed_of : LoopDb → Fixed
fixed_of db = record {
  recommendations = db.recommendations;
  specs = db.specs;
  cycles = db.cycles;
  signals = db.signals;
  frontiers = db.frontiers;
  sessions = db.sessions;
  budgets = db.budgets;
}

abbrev pub view : LoopDb → View
view db = record { decisions = db.decisions; runs = db.runs; queue = db.queue; fixed = fixed_of db }

-- The status to which a decision moves the cycle: a stop goes to the report, a gate keeps it.
abbrev pub patch_of : Decision → Option CycleStatus
patch_of stop_gate = none
patch_of stop_budget = some reporting
patch_of stop_halt = some reporting
patch_of stop_exhausted = some reporting
patch_of _ = some running

-- A gate makes no job, anything else makes one.
abbrev pub new_jobs : Decision → ℕ
new_jobs stop_gate = 0
new_jobs _ = 1

abbrev pub new_runs : Option NextAction → ℕ
new_runs (some rerun_spec) = 1
new_runs _ = 0

-- The effect of a turn for a run on the tables: one decision for the run, with the patch, the number
-- of jobs and the number of runs that belong to it, and the other tables as given; the only error is that a variation finds no session.
abbrev pub IsTurn : RunRecord → View → Outcome → Type 0
IsTurn run v (failed e) =
    (e ≡ no_hypothesis_session) × (session_of run.cycle_id v.fixed.sessions ≡ none)
IsTurn run v (committed db patch) =
    (d : LoopDecision) × (db.decisions ≡ v.decisions ++ d ∷ [])
    × (d.run_record_id ≡ run.id)
    × (patch ≡ patch_of d.decision)
    × (length db.queue.jobs ≡ length v.queue.jobs + new_jobs d.decision)
    × (length db.runs ≡ length v.runs + new_runs d.next_action)
    × (fixed_of db ≡ v.fixed)

abbrev IsStop : Decision → Type 0
IsStop d = (patch_of d ≡ some reporting) × (new_jobs d ≡ 1)

pub view-log-if :
    (c : Bool) (db : LoopDb) (db' : LoopDb)
    → view db' ≡ view db
    → view (if c then db' else db) ≡ view db
view-log-if true db db' e = e
view-log-if false db db' e = refl

length-snoc : {A : Type 0} (xs : List A) (x : A) → length (xs ++ x ∷ []) ≡ length xs + 1
length-snoc xs x = length-append xs (x ∷ [])

length-same : {A : Type 0} (xs : List A) → length xs ≡ length xs + 0
length-same xs = omega arith

-- The row, the run's report job and the patch of a stop.
stop_row-IsTurn :
    (t : Turn) (d : Decision) (db : LoopDb)
    → patch_of d ≡ some reporting
    → new_jobs d ≡ 1
    → IsTurn t.run (view db) (
        committed
          (log (loop_completed t.iteration d) (
            enqueue t "loop_report"
              (report_cycle t.run.cycle_id)
              5
              (persist_decision t d none none none db)))
          (some reporting))
unfolding create_job
stop_row-IsTurn t d db patch jobs = (
  _,
  refl,
  refl,
  sym patch,
  omega (arith, length-append db.queue.jobs (_ ∷ []), jobs),
  length-same db.runs,
  refl,
)

pub stop-IsTurn :
    (t : Turn) (d : Decision) (db : LoopDb) → IsStop d → IsTurn t.run (view db) (stop t d db)
unfolding stop create_job
stop-IsTurn t d db (patch, jobs) = elim (Bool-cases (is_over_budget d)) [
  | inl e ↦ rw e (stop_row-IsTurn t d db patch jobs)
  | inr e ↦ rw e (stop_row-IsTurn t d db patch jobs)
]

pub pause_for_gate-IsTurn :
    (t : Turn) (g : GateName) (db : LoopDb) → IsTurn t.run (view db) (pause_for_gate t g db)
unfolding pause_for_gate
pause_for_gate-IsTurn t g db = (
  _,
  refl,
  refl,
  refl,
  omega (
    arith,
    length-update_where (has_id t.job_id) (λ j. record j { status = JobStatus.paused })
        db.queue.jobs,
  ),
  length-same db.runs,
  refl,
)

pub continue_run-IsTurn :
    (t : Turn) (s : ExperimentSpec) (db : LoopDb) → IsTurn t.run (view db) (continue_run t s db)
unfolding continue_run create_job
continue_run-IsTurn t s db =
    (_, refl, refl, refl, length-snoc db.queue.jobs _, length-snoc db.runs _, refl)

vary_in-IsTurn :
    (t : Turn) (session : Option ℕ) (db : LoopDb)
    → session_of t.run.cycle_id db.sessions ≡ session
    → IsTurn t.run (view db) (vary_in t session db)
unfolding create_job
vary_in-IsTurn t none db e = (refl, e)
vary_in-IsTurn t (some s) db e =
    (_, refl, refl, refl, length-snoc db.queue.jobs _, length-same db.runs, refl)

pub vary_parameters_of-IsTurn :
    (t : Turn) (db : LoopDb) → IsTurn t.run (view db) (vary_parameters_of t db)
unfolding vary_parameters_of
vary_parameters_of-IsTurn t db = vary_in-IsTurn t (session_of t.run.cycle_id db.sessions) db refl

compile_in-IsTurn :
    (t : Turn) (next : HypothesisCard) (session : Option ℕ) (db : LoopDb)
    → IsTurn t.run (view db) (compile_in t next session db)
unfolding create_job
compile_in-IsTurn t next none db = stop-IsTurn t stop_exhausted db (refl, refl)
compile_in-IsTurn t next (some s) db =
    (_, refl, refl, refl, length-snoc db.queue.jobs _, length-same db.runs, refl)

run_or_pause-IsTurn :
    (t : Turn) (next : HypothesisCard) (s : ExperimentSpec) (g : Option GateName) (db : LoopDb)
    → IsTurn t.run (view db) (run_or_pause t next s g db)
unfolding run_or_pause rerun_card create_job
run_or_pause-IsTurn t next s none db =
    (_, refl, refl, refl, length-snoc db.queue.jobs _, length-snoc db.runs _, refl)
run_or_pause-IsTurn t next s (some g) db = pause_for_gate-IsTurn t g db

with_spec-IsTurn :
    (t : Turn) (policy : AutonomyPolicy) (current : Option ExperimentSpec) (next : HypothesisCard)
    (s : Option ExperimentSpec) (db : LoopDb)
    → IsTurn t.run (view db) (with_spec t policy current next s db)
unfolding with_spec
with_spec-IsTurn t policy current next none db =
    compile_in-IsTurn t next (session_of t.run.cycle_id db.sessions) db
with_spec-IsTurn t policy current next (some s) db =
    run_or_pause-IsTurn t next s (check_execution policy (profile_of current) s) db

with_card-IsTurn :
    (t : Turn) (policy : AutonomyPolicy) (current : Option ExperimentSpec)
    (c : Option HypothesisCard) (db : LoopDb)
    → IsTurn t.run (view db) (with_card t policy current c db)
unfolding with_card
with_card-IsTurn t policy current none db = stop-IsTurn t stop_exhausted db (refl, refl)
with_card-IsTurn t policy current (some next) db =
    with_spec-IsTurn t policy current next
      (if is_status next.status compiled then latest_spec next.id db.specs else none)
      (log (hypothesis_selected next.id) db)

view-deprioritize : (t : Turn) (db : LoopDb) → view (deprioritize t db) ≡ view db
view-deprioritize t db =
    elim t.hypothesis_card_id
      as (λ c.
        view (elim c [
          | none ↦ db
          | some i ↦ record db { cards = update_where (has_card_id i) (drop_card t.now) db.cards }
        ])
        ≡ view db) [ none ↦ refl | some i ↦ refl ]

-- The same for a table set with the same view.
pub IsTurn-view :
    (run : RunRecord) (v w : View) (o : Outcome) → v ≡ w → IsTurn run v o → IsTurn run w o
IsTurn-view run v w o e h = rw (sym e) h

pub pivot-IsTurn :
    (t : Turn) (policy : AutonomyPolicy) (current : Option ExperimentSpec) (db : LoopDb)
    → IsTurn t.run (view db) (pivot t policy current db)
unfolding pivot
pivot-IsTurn t policy current db =
    let dropped = deprioritize t db in
    IsTurn-view t.run (view dropped) (view db) (pivot t policy current db) (view-deprioritize t db)
      (with_card-IsTurn t policy current (next_card t.run.cycle_id dropped.cards) dropped)
