-- ===== src/Autonomy/Loop/Resume.antt =====
-- The resumption of a gate in the operator `loop_decide`, and the check of the network gate that
-- follows it.
use synthetos.Prelude.{
  ◌≡◌, refl, ap, ◌∙◌, Bool, true, false, ◌&&◌, Option, none, some, List, [], ◌∷◌, ◌++◌,
  if◌then◌else◌, arith, Bool-cases, inl, inr, select, select-snoc-hit, ==_refl,
}
use synthetos.Domain.{RecommendationType, continue_current, HardwareProfile, ExperimentSpec}
use synthetos.Autonomy.{AutonomyPolicy}
use synthetos.Autonomy.Budget.{load_or_create_budget}
use synthetos.Autonomy.Gates.{
  is_hardware_escalation, evaluate_gates, detect_network_access, preview_next_spec,
  before_network_execution, GateName, pause_at, pass,
}
use synthetos.Autonomy.Repetition.{detect_repetition}
use synthetos.Autonomy.Loop.{
  RunRecord, stop_gate, LoopDecision, LoopDb, multiple_results, Outcome, committed, failed,
  pause_for_gate, log, context_summarized, gate_resumed, Turn, decision_row,
}
use synthetos.Autonomy.Loop.Pivot.{check_execution, execution_gate}
use synthetos.Autonomy.Loop.Decide.{
  Frame, spec_of, act, act_continue, update_card, proceed, proceed_with, summarized, is_summary_due,
  card_of,
}
use synthetos.Autonomy.Loop.Operator.{
  single, several, one_of, is_gate_of_run, LoopInput, frame_of, with_gate, prepare, loop_decide,
}
use synthetos.Autonomy.Loop.Effects.{fixed_of, view}
use synthetos.Autonomy.Loop.Steps.{view-update_card}
use synthetos.Autonomy.Loop.Rows.{Rows, IsFound, loop_decide-IsFound}

is_hardware_escalation-same : (p : Option HardwareProfile) → is_hardware_escalation p p ≡ false
unfolding is_hardware_escalation
is_hardware_escalation-same none = refl
is_hardware_escalation-same (some p) = ground arith

and_false : (b : Bool) → (b && false) ≡ false
and_false true = refl
and_false false = refl

paused_or_none :
    (c : Bool)
    → (let r = if c then pause_at before_network_execution else pass in
        if r.should_pause then execution_gate r.gate_name else none)
      ≡ (if c then some before_network_execution else none)
paused_or_none true = refl
paused_or_none false = refl

-- The check before a rerun, whose profile is the current one, can only find the network gate.
check_execution-same :
    (policy : AutonomyPolicy) (s : ExperimentSpec)
    → policy.checkpoint_gates.after_every_run ≡ false
    → policy.checkpoint_gates.after_every_n_runs ≡ none
    → check_execution policy s.hardware_profile s ≡ (
        if policy.checkpoint_gates.before_network_execution
          && detect_network_access s.code_plan s.build_recipe
        then some before_network_execution
        else none)
unfolding check_execution evaluate_gates preview_next_spec
check_execution-same policy s every_run every_n =
    rw
      (
        every_run,
        every_n,
        is_hardware_escalation-same s.hardware_profile,
        and_false policy.checkpoint_gates.before_hardware_escalation,
        and_false policy.checkpoint_gates.before_result_promotion,
      )
      (paused_or_none (
        policy.checkpoint_gates.before_network_execution
        && detect_network_access s.code_plan s.build_recipe))

-- A pause of the run at a gate: one more decision for a gate of it.
abbrev pub IsPaused : RunRecord → LoopDb → Outcome → Type 0
IsPaused run db o =
    (db' : LoopDb) × (d : LoopDecision) × (o ≡ committed db' none)
    × (db'.decisions ≡ db.decisions ++ d ∷ [])
    × (is_gate_of_run run.id d ≡ true)
    × (db'.runs ≡ db.runs)
    × (fixed_of db' ≡ fixed_of db)

-- A policy whose only gate on the way to a rerun is the one before network access.
abbrev pub IsNetworkGated : AutonomyPolicy → Type 0
IsNetworkGated policy =
    (policy.checkpoint_gates.after_every_run ≡ false)
    × (policy.checkpoint_gates.after_every_n_runs ≡ none)
    × (policy.checkpoint_gates.before_network_execution ≡ true)

-- A spec that needs network access and is no repetition.
abbrev pub IsNetworkSpec : LoopDb → RunRecord → ExperimentSpec → Type 0
IsNetworkSpec db run s =
    (detect_network_access s.code_plan s.build_recipe ≡ true)
    × ((detect_repetition db.specs run.cycle_id s).is_duplicate ≡ false)

gate_row :
    (t : Turn) (g : GateName)
    → is_gate_of_run t.run.id (decision_row t stop_gate none none (some g)) ≡ true
gate_row t g = rw (==_refl t.run.id) refl

pause_for_gate-IsPaused :
    (t : Turn) (g : GateName) (db db0 : LoopDb)
    → view db ≡ view db0
    → IsPaused t.run db0 (pause_for_gate t g db)
unfolding pause_for_gate
pause_for_gate-IsPaused t g db db0 e =
    let d = decision_row t stop_gate none none (some g) in
    (
      _,
      d,
      refl,
      ap (λ v. v.decisions ++ d ∷ []) e,
      gate_row t g,
      ap (λ v. v.runs) e,
      ap (λ v. v.fixed) e,
    )

-- With such a policy and spec, the action on `continue_current` is a pause.
act_continue-IsPaused :
    (f : Frame) (s : ExperimentSpec) (db db0 : LoopDb)
    → view db ≡ view db0
    → IsNetworkGated f.policy
    → IsNetworkSpec db f.turn.run s
    → IsPaused f.turn.run db0 (act_continue f s db)
unfolding act_continue
act_continue-IsPaused f s db db0 e (every_run, every_n, gated) (network, fresh) =
    rw (fresh, check_execution-same f.policy s every_run every_n, gated, network)
      (pause_for_gate-IsPaused f.turn before_network_execution db db0 e)

act-IsPaused :
    (f : Frame) (r : RecommendationType) (spec : Option ExperimentSpec) (s : ExperimentSpec)
    (db db0 : LoopDb)
    → view db ≡ view db0
    → spec ≡ some s
    → r ≡ continue_current
    → IsNetworkGated f.policy
    → IsNetworkSpec db0 f.turn.run s
    → IsPaused f.turn.run db0 (act f r spec db)
unfolding act
act-IsPaused f r spec s db db0 e has_spec continues gated (network, fresh) =
    rw (continues, has_spec)
      (act_continue-IsPaused f s db db0 e gated (network, rw (ap (λ v. v.fixed.specs) e) fresh))

proceed_with-IsPaused :
    (f : Frame) (s : ExperimentSpec) (db db0 : LoopDb)
    → view db ≡ view db0
    → f.spec ≡ some s
    → f.turn.rec.recommendation_type ≡ continue_current
    → IsNetworkGated f.policy
    → IsNetworkSpec db0 f.turn.run s
    → IsPaused f.turn.run db0 (proceed_with f db)
unfolding proceed_with act
proceed_with-IsPaused f s db db0 e has_spec continues gated network =
    let card = card_of f.turn.hypothesis_card_id db in
    act-IsPaused f f.turn.rec.recommendation_type f.spec s (update_card f card db) db0
      (view-update_card f card db ∙ e) has_spec continues gated network

proceed-IsPaused :
    (f : Frame) (s : ExperimentSpec) (db db0 : LoopDb)
    → view db ≡ view db0
    → f.spec ≡ some s
    → f.turn.rec.recommendation_type ≡ continue_current
    → IsNetworkGated f.policy
    → IsNetworkSpec db0 f.turn.run s
    → IsPaused f.turn.run db0 (proceed f db)
unfolding proceed
proceed-IsPaused f s db db0 e has_spec continues gated network =
    elim (Bool-cases (is_summary_due f)) [
      | inl due ↦ rw due (
          proceed_with-IsPaused (summarized f) s (log (context_summarized f.turn.iteration) db) db0
            e has_spec continues gated network)
      | inr not_due ↦
          rw not_due (proceed_with-IsPaused f s db db0 e has_spec continues gated network)
    ]

one_of-snoc :
    {A : Type 0} (xs : List A) (x y : A) → one_of xs ≡ single x → one_of (xs ++ y ∷ []) ≡ several
one_of-snoc [] x y e = cc
one_of-snoc (z ∷ []) x y e = refl
one_of-snoc (z ∷ (w ∷ xs)) x y e = refl

-- The rows of a call are still found when the tables of rows are the same.
IsFound-same :
    (i : LoopInput) (db db' : LoopDb) (rows : Rows)
    → db'.runs ≡ db.runs
    → fixed_of db' ≡ fixed_of db
    → IsFound i db rows
    → IsFound i db' rows
IsFound-same i db db' rows same_runs same
      (n, (k, rec_id, found_rec), (r, run_id, found_run), found_cycle) =
    (
      n,
      (k, rec_id, rw (ap (λ v. v.recommendations) same) found_rec),
      (r, run_id, rw same_runs found_run),
      rw (ap (λ v. v.cycles) same) found_cycle,
    )

-- A gate of the run that was resumed, and the pause that its network access brings again.
resumed-IsPaused :
    (i : LoopInput) (db : LoopDb) (rows : Rows) (gate : LoopDecision) (s : ExperimentSpec)
    → IsFound i db rows
    → one_of (select (is_gate_of_run rows.run.id) db.decisions) ≡ single gate
    → spec_of rows.run.experiment_spec_id db.specs ≡ some s
    → rows.rec.recommendation_type ≡ continue_current
    → IsNetworkGated rows.cycle.policy
    → IsNetworkSpec db rows.run s
    → IsPaused rows.run (prepare i rows.run.cycle_id db) (loop_decide i db)
unfolding with_gate
resumed-IsPaused i db rows gate s found resumed has_spec continues gated network =
    let b = (load_or_create_budget rows.run.cycle_id i.now db.budgets).0 in
    let f =
      frame_of i rows.rec rows.run rows.cycle b (spec_of rows.run.experiment_spec_id db.specs)
        gate.iteration_number gate.context_summary in
    let prepared = prepare i rows.run.cycle_id db in
    rw (loop_decide-IsFound i db rows found, resumed)
      (proceed-IsPaused f s (log (gate_resumed gate.iteration_number) prepared) prepared refl
        has_spec continues gated network)

second_gate-fails :
    (i : LoopInput) (db : LoopDb) (rows : Rows)
    → IsFound i db rows
    → one_of (select (is_gate_of_run rows.run.id) db.decisions) ≡ several
    → loop_decide i db ≡ failed multiple_results
unfolding with_gate
second_gate-fails i db rows found gates = rw (loop_decide-IsFound i db rows found, gates) refl

-- A resumed run whose recommendation is to continue with a spec that needs network access and is no
-- repetition, under a policy with the gate before network access and neither of the gates by the
-- number of runs, is paused at a gate again, and the same call on the tables that this leaves fails.
pub resumed_network_gate-fails :
    (i : LoopInput) (db : LoopDb) (rows : Rows) (gate : LoopDecision) (s : ExperimentSpec)
    → IsFound i db rows
    → one_of (select (is_gate_of_run rows.run.id) db.decisions) ≡ single gate
    → spec_of rows.run.experiment_spec_id db.specs ≡ some s
    → rows.rec.recommendation_type ≡ continue_current
    → IsNetworkGated rows.cycle.policy
    → IsNetworkSpec db rows.run s
    → (db' : LoopDb) × (loop_decide i db ≡ committed db' none)
      × (loop_decide i db' ≡ failed multiple_results)
resumed_network_gate-fails i db rows gate s found resumed has_spec continues gated network =
    let (db', d, paused, more, is_gate, same_runs, same) =
      resumed-IsPaused i db rows gate s found resumed has_spec continues gated network in
    let test = is_gate_of_run rows.run.id in
    (
      db',
      paused,
      second_gate-fails i db' rows
          (IsFound-same i (prepare i rows.run.cycle_id db) db' rows same_runs same found)
          (rw (more, select-snoc-hit test db.decisions d is_gate)
            (one_of-snoc (select test db.decisions) gate d resumed)),
    )
