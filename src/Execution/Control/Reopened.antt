-- ===== src/Execution/Control/Reopened.antt =====
-- A retry of a run whose cycle is closed (libs/core/services/experiment_service.py).
use synthetos.Prelude.{
  ℕ, ◌==◌, ◌≡◌, refl, ap, ◌∙◌, Bool, true, ◌&&◌, not, Option, some, first_where,
  first_where-update_other, first_where-passes, and_both,
}
use synthetos.Cycle.{
  CycleStatus, closed, ResearchCycle, has_id, same_status, err, invalid_transition,
  validate_transition,
}
use synthetos.Execution.{RunStatus, failed}
use synthetos.Execution.Control.{
  ControlRun, ControlDb, replied, Fresh, Action, retry, is_run, act, allows, with_run, control_run,
}

allowed :
    (g : Fresh) (action : Action) (db : ControlDb) (o : Option ControlRun) (run : ControlRun)
    → o ≡ some run
    → allows run.status action ≡ true
    → with_run g action db o ≡ act g run db action
allowed g action db o run found fine = ap (with_run g action db) found ∙ rw fine refl

failed-allows-retry : (s : RunStatus) → s ≡ failed → allows s retry ≡ true
unfolding allows
failed-allows-retry s e = ap (λ x. allows x retry) e

-- The retry of a failed run sets its closed cycle running, although the state machine has no such
-- transition.
pub retry-reopens :
    (f : Fresh) (id : ℕ) (db : ControlDb) (run : ControlRun) (c : ResearchCycle)
    → first_where (is_run id) db.runs ≡ some run
    → run.status ≡ failed
    → first_where (has_id run.cycle_id) db.cycles ≡ some c
    → c.status ≡ closed
    → (r : ControlRun) × (t : ControlDb) × (c' : ResearchCycle) × (control_run f id retry db
        ≡ replied r t)
      × (first_where (has_id run.cycle_id) t.cycles ≡ some c')
      × (c'.status ≡ CycleStatus.running)
      × (validate_transition closed CycleStatus.running
          ≡ err (invalid_transition closed CycleStatus.running))
unfolding control_run validate_transition same_status
retry-reopens f id db run c found bad cycle over =
    let test : ResearchCycle → Bool =
      λ x. x.id == run.cycle_id && not (same_status x.status CycleStatus.running) in
    let passes : test c ≡ true =
      and_both _ _ (first_where-passes (has_id run.cycle_id) db.cycles cycle)
        (ap (λ s. not (same_status s CycleStatus.running)) over) in
    let restarted : ResearchCycle → ResearchCycle =
      λ x. record x { status = CycleStatus.running; updated_at = f.now } in
    (
      _,
      _,
      restarted c,
      allowed f retry db (first_where (is_run id) db.runs) run found
          (failed-allows-retry run.status bad),
      first_where-update_other (has_id run.cycle_id) test restarted (λ x. refl) db.cycles c cycle
          ∙ rw passes refl,
      refl,
      refl,
    )
