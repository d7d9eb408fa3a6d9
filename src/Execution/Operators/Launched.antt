-- ===== src/Execution/Operators/Launched.antt =====
-- The run and the capture of libs/execution/operators follow the diagram of the stages.
use synthetos.Prelude.{◌≡◌, refl, Option, none, some, [], if_cases, not, first_where, ◌≢◌}
use synthetos.Prelude.Int.{pos}
use synthetos.Remediation.Strategies.{runtime}
use synthetos.Execution.Metrics.{ParsedMetrics, is_ok}
use synthetos.Execution.{
  ExecRun, exited_with, container_failed, run_failed, capturing, paused, cancelled, run_record,
  ExecDb, ExecInput, is_run,
}
use synthetos.Execution.Stages.{
  Cause, container_raised, user_paused, user_cancelled, exit_zero, exit_other, metrics_good,
  metrics_bad, launch, capture, no_container, exited, crashed, measured, unmeasured, held,
  called_off, IsStep, goes_on, rests, written-IsRowOf, enqueue_next-HandsOver,
}
use synthetos.Execution.Operators.Causes.{
  HasWorkspace, HasRaised, HasEnded, code_zero, code_other, errors_none, errors_some,
}
use synthetos.Execution.Operators.{
  is_code, code_of, classify_failure, exit_of, of_outcome, failed_run, RunWorld, RunOutcome,
  Terminal, at_end, at_pause, at_cancel, ended, captured,
}
use synthetos.Execution.Operators.Prepared.{IsUnderway, give_up-IsStep, verified}

module _ (why : Cause → Type 0) (i : ExecInput) (run : ExecRun) (db : ExecDb)
    (found : first_where (is_run run.id) db.runs ≡ some run) where
  -- The end of the container, with what its cause is.
  module _ (world : RunWorld)
      (zero_code : HasEnded world run at_end (λ c. c ≡ pos 0) → why exit_zero)
      (other_code : HasEnded world run at_end (λ c. c ≢ pos 0) → why exit_other)
      (at_a_pause : HasEnded world run at_pause (λ c. Unit) → why user_paused)
      (at_a_cancel : HasEnded world run at_cancel (λ c. Unit) → why user_cancelled)
      (raises : HasRaised world run → why container_raised) (there : HasWorkspace world run) where
    exit_of-IsStep :
        (run' : ExecRun) (o : RunOutcome) (mid : ExecDb)
        → world.outcome ≡ some o
        → o.terminal_state ≡ at_end
        → IsUnderway why i run db found run' mid
        → IsStep why launch i run db (exit_of world i run' o.exit_code mid)
    unfolding exit_of
    exit_of-IsStep run' o mid e end h =
        if_cases (IsStep why launch i run db) (not (is_code 0 o.exit_code)) _ _
          (λ nonzero.
            let class = classify_failure o.exit_code world.tail in
            let row = failed_run run' class (exited_with o.exit_code) i.now in
            verified why i run db found launch run' row mid (run_failed run'.id class) h h.0 h.1
              (crashed (other_code (there, (o, e, end, code_other o.exit_code nonzero)))))
          (λ is_zero.
            goes_on
              (written-IsRowOf run (record run' { status = capturing }) db.runs mid.runs found h.2
                h.0)
              (exited (zero_code (there, (o, e, end, code_zero o.exit_code is_zero))))
              (enqueue_next-HandsOver i run db mid run'.cycle_id "execution_capture"
                (run_record run'.id) h.1 h.0 h.3))

    ended-IsStep :
        (run' : ExecRun) (o : RunOutcome) (mid : ExecDb) (end : Terminal)
        → world.outcome ≡ some o
        → o.terminal_state ≡ end
        → IsUnderway why i run db found run' mid
        → IsStep why launch i run db (ended world i run' o.exit_code mid end)
    unfolding ended
    ended-IsStep run' o mid at_pause e end h =
        rests (written-IsRowOf run (record run' { status = paused }) db.runs mid.runs found h.2 h.0)
          (held (at_a_pause (there, (o, e, end, tt)))) h.3
    ended-IsStep run' o mid at_cancel e end h =
        rests
          (written-IsRowOf run (record run' { status = cancelled; completed_at = some i.now })
            db.runs mid.runs found h.2 h.0)
          (called_off (at_a_cancel (there, (o, e, end, tt)))) h.3
    ended-IsStep run' o mid at_end e end h = exit_of-IsStep run' o mid e end h

    pub outcome-IsStep :
        (run' : ExecRun) (mid : ExecDb) (o : Option RunOutcome)
        → world.outcome ≡ o
        → IsUnderway why i run db found run' mid
        → IsStep why launch i run db (of_outcome world i run' mid o)
    unfolding of_outcome
    outcome-IsStep run' mid none e h =
        give_up-IsStep why i run db found launch run' runtime container_failed mid h
          (no_container (raises (there, e)))
    outcome-IsStep run' mid (some o) e h =
        ended-IsStep
          (record run' { container_id = some o.container_id; exit_code = code_of o.exit_code }) o
          mid o.terminal_state e refl h

  pub captured-IsStep :
      (run' : ExecRun) (p : ParsedMetrics)
      → (p.errors ≡ [] → why metrics_good)
      → (p.errors ≢ [] → why metrics_bad)
      → IsUnderway why i run db found run' db
      → IsStep why capture i run db (captured i run' p db)
  unfolding captured
  captured-IsStep run' p good bad h =
      if_cases (IsStep why capture i run db) (is_ok p) _ _
        (λ fine.
          verified why i run db found capture run' _ db _ h h.0 h.1
            (measured (good (errors_none p fine))))
        (λ wrong.
          verified why i run db found capture run' _ db _ h h.0 h.1
            (unmeasured (bad (errors_some p wrong))))
