-- ===== src/Verification/Operators/Repeated.antt =====
-- A check that is executed again, as after a reclaim of its job, and the postmortem that follows
-- (libs/verification/operators).
use synthetos.Prelude.{
  ℕ, ◌==◌, ==_refl, ◌≡◌, refl, ap, ◌∙◌, none, some, [], ◌∷◌, ◌++◌, select, first_where,
  select-snoc-hit, if_cases,
}
use synthetos.Execution.{
  ExecRun, ExecSpec, VerificationReport, check_started, ExecDb, Answer, succeeded, raised,
  ExecInput, is_run, load_run_record, find_spec, log, enqueue_next,
}
use synthetos.Execution.Stages.{with_run_lem, with_spec_lem}
use synthetos.Verification.Operators.{
  is_failed, reported, judged, verification_check, reports_of, of_reports, verification_postmortem,
}

-- The answer of a check: the runs and specs as they were, and one report more, of the run.
pub record IsReport (run : ExecRun) (db : ExecDb) (a : Answer) : Type 0 where
  pub after : ExecDb
  pub answer : a ≡ succeeded after none
  pub same_runs : after.runs ≡ db.runs
  pub same_specs : after.specs ≡ db.specs
  pub report : VerificationReport
  pub of_run : report.run_record_id ≡ run.id
  pub added : after.reports ≡ db.reports ++ report ∷ []

module _ (i : ExecInput) (db : ExecDb) (r : ℕ) (run : ExecRun) (spec : ExecSpec)
    (named : i.run_record_id ≡ some r) (found : load_run_record r db ≡ some run)
    (known : find_spec run.experiment_spec_id db ≡ some spec) where
  reported-IsReport :
      (report : VerificationReport)
      → report.run_record_id ≡ run.id
      → IsReport run db (reported i run report (log (check_started run.id) db))
  unfolding enqueue_next
  reported-IsReport report own = record {
    after = _;
    answer = refl;
    same_runs = refl;
    same_specs = refl;
    report = report;
    of_run = own;
    added = refl;
  }

  pub verification_check-IsReport : IsReport run db (verification_check i db)
  unfolding verification_check judged
  verification_check-IsReport = with_run_lem (IsReport run db) i db _ r run named found (
      with_spec_lem (IsReport run db) run db _ spec known (
        if_cases (IsReport run db) (is_failed run.status) _ _ (λ _. reported-IsReport _ refl)
          (λ _. reported-IsReport _ refl)))

reports_of-grow :
    (run : ExecRun) (db after : ExecDb) (report : VerificationReport)
    → report.run_record_id ≡ run.id
    → after.reports ≡ db.reports ++ report ∷ []
    → reports_of run.id after ≡ reports_of run.id db ++ report ∷ []
reports_of-grow run db after report own added =
    ap (select (λ (x : VerificationReport). x.run_record_id == run.id)) added
    ∙ select-snoc-hit (λ (x : VerificationReport). x.run_record_id == run.id) db.reports report
        (ap (λ n. n == run.id) own ∙ ==_refl run.id)

-- A check that is executed twice for a run succeeds twice, and the run's postmortem then raises.
pub checked_twice-raises :
    (i : ExecInput) (db : ExecDb) (r : ℕ) (run : ExecRun) (spec : ExecSpec)
    → i.run_record_id ≡ some r
    → load_run_record r db ≡ some run
    → find_spec run.experiment_spec_id db ≡ some spec
    → reports_of run.id db ≡ []
    → (db1 : ExecDb) × (db2 : ExecDb) × (verification_check i db ≡ succeeded db1 none)
      × (verification_check i db1 ≡ succeeded db2 none)
      × (verification_postmortem i db2 ≡ raised)
unfolding verification_postmortem load_run_record
checked_twice-raises i db r run spec named found known fresh =
    let one = verification_check-IsReport i db r run spec named found known in
    let found1 = ap (first_where (is_run r)) one.same_runs ∙ found in
    let known1 = ap (first_where (λ s. s.id == run.experiment_spec_id)) one.same_specs ∙ known in
    let two = verification_check-IsReport i one.after r run spec named found1 known1 in
    let found2 = ap (first_where (is_run r)) two.same_runs ∙ found1 in
    let rows =
      reports_of-grow run one.after two.after two.report two.of_run two.added
      ∙ ap (λ rs. rs ++ two.report ∷ [])
          (reports_of-grow run db one.after one.report one.of_run one.added
            ∙ ap (λ rs. rs ++ one.report ∷ []) fresh) in
    (
      one.after,
      two.after,
      one.answer,
      two.answer,
      with_run_lem (λ a. a ≡ raised) i two.after _ r run named found2
          (ap (of_reports i run two.after) rows),
    )
