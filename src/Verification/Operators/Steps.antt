-- ===== src/Verification/Operators/Steps.antt =====
-- The operators of libs/verification/operators follow the diagram of the stages.
use mathlib.Core.Path.{subst}
use synthetos.Prelude.{
  ℕ, ◌⊎◌, inl, inr, ◌≡◌, refl, sym, ap, ◌≢◌, ==→eq, Bool, true, false, none, some, List, [], ◌∷◌,
  first_where, first_where-passes, if_cases, length, ◌≤◌, arith,
}
use synthetos.Execution.{
  RunStatus, ExecRun, ExecSpec, Verdict, inconclusive, VerificationReport, run_record, failed_run,
  ExecDb, ExecInput, load_run_record, find_spec, is_run, enqueue_next,
}
use synthetos.Execution.Stages.{
  Cause, judged_failed, judged_fine, check, explain, Leads, rejected, accepted, explained, IsRowOf,
  IsStep, goes_on, with_run_lem, with_spec_lem, same-IsRowOf, enqueue_next-HandsOver,
}
use synthetos.Verification.{verdict_of}
use synthetos.Verification.Operators.{
  is_failed, evidence_of, next_job, reported, judged, verification_check, reports_of, post_mortem,
  of_reports, verification_postmortem,
}

-- The run has failed, or what it left is judged so.
abbrev pub IsRejected : ExecRun → ExecSpec → Type 0
IsRejected run spec =
    (run.status ≡ RunStatus.failed) ⊎ (verdict_of (evidence_of run spec) ≡ Verdict.failed)

abbrev pub IsAccepted : ExecRun → ExecSpec → Type 0
IsAccepted run spec =
    (run.status ≢ RunStatus.failed) × (verdict_of (evidence_of run spec) ≢ Verdict.failed)

is_failed-eq : (s : RunStatus) → is_failed s ≡ true → s ≡ RunStatus.failed
is_failed-eq RunStatus.failed h = refl
is_failed-eq _ h = cc

is_failed-ne : (s : RunStatus) → is_failed s ≡ false → s ≢ RunStatus.failed
is_failed-ne s h e = cc (h, ap is_failed e)

module _ (why : Cause → Type 0) (i : ExecInput) (run : ExecRun) (db : ExecDb)
    (found : first_where (is_run run.id) db.runs ≡ some run) where
  reported-IsStep :
      (r : VerificationReport) (mid : ExecDb)
      → mid.runs ≡ db.runs
      → mid.queue ≡ db.queue
      → Leads why check run.status run.status (next_job r.verdict) none
      → IsStep why check i run db (reported i run r mid)
  unfolding enqueue_next
  reported-IsStep r mid runs queue leads =
      goes_on (subst (λ l. IsRowOf run run db.runs l) (sym runs) (same-IsRowOf run db.runs found))
        leads
        (enqueue_next-HandsOver i run db mid run.cycle_id (next_job r.verdict) (run_record run.id)
          refl refl queue)

  verdict-Leads :
      (v : Verdict)
      → (v ≡ Verdict.failed → why judged_failed)
      → (v ≢ Verdict.failed → why judged_fine)
      → Leads why check run.status run.status (next_job v) none
  verdict-Leads Verdict.passed bad good = accepted (good (λ e. cc))
  verdict-Leads inconclusive bad good = accepted (good (λ e. cc))
  verdict-Leads Verdict.failed bad good = rejected (bad refl)

  post_mortem-IsStep :
      (has_report : Bool) → IsStep why explain i run db (post_mortem i run has_report db)
  unfolding post_mortem enqueue_next
  post_mortem-IsStep has_report = goes_on (same-IsRowOf run db.runs found) explained (
      enqueue_next-HandsOver i run db db run.cycle_id "recommend" (failed_run run.id) refl refl
        refl)

  reports-IsStep :
      (rs : List VerificationReport)
      → length rs ≤ 1
      → IsStep why explain i run db (of_reports i run db rs)
  reports-IsStep [] h = post_mortem-IsStep false
  reports-IsStep (x ∷ []) h = post_mortem-IsStep true
  reports-IsStep (x ∷ (y ∷ ys)) h = absurd (omega arith)

module _ (why : Cause → Type 0) (i : ExecInput) (db : ExecDb) (r : ℕ) (run : ExecRun)
    (named : i.run_record_id ≡ some r) (found : load_run_record r db ≡ some run) where
  here : first_where (is_run run.id) db.runs ≡ some run
  unfolding load_run_record
  here =
      subst (λ k. first_where (is_run k) db.runs ≡ some run)
        (sym (==→eq run.id r (first_where-passes (is_run r) db.runs found))) found

  pub verification_check-IsStep :
      (spec : ExecSpec)
      → find_spec run.experiment_spec_id db ≡ some spec
      → (IsRejected run spec → why judged_failed)
      → (IsAccepted run spec → why judged_fine)
      → IsStep why check i run db (verification_check i db)
  unfolding verification_check judged
  verification_check-IsStep spec known bad good =
      with_run_lem (IsStep why check i run db) i db _ r run named found (
        with_spec_lem (IsStep why check i run db) run db _ spec known (
          if_cases (IsStep why check i run db) (is_failed run.status) _ _
            (λ broken.
              reported-IsStep why i run db here _ _ refl refl
                (rejected (bad (inl (is_failed-eq run.status broken)))))
            (λ fine. reported-IsStep why i run db here _ _ refl refl (
              verdict-Leads why i run db here (verdict_of (evidence_of run spec)) (λ e. bad (inr e))
                (λ ne. good (is_failed-ne run.status fine, ne))))))

  pub verification_postmortem-IsStep :
      length (reports_of run.id db) ≤ 1 → IsStep why explain i run db (verification_postmortem i db)
  unfolding verification_postmortem
  verification_postmortem-IsStep few =
      with_run_lem (IsStep why explain i run db) i db _ r run named found
        (reports-IsStep why i run db here (reports_of run.id db) few)
