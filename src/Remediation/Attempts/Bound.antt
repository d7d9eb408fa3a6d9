-- ===== src/Remediation/Attempts/Bound.antt =====
-- What one call of `auto_remediate` does, and how often a lineage is retried.
use Prim.Native.String.{String}
use synthetos.Prelude.{
  ℕ, ◌+◌, ◌==◌, leb, ◌≡◌, refl, ◌≢◌, ◌<◌, ◌⊎◌, inl, inr, true, not, Option, none, some, List, [],
  ◌∷◌, ◌++◌, arith, Bool-cases, length, length-append, any_of,
}
use synthetos.Cycle.{CycleStatus, running}
use synthetos.Jobs.{create_job}
use synthetos.Remediation.Strategies.{
  Strategy, skip, debug_broad, Tier, focused, broad, Overrides, patched_files, StrategyResult,
  is_broad, select_strategy,
}
use synthetos.Remediation.Attempts.{
  Run, ActionOutcome, exhausted, skipped, retry_created, RemediationAction, RemedyDb, RemedyOutcome,
  committed, failed, raised, RemedyInput, default_max_attempts, find_run, load_lineage_actions, log,
  action_row, finish, retry_run, retry, debug, apply_strategy, failure_of, remediate,
  auto_remediate, remediation_exhausted, remediation_skipped, strategy_escalated,
  remediation_started,
}

-- The end of the remediation: no run, a postmortem and the cycle's status kept.
abbrev pub IsFinish : RemedyDb → RemediationAction → RemedyDb → Option CycleStatus → Type 0
IsFinish db a db' patch = (patch ≡ none) × (db'.runs ≡ db.runs) × (a.outcome ≢ retry_created)

-- A retry: one more run, whose parent is the failed one.
abbrev pub IsRetry :
    RemedyInput → Run → ℕ → RemedyDb → RemediationAction → RemedyDb → Option CycleStatus → Type 0
IsRetry i run attempts db a db' patch =
    (patch ≡ some running)
    × (a.outcome ≡ retry_created)
    × (attempts < default_max_attempts)
    × ((o : Overrides) × (db'.runs ≡ db.runs ++ retry_run i run o ∷ []))

-- One more action for the run, numbered by the attempts before it, and one more job.
abbrev pub IsRemedy : RemedyInput → Run → ℕ → RemedyDb → RemedyOutcome → Type 0
IsRemedy i run attempts db failed = ⊥
IsRemedy i run attempts db raised = ⊥
IsRemedy i run attempts db (committed db' patch) =
    (a : RemediationAction) × (db'.actions ≡ db.actions ++ a ∷ [])
    × (a.run_record_id ≡ run.id)
    × (a.attempt_number ≡ attempts + 1)
    × (length db'.queue.jobs ≡ length db.queue.jobs + 1)
    × (IsFinish db a db' patch ⊎ IsRetry i run attempts db a db' patch)

retry-IsRemedy :
    (i : RemedyInput) (run : Run) (n : ℕ) (s : StrategyResult) (o : Overrides) (db : RemedyDb)
    → n < default_max_attempts
    → IsRemedy i run n db (retry i run n s o db)
unfolding retry create_job
retry-IsRemedy i run n s o db h =
    (_, refl, refl, refl, length-append db.queue.jobs (_ ∷ []), inr (refl, refl, h, (o, refl)))

finish-IsRemedy :
    (i : RemedyInput) (run : Run) (n : ℕ) (s : Strategy) (t : Tier) (o : ActionOutcome)
    (db : RemedyDb)
    → o ≢ retry_created
    → IsRemedy i run n db (finish i run (action_row run n s t o none) db)
unfolding create_job
finish-IsRemedy i run n s t o db h =
    (_, refl, refl, refl, length-append db.queue.jobs (_ ∷ []), inl (refl, refl, h))

debug-IsRemedy :
    (i : RemedyInput) (run : Run) (n : ℕ) (s : StrategyResult) (files : List (String × String))
    (db : RemedyDb)
    → n < default_max_attempts
    → IsRemedy i run n db (debug i run n s files db)
debug-IsRemedy i run n s [] db h = finish-IsRemedy i run n debug_broad broad skipped db (λ e. cc)
debug-IsRemedy i run n s (f ∷ fs) db h = retry-IsRemedy i run n s (patched_files (f ∷ fs)) db h

apply_strategy-IsRemedy :
    (i : RemedyInput) (run : Run) (n : ℕ) (s : StrategyResult) (db : RemedyDb)
    → n < default_max_attempts
    → IsRemedy i run n db (apply_strategy i run n s db)
unfolding apply_strategy
apply_strategy-IsRemedy i run n s db h = elim (Bool-cases (not s.remediable)) [
  | inl e ↦ rw e (
      finish-IsRemedy i run n s.strategy s.strategy_tier skipped
        (log (remediation_skipped run.id) db) (λ e. cc))
  | inr e ↦ elim (Bool-cases (is_broad s.strategy)) [
    | inl b ↦
        rw (e, b) (debug-IsRemedy i run n s i.debug_files (log (strategy_escalated run.id) db) h)
    | inr b ↦ rw (e, b) (retry-IsRemedy i run n s s.overrides db h)
  ]
]

remediate-IsRemedy :
    (i : RemedyInput) (run : Run) (prior : List RemediationAction) (db : RemedyDb)
    → IsRemedy i run (length prior) db (remediate i run prior db)
unfolding remediate
remediate-IsRemedy i run prior db = elim (Bool-cases (leb default_max_attempts (length prior))) [
  | inl e ↦ rw e (
      finish-IsRemedy i run (length prior) skip focused exhausted
        (log (remediation_exhausted run.id) db) (λ e. cc))
  | inr e ↦ rw e (
      apply_strategy-IsRemedy i run (length prior) (select_strategy (failure_of i run prior)) db
        (ground arith))
]

-- For a run and a spec that are in the tables, each call adds one action, whose number counts the
-- actions of the run's lineage, and one job; either the remediation is over, with no new run and no
-- patch, or fewer than three actions came before and a retry of the run is made, with the patch
-- `running`.
pub auto_remediate-IsRemedy :
    (i : RemedyInput) (db : RemedyDb) (r : ℕ) (run : Run)
    → i.run_record_id ≡ some r
    → find_run r db.runs ≡ some run
    → any_of (λ s. s == run.experiment_spec_id) db.spec_ids ≡ true
    → IsRemedy i run (length (load_lineage_actions run.id db)) db (auto_remediate i db)
unfolding auto_remediate
auto_remediate-IsRemedy i db r run named found known =
    rw (named, found, known)
      (remediate-IsRemedy i run (load_lineage_actions run.id db)
        (log (remediation_started run.id) db))
