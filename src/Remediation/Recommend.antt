-- ===== src/Remediation/Recommend.antt =====
-- The operator `recommend` of libs/remediation/operators/recommend.py: the inputs that it reads, and
-- where it sends the cycle. Its row, its events and the report's reference are left out; in the
-- autonomous mode it creates one `loop_decide` job.
use mathlib.Core.Path.{subst}
use synthetos.Prelude.{
  ℕ, ◌==◌, leb, ◌≡◌, refl, sym, ◌∙◌, ap, ◌<◌, Bool, true, false, ◌||◌, Option, none, some, List, [],
  ◌∷◌, ◌++◌, if◌then◌else◌, any_of, length, inl, inr, arith, Bool-cases, select-snoc-hit,
}
use synthetos.Domain.{Signal, continue_current, MetricFrontier}
use synthetos.Cycle.{CycleStatus, loop_deciding, reporting}
use synthetos.Remediation.Recommendations.{RecommendationInputs, compute_recommendation}
use synthetos.Remediation.Strategies.{select_strategy}
use synthetos.Remediation.Attempts.{
  Run, ActionOutcome, exhausted, RemediationAction, RemedyDb, committed, RemedyInput, find_run,
  load_lineage_run_ids, is_in, load_lineage_actions, default_max_attempts, failure_of, remediate,
  apply_strategy, auto_remediate,
}
use synthetos.Remediation.Attempts.Chain.{of_runs, lineage_self}

abbrev pub is_exhausted : ActionOutcome → Bool
is_exhausted exhausted = true
is_exhausted _ = false

abbrev pub any_exhausted : List RemediationAction → Bool
any_exhausted = any_of (λ (a : RemediationAction). is_exhausted a.outcome)

abbrev pub since_improvement : Option MetricFrontier → ℕ
since_improvement none = 0
since_improvement (some f) = f.runs_since_improvement

abbrev pub runs_of : Option MetricFrontier → ℕ
runs_of none = 1
runs_of (some f) = f.total_runs

abbrev pub successes_of : Bool → Option MetricFrontier → ℕ
successes_of failed none = if failed then 0 else 1
successes_of failed (some f) = f.successful_runs

-- The signal, the frontier, the actions of the lineage, whether the run came by the path of failed
-- runs, and whether the lineage has a postmortem.
unfoldable pub recommendation_inputs :
    Option Signal
    → Option MetricFrontier
    → List RemediationAction
    → Bool
    → Bool
    → RecommendationInputs
recommendation_inputs signal frontier actions failed has_postmortem = record {
  signal = signal;
  runs_since_improvement = since_improvement frontier;
  total_runs = runs_of frontier;
  successful_runs = successes_of failed frontier;
  remediation_attempts = length actions;
  remediation_exhausted = any_exhausted actions;
  has_unresolved_failures = failed || (any_exhausted actions || has_postmortem);
  failed = failed;
}

abbrev pub target_status : Bool → CycleStatus
target_status true = loop_deciding
target_status false = reporting

any_exhausted-snoc :
    (actions : List RemediationAction) (a : RemediationAction)
    → any_exhausted actions ≡ false
    → is_exhausted a.outcome ≡ false
    → any_exhausted (actions ++ a ∷ []) ≡ false
any_exhausted-snoc [] a h e = rw e refl
any_exhausted-snoc (b ∷ actions) a h e = elim (Bool-cases (is_exhausted b.outcome)) [
  | inl hit ↦ cc (rw hit at h)
  | inr miss ↦ rw miss (any_exhausted-snoc actions a (rw miss at h) e)
]

-- One more action of the run, with the same runs, is one more in its lineage.
lineage-snoc :
    (db db' : RemedyDb) (run : Run) (a : RemediationAction)
    → db'.runs ≡ db.runs
    → db'.actions ≡ db.actions ++ a ∷ []
    → a.run_record_id ≡ run.id
    → load_lineage_actions run.id db' ≡ load_lineage_actions run.id db ++ a ∷ []
unfolding load_lineage_actions
lineage-snoc db db' run a runs actions same =
    let ids = load_lineage_run_ids run.id db.runs in
    ap (λ ks. of_runs ks db'.actions) (ap (load_lineage_run_ids run.id) runs)
    ∙ ap (of_runs ids) actions
    ∙ select-snoc-hit (λ (b : RemediationAction). is_in ids b.run_record_id) db.actions a
        (subst (λ k. is_in ids k ≡ true) (sym same) (lineage_self run.id db.runs))

lt→leb-false : (a b : ℕ) → a < b → leb b a ≡ false
lt→leb-false a b h = ground arith

-- A call for such a failure: one skipped action, and no new run.
skip_call :
    (i : RemedyInput) (db : RemedyDb) (r : ℕ) (run : Run)
    → i.run_record_id ≡ some r
    → find_run r db.runs ≡ some run
    → any_of (λ s. s == run.experiment_spec_id) db.spec_ids ≡ true
    → length (load_lineage_actions run.id db) < default_max_attempts
    → (select_strategy (failure_of i run (load_lineage_actions run.id db))).remediable ≡ false
    → (db' : RemedyDb) × (a : RemediationAction) × (auto_remediate i db ≡ committed db' none)
      × (db'.runs ≡ db.runs)
      × (db'.actions ≡ db.actions ++ a ∷ [])
      × (a.run_record_id ≡ run.id)
      × (is_exhausted a.outcome ≡ false)
unfolding auto_remediate remediate apply_strategy
skip_call i db r run named found known few no_way =
    rw (named, found, known, lt→leb-false (length (load_lineage_actions run.id db)) 3 few, no_way)
      (_, _, refl, refl, refl, refl, refl)

failed-continues :
    (signal : Option Signal) (frontier : Option MetricFrontier) (actions : List RemediationAction)
    (has_postmortem : Bool)
    → any_exhausted actions ≡ false
    → compute_recommendation (recommendation_inputs signal frontier actions true has_postmortem)
      ≡ continue_current
unfolding recommendation_inputs compute_recommendation
failed-continues signal frontier actions has_postmortem h = rw h refl

-- A failure that is not remediable, in a lineage with fewer attempts than the limit and none of them
-- exhausted, sends its run to the recommendation to continue with the current approach.
pub unremediable-continues :
    (i : RemedyInput) (db : RemedyDb) (r : ℕ) (run : Run) (signal : Option Signal)
    (frontier : Option MetricFrontier) (has_postmortem : Bool)
    → i.run_record_id ≡ some r
    → find_run r db.runs ≡ some run
    → any_of (λ s. s == run.experiment_spec_id) db.spec_ids ≡ true
    → length (load_lineage_actions run.id db) < default_max_attempts
    → any_exhausted (load_lineage_actions run.id db) ≡ false
    → (select_strategy (failure_of i run (load_lineage_actions run.id db))).remediable ≡ false
    → (db' : RemedyDb) × (auto_remediate i db ≡ committed db' none)
      × (compute_recommendation (
            recommendation_inputs signal frontier
              (load_lineage_actions run.id db')
              true
              has_postmortem)
          ≡ continue_current)
unremediable-continues i db r run signal frontier has_postmortem named found known few fresh
      no_way =
    let (db', a, call, runs, actions, mine, unfinished) =
      skip_call i db r run named found known few no_way in
    (
      db',
      call,
      failed-continues signal frontier (load_lineage_actions run.id db') has_postmortem (
          ap any_exhausted (lineage-snoc db db' run a runs actions mine)
          ∙ any_exhausted-snoc (load_lineage_actions run.id db) a fresh unfinished),
    )
