-- ===== src/Remediation/Tests.antt =====
-- The theorems on remediation at concrete inputs.
use synthetos.Prelude.{
  map, ℕ, ◌≡◌, refl, ◌≢◌, ◌≤◌, ◌↔◌, Bool, true, false, none, some, List, [], ◌∷◌, arith, length,
}
use synthetos.Prelude.Int.{ℤ, pos, negsuc, ◌-ℤ◌, ◌*ℤ◌}
use synthetos.Cycle.{running}
use synthetos.Domain.{
  breakthrough, noisy, Signal, hypothesis_pivot, continue_current, mechanical_recovery, halt,
  maximize, MetricFrontier,
}
use synthetos.Remediation.Recommendations.{
  RecommendationInputs, compute_recommendation, IsPivotCase, IsContinueCase,
  compute_recommendation_iff,
}
use synthetos.Remediation.Frontier.{Observation}
use synthetos.Remediation.Frontier.Best.{upsert_all, IsLine, upsert_all-IsLine}
use synthetos.Remediation.Signals.{result, is_within, classify_signal}
use synthetos.Remediation.Signals.Band.{IsReading, is_marked, classify_signal_lem}
use synthetos.Remediation.Strategies.{
  FailureClass, metric_parse, oom, increase_memory, Failure, gigabytes, memory_gb, focused_result,
  select_strategy,
}
use synthetos.Remediation.Strategies.Limits.{IsRaise, IsEscalated, select_strategy_lem}
use synthetos.Remediation.Attempts.{
  Run, RemedyDb, RemedyOutcome, committed, RemedyInput, load_lineage_actions, default_max_attempts,
  failure_of, auto_remediate, load_lineage_run_ids,
}
use synthetos.Remediation.Attempts.Bound.{IsRemedy, auto_remediate-IsRemedy}
use synthetos.Remediation.Attempts.Chain.{root, other, again, Chain-bounded}
use synthetos.Remediation.Recommend.{any_exhausted, recommendation_inputs, unremediable-continues}

-- A stalled line after five runs without improvement.
abbrev inputs : RecommendationInputs
inputs = record {
  signal = some Signal.stalled;
  runs_since_improvement = 5;
  total_runs = 7;
  successful_runs = 7;
  remediation_attempts = 0;
  remediation_exhausted = false;
  has_unresolved_failures = false;
  failed = false;
}

stalled_pivots : compute_recommendation inputs ≡ hypothesis_pivot
unfolding compute_recommendation
stalled_pivots = refl

compute_recommendation_iff_example :
    ((compute_recommendation inputs ≡ hypothesis_pivot) ↔ IsPivotCase inputs)
    × ((compute_recommendation inputs ≡ continue_current) ↔ IsContinueCase inputs)
    × (compute_recommendation inputs ≢ mechanical_recovery)
    × (compute_recommendation inputs ≢ halt)
compute_recommendation_iff_example = compute_recommendation_iff inputs

abbrev observation : ℕ → ℕ → Bool → Observation
observation run value success = record {
  experiment_spec_id = 2;
  run_id = run;
  metric_direction = maximize;
  metric_value = pos value;
  is_successful = success;
}

-- The newest first; the best of the successful ones is the second.
upsert_all-IsLine_example :
    (t : List MetricFrontier) × (upsert_all 1 5
        (observation 3 9 false ∷ observation 2 8 true ∷ observation 1 4 true ∷ [])
        []
      ≡ some t)
    × IsLine 1 5 maximize
        (observation 3 9 false ∷ observation 2 8 true ∷ observation 1 4 true ∷ [])
        t
upsert_all-IsLine_example =
    upsert_all-IsLine 1 5 maximize (observation 3 9 false)
      (observation 2 8 true ∷ observation 1 4 true ∷ []) [] refl (refl, (refl, (refl, tt)))

abbrev failure : Failure
failure = record {
  failure_class = oom;
  missing_modules = [];
  memory = some (gigabytes 40);
  timeout = none;
  prior = [];
  artifact_fix = none;
}

memory_to_cap : select_strategy failure ≡ focused_result increase_memory (memory_gb 64)
unfolding select_strategy
memory_to_cap = refl

select_strategy_lem_example :
    IsRaise failure (select_strategy failure).overrides
    × IsEscalated failure (select_strategy failure)
select_strategy_lem_example = select_strategy_lem failure

abbrev run : FailureClass → Run
run c = record {
  id = 4;
  parent_run_id = none;
  experiment_spec_id = 2;
  cycle_id = 7;
  run_number = 1;
  failure_class = some c;
  memory = none;
  timeout = none;
}

abbrev tables : FailureClass → RemedyDb
tables c = record {
  runs = run c ∷ [];
  spec_ids = 2 ∷ [];
  actions = [];
  queue = record { jobs = []; events = [] };
  events = [];
}

abbrev input : RemedyInput
input = record {
  run_record_id = some 4;
  missing_modules = [];
  artifact_fix = none;
  debug_files = [];
  now = 100;
  new_run_id = 9;
  new_job_id = 10;
}

auto_remediate-IsRemedy_example :
    IsRemedy input
      (run oom)
      (length (load_lineage_actions 4 (tables oom)))
      (tables oom)
      (auto_remediate input (tables oom))
auto_remediate-IsRemedy_example =
    auto_remediate-IsRemedy input (tables oom) 4 (run oom) refl refl refl

-- The tables that a call leaves.
abbrev after : RemedyOutcome → RemedyDb
after (committed db patch) = db
after _ = tables oom

first_retry :
    auto_remediate input (tables oom)
    ≡ committed (after (auto_remediate input (tables oom))) (some running)
unfolding auto_remediate
first_retry = refl

-- A second call for the same run makes a second retry of it.
abbrev retried : RemedyDb
retried = after (auto_remediate input (tables oom))

abbrev retried_twice : RemedyDb
retried_twice = after (
    auto_remediate
      (record input {
        new_run_id = 11;
        new_job_id = 12;
        debug_files = ("main.py", "print(1)") ∷ [];
      })
      retried)

two_retries : map (λ (r : Run). r.parent_run_id) retried_twice.runs ≡ none ∷ some 4 ∷ some 4 ∷ []
unfolding auto_remediate
two_retries = refl

more_actions :
    (length (load_lineage_actions 9 retried) ≡ 1)
    × (length (load_lineage_actions 9 retried_twice) ≡ 2)
unfolding auto_remediate load_lineage_actions load_lineage_run_ids
more_actions = (refl, refl)

Chain-bounded_example :
    (1 ≤ length (load_lineage_actions 9 retried_twice)) × (1 ≤ default_max_attempts)
Chain-bounded_example = Chain-bounded (
    other (again root input (run oom) refl refl refl ((tt, tt), (omega arith, tt), tt) first_retry)
      (omega (arith, more_actions.0, more_actions.1)))

no_attempts : length (load_lineage_actions 4 (tables metric_parse)) ≡ 0
unfolding load_lineage_actions
no_attempts = refl

none_exhausted : any_exhausted (load_lineage_actions 4 (tables metric_parse)) ≡ false
unfolding load_lineage_actions
none_exhausted = refl

not_remediable :
    (select_strategy (
      failure_of input
        (run metric_parse)
        (load_lineage_actions 4 (tables metric_parse)))).remediable
    ≡ false
unfolding select_strategy
not_remediable = refl

unremediable-continues_example :
    (db' : RemedyDb) × (auto_remediate input (tables metric_parse) ≡ committed db' none)
    × (compute_recommendation
          (recommendation_inputs none none (load_lineage_actions 4 db') true true)
        ≡ continue_current)
unremediable-continues_example =
    unremediable-continues input (tables metric_parse) 4 (run metric_parse) none none true refl refl
      refl (omega (arith, no_attempts)) none_exhausted not_remediable

-- Values around a level, then a leap or a swing.
abbrev trend : List ℤ
trend = pos 110 ∷ pos 100 ∷ pos 120 ∷ []

leap_is_breakthrough :
    classify_signal (pos 900) (pos 100 ∷ trend) maximize ≡ result breakthrough (pos 780)
unfolding classify_signal ◌-ℤ◌ ◌*ℤ◌
leap_is_breakthrough = refl

swing_is_noisy : classify_signal (pos 105) (pos 100 ∷ trend) maximize ≡ result noisy (negsuc 14)
unfolding classify_signal ◌-ℤ◌ ◌*ℤ◌
swing_is_noisy = refl

classify_signal_lem_example :
    let r = classify_signal (pos 900) (pos 100 ∷ trend) maximize in
    IsReading maximize (pos 120) (pos 900) (pos 100 ∷ trend) r.signal
    × ((r.signal ≡ Signal.stalled) ↔ (
        (is_within (pos 120) (pos 900) ≡ true)
        × (is_marked (pos 900) (pos 120) (pos 100 ∷ trend) maximize ≡ false)))
    × (r.delta ≡ some (pos 900 -ℤ pos 120))
classify_signal_lem_example = classify_signal_lem (pos 900) (pos 100) trend maximize
