-- ===== src/Remediation/Classify/Tests.antt =====
-- The theorem on signal_classify at concrete tables.
use synthetos.Prelude.{ℕ, ◌-◌, ◌≡◌, refl, true, none, some, [], ◌∷◌}
use synthetos.Prelude.Int.{ℤ, pos, ◌-ℤ◌, ◌*ℤ◌}
use synthetos.Domain.{maximize}
use synthetos.Remediation.Signals.{classify_signal}
use synthetos.Remediation.Frontier.{upsert_frontier, is_improvement}
use synthetos.Remediation.Classify.{signal_classify, store_signal, signal_row, classified}
use synthetos.Remediation.Reading.{
  SpecMetric, SignalSpec, SignalRun, SignalDb, SignalAnswer, committed, get_primary_metric,
  prior_runs, history_of, constraints_of,
}
use synthetos.Remediation.Classify.Twice.{IsRepeated, reading_of, classified_twice-counts}

abbrev accuracy : SpecMetric
accuracy = record { name = some "accuracy"; direction = some maximize; min = none; max = none }

abbrev spec : SignalSpec
spec = record {
  id = 2;
  hypothesis_card_id = 3;
  metrics = accuracy ∷ record accuracy { name = some "loss"; max = some (pos 5) } ∷ [];
  primary_metric_index = none;
}

abbrev run : ℕ → ℤ → SignalRun
run i v = record {
  id = i;
  charter_id = 7;
  cycle_id = 8;
  experiment_spec_id = 2;
  is_completed = true;
  completed_at = some (100 - i);
  metrics_output = ("accuracy", v) ∷ ("loss", pos 6) ∷ [];
}

abbrev tables : SignalDb
tables = record {
  runs = run 4 (pos 900) ∷ run 5 (pos 800) ∷ run 6 (pos 1000) ∷ [];
  specs = spec ∷ [];
  cards = 3 ∷ [];
  signals = [];
  reports = record { run_record_id = 6; directional_signal_id = none } ∷ [];
  frontiers = [];
  events = [];
  recommend_jobs = [];
}

abbrev tables_after : SignalAnswer → SignalDb
tables_after (committed db) = db
tables_after _ = tables

abbrev first_call : SignalAnswer
first_call = signal_classify (some 6) 20 tables

-- The first call commits.
commits : first_call ≡ committed (tables_after first_call)
unfolding signal_classify classified store_signal signal_row get_primary_metric prior_runs
    history_of constraints_of upsert_frontier is_improvement classify_signal ◌-ℤ◌ ◌*ℤ◌
commits = refl

classified_twice-counts_example :
    (again : SignalDb) × (signal_classify (some 6) 21 (tables_after first_call) ≡ committed again)
    × IsRepeated
        (run 6 (pos 1000))
        spec
        (reading_of (run 6 (pos 1000)) spec accuracy (pos 1000) tables)
        (tables_after first_call)
        again
unfolding get_primary_metric
classified_twice-counts_example =
    classified_twice-counts 6 (run 6 (pos 1000)) spec accuracy (pos 1000) 20 21 tables
      (tables_after first_call) refl refl refl refl refl commits
