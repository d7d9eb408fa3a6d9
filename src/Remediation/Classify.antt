-- ===== src/Remediation/Classify.antt =====
-- The operator signal_classify of libs/remediation/operators/signal.py. Metric values are numbers, in
-- the units of Signals, and the index of the primary metric is not negative; reasons, the times in
-- the window of the history and the metric's name in the frontier are left out.
pub mod Twice
mod Tests
use Prim.Native.String.{String}
use text.Mathlib.Text.{◌==◌ as str_eq}
use synthetos.Prelude.{
  ℕ, zero, suc, ◌==◌, leb, ltb, Bool, true, false, ◌&&◌, not, Option, none, some, List, [], ◌∷◌,
  ◌++◌, length, map, if◌then◌else◌, any_of, select, first_where, update_where, or_default, holds,
  is_some,
}
use synthetos.Prelude.Int.{ℤ, ltb_ℤ}
use synthetos.Domain.{Signal, Direction, maximize, MetricFrontier}
use synthetos.Remediation.Signals.{SignalResult, classify_signal}
use synthetos.Remediation.Frontier.{Observation, upsert_frontier}
use synthetos.Remediation.Reading.{
  SpecMetric, SignalSpec, SignalRun, ConstraintMetric, DirectionalSignal, ReportRow, SignalEvent,
  signal_classified, SignalDb, SignalAnswer, committed, metric_at, primary_index,
  get_primary_metric, value_of, name_of, enqueue_recommend, is_time_before, is_before,
  insert_by_time, by_time, prior_runs, with_value, history_of, is_within_bounds, with_constraint,
  constraints_of, failed, raised, frontier_created, frontier_updated,
}

-- What the classification reads: the primary metric, its value, and the runs before.
pub record Reading : Type 0 where
  pub metric : SpecMetric
  pub value : ℤ
  pub window : List (ℕ × ℤ)

abbrev pub direction_of : SpecMetric → Direction
direction_of m = or_default m.direction maximize

abbrev pub result_of : Reading → SignalResult
result_of r = classify_signal r.value (map (λ (e : ℕ × ℤ). e.1) r.window) (direction_of r.metric)

unfoldable pub signal_row : ℕ → SignalRun → SignalSpec → Reading → DirectionalSignal
signal_row id run spec r = record {
  id = id;
  run_record_id = run.id;
  experiment_spec_id = run.experiment_spec_id;
  signal = (result_of r).signal;
  primary_metric_name = name_of r.metric;
  primary_metric_value = r.value;
  primary_metric_delta = (result_of r).delta;
  primary_metric_direction = direction_of r.metric;
  constraint_metrics = constraints_of 0 (primary_index spec) spec.metrics run.metrics_output;
  history_window = r.window;
}

abbrev pub is_signal_of : ℕ → DirectionalSignal → Bool
is_signal_of run s = s.run_record_id == run

-- The row's identifier and the table, by the rows of the run; several rows raise.
unfoldable pub store_signal :
    ℕ
    → SignalRun
    → SignalSpec
    → Reading
    → List DirectionalSignal
    → List DirectionalSignal
    → Option (ℕ × List DirectionalSignal)
unfolding signal_row
store_signal fresh run spec r table [] = some (fresh, table ++ signal_row fresh run spec r ∷ [])
store_signal fresh run spec r table (s ∷ []) = some (
  s.id,
  update_where (is_signal_of run.id)
      (λ t. record (signal_row s.id run spec r) {
        run_record_id = t.run_record_id;
        experiment_spec_id = t.experiment_spec_id;
      })
      table,
)
store_signal fresh run spec r table (s ∷ t ∷ ts) = none

abbrev pub is_report_of : ℕ → ReportRow → Bool
is_report_of run v = v.run_record_id == run

-- Several reports of the run raise.
abbrev pub link_report : ℕ → ℕ → List ReportRow → List ReportRow → Option (List ReportRow)
link_report run signal table [] = some table
link_report run signal table (v ∷ []) =
    some (
      update_where (is_report_of run) (λ w. record w { directional_signal_id = some signal }) table)
link_report run signal table (v ∷ w ∷ ws) = none

abbrev pub observation_of : SignalRun → Reading → Observation
observation_of run r = record {
  experiment_spec_id = run.experiment_spec_id;
  run_id = run.id;
  metric_direction = direction_of r.metric;
  metric_value = r.value;
  is_successful = true;
}

abbrev pub frontier_event : SignalSpec → MetricFrontier → Bool → SignalEvent
frontier_event spec f improved =
    if improved && f.total_runs == 1
    then frontier_created spec.hypothesis_card_id improved
    else frontier_updated spec.hypothesis_card_id improved

-- The tables after the three writes, with the events and the job.
abbrev pub written :
    SignalRun
    → SignalSpec
    → Reading
    → SignalDb
    → List DirectionalSignal
    → List ReportRow
    → MetricFrontier × Bool × List MetricFrontier
    → SignalDb
written run spec r db signals reports kept = enqueue_recommend run.id (record db {
  signals = signals;
  reports = reports;
  frontiers = kept.2;
  events =
      db.events
      ++ signal_classified run.id (result_of r).signal (result_of r).delta
        ∷ frontier_event spec kept.0 kept.1
        ∷ [];
})

-- The three writes, in their order; each of them may raise.
abbrev pub with_kept :
    SignalRun
    → SignalSpec
    → Reading
    → SignalDb
    → List DirectionalSignal
    → List ReportRow
    → Option (MetricFrontier × Bool × List MetricFrontier)
    → SignalAnswer
with_kept run spec r db signals reports none = raised
with_kept run spec r db signals reports (some kept) =
    committed (written run spec r db signals reports kept)

abbrev pub with_reports :
    SignalRun
    → SignalSpec
    → Reading
    → SignalDb
    → List DirectionalSignal
    → Option (List ReportRow)
    → SignalAnswer
with_reports run spec r db signals none = raised
with_reports run spec r db signals (some reports) =
    with_kept run spec r db signals reports
      (upsert_frontier run.charter_id spec.hypothesis_card_id (observation_of run r) db.frontiers)

abbrev pub with_stored :
    SignalRun → SignalSpec → Reading → SignalDb → Option (ℕ × List DirectionalSignal) → SignalAnswer
with_stored run spec r db none = raised
with_stored run spec r db (some stored) =
    with_reports run spec r db stored.1
      (link_report run.id stored.0 db.reports (select (is_report_of run.id) db.reports))

unfoldable pub classified : ℕ → SignalRun → SignalSpec → Reading → SignalDb → SignalAnswer
unfolding store_signal
classified fresh run spec r db =
    with_stored run spec r db
      (store_signal fresh run spec r db.signals (select (is_signal_of run.id) db.signals))

-- No card of the hypothesis: the classification is skipped.
abbrev pub with_card : ℕ → SignalRun → SignalSpec → SpecMetric → ℤ → SignalDb → SignalAnswer
with_card fresh run spec m v db =
    if any_of (λ c. c == spec.hypothesis_card_id) db.cards
    then classified fresh run spec
        (record { metric = m; value = v; window = history_of (name_of m) (prior_runs run spec db) })
        db
    else committed (enqueue_recommend run.id db)

abbrev pub with_value_of :
    ℕ → SignalRun → SignalSpec → SpecMetric → Option ℤ → SignalDb → SignalAnswer
with_value_of fresh run spec m none db = committed (enqueue_recommend run.id db)
with_value_of fresh run spec m (some v) db = with_card fresh run spec m v db

abbrev pub with_metric : ℕ → SignalRun → SignalSpec → Option SpecMetric → SignalDb → SignalAnswer
with_metric fresh run spec none db = committed (enqueue_recommend run.id db)
with_metric fresh run spec (some m) db =
    with_value_of fresh run spec m (value_of (name_of m) run.metrics_output) db

abbrev pub with_spec : ℕ → SignalRun → Option SignalSpec → SignalDb → SignalAnswer
with_spec fresh run none db = raised
with_spec fresh run (some spec) db = with_metric fresh run spec (get_primary_metric spec) db

abbrev pub with_run : ℕ → Option SignalRun → SignalDb → SignalAnswer
with_run fresh none db = raised
with_run fresh (some run) db =
    with_spec fresh run (first_where (λ (s : SignalSpec). s.id == run.experiment_spec_id) db.specs)
      db

-- `run_record_id` of the payload, and the identifier for a new row.
unfoldable pub signal_classify : Option ℕ → ℕ → SignalDb → SignalAnswer
unfolding classified get_primary_metric prior_runs history_of
signal_classify none fresh db = failed
signal_classify (some r) fresh db =
    with_run fresh (first_where (λ (run : SignalRun). run.id == r) db.runs) db
