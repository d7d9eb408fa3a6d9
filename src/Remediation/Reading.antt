-- ===== src/Remediation/Reading.antt =====
-- The tables of libs/remediation/operators/signal.py and what it reads of them: the metrics of a spec, the
-- earlier runs of its line in their order, the values of a run and the bounds that they break.
use Prim.Native.String.{String}
use text.Mathlib.Text.{◌==◌ as str_eq}
use synthetos.Prelude.{
  ℕ, zero, suc, ◌==◌, leb, Bool, true, false, ◌&&◌, not, Option, none, some, List, [], ◌∷◌, ◌++◌,
  length, if◌then◌else◌, any_of, select, or_default, holds,
}
use synthetos.Prelude.Int.{ℤ, ltb_ℤ}
use synthetos.Domain.{Signal, Direction, MetricFrontier}

pub record SpecMetric : Type 0 where
  pub name : Option String
  pub direction : Option Direction
  pub min : Option ℤ
  pub max : Option ℤ

pub record SignalSpec : Type 0 where
  pub id : ℕ
  pub hypothesis_card_id : ℕ
  pub metrics : List SpecMetric
  pub primary_metric_index : Option ℕ

pub record SignalRun : Type 0 where
  pub id : ℕ
  pub charter_id : ℕ
  pub cycle_id : ℕ
  pub experiment_spec_id : ℕ
  pub is_completed : Bool
  pub completed_at : Option ℕ
  pub metrics_output : List (String × ℤ)

pub record ConstraintMetric : Type 0 where
  pub name : String
  pub value : ℤ
  pub within_bounds : Bool

pub record DirectionalSignal : Type 0 where
  pub id : ℕ
  pub run_record_id : ℕ
  pub experiment_spec_id : ℕ
  pub signal : Signal
  pub primary_metric_name : String
  pub primary_metric_value : ℤ
  pub primary_metric_delta : Option ℤ
  pub primary_metric_direction : Direction
  pub constraint_metrics : List ConstraintMetric
  pub history_window : List (ℕ × ℤ)

pub record ReportRow : Type 0 where
  pub run_record_id : ℕ
  pub directional_signal_id : Option ℕ

pub data SignalEvent : Type 0 where
  signal_classified : ℕ → Signal → Option ℤ → SignalEvent
  frontier_created frontier_updated : ℕ → Bool → SignalEvent

-- A job for `recommend` is the run that it is for.
pub record SignalDb : Type 0 where
  pub runs : List SignalRun
  pub specs : List SignalSpec
  pub cards : List ℕ
  pub signals : List DirectionalSignal
  pub reports : List ReportRow
  pub frontiers : List MetricFrontier
  pub events : List SignalEvent
  pub recommend_jobs : List ℕ

-- An error of the result, an exception, and the tables of a success.
pub data SignalAnswer : Type 0 where
  failed raised : SignalAnswer
  committed : SignalDb → SignalAnswer

abbrev pub metric_at : ℕ → List SpecMetric → Option SpecMetric
metric_at i [] = none
metric_at zero (m ∷ ms) = some m
metric_at (suc i) (m ∷ ms) = metric_at i ms

abbrev pub primary_index : SignalSpec → ℕ
primary_index spec = or_default spec.primary_metric_index 0

unfoldable pub get_primary_metric : SignalSpec → Option SpecMetric
get_primary_metric spec =
    let i = primary_index spec in
    metric_at (if leb (length spec.metrics) i then 0 else i) spec.metrics

abbrev pub value_of : String → List (String × ℤ) → Option ℤ
value_of name [] = none
value_of name (e ∷ es) = if str_eq e.0 name then some e.1 else value_of name es

abbrev pub name_of : SpecMetric → String
name_of m = or_default m.name ""

abbrev pub enqueue_recommend : ℕ → SignalDb → SignalDb
enqueue_recommend run db = record db { recommend_jobs = db.recommend_jobs ++ run ∷ [] }

-- `completed_at` ascending, a missing time last, and the order of the table among equals.
abbrev pub is_time_before : Option ℕ → Option ℕ → Bool
is_time_before none none = true
is_time_before none (some _) = false
is_time_before (some _) none = true
is_time_before (some s) (some t) = leb s t

abbrev pub is_before : SignalRun → SignalRun → Bool
is_before a b = is_time_before a.completed_at b.completed_at

abbrev pub insert_by_time : SignalRun → List SignalRun → List SignalRun
insert_by_time r [] = r ∷ []
insert_by_time r (s ∷ ss) =
    let rest = insert_by_time r ss in if is_before r s then r ∷ s ∷ ss else s ∷ rest

abbrev pub by_time : List SignalRun → List SignalRun
by_time [] = []
by_time (r ∷ rs) = insert_by_time r (by_time rs)

-- The completed runs of all specs of the hypothesis, but this one.
unfoldable pub prior_runs : SignalRun → SignalSpec → SignalDb → List SignalRun
prior_runs run spec db =
    let line =
      select (λ (s : SignalSpec). s.hypothesis_card_id == spec.hypothesis_card_id) db.specs in
    by_time (
      select
        (λ (r : SignalRun).
          any_of (λ (s : SignalSpec). s.id == r.experiment_spec_id) line
          && (not (r.id == run.id) && r.is_completed))
        db.runs)

abbrev pub with_value : ℕ → Option ℤ → List (ℕ × ℤ) → List (ℕ × ℤ)
with_value run none rest = rest
with_value run (some v) rest = (run, v) ∷ rest

unfoldable pub history_of : String → List SignalRun → List (ℕ × ℤ)
history_of name [] = []
history_of name (r ∷ rs) = with_value r.id (value_of name r.metrics_output) (history_of name rs)

abbrev pub is_within_bounds : SpecMetric → ℤ → Bool
is_within_bounds m v =
    not (holds (λ low. ltb_ℤ v low) m.min) && not (holds (λ high. ltb_ℤ high v) m.max)

abbrev pub with_constraint : SpecMetric → Option ℤ → List ConstraintMetric → List ConstraintMetric
with_constraint m none rest = rest
with_constraint m (some v) rest =
    record { name = name_of m; value = v; within_bounds = is_within_bounds m v } ∷ rest

-- The metrics from number i on, without the primary one.
unfoldable pub constraints_of : ℕ → ℕ → List SpecMetric → List (String × ℤ) → List ConstraintMetric
constraints_of i primary [] values = []
constraints_of i primary (m ∷ ms) values =
    let rest = constraints_of (suc i) primary ms values in
    if i == primary then rest else with_constraint m (value_of (name_of m) values) rest
