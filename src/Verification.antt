-- ===== src/Verification.antt =====
-- The rules of libs/verification: the comparison with the baseline, the contract of the artifacts,
-- the range of the metrics, and the verdict that libs/verification/operators/check.py draws from
-- them. The texts of details and warnings are left out, with the order of the checks of missing and
-- additional metrics, which the code sorts.
pub mod Operators
pub mod Parts
pub mod Judged
mod Tests
use Prim.Native.String.{String}
use text.Mathlib.Text.{◌==◌ as str_eq}
use synthetos.Prelude.{
  ℕ, Bool, true, false, ◌&&◌, ◌||◌, not, Option, none, some, List, [], ◌∷◌, ◌++◌, map,
  if◌then◌else◌, is_some, any_of, all_of, select, first_where, or_default,
}
use synthetos.Prelude.Int.{ℤ, pos, leb_ℤ}
use synthetos.Domain.{maximize}
use synthetos.Execution.Metrics.{Named, named, MetricSpec, MetricVerdict, classify_metric}
use synthetos.Execution.{
  Artifact, ExpectedArtifact, Verdict, passed, inconclusive, failed, ExecSpec,
}

-- `spec_metric.get("name", "")`
abbrev pub name_of : MetricSpec → String
name_of m = or_default m.name ""

-- A metric that the run does not have fails with the value 0.
unfoldable pub metric_verdict : Named ℤ → MetricSpec → Option ℤ → MetricVerdict
unfolding classify_metric
metric_verdict baseline m none = record {
  name = name_of m;
  value = pos 0;
  baseline_value = none;
  delta = none;
  direction = maximize;
  passed = false;
}
metric_verdict baseline m (some value) = classify_metric (name_of m) value m baseline

unfoldable pub compare_metric : Named ℤ → Named ℤ → MetricSpec → MetricVerdict
unfolding metric_verdict
compare_metric run_metrics baseline m = metric_verdict baseline m (named (name_of m) run_metrics)

unfoldable pub compare_to_baseline : Named ℤ → List MetricSpec → Named ℤ → List MetricVerdict
unfolding compare_metric
compare_to_baseline run_metrics spec_metrics baseline =
    map (compare_metric run_metrics baseline) spec_metrics

pub record ArtifactCheck : Type 0 where
  pub name : String
  pub found : Bool
  pub required : Bool
  pub passed : Bool

abbrev pub has_name : String → Artifact → Bool
has_name name a = str_eq a.name name

unfoldable pub check_artifact : List Artifact → ExpectedArtifact → ArtifactCheck
check_artifact manifest e = record {
  name = e.name;
  found = any_of (has_name e.name) manifest;
  required = e.required;
  passed = any_of (has_name e.name) manifest || not e.required;
}

unfoldable pub check_artifact_contract : List Artifact → List ExpectedArtifact → List ArtifactCheck
unfolding check_artifact
check_artifact_contract manifest expected = map (check_artifact manifest) expected

-- A named check and whether it passes.
abbrev pub Check : Type 0
Check = String × Bool

-- `manifest_by_name`: of equal names the last.
abbrev pub last_named : String → List Artifact → Option Artifact
last_named name [] = none
last_named name (a ∷ as') =
    let rest = last_named name as' in
    elim rest [ some b ↦ some b | none ↦ if has_name name a then some a else none ]

abbrev pub type_fits : ExpectedArtifact → Option Artifact → Bool
type_fits e none = not e.required
type_fits e (some a) = str_eq e.type "" || (str_eq e.type a.suffix || str_eq e.type "file")

unfoldable pub output_check : List Artifact → ExpectedArtifact → Check
output_check manifest e = (e.name, type_fits e (last_named e.name manifest))

unfoldable pub build_output_contract : List Artifact → List ExpectedArtifact → List Check
unfolding output_check
build_output_contract manifest expected = map (output_check manifest) expected

-- `spec_by_name`: the metrics with a name that is not empty, of equal names the last.
abbrev pub is_named : MetricSpec → Bool
is_named m = elim m.name [ none ↦ false | some n ↦ not (str_eq n "") ]

abbrev pub last_spec : String → List MetricSpec → Option MetricSpec
last_spec name [] = none
last_spec name (m ∷ ms) =
    let rest = last_spec name ms in
    elim rest [
      | some k ↦ some k
      | none ↦ if is_named m && str_eq (name_of m) name then some m else none
    ]

abbrev pub at_least : Option ℤ → ℤ → Bool
at_least none value = true
at_least (some low) value = leb_ℤ low value

abbrev pub at_most : Option ℤ → ℤ → Bool
at_most none value = true
at_most (some high) value = leb_ℤ value high

abbrev pub range_fits : ℤ → Option MetricSpec → Bool
range_fits value none = true
range_fits value (some m) = at_least m.min value && at_most m.max value

unfoldable pub in_range : List MetricSpec → String × ℤ → Bool
in_range spec_metrics e = range_fits e.1 (last_spec e.0 spec_metrics)

unfoldable pub build_metric_sanity : Named ℤ → List MetricSpec → List Check
unfolding in_range
build_metric_sanity run_metrics spec_metrics =
    map (λ e. (e.0, in_range spec_metrics e)) run_metrics
    ++ map (λ m. (name_of m, false))
        (select (λ m. is_named m && not (is_some (named (name_of m) run_metrics))) spec_metrics)
    ++ map (λ e. (e.0, true)) (select (λ e. not (is_some (last_spec e.0 spec_metrics))) run_metrics)

-- What the check reads of a run and its spec.
pub record Evidence : Type 0 where
  pub metrics : Named ℤ
  pub spec_metrics : List MetricSpec
  pub baseline : Named ℤ
  pub manifest : List Artifact
  pub expected : List ExpectedArtifact

abbrev pub all_pass : Evidence → Bool
all_pass e =
    all_of (λ (v : MetricVerdict). v.passed)
      (compare_to_baseline e.metrics e.spec_metrics e.baseline)
    && (all_of (λ (c : ArtifactCheck). c.passed) (check_artifact_contract e.manifest e.expected)
        && (all_of (λ (c : Check). c.1) (build_output_contract e.manifest e.expected)
            && all_of (λ (c : Check). c.1) (build_metric_sanity e.metrics e.spec_metrics)))

abbrev pub has_thresholds : List MetricSpec → Bool
has_thresholds = any_of (λ m. is_some m.threshold)

unfoldable pub verdict_of : Evidence → Verdict
unfolding compare_to_baseline check_artifact_contract build_output_contract build_metric_sanity
verdict_of e =
    if all_pass e then (if has_thresholds e.spec_metrics then passed else inconclusive) else failed
