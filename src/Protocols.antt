-- ===== src/Protocols.antt =====
-- The validation of a compiled experiment spec: libs/protocols/validation.py. The texts of errors are
-- left out; a key that is missing and one that holds nothing are the same to the code.
pub mod Validity
pub mod Compile
mod Tests
use Prim.Native.String.{String}
use text.Mathlib.Text.{◌==◌ as str_eq}
use synthetos.Prelude.{
  ℕ, suc, Bool, true, false, ◌&&◌, ◌||◌, not, Option, none, some, List, [], ◌∷◌, ◌++◌,
  if◌then◌else◌,
}
use synthetos.Domain.{StopCondition, CodePlan, Controls}

pub record MetricDef : Type 0 where
  pub name : Option String
  pub direction : Option String

-- What the language model answers for one hypothesis, as far as the code reads it: `baseline` with
-- its description, an empty `code_plan` as none; the digests of the spec that it becomes.
pub record CompiledSpec : Type 0 where
  pub baseline : Option (Option String)
  pub metrics : List MetricDef
  pub stop_conditions : List StopCondition
  pub code_plan : Option CodePlan
  pub base_image : Option String
  pub fingerprint : String
  pub without_controls : String
  pub controls : Option Controls

pub data SpecError : Type 0 where
  baseline_undescribed no_metrics no_entry_point no_files no_code_plan : SpecError
  metric_unnamed metric_undirected : ℕ → SpecError

pub data SpecWarning : Type 0 where
  no_stop_conditions : SpecWarning

pub record ValidationResult : Type 0 where
  pub valid : Bool
  pub errors : List SpecError
  pub warnings : List SpecWarning

-- Truth of a text that may be missing.
abbrev pub is_given : Option String → Bool
is_given none = false
is_given (some s) = not (str_eq s "")

abbrev pub is_described : Option (Option String) → Bool
is_described none = false
is_described (some d) = is_given d

abbrev pub is_directed : Option String → Bool
is_directed none = false
is_directed (some d) = str_eq d "maximize" || str_eq d "minimize"

abbrev pub error_unless : Bool → SpecError → List SpecError
error_unless true e = []
error_unless false e = e ∷ []

abbrev pub metric_errors : ℕ → List MetricDef → List SpecError
metric_errors i [] = []
metric_errors i (m ∷ ms) =
    error_unless (is_given m.name) (metric_unnamed i)
    ++ (error_unless (is_directed m.direction) (metric_undirected i) ++ metric_errors (suc i) ms)

abbrev pub is_nonempty {ℓ} : {A : Type ℓ} → List A → Bool
is_nonempty [] = false
is_nonempty (x ∷ xs) = true

abbrev pub has_files : Option (List (String × String)) → Bool
has_files none = false
has_files (some fs) = is_nonempty fs

abbrev pub plan_errors : Option CodePlan → List SpecError
plan_errors none = no_code_plan ∷ []
plan_errors (some p) =
    error_unless (is_given p.entry_point) no_entry_point
    ++ error_unless (has_files p.files) no_files

abbrev pub spec_errors : CompiledSpec → List SpecError
spec_errors s =
    error_unless (is_described s.baseline) baseline_undescribed
    ++ (error_unless (is_nonempty s.metrics) no_metrics
        ++ (metric_errors 0 s.metrics ++ plan_errors s.code_plan))

unfoldable pub validate_spec : CompiledSpec → ValidationResult
validate_spec s = record {
  valid = not (is_nonempty (spec_errors s));
  errors = spec_errors s;
  warnings = if is_nonempty s.stop_conditions then [] else no_stop_conditions ∷ [];
}
