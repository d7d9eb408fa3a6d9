-- ===== src/Execution/Metrics.antt =====
-- The metric contract of libs/execution/metrics.py: what is read of an experiment's metrics file, and
-- the comparison of one value with its spec. A finite number is an integer of a unit that fits all
-- of them. The texts of errors and details, and the warnings, which nothing reads, are left out.
pub mod Parsed
use Prim.Native.String.{String}
use text.Mathlib.Text.{◌==◌ as str_eq}
use synthetos.Prelude.{
  ℕ, Bool, true, false, not, Option, none, some, List, [], ◌∷◌, ◌++◌, map, if◌then◌else◌, is_some,
  any_of, select,
}
use synthetos.Prelude.Int.{ℤ, pos, leb_ℤ, ◌-ℤ◌}
use synthetos.Domain.{Direction, maximize}

-- A dict with texts for keys, in the order of insertion.
abbrev pub Named {ℓ} : Type ℓ → Type ℓ
Named V = List (String × V)

-- `d.get(name)`
abbrev pub named {ℓ} : {V : Type ℓ} → String → Named V → Option V
named name [] = none
named name (e ∷ es) = let rest = named name es in if str_eq e.0 name then some e.1 else rest

-- An entry of a spec's metrics, as far as the code reads it.
pub record MetricSpec : Type 0 where
  pub name : Option String
  pub direction : Direction
  pub threshold : Option ℤ
  pub min : Option ℤ
  pub max : Option ℤ

-- A value of the file; an integer may be too large for `float(…)`.
pub data Reading : Type 0 where
  int float : ℤ → Reading
  bool : Bool → Reading
  too_large nan infinite other : Reading

pub data MetricsFile : Type 0 where
  missing corrupt no_object : MetricsFile
  object : Named Reading → MetricsFile

pub data MetricError : Type 0 where
  file_missing file_corrupt file_no_object : MetricError
  not_numeric not_finite not_found : String → MetricError

pub record ParsedMetrics : Type 0 where
  pub values : Named ℤ
  pub errors : List MetricError

abbrev pub is_ok : ParsedMetrics → Bool
is_ok p = elim p.errors [ [] ↦ true | ◌∷◌ _ _ ↦ false ]

-- What an entry of the file adds. A Boolean is an `int`.
pub data Entry : Type 0 where
  accepted : ℤ → Entry
  refused : MetricError → Entry
  overflow : Entry

unfoldable pub entry_of : String → Reading → Entry
entry_of key (int n) = accepted n
entry_of key (float x) = accepted x
entry_of key (bool b) = accepted (if b then pos 1 else pos 0)
entry_of key too_large = overflow
entry_of key nan = refused (not_finite key)
entry_of key infinite = refused (not_finite key)
entry_of key other = refused (not_numeric key)

abbrev pub with_value : String → ℤ → ParsedMetrics → ParsedMetrics
with_value key x p = record p { values = (key, x) ∷ p.values }

abbrev pub with_error : MetricError → ParsedMetrics → ParsedMetrics
with_error e p = record p { errors = e ∷ p.errors }

-- The loop over the entries; `none` is the `OverflowError`.
unfoldable pub read_entries : Named Reading → Option ParsedMetrics
unfolding entry_of
read_entries [] = some (record { values = []; errors = [] })
read_entries ((key, r) ∷ es) =
    let rest = read_entries es in
    elim (entry_of key r) [
      | accepted x ↦ elim rest [ none ↦ none | some p ↦ some (with_value key x p) ]
      | refused e ↦ elim rest [ none ↦ none | some p ↦ some (with_error e p) ]
      | overflow ↦ none
    ]

-- `{m["name"] for m in expected_metrics if "name" in m}`; a set's order is not specified, here it is
-- the spec's.
unfoldable pub expected_names : List MetricSpec → List String
expected_names [] = []
expected_names (m ∷ ms) =
    let rest = expected_names ms in
    elim m.name [ none ↦ rest | some n ↦ n ∷ select (λ k. not (str_eq k n)) rest ]

abbrev pub missing_of : Named ℤ → List String → List MetricError
missing_of values names = map not_found (select (λ n. not (is_some (named n values))) names)

abbrev pub with_missing : List MetricSpec → ParsedMetrics → ParsedMetrics
with_missing expected p = record p {
  errors = p.errors ++ missing_of p.values (expected_names expected);
}

abbrev pub checked : List MetricSpec → Option ParsedMetrics → Option ParsedMetrics
checked expected none = none
checked expected (some p) = some (with_missing expected p)

abbrev pub only_error : MetricError → ParsedMetrics
only_error e = record { values = []; errors = e ∷ [] }

unfoldable pub parse_metrics : MetricsFile → List MetricSpec → Option ParsedMetrics
unfolding read_entries expected_names
parse_metrics missing expected = some (only_error file_missing)
parse_metrics corrupt expected = some (only_error file_corrupt)
parse_metrics no_object expected = some (only_error file_no_object)
parse_metrics (object entries) expected = checked expected (read_entries entries)

pub record MetricVerdict : Type 0 where
  pub name : String
  pub value : ℤ
  pub baseline_value : Option ℤ
  pub delta : Option ℤ
  pub direction : Direction
  pub passed : Bool

-- Any direction but "maximize" is read as "minimize".
unfoldable pub reaches : Direction → ℤ → ℤ → Bool
reaches maximize value threshold = leb_ℤ threshold value
reaches _ value threshold = leb_ℤ value threshold

unfoldable pub classify_metric : String → ℤ → MetricSpec → Named ℤ → MetricVerdict
unfolding reaches ◌-ℤ◌
classify_metric name value m baseline = record {
  name = name;
  value = value;
  baseline_value = named name baseline;
  delta = elim (named name baseline) [ none ↦ none | some b ↦ some (value -ℤ b) ];
  direction = m.direction;
  passed = elim m.threshold [ none ↦ true | some t ↦ reaches m.direction value t ];
}
