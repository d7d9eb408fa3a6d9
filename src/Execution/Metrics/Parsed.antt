-- ===== src/Execution/Metrics/Parsed.antt =====
-- What a metrics file has when its parsing reports no error (libs/execution/metrics.py).
use Prim.Native.String.{String}
use text.Mathlib.Text.{◌==◌ as str_eq}
use text.Mathlib.TextEquality.{eq_iff}
use mathlib.Core.Path.{subst}
use synthetos.Prelude.{
  ◌≡◌, sym, ap, ◌∙◌, Bool, true, false, not, Option, none, some, List, [], ◌∷◌, ◌++◌, All,
  All-select, select, is_some, Bool-cases, Option-cases, inl, inr,
}
use synthetos.Prelude.Int.{ℤ}
use synthetos.Execution.Metrics.{
  Named, named, MetricSpec, MetricsFile, missing, corrupt, no_object, object, MetricError,
  ParsedMetrics, is_ok, read_entries, expected_names, missing_of, with_missing, parse_metrics,
  only_error, checked,
}

-- The values have every metric that a spec's entry names.
abbrev pub IsMeasured : Named ℤ → MetricSpec → Type 0
IsMeasured values m = elim m.name [ none ↦ Unit | some n ↦ is_some (named n values) ≡ true ]

abbrev no_errors : List MetricError → Bool
no_errors es = elim es [ [] ↦ true | ◌∷◌ _ _ ↦ false ]

none_missing :
    (values : Named ℤ) (names : List String)
    → no_errors (missing_of values names) ≡ true
    → All (λ n. is_some (named n values) ≡ true) names
none_missing values [] h = tt
none_missing values (n ∷ ns) h = elim (Bool-cases (is_some (named n values))) [
  | inl hit ↦ (hit, none_missing values ns (rw hit at h))
  | inr miss ↦ cc (rw miss at h)
]

abbrev Present : Named ℤ → String → Type 0
Present values n = is_some (named n values) ≡ true

-- One step of the collection of names, of which a repeated one is left out.
name_step :
    (values : Named ℤ) (n : String) (rest : List String)
    → All (Present values) (n ∷ select (λ k. not (str_eq k n)) rest)
    → Present values n × All (Present values) rest
name_step values n rest h = (
  h.0,
  All-select (λ k. str_eq k n) (Present values) rest h.1
      (λ k same. subst (Present values) (sym ((eq_iff k n).0 same)) h.0),
)

all-IsMeasured :
    (values : Named ℤ) (ms : List MetricSpec)
    → All (Present values) (expected_names ms)
    → All (IsMeasured values) ms
unfolding expected_names
all-IsMeasured values [] h = tt
all-IsMeasured values (m ∷ ms) h = elim (Option-cases m.name) [
  | inl nameless ↦ (rw nameless tt, all-IsMeasured values ms (rw nameless at h))
  | inr (n, e) ↦
      let (here, rest) = name_step values n (expected_names ms) (rw e at h) in
      (rw e here, all-IsMeasured values ms rest)
]

no_errors-append : (xs ys : List MetricError) → no_errors (xs ++ ys) ≡ true → no_errors ys ≡ true
no_errors-append [] ys h = h
no_errors-append (x ∷ xs) ys h = cc

-- A file that could not be read has an error.
unread :
    (expected : List MetricSpec) (error : MetricError) (p : ParsedMetrics)
    → some (only_error error) ≡ some p
    → is_ok p ≡ true
    → All (IsMeasured p.values) expected
unread expected error p e good = let same : only_error error ≡ p = cc in cc (ap is_ok same, good)

read :
    (expected : List MetricSpec) (o : Option ParsedMetrics) (p : ParsedMetrics)
    → checked expected o ≡ some p
    → is_ok p ≡ true
    → All (IsMeasured p.values) expected
read expected none p e good = cc
read expected (some q) p e good =
    let same : with_missing expected q ≡ p = cc in
    subst (λ (x : ParsedMetrics). All (IsMeasured x.values) expected) same
      (all-IsMeasured q.values expected (
        none_missing q.values (expected_names expected)
          (no_errors-append q.errors _ (ap is_ok same ∙ good))))

-- A file that parses without an error has a value for every metric that the spec names.
pub parse_metrics-IsMeasured :
    (file : MetricsFile) (expected : List MetricSpec) (p : ParsedMetrics)
    → parse_metrics file expected ≡ some p
    → is_ok p ≡ true
    → All (IsMeasured p.values) expected
unfolding parse_metrics
parse_metrics-IsMeasured missing expected p e good = unread expected _ p e good
parse_metrics-IsMeasured corrupt expected p e good = unread expected _ p e good
parse_metrics-IsMeasured no_object expected p e good = unread expected _ p e good
parse_metrics-IsMeasured (object entries) expected p e good =
    read expected (read_entries entries) p e good
