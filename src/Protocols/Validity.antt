-- ===== src/Protocols/Validity.antt =====
-- What a spec without an error has.
use Prim.Native.String.{String}
use mathlib.Core.Path.{subst}
use text.Mathlib.Text.{◌==◌ as str_eq}
use text.Mathlib.TextEquality.{eq_iff}
use synthetos.Prelude.{
  ℕ, suc, ◌≡◌, refl, sym, ap, ◌≢◌, ◌⊎◌, ◌↔◌, inl, inr, Bool, true, false, not, Option, none, some,
  List, [], ◌∷◌, ◌++◌, All, Bool-cases, arith,
}
use synthetos.Domain.{CodePlan}
use synthetos.Protocols.{
  MetricDef, CompiledSpec, SpecError, is_given, is_described, is_directed, error_unless,
  metric_errors, is_nonempty, has_files, plan_errors, spec_errors, validate_spec,
}

-- A text that is there and not empty.
abbrev pub IsText : Option String → Type 0
IsText o = (s : String) × (o ≡ some s) × (s ≢ "")

abbrev pub IsMetric : MetricDef → Type 0
IsMetric m = IsText m.name × ((m.direction ≡ some "maximize") ⊎ (m.direction ≡ some "minimize"))

abbrev pub IsPlan : CodePlan → Type 0
IsPlan p = IsText p.entry_point × ((fs : List (String × String)) × (p.files ≡ some fs) × (fs ≢ []))

abbrev pub IsComplete : CompiledSpec → Type 0
IsComplete s =
    ((d : Option String) × (s.baseline ≡ some d) × IsText d)
    × (s.metrics ≢ [])
    × All IsMetric s.metrics
    × ((p : CodePlan) × (s.code_plan ≡ some p) × IsPlan p)

-- A list of errors is empty when its parts are.
append_empty :
    (xs ys : List SpecError)
    → is_nonempty (xs ++ ys) ≡ false ↔ (is_nonempty xs ≡ false) × (is_nonempty ys ≡ false)
append_empty [] ys = ((λ h. (refl, h)), (λ h. h.1))
append_empty (x ∷ xs) ys = ((λ h. cc), (λ h. cc (h.0)))

error_iff : (b : Bool) (e : SpecError) → is_nonempty (error_unless b e) ≡ false ↔ b ≡ true
error_iff true e = ((λ h. refl), (λ h. refl))
error_iff false e = ((λ h. cc), (λ h. cc))

given_iff : (o : Option String) → is_given o ≡ true ↔ IsText o
given_iff none = ((λ h. cc), (λ (s, e, ne). cc))
given_iff (some s) = (
  (λ h. (s, refl, (λ e. cc (rw ((eq_iff s "").1 e) at h)))),
  (λ (t, e, ne). elim (Bool-cases (str_eq s "")) [
    | inl same ↦ absurd (ne (cc ((eq_iff s "").0 same)))
    | inr other ↦ rw other refl
  ]),
)

directed_iff :
    (o : Option String) → is_directed o ≡ true ↔ (o ≡ some "maximize") ⊎ (o ≡ some "minimize")
directed_iff none = ((λ h. cc), (λ h. elim h [ inl e ↦ cc | inr e ↦ cc ]))
directed_iff (some d) = (
  (λ h. elim (Bool-cases (str_eq d "maximize")) [
    | inl e ↦ inl (ap some ((eq_iff d "maximize").0 e))
    | inr e ↦ inr (ap some ((eq_iff d "minimize").0 (rw e at h)))
  ]),
  (λ h. ground (arith, h, eq_iff d "maximize", eq_iff d "minimize")),
)

metrics_iff :
    (i : ℕ) (ms : List MetricDef) → is_nonempty (metric_errors i ms) ≡ false ↔ All IsMetric ms
metrics_iff i [] = ((λ h. tt), (λ h. refl))
metrics_iff i (m ∷ ms) =
    let (a, b) = append_empty (error_unless (is_given m.name) (SpecError.metric_unnamed i)) (
      error_unless (is_directed m.direction) (SpecError.metric_undirected i)
      ++ metric_errors (suc i) ms) in
    let (c, d) =
      append_empty (error_unless (is_directed m.direction) (SpecError.metric_undirected i))
        (metric_errors (suc i) ms) in
    let (rest, rest') = metrics_iff (suc i) ms in
    let named = error_iff (is_given m.name) (SpecError.metric_unnamed i) in
    let directed = error_iff (is_directed m.direction) (SpecError.metric_undirected i) in
    (
      (λ h.
          let (x, y) = a h in
          let (z, w) = c y in
          (
            ((given_iff m.name).0 (named.0 x), (directed_iff m.direction).0 (directed.0 z)),
            rest w,
          )),
      (λ h. b (
        named.1 ((given_iff m.name).1 h.0.0),
        d (directed.1 ((directed_iff m.direction).1 h.0.1), rest' h.1),
      )),
    )

files_iff :
    (o : Option (List (String × String)))
    → has_files o ≡ true ↔ (fs : List (String × String)) × (o ≡ some fs) × (fs ≢ [])
files_iff none = ((λ h. cc), (λ (fs, e, ne). cc))
files_iff (some []) = ((λ h. cc), (λ (fs, e, ne). absurd (ne (cc))))
files_iff (some (f ∷ fs)) = ((λ h. (f ∷ fs, refl, (λ e. cc))), (λ h. refl))

IsPlan-iff :
    (o : Option CodePlan)
    → is_nonempty (plan_errors o) ≡ false ↔ (p : CodePlan) × (o ≡ some p) × IsPlan p
IsPlan-iff none = ((λ h. cc), (λ (p, e, k). cc))
IsPlan-iff (some p) =
    let (a, b) =
      append_empty (error_unless (is_given p.entry_point) SpecError.no_entry_point)
        (error_unless (has_files p.files) SpecError.no_files) in
    let entry = error_iff (is_given p.entry_point) SpecError.no_entry_point in
    let files = error_iff (has_files p.files) SpecError.no_files in
    let both : IsPlan p → is_nonempty (plan_errors (some p)) ≡ false =
      λ k. b (entry.1 ((given_iff p.entry_point).1 k.0), files.1 ((files_iff p.files).1 k.1)) in
    (
      (λ h.
          let (x, y) = a h in
          (p, refl, ((given_iff p.entry_point).0 (entry.0 x), (files_iff p.files).0 (files.0 y)))),
      (λ (q, e, k). both (subst IsPlan (sym (same e)) k)),
    )
  where
    same : {q : CodePlan} → some p ≡ some q → p ≡ q
    same e = cc

described_iff :
    (o : Option (Option String))
    → is_described o ≡ true ↔ (d : Option String) × (o ≡ some d) × IsText d
described_iff none = ((λ h. cc), (λ (d, e, k). cc))
described_iff (some d) = (
  (λ h. (d, refl, (given_iff d).0 h)),
  (λ (c, e, k). (given_iff d).1 (subst IsText (sym (same e)) k)),
)
  where
    same : {c : Option String} → some d ≡ some c → d ≡ c
    same e = cc

nonempty_iff : (ms : List MetricDef) → is_nonempty ms ≡ true ↔ ms ≢ []
nonempty_iff [] = ((λ h. cc), (λ ne. absurd (ne refl)))
nonempty_iff (m ∷ ms) = ((λ h e. cc), (λ ne. refl))

not_iff : (b : Bool) → not b ≡ true ↔ b ≡ false
not_iff true = ((λ h. cc), (λ h. cc))
not_iff false = ((λ h. refl), (λ h. refl))

-- A spec is valid exactly when its baseline is described, it has a metric, every metric has a name
-- and a direction "maximize" or "minimize", and its plan has an entry point and a file; the stop
-- conditions play no part.
pub validate_spec_iff : (s : CompiledSpec) → (validate_spec s).valid ≡ true ↔ IsComplete s
unfolding validate_spec
validate_spec_iff s =
    let described = error_unless (is_described s.baseline) SpecError.baseline_undescribed in
    let counted = error_unless (is_nonempty s.metrics) SpecError.no_metrics in
    let metrics = metric_errors 0 s.metrics in
    let plan = plan_errors s.code_plan in
    let (a, a') = append_empty described (counted ++ (metrics ++ plan)) in
    let (b, b') = append_empty counted (metrics ++ plan) in
    let (c, c') = append_empty metrics plan in
    let base = error_iff (is_described s.baseline) SpecError.baseline_undescribed in
    let some_metric = error_iff (is_nonempty s.metrics) SpecError.no_metrics in
    (
      (λ h.
          let (x, r) = a ((not_iff (is_nonempty (spec_errors s))).0 h) in
          let (y, r') = b r in
          let (z, w) = c r' in
          (
            (described_iff s.baseline).0 (base.0 x),
            (nonempty_iff s.metrics).0 (some_metric.0 y),
            (metrics_iff 0 s.metrics).0 z,
            (IsPlan-iff s.code_plan).0 w,
          )),
      (λ (d, m, all, p). (not_iff (is_nonempty (spec_errors s))).1 (
          a' (
            base.1 ((described_iff s.baseline).1 d),
            b' (
              some_metric.1 ((nonempty_iff s.metrics).1 m),
              c' ((metrics_iff 0 s.metrics).1 all, (IsPlan-iff s.code_plan).1 p),
            ),
          ))),
    )
