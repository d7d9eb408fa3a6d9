-- ===== src/Verification/Parts.antt =====
-- What a metric, an artifact and a range are to fulfil, and that the parts of the verdict test for it.
use Prim.Native.String.{String}
use text.Mathlib.Text.{◌==◌ as str_eq}
use text.Mathlib.TextEquality.{eq_iff}
use mathlib.Core.Path.{subst}
use synthetos.Prelude.{
  ◌≡◌, refl, sym, ap, ◌∙◌, ◌↔◌, ◌⊎◌, inl, inr, Bool, true, false, ◌&&◌, ◌||◌, not, Option, none,
  some, List, [], ◌∷◌, ◌++◌, map, All, Bool-cases, Option-cases, is_some, any_of, all_of,
  all_of-append, all_of-map, all_of-map_iff, and_left, and_right, and_both, select, arith,
}
use synthetos.Prelude.Int.{ℤ, leb_ℤ, ◌≤ℤ◌}
use synthetos.Domain.{Direction, maximize, minimize, other}
use synthetos.Execution.Metrics.{Named, named, MetricSpec, reaches}
use synthetos.Execution.{Artifact, ExpectedArtifact}
use synthetos.Verification.{
  name_of, metric_verdict, type_fits, range_fits, compare_metric, has_name, check_artifact, Check,
  last_named, is_named, last_spec, at_least, at_most, in_range, build_metric_sanity, Evidence,
}

abbrev Reaches : Direction → ℤ → Option ℤ → Type 0
Reaches direction value none = Unit
Reaches maximize value (some t) = t ≤ℤ value
Reaches minimize value (some t) = value ≤ℤ t
Reaches other value (some t) = value ≤ℤ t

-- The run has the metric, and it meets its threshold if there is one.
abbrev pub IsMet : Named ℤ → MetricSpec → Type 0
IsMet values m =
    (value : ℤ) × (named (name_of m) values ≡ some value) × Reaches m.direction value m.threshold

abbrev Fits : ExpectedArtifact → Option Artifact → Type 0
Fits e none = e.required ≡ false
Fits e (some a) = (e.type ≡ "") ⊎ ((e.type ≡ a.suffix) ⊎ (e.type ≡ "file"))

-- The artifact is there, with the expected type if one is named, or it is not required.
abbrev pub IsProvided : List Artifact → ExpectedArtifact → Type 0
IsProvided manifest e = Fits e (last_named e.name manifest)

abbrev Above : Option ℤ → ℤ → Type 0
Above none value = Unit
Above (some low) value = low ≤ℤ value

abbrev Below : Option ℤ → ℤ → Type 0
Below none value = Unit
Below (some high) value = value ≤ℤ high

abbrev InRange : ℤ → Option MetricSpec → Type 0
InRange value none = Unit
InRange value (some m) = Above m.min value × Below m.max value

-- A value of the run lies in the range of the spec's last metric of its name.
abbrev IsWithin : List MetricSpec → String × ℤ → Type 0
IsWithin ms e = InRange e.1 (last_spec e.0 ms)

abbrev pub IsSatisfied : Evidence → Type 0
IsSatisfied e =
    All (IsMet e.metrics) e.spec_metrics
    × All (IsProvided e.manifest) e.expected
    × All (IsWithin e.spec_metrics) e.metrics

leb→le_ℤ : (a b : ℤ) → leb_ℤ a b ≡ true → a ≤ℤ b
leb→le_ℤ a b h = ground arith

le→leb_ℤ : (a b : ℤ) → a ≤ℤ b → leb_ℤ a b ≡ true
le→leb_ℤ a b h = ground arith

threshold_iff :
    (d : Direction) (value : ℤ) (t : Option ℤ)
    → (elim t [ none ↦ true | some x ↦ reaches d value x ]) ≡ true ↔ Reaches d value t
unfolding reaches
threshold_iff d value none = ((λ _. tt), (λ _. refl))
threshold_iff maximize value (some t) = (leb→le_ℤ t value, le→leb_ℤ t value)
threshold_iff minimize value (some t) = (leb→le_ℤ value t, le→leb_ℤ value t)
threshold_iff other value (some t) = (leb→le_ℤ value t, le→leb_ℤ value t)

found_iff :
    (values baseline : Named ℤ) (m : MetricSpec) (o : Option ℤ)
    → named (name_of m) values ≡ o
    → (metric_verdict baseline m o).passed ≡ true ↔ IsMet values m
unfolding metric_verdict
found_iff values baseline m none gone = ((λ h. cc), (λ h. cc (gone, h.1)))
found_iff values baseline m (some v) found = (
  (λ h. (v, found, (threshold_iff m.direction v m.threshold).0 h)),
  (λ (w, found', good).
      let same : w ≡ v = cc (found, found') in
      (threshold_iff m.direction v m.threshold).1
        (subst (λ x. Reaches m.direction x m.threshold) same good)),
)

pub IsMet-iff :
    (values baseline : Named ℤ) (m : MetricSpec)
    → (compare_metric values baseline m).passed ≡ true ↔ IsMet values m
unfolding compare_metric
IsMet-iff values baseline m = found_iff values baseline m (named (name_of m) values) refl

-- The two checks of an expected artifact; the first is implied by the second.
or_cases : (a b : Bool) → (a || b) ≡ true → (a ≡ true) ⊎ (b ≡ true)
or_cases true b h = inl refl
or_cases false b h = inr h

or_left : (a b : Bool) → a ≡ true → (a || b) ≡ true
or_left a b h = rw h refl

or_right : (a b : Bool) → b ≡ true → (a || b) ≡ true
or_right true b h = refl
or_right false b h = h

not-false : (b : Bool) → not b ≡ true → b ≡ false
not-false true h = cc
not-false false h = refl

pub Fits-iff : (e : ExpectedArtifact) (o : Option Artifact) → type_fits e o ≡ true ↔ Fits e o
Fits-iff e none = (not-false e.required, (λ h. rw h refl))
Fits-iff e (some a) = (forth, back)
  where
    text : (s t : String) → str_eq s t ≡ true → s ≡ t
    text s t = (eq_iff s t).0

    forth :
        (str_eq e.type "" || (str_eq e.type a.suffix || str_eq e.type "file")) ≡ true
        → Fits e (some a)
    forth h = elim (or_cases (str_eq e.type "") _ h) [
      | inl k ↦ inl (text e.type "" k)
      | inr k ↦ elim (or_cases (str_eq e.type a.suffix) _ k) [
        | inl l ↦ inr (inl (text e.type a.suffix l))
        | inr l ↦ inr (inr (text e.type "file" l))
      ]
    ]

    back :
        Fits e (some a)
        → (str_eq e.type "" || (str_eq e.type a.suffix || str_eq e.type "file")) ≡ true
    back (inl k) = or_left _ _ ((eq_iff e.type "").1 k)
    back (inr (inl k)) = or_right (str_eq e.type "") _ (or_left _ _ ((eq_iff e.type a.suffix).1 k))
    back (inr (inr k)) =
        or_right (str_eq e.type "") _
          (or_right (str_eq e.type a.suffix) _ ((eq_iff e.type "file").1 k))

last_named-any :
    (name : String) (manifest : List Artifact) {a : Artifact}
    → last_named name manifest ≡ some a
    → any_of (has_name name) manifest ≡ true
last_named-any name [] h = cc
last_named-any name (b ∷ bs) {a} h = elim (Option-cases (last_named name bs)) [
  | inl gone ↦ elim (Bool-cases (has_name name b)) [
    | inl hit ↦ rw hit refl
    | inr miss ↦ cc (rw (gone, miss) at h)
  ]
  | inr (c, found) ↦ or_right (has_name name b) _ (last_named-any name bs found)
]

pub artifact_passes :
    (manifest : List Artifact) (e : ExpectedArtifact) (o : Option Artifact)
    → last_named e.name manifest ≡ o
    → Fits e o
    → (check_artifact manifest e).passed ≡ true
unfolding check_artifact
artifact_passes manifest e none gone h = or_right (any_of (has_name e.name) manifest) _ (rw h refl)
artifact_passes manifest e (some a) found h =
    or_left _ (not e.required) (last_named-any e.name manifest found)

Above-iff : (low : Option ℤ) (value : ℤ) → at_least low value ≡ true ↔ Above low value
Above-iff none value = ((λ _. tt), (λ _. refl))
Above-iff (some low) value = (leb→le_ℤ low value, le→leb_ℤ low value)

Below-iff : (high : Option ℤ) (value : ℤ) → at_most high value ≡ true ↔ Below high value
Below-iff none value = ((λ _. tt), (λ _. refl))
Below-iff (some high) value = (leb→le_ℤ value high, le→leb_ℤ value high)

range_iff : (value : ℤ) (o : Option MetricSpec) → range_fits value o ≡ true ↔ InRange value o
range_iff value none = ((λ _. tt), (λ _. refl))
range_iff value (some m) = (
  (λ h. (
    (Above-iff m.min value).0 (and_left (at_least m.min value) _ h),
    (Below-iff m.max value).0 (and_right (at_least m.min value) _ h),
  )),
  (λ h. and_both _ _ ((Above-iff m.min value).1 h.0) ((Below-iff m.max value).1 h.1)),
)

-- No metric of the spec is missing in the run.
none_absent :
    (values : Named ℤ) (ms : List MetricSpec)
    → All (IsMet values) ms
    → all_of
        (λ (c : Check). c.1)
        (map
          (λ m. (name_of m, false))
          (select (λ m. is_named m && not (is_some (named (name_of m) values))) ms))
      ≡ true
none_absent values [] h = refl
none_absent values (m ∷ ms) ((v, found, good), rest) = elim (Bool-cases (is_named m)) [
  | inl has ↦ rw (found, has) (none_absent values ms rest)
  | inr nameless ↦ rw (found, nameless) (none_absent values ms rest)
]

always_true : (es : Named ℤ) → all_of (λ (e : String × ℤ). true) es ≡ true
always_true [] = refl
always_true (e ∷ es) = always_true es

-- The three checks of the metrics that the sanity check joins.
pub sanity_iff :
    (values : Named ℤ) (ms : List MetricSpec)
    → All (IsMet values) ms
    → all_of (λ (c : Check). c.1) (build_metric_sanity values ms) ≡ true ↔ All (IsWithin ms) values
unfolding build_metric_sanity in_range
sanity_iff values ms met =
    let test : Check → Bool = λ c. c.1 in
    let ranges = map (λ e. (e.0, in_range ms e)) values in
    let absent =
      map (λ m. (name_of m, false))
        (select (λ m. is_named m && not (is_some (named (name_of m) values))) ms) in
    let rows = select (λ (e : String × ℤ). not (is_some (last_spec e.0 ms))) values in
    let extra = map (λ (e : String × ℤ). (e.0, true)) rows in
    let split =
      all_of-append test (ranges ++ absent) extra
      ∙ ap (λ b. b && all_of test extra) (all_of-append test ranges absent) in
    let within =
      all_of-map_iff test (λ e. (e.0, in_range ms e)) (IsWithin ms)
        (λ e. range_iff e.1 (last_spec e.0 ms)) values in
    (
      (λ h.
          within.0
            (and_left (all_of test ranges) _ (and_left _ (all_of test extra) (sym split ∙ h)))),
      (λ h.
          split
          ∙ and_both _ _ (and_both _ _ (within.1 h) (none_absent values ms met))
              (all_of-map test (λ (e : String × ℤ). (e.0, true)) rows ∙ always_true rows)),
    )
