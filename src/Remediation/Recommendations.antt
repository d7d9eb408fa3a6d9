-- ===== src/Remediation/Recommendations.antt =====
-- The rules of libs/remediation/recommendations.py. The texts of actions and reasons are left out.
use synthetos.Prelude.{
  ℕ, ◌==◌, leb, Bool, true, false, Option, none, some, if◌then◌else◌, ◌≡◌, refl, ◌≢◌, ◌≤◌, ◌⊎◌, inl,
  inr, ◌↔◌, arith,
}
use synthetos.Domain.{
  Signal, advancing, regressing, noisy, breakthrough, RecommendationType, mechanical_recovery,
  parameter_variation, hypothesis_pivot, continue_current, halt,
}

-- The signal is `None` for a failed run; any text that is no signal is `none` here as well.
pub record RecommendationInputs : Type 0 where
  pub signal : Option Signal
  pub runs_since_improvement : ℕ
  pub total_runs : ℕ
  pub successful_runs : ℕ
  pub remediation_attempts : ℕ
  pub remediation_exhausted : Bool
  pub has_unresolved_failures : Bool
  pub failed : Bool

abbrev pub pivot_after : ℕ
pivot_after = 5

abbrev pub by_signal : RecommendationInputs → Option Signal → RecommendationType
by_signal inputs (some breakthrough) = continue_current
by_signal inputs (some advancing) =
    if inputs.has_unresolved_failures then parameter_variation else continue_current
by_signal inputs (some Signal.stalled) =
    if leb pivot_after inputs.runs_since_improvement then hypothesis_pivot else parameter_variation
by_signal inputs (some regressing) = parameter_variation
by_signal inputs (some noisy) = parameter_variation
by_signal inputs none = parameter_variation

unfoldable pub compute_recommendation : RecommendationInputs → RecommendationType
compute_recommendation inputs =
    if inputs.failed
    then if inputs.remediation_exhausted
      then if inputs.successful_runs == 0 then hypothesis_pivot else parameter_variation
      else continue_current
    else by_signal inputs inputs.signal

-- When the rules give up a hypothesis.
abbrev pub IsPivotCase : RecommendationInputs → Type 0
IsPivotCase i =
    ((i.failed ≡ true) × (i.remediation_exhausted ≡ true) × (i.successful_runs ≡ 0))
    ⊎ ((i.failed ≡ false)
        × (i.signal ≡ some Signal.stalled)
        × (pivot_after ≤ i.runs_since_improvement))

-- When the rules go on as before.
abbrev pub IsContinueCase : RecommendationInputs → Type 0
IsContinueCase i =
    ((i.failed ≡ true) × (i.remediation_exhausted ≡ false))
    ⊎ ((i.failed ≡ false)
        × ((i.signal ≡ some breakthrough)
            ⊎ ((i.signal ≡ some advancing) × (i.has_unresolved_failures ≡ false))))

pivot-case :
    (i : RecommendationInputs) → compute_recommendation i ≡ hypothesis_pivot → IsPivotCase i
unfolding compute_recommendation
pivot-case i e = ground arith

case-pivot :
    (i : RecommendationInputs) → IsPivotCase i → compute_recommendation i ≡ hypothesis_pivot
unfolding compute_recommendation
case-pivot i (inl (f, x, s)) = rw (f, x, s) refl
case-pivot i (inr (f, s, n)) = ground arith

continue-case :
    (i : RecommendationInputs) → compute_recommendation i ≡ continue_current → IsContinueCase i
unfolding compute_recommendation
continue-case i e = ground arith

case-continue :
    (i : RecommendationInputs) → IsContinueCase i → compute_recommendation i ≡ continue_current
unfolding compute_recommendation
case-continue i (inl (f, x)) = rw (f, x) refl
case-continue i (inr (f, inl s)) = rw (f, s) refl
case-continue i (inr (f, inr (s, u))) = rw (f, s, u) refl

never_else :
    (i : RecommendationInputs)
    → (compute_recommendation i ≢ mechanical_recovery) × (compute_recommendation i ≢ halt)
unfolding compute_recommendation
never_else i = (ground arith, ground arith)

-- A hypothesis is given up exactly when a failed run has exhausted its remediation and no run was
-- successful, or a stalled one has gone too long without improvement; the current line is continued
-- exactly when a failed run has not exhausted it, on a breakthrough, or on an advance with no
-- unresolved failure; and neither a mechanical recovery nor a halt is ever recommended.
pub compute_recommendation_iff :
    (i : RecommendationInputs)
    → ((compute_recommendation i ≡ hypothesis_pivot) ↔ IsPivotCase i)
      × ((compute_recommendation i ≡ continue_current) ↔ IsContinueCase i)
      × (compute_recommendation i ≢ mechanical_recovery)
      × (compute_recommendation i ≢ halt)
compute_recommendation_iff i = (
  (pivot-case i, case-pivot i),
  (continue-case i, case-continue i),
  (never_else i).0,
  (never_else i).1,
)
