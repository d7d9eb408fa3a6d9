-- ===== src/Verification/Judged.antt =====
-- What the verdict of libs/verification/operators/check.py says of a run and its spec.
use synthetos.Prelude.{
  ◌≡◌, refl, ◌∙◌, ◌≢◌, ◌↔◌, Bool, true, false, All, All-map, all_of, All→all_of, all_of-map,
  all_of-map_iff, and_left, and_right, and_both, if◌then◌else◌,
}
use synthetos.Execution.Metrics.{MetricVerdict}
use synthetos.Execution.{Verdict, passed, inconclusive, failed}
use synthetos.Verification.{
  compare_metric, compare_to_baseline, ArtifactCheck, check_artifact, check_artifact_contract,
  Check, last_named, output_check, build_output_contract, Evidence, all_pass, has_thresholds,
  verdict_of,
}
-- A value meets a threshold by the direction.
use synthetos.Verification.Parts.{
  IsMet, IsProvided, IsSatisfied, IsMet-iff, Fits-iff, artifact_passes, sanity_iff,
}

abbrev choose : Bool → Bool → Verdict
choose pass thresholds = if pass then (if thresholds then passed else inconclusive) else failed

not_failed_iff : (pass thresholds : Bool) → choose pass thresholds ≢ failed ↔ pass ≡ true
not_failed_iff true true = ((λ _. refl), (λ _ h. cc))
not_failed_iff true false = ((λ _. refl), (λ _ h. cc))
not_failed_iff false t = ((λ ne. absurd (ne refl)), (λ h. cc))

passed_iff :
    (pass thresholds : Bool) → choose pass thresholds ≡ passed ↔ (pass ≡ true) × (thresholds ≡ true)
passed_iff true true = ((λ _. (refl, refl)), (λ _. refl))
passed_iff true false = ((λ h. cc), (λ h. cc h.1))
passed_iff false t = ((λ h. cc), (λ h. cc h.0))

module _ (e : Evidence) where
  metrics_iff :
      all_of
          (λ (v : MetricVerdict). v.passed)
          (compare_to_baseline e.metrics e.spec_metrics e.baseline)
        ≡ true
      ↔ All (IsMet e.metrics) e.spec_metrics
  unfolding compare_to_baseline
  metrics_iff =
      all_of-map_iff (λ (v : MetricVerdict). v.passed) (compare_metric e.metrics e.baseline)
        (IsMet e.metrics) (IsMet-iff e.metrics e.baseline) e.spec_metrics

  outputs_iff :
      all_of (λ (c : Check). c.1) (build_output_contract e.manifest e.expected) ≡ true
      ↔ All (IsProvided e.manifest) e.expected
  unfolding build_output_contract output_check
  outputs_iff =
      all_of-map_iff (λ (c : Check). c.1) (output_check e.manifest) (IsProvided e.manifest)
        (λ x. Fits-iff x (last_named x.name e.manifest)) e.expected

  artifacts_pass :
      All (IsProvided e.manifest) e.expected
      → all_of (λ (c : ArtifactCheck). c.passed) (check_artifact_contract e.manifest e.expected)
        ≡ true
  unfolding check_artifact_contract
  artifacts_pass h =
      all_of-map (λ (c : ArtifactCheck). c.passed) (check_artifact e.manifest) e.expected
      ∙ All→all_of (λ x. (check_artifact e.manifest x).passed) e.expected
          (All-map (IsProvided e.manifest) _
            (λ x. artifact_passes e.manifest x (last_named x.name e.manifest) refl) e.expected h)

  all_pass_iff : all_pass e ≡ true ↔ IsSatisfied e
  all_pass_iff = (
    (λ h.
        let met = metrics_iff.0 (and_left _ _ h) in
        let rest = and_right _ _ (and_right _ _ h) in
        (
          met,
          outputs_iff.0 (and_left _ _ rest),
          (sanity_iff e.metrics e.spec_metrics met).0 (and_right _ _ rest),
        )),
    (λ (met, outputs, within). and_both _ _ (metrics_iff.1 met) (
        and_both _ _ (artifacts_pass outputs) (
          and_both _ _ (outputs_iff.1 outputs)
            ((sanity_iff e.metrics e.spec_metrics met).1 within)))),
  )

  -- A verdict is not "failed" exactly when the run has every metric of the spec with its threshold
  -- met, every artifact that is required or there with its type, and every value in its range; it is
  -- "passed" exactly when in addition the spec has a threshold.
  pub verdict_of_iff :
      (verdict_of e ≢ failed ↔ IsSatisfied e)
      × (verdict_of e ≡ passed ↔ IsSatisfied e × (has_thresholds e.spec_metrics ≡ true))
  unfolding verdict_of
  verdict_of_iff =
      let (sound, complete) = all_pass_iff in
      let (f, g) = not_failed_iff (all_pass e) (has_thresholds e.spec_metrics) in
      let (p, q) = passed_iff (all_pass e) (has_thresholds e.spec_metrics) in
      (
        ((λ ne. sound (f ne)), (λ h. g (complete h))),
        ((λ h. let (a, t) = p h in (sound a, t)), (λ (h, t). q (complete h, t))),
      )
