-- ===== src/Patterns/Decay.antt =====
-- The decay of patterns: libs/patterns/decay.py. Times are in microseconds, and a score is compared
-- with a number by comparing the age with so many times the stale window; the rounded score that the
-- row keeps is left out.
use synthetos.Prelude.{
  ℕ, ◌+◌, ◌-◌, ◌*◌, leb, ltb, ◌≡◌, refl, ◌≤◌, ◌<◌, Bool, false, ◌&&◌, not, Option, none, some,
  if◌then◌else◌, arith,
}
use synthetos.Patterns.{TrustTier, auto, curated, deprecated, is_tier}

pub record CanonicalPattern : Type 0 where
  pub trust_tier : TrustTier
  pub last_reinforced_at : Option ℕ
  pub last_observed_at : Option ℕ
  pub evidence_count : ℕ

pub record DecayOutcome : Type 0 where
  pub previous_tier : TrustTier
  pub new_tier : TrustTier
  pub demoted : Bool
  pub is_deprecated : Bool

abbrev pub first_of : Option ℕ → Option ℕ → Option ℕ
first_of none b = b
first_of (some a) b = some a

-- `max(0, now - last)`, and 0 for a pattern that was never seen.
abbrev pub age : ℕ → Option ℕ → ℕ
age now none = 0
age now (some last) = now - last

abbrev pub day : ℕ
day = 86400000000

-- `score >= times`; with no stale window the score is 0.
abbrev pub score_reaches : ℕ → ℕ → ℕ → Bool
score_reaches times max_staleness_days aged =
    ltb 0 max_staleness_days && leb (times * (max_staleness_days * day)) aged

-- The tier after an evaluation, by whether the score reaches 1 and 2.
abbrev pub tier_by : Bool → Bool → TrustTier → TrustTier
tier_by old very_old auto = if old then curated else auto
tier_by old very_old curated = if very_old then deprecated else curated
tier_by old very_old deprecated = deprecated

abbrev pub aged_tier : TrustTier → ℕ → ℕ → TrustTier
aged_tier t days aged = tier_by (score_reaches 1 days aged) (score_reaches 2 days aged) t

abbrev pub outcome : TrustTier → TrustTier → DecayOutcome
outcome previous new = record {
  previous_tier = previous;
  new_tier = new;
  demoted = is_tier previous auto && is_tier new curated;
  is_deprecated = is_tier new deprecated && not (is_tier previous deprecated);
}

unfoldable pub evaluate : CanonicalPattern → ℕ → ℕ → Bool → DecayOutcome
evaluate pattern now max_staleness_days force =
    let aged = age now (first_of pattern.last_reinforced_at pattern.last_observed_at) in
    let new_tier = aged_tier pattern.trust_tier max_staleness_days aged in
    outcome pattern.trust_tier
      (if force && leb pattern.evidence_count 0 then deprecated else new_tier)

-- How far a tier has fallen.
abbrev pub fall : TrustTier → ℕ
fall auto = 0
fall curated = 1
fall deprecated = 2

-- What a pattern is aged by at a time.
abbrev pub aged_of : CanonicalPattern → ℕ → ℕ
aged_of p now = age now (first_of p.last_reinforced_at p.last_observed_at)

aged_tier-fall :
    (t : TrustTier) (days aged : ℕ)
    → (fall t ≤ fall (aged_tier t days aged)) × (fall (aged_tier t days aged) ≤ fall t + 1)
aged_tier-fall auto days aged = (omega arith, ground arith)
aged_tier-fall curated days aged = (ground arith, ground arith)
aged_tier-fall deprecated days aged = (omega arith, omega arith)

-- One evaluation without force moves a tier one step down at most and never up; and with a stale
-- window, a pattern younger than the window keeps its tier.
pub evaluate-fall :
    (p : CanonicalPattern) (now days : ℕ)
    → let new = (evaluate p now days false).new_tier in
      (fall p.trust_tier ≤ fall new)
      × (fall new ≤ fall p.trust_tier + 1)
      × (aged_of p now < days * day → new ≡ p.trust_tier)
unfolding evaluate
evaluate-fall p now days =
    let (low, high) = aged_tier-fall p.trust_tier days (aged_of p now) in
    (low, high, λ young. fresh p.trust_tier days (aged_of p now) young)
  where
    fresh : (t : TrustTier) (d a : ℕ) → a < d * day → aged_tier t d a ≡ t
    fresh auto d a young = ground arith
    fresh curated d a young = ground arith
    fresh deprecated d a young = refl
