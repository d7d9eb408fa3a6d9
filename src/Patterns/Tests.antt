-- ===== src/Patterns/Tests.antt =====
-- The theorems on patterns at concrete inputs.
use synthetos.Prelude.{
  ℕ, ◌+◌, ◌*◌, ◌≡◌, refl, false, none, some, List, [], ◌∷◌, select, All, ◌↔◌, Option,
}
use synthetos.Patterns.{TrustTier, auto, curated, deprecated}
use synthetos.Patterns.Decay.{CanonicalPattern, evaluate, day}
use synthetos.Patterns.Sweep.{PatternRow, sweep, falls_twice, sweep_again}
use Prim.Native.String.{String}
use synthetos.Patterns.Upsert.{
  is_of, CanonicalPattern as UpsertedPattern, upsert_pattern, of_existing, new_pattern, reinforce,
  compute_confidence, cross_charter,
}
use synthetos.Patterns.Aggregate.Fields.{IsAggregated, aggregate-IsAggregated}
use synthetos.Patterns.Aggregate.{PatternCandidate, aggregate, is_aggregated_of, is_candidate_of}
use synthetos.Patterns.Upsert.Calls.{Call}
use synthetos.Patterns.Upsert.Summary.{upsert_all, is_call_of, IsSummary, upsert_all-IsSummary}

-- Seen 100 days ago.
abbrev pattern : CanonicalPattern
pattern = record {
  trust_tier = auto;
  last_reinforced_at = none;
  last_observed_at = some 0;
  evidence_count = 3;
}

stale_is_curated : (evaluate pattern (100 * day) 90 false).new_tier ≡ curated
unfolding evaluate
stale_is_curated = refl

-- Seen 200 days ago, and 10 days ago.
abbrev pattern_rows : List PatternRow
pattern_rows = (1, pattern) ∷ (2, record pattern { last_reinforced_at = some (190 * day) }) ∷ []

sweep_again_example :
    let run = sweep (200 * day) 90 false in
    (run (run (run pattern_rows)) ≡ run (run pattern_rows))
    × (run (run pattern_rows) ≡ run pattern_rows
        ↔ All (λ p. falls_twice (200 * day) 90 p ≡ false) pattern_rows)
sweep_again_example = sweep_again (200 * day) 90 pattern_rows

abbrev map_tiers : List PatternRow → List TrustTier
map_tiers [] = []
map_tiers (p ∷ ps) = p.1.trust_tier ∷ map_tiers ps

old_falls_twice :
    let run = sweep (200 * day) 90 false in
    (map_tiers (run pattern_rows) ≡ curated ∷ auto ∷ [])
    × (map_tiers (run (run pattern_rows)) ≡ deprecated ∷ auto ∷ [])
unfolding sweep
old_falls_twice = (refl, refl)

abbrev call_of : ℕ → String → ℕ → List ℕ → Call
call_of i key evidence ids = record {
  fresh = i;
  now = 100 + i;
  version = 1;
  agg = record {
    pattern_type = "failure";
    content_key = key;
    evidence_count = evidence;
    charter_ids = ids;
    first_observed_at = i;
    last_observed_at = 10 + i;
  };
}

-- The latest call stands first.
abbrev upserts : List Call
upserts =
    call_of 4 "a" 2 (7 ∷ 8 ∷ [])
    ∷ call_of 3 "b" 1 (7 ∷ [])
    ∷ call_of 2 "a" 4 (9 ∷ [])
    ∷ call_of 1 "a" 1 (7 ∷ [])
    ∷ []

upsert_all-IsSummary_example :
    (table : List UpsertedPattern) × (upsert_all upserts ≡ some table)
    × ((t k : String) → IsSummary (select (is_call_of t k) upserts) (select (is_of t k) table))
upsert_all-IsSummary_example = upsert_all-IsSummary upserts

abbrev confidences : Option (List UpsertedPattern) → List (ℕ × ℕ × List ℕ)
confidences none = []
confidences (some ps) = go ps
  where
    go : List UpsertedPattern → List (ℕ × ℕ × List ℕ)
    go [] = []
    go (p ∷ ps) = (p.evidence_count, p.confidence, p.source_charter_ids) ∷ go ps

upserts_merge : confidences (upsert_all upserts) ≡ (4, 65, 7 ∷ 9 ∷ 8 ∷ []) ∷ (1, 35, 7 ∷ []) ∷ []
unfolding upsert_all upsert_pattern of_existing new_pattern reinforce compute_confidence
    cross_charter
upserts_merge = refl

abbrev candidate_of : ℕ → String → ℕ → PatternCandidate
candidate_of i key charter = record {
  pattern_type = "failure";
  content_key = key;
  charter_id = charter;
  source_artifact_type = "failure_postmortem";
  source_artifact_id = i;
  observed_at = 10 * i;
}

abbrev candidates_of_two : List PatternCandidate
candidates_of_two = candidate_of 1 "a" 7 ∷ candidate_of 2 "b" 7 ∷ candidate_of 3 "a" 8 ∷ []

aggregate-IsAggregated_example :
    IsAggregated "failure" "a"
      (select (is_candidate_of "failure" "a") candidates_of_two)
      (select (is_aggregated_of "failure" "a") (aggregate candidates_of_two))
aggregate-IsAggregated_example = aggregate-IsAggregated "failure" "a" candidates_of_two
