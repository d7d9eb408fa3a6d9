-- ===== src/Patterns/Upsert.antt =====
-- The row of a pattern: upsert_pattern of libs/patterns/upsert.py, with compute_confidence and what
-- it reads of an aggregation, of consolidation.py. A confidence is in hundredths; the title, the
-- summary, the body and the staleness are left out. A set of identifiers is a list without
-- repetition, since the order in which Python lists a set is not the code's.
pub mod Calls
pub mod Summary
use Prim.Native.String.{String}
use text.Mathlib.Text.{◌==◌ as str_eq}
use synthetos.Prelude.{
  ℕ, ◌+◌, ◌*◌, ◌==◌, ltb, min, max, Bool, true, false, ◌&&◌, Option, none, some, List, [], ◌∷◌,
  ◌++◌, length, if◌then◌else◌, any_of, select, update_where,
}
use synthetos.Patterns.{TrustTier, auto, curated, deprecated, is_tier}

pub record AggregatedPattern : Type 0 where
  pub pattern_type : String
  pub content_key : String
  pub evidence_count : ℕ
  pub charter_ids : List ℕ
  pub first_observed_at : ℕ
  pub last_observed_at : ℕ

pub record CanonicalPattern : Type 0 where
  pub id : ℕ
  pub pattern_type : String
  pub content_key : String
  pub evidence_count : ℕ
  pub confidence : ℕ
  pub trust_tier : TrustTier
  pub first_observed_at : ℕ
  pub last_observed_at : ℕ
  pub last_reinforced_at : ℕ
  pub source_charter_ids : List ℕ
  pub consolidation_version : ℕ

unfoldable pub cross_charter : AggregatedPattern → Bool
cross_charter agg = ltb 1 (length agg.charter_ids)

-- `min(0.35 + 0.10 * (n - 1), 0.80)`, which is 0.25 for no evidence.
unfoldable pub compute_confidence : AggregatedPattern → ℕ
unfolding cross_charter
compute_confidence agg =
    let base = min (25 + 10 * agg.evidence_count) 80 in
    if cross_charter agg then min (base + 10) 95 else base

abbrev pub add_id : List ℕ → ℕ → List ℕ
add_id ids i = if any_of (λ j. j == i) ids then ids else ids ++ i ∷ []

abbrev pub add_ids : List ℕ → List ℕ → List ℕ
add_ids ids [] = ids
add_ids ids (i ∷ is) = add_ids (add_id ids i) is

-- The rows of a key.
abbrev pub is_of : String → String → CanonicalPattern → Bool
is_of pattern_type content_key p =
    str_eq p.pattern_type pattern_type && str_eq p.content_key content_key

unfoldable pub new_pattern : ℕ → ℕ → ℕ → AggregatedPattern → CanonicalPattern
new_pattern id now version agg = record {
  id = id;
  pattern_type = agg.pattern_type;
  content_key = agg.content_key;
  evidence_count = agg.evidence_count;
  confidence = compute_confidence agg;
  trust_tier = auto;
  first_observed_at = agg.first_observed_at;
  last_observed_at = agg.last_observed_at;
  last_reinforced_at = now;
  source_charter_ids = agg.charter_ids;
  consolidation_version = version;
}

unfoldable pub reinforce : ℕ → ℕ → AggregatedPattern → CanonicalPattern → CanonicalPattern
unfolding cross_charter
reinforce now version agg existing =
    let new_conf = compute_confidence agg in
    record existing {
      source_charter_ids = add_ids (add_ids [] existing.source_charter_ids) agg.charter_ids;
      evidence_count = max existing.evidence_count agg.evidence_count;
      confidence = if ltb existing.confidence new_conf then new_conf else existing.confidence;
      last_observed_at = max existing.last_observed_at agg.last_observed_at;
      last_reinforced_at = now;
      consolidation_version = version;
      trust_tier =
          if is_tier existing.trust_tier deprecated && cross_charter agg
          then curated
          else existing.trust_tier;
    }

-- The row, whether it was created, and the table; `scalar_one_or_none` raises for several rows.
unfoldable pub of_existing :
    ℕ
    → ℕ
    → ℕ
    → AggregatedPattern
    → List CanonicalPattern
    → List CanonicalPattern
    → Option (CanonicalPattern × Bool × List CanonicalPattern)
of_existing id now version agg table [] =
    let p = new_pattern id now version agg in some (p, true, table ++ p ∷ [])
of_existing id now version agg table (p ∷ []) = some (
  reinforce now version agg p,
  false,
  update_where (is_of agg.pattern_type agg.content_key) (reinforce now version agg) table,
)
of_existing id now version agg table (p ∷ q ∷ ps) = none

unfoldable pub upsert_pattern :
    ℕ
    → ℕ
    → ℕ
    → AggregatedPattern
    → List CanonicalPattern
    → Option (CanonicalPattern × Bool × List CanonicalPattern)
unfolding of_existing
upsert_pattern id now version agg table =
    of_existing id now version agg table (select (is_of agg.pattern_type agg.content_key) table)
