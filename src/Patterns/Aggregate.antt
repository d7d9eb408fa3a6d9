-- ===== src/Patterns/Aggregate.antt =====
-- The aggregation of candidates: aggregate of libs/patterns/consolidation.py. The candidates of an
-- aggregation stand beside it. Of the items sorted by time only the times of the first and the last
-- are kept, the least and the greatest; titles, summaries and bodies are left out, and a set of
-- charters is a list without repetition.
pub mod Fields
use Prim.Native.String.{String}
use text.Mathlib.Text.{◌==◌ as str_eq}
use text.Mathlib.TextEquality.{eq_iff}
use mathlib.Core.Path.{ap₂}
use mathlib.Core.List.{append-nil, append_assoc}
use synthetos.Prelude.{
  ℕ, min, max, ◌≡◌, refl, sym, ap, ◌∙◌, inl, inr, Bool, true, false, ◌&&◌, List, [], ◌∷◌, ◌++◌, map,
  length, if◌then◌else◌, select, Bool-cases, and_left, and_right,
}
use synthetos.Patterns.Upsert.{AggregatedPattern, add_ids}

pub record PatternCandidate : Type 0 where
  pub pattern_type : String
  pub content_key : String
  pub charter_id : ℕ
  pub source_artifact_type : String
  pub source_artifact_id : ℕ
  pub observed_at : ℕ

-- An entry of `groups`.
pub record Group : Type 0 where
  pub pattern_type : String
  pub content_key : String
  pub items : List PatternCandidate

abbrev pub is_key : String → String → String → String → Bool
is_key t k pattern_type content_key = str_eq pattern_type t && str_eq content_key k

abbrev pub is_group_of : String → String → Group → Bool
is_group_of t k g = is_key t k g.pattern_type g.content_key

abbrev pub is_candidate_of : String → String → PatternCandidate → Bool
is_candidate_of t k c = is_key t k c.pattern_type c.content_key

abbrev pub with_item : PatternCandidate → Group → Group
with_item c g = record g { items = g.items ++ c ∷ [] }

-- `groups[key].append(c)`; a new key stands last.
unfoldable pub add_to_group : PatternCandidate → List Group → List Group
add_to_group c [] =
    record { pattern_type = c.pattern_type; content_key = c.content_key; items = c ∷ [] } ∷ []
add_to_group c (g ∷ gs) =
    let rest = add_to_group c gs in
    if is_group_of c.pattern_type c.content_key g then with_item c g ∷ gs else g ∷ rest

abbrev pub group_all : List Group → List PatternCandidate → List Group
group_all groups [] = groups
group_all groups (c ∷ cs) = group_all (add_to_group c groups) cs

abbrev pub earliest : List PatternCandidate → ℕ
earliest [] = 0
earliest (c ∷ []) = c.observed_at
earliest (c ∷ d ∷ cs) = min c.observed_at (earliest (d ∷ cs))

abbrev pub latest : List PatternCandidate → ℕ
latest [] = 0
latest (c ∷ cs) = max c.observed_at (latest cs)

abbrev pub charters : List PatternCandidate → List ℕ
charters cs = add_ids [] (map (λ (c : PatternCandidate). c.charter_id) cs)

-- One aggregation with its candidates.
abbrev pub aggregated :
    String → String → List PatternCandidate → AggregatedPattern × List PatternCandidate
aggregated t k items = (
  record {
    pattern_type = t;
    content_key = k;
    evidence_count = length items;
    charter_ids = charters items;
    first_observed_at = earliest items;
    last_observed_at = latest items;
  },
  items,
)

abbrev pub of_group : Group → AggregatedPattern × List PatternCandidate
of_group g = aggregated g.pattern_type g.content_key g.items

unfoldable pub aggregate : List PatternCandidate → List (AggregatedPattern × List PatternCandidate)
unfolding add_to_group
aggregate candidates = map of_group (group_all [] candidates)

-- The aggregations of a key, and what they are to be: one of all its candidates in their order.
abbrev pub is_aggregated_of : String → String → AggregatedPattern × List PatternCandidate → Bool
is_aggregated_of t k a = is_key t k a.0.pattern_type a.0.content_key

abbrev pub aggregated_rows :
    String → String → List PatternCandidate → List (AggregatedPattern × List PatternCandidate)
aggregated_rows t k [] = []
aggregated_rows t k (c ∷ cs) = aggregated t k (c ∷ cs) ∷ []

module _ (t k : String) where
  abbrev own : Group → Bool
  own = is_group_of t k

  -- What one more candidate of the key makes of its groups, and what several make of them.
  abbrev next : PatternCandidate → List Group → List Group
  next c [] = record { pattern_type = t; content_key = k; items = c ∷ [] } ∷ []
  next c (g ∷ gs) = with_item c g ∷ gs

  abbrev next_all : List Group → List PatternCandidate → List Group
  next_all rows [] = rows
  next_all rows (c ∷ cs) = next_all (next c rows) cs

  key_type : (a b : String) → is_key t k a b ≡ true → a ≡ t
  key_type a b h = (eq_iff a t).0 (and_left (str_eq a t) (str_eq b k) h)

  key_key : (a b : String) → is_key t k a b ≡ true → b ≡ k
  key_key a b h = (eq_iff b k).0 (and_right (str_eq a t) (str_eq b k) h)

  select-add-own :
      (c : PatternCandidate) (gs : List Group)
      → is_candidate_of t k c ≡ true
      → select own (add_to_group c gs) ≡ next c (select own gs)
  unfolding add_to_group
  select-add-own c [] hit = rw hit (
      ap₂ (λ a b. (record { pattern_type = a; content_key = b; items = c ∷ [] }) ∷ [])
        (key_type c.pattern_type c.content_key hit) (key_key c.pattern_type c.content_key hit))
  select-add-own c (g ∷ gs) hit =
      let same : is_group_of c.pattern_type c.content_key g ≡ own g =
        ap₂ (λ a b. is_group_of a b g) (key_type c.pattern_type c.content_key hit)
          (key_key c.pattern_type c.content_key hit) in
      elim (Bool-cases (own g)) [
        | inl h ↦ rw (same ∙ h, h) refl
        | inr h ↦ rw (same ∙ h, h) (select-add-own c gs hit)
      ]

  select-add-other :
      (c : PatternCandidate) (gs : List Group)
      → is_candidate_of t k c ≡ false
      → select own (add_to_group c gs) ≡ select own gs
  unfolding add_to_group
  select-add-other c [] miss = rw miss refl
  select-add-other c (g ∷ gs) miss =
      elim (Bool-cases (is_group_of c.pattern_type c.content_key g)) [
        | inl h ↦
            let same_type : g.pattern_type ≡ c.pattern_type =
              (eq_iff g.pattern_type c.pattern_type).0 (
                and_left (str_eq g.pattern_type c.pattern_type) (str_eq g.content_key c.content_key)
                  h) in
            let same_key : g.content_key ≡ c.content_key = (eq_iff g.content_key c.content_key).0 (
              and_right (str_eq g.pattern_type c.pattern_type) (str_eq g.content_key c.content_key)
                h) in
            let other : own g ≡ false = rw (same_type, same_key) miss in rw (h, other) refl
        | inr h ↦ rw (h, select-add-other c gs miss) refl
      ]

  select-group_all :
      (gs : List Group) (cs : List PatternCandidate)
      → select own (group_all gs cs) ≡ next_all (select own gs) (select (is_candidate_of t k) cs)
  select-group_all gs [] = refl
  select-group_all gs (c ∷ cs) = elim (Bool-cases (is_candidate_of t k c)) [
    | inl hit ↦ rw hit (
        select-group_all (add_to_group c gs) cs
        ∙ ap (λ rows. next_all rows (select (is_candidate_of t k) cs)) (select-add-own c gs hit))
    | inr miss ↦ rw miss (
        select-group_all (add_to_group c gs) cs
        ∙ ap (λ rows. next_all rows (select (is_candidate_of t k) cs)) (select-add-other c gs miss))
  ]

  -- The groups that candidates make of none.
  next_all-one :
      (items cs : List PatternCandidate)
      → next_all (record { pattern_type = t; content_key = k; items = items } ∷ []) cs
        ≡ record { pattern_type = t; content_key = k; items = items ++ cs } ∷ []
  next_all-one items [] =
      ap (λ is. record { pattern_type = t; content_key = k; items = is } ∷ [])
        (sym (append-nil items))
  next_all-one items (c ∷ cs) =
      next_all-one (items ++ c ∷ []) cs
      ∙ ap (λ is. record { pattern_type = t; content_key = k; items = is } ∷ [])
          (append_assoc items (c ∷ []) cs)

  select-groups :
      (gs : List Group)
      → select (is_aggregated_of t k) (map of_group gs) ≡ map of_group (select own gs)
  select-groups [] = refl
  select-groups (g ∷ gs) = elim (Bool-cases (own g)) [
    | inl h ↦ rw (h, select-groups gs) refl
    | inr h ↦ rw (h, select-groups gs) refl
  ]

  rows_of_key :
      (cs : List PatternCandidate) → map of_group (next_all [] cs) ≡ aggregated_rows t k cs
  rows_of_key [] = refl
  rows_of_key (c ∷ cs) = ap (map of_group) (next_all-one (c ∷ []) cs)

pub select-aggregate :
    (t k : String) (candidates : List PatternCandidate)
    → select (is_aggregated_of t k) (aggregate candidates)
      ≡ aggregated_rows t k (select (is_candidate_of t k) candidates)
unfolding aggregate
select-aggregate t k candidates =
    select-groups t k (group_all [] candidates)
    ∙ ap (map of_group) (select-group_all t k [] candidates)
    ∙ rows_of_key t k (select (is_candidate_of t k) candidates)
