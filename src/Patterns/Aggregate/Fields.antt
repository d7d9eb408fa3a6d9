-- ===== src/Patterns/Aggregate/Fields.antt =====
-- What an aggregation of libs/patterns/consolidation.py says of its candidates.
use Prim.Native.String.{String}
use mathlib.Core.Path.{subst}
use synthetos.Prelude.{
  ℕ, min, max, ◌==◌, ==_refl, ◌≡◌, refl, sym, ap, ◌∙◌, ◌≢◌, ◌↔◌, ◌⊎◌, ◌≤◌, inl, inr, Bool, true,
  false, ◌||◌, List, [], ◌∷◌, ◌++◌, map, length, select, if_cases, any_of, All, All-map, InList,
  Distinct, Distinct-append, arith,
}
use synthetos.Patterns.Upsert.{AggregatedPattern, add_id, add_ids}
use synthetos.Patterns.Upsert.Calls.{InList-add_ids}
use synthetos.Patterns.Aggregate.{
  PatternCandidate, earliest, latest, charters, aggregated, aggregated_rows, aggregate,
  is_aggregated_of, is_candidate_of, select-aggregate,
}

-- The time of a candidate, before which no candidate is, and after which none is.
abbrev pub IsFirst : List PatternCandidate → ℕ → Type 0
IsFirst cs t =
    ((c : PatternCandidate) × InList c cs × (c.observed_at ≡ t))
    × All (λ (c : PatternCandidate). t ≤ c.observed_at) cs

abbrev pub IsLast : List PatternCandidate → ℕ → Type 0
IsLast cs t =
    ((c : PatternCandidate) × InList c cs × (c.observed_at ≡ t))
    × All (λ (c : PatternCandidate). c.observed_at ≤ t) cs

-- The charters of the candidates, each once.
abbrev pub IsCharters : List PatternCandidate → List ℕ → Type 0
IsCharters cs ids =
    Distinct (λ (i : ℕ). i) ids
    × ((i : ℕ) → InList i ids ↔ ((c : PatternCandidate) × InList c cs × (c.charter_id ≡ i)))

-- The aggregations of a key by its candidates: none, or one with all of them.
abbrev pub IsAggregated :
    String
    → String
    → List PatternCandidate
    → List (AggregatedPattern × List PatternCandidate)
    → Type 0
IsAggregated t k [] rows = rows ≡ []
IsAggregated t k (c ∷ cs) rows =
    (a : AggregatedPattern) × (rows ≡ (a, c ∷ cs) ∷ [])
    × (a.pattern_type ≡ t)
    × (a.content_key ≡ k)
    × (a.evidence_count ≡ length (c ∷ cs))
    × IsFirst (c ∷ cs) a.first_observed_at
    × IsLast (c ∷ cs) a.last_observed_at
    × IsCharters (c ∷ cs) a.charter_ids

least : (a b : ℕ) → (min a b ≡ a) ⊎ (min a b ≡ b)
least a b = ground arith

greatest : (a b : ℕ) → (max a b ≡ a) ⊎ (max a b ≡ b)
greatest a b = ground arith

earliest-IsFirst :
    (c : PatternCandidate) (cs : List PatternCandidate) → IsFirst (c ∷ cs) (earliest (c ∷ cs))
earliest-IsFirst c [] = ((c, inl refl, refl), (omega arith, tt))
earliest-IsFirst c (d ∷ ds) =
    let ((x, m, e), below) = earliest-IsFirst d ds in
    let rest = earliest (d ∷ ds) in
    let lower =
      All-map (λ (y : PatternCandidate). rest ≤ y.observed_at)
        (λ (y : PatternCandidate). min c.observed_at rest ≤ y.observed_at) (λ y h. omega (arith, h))
        (d ∷ ds) below in
    (which x m e, (omega arith, lower))
  where
    which :
        (x : PatternCandidate)
        → InList x (d ∷ ds)
        → x.observed_at ≡ earliest (d ∷ ds)
        → (y : PatternCandidate) × InList y (c ∷ d ∷ ds)
          × (y.observed_at ≡ min c.observed_at (earliest (d ∷ ds)))
    which x m e = elim (least c.observed_at (earliest (d ∷ ds))) [
      | inl h ↦ (c, inl refl, sym h)
      | inr h ↦ (x, inr m, e ∙ sym h)
    ]

latest-IsLast :
    (c : PatternCandidate) (cs : List PatternCandidate) → IsLast (c ∷ cs) (latest (c ∷ cs))
latest-IsLast c [] = ((c, inl refl, omega arith), (omega arith, tt))
latest-IsLast c (d ∷ ds) =
    let ((x, m, e), above) = latest-IsLast d ds in
    let rest = latest (d ∷ ds) in
    let upper =
      All-map (λ (y : PatternCandidate). y.observed_at ≤ rest)
        (λ (y : PatternCandidate). y.observed_at ≤ max c.observed_at rest) (λ y h. omega (arith, h))
        (d ∷ ds) above in
    (which x m e, (omega arith, upper))
  where
    which :
        (x : PatternCandidate)
        → InList x (d ∷ ds)
        → x.observed_at ≡ latest (d ∷ ds)
        → (y : PatternCandidate) × InList y (c ∷ d ∷ ds)
          × (y.observed_at ≡ max c.observed_at (latest (d ∷ ds)))
    which x m e = elim (greatest c.observed_at (latest (d ∷ ds))) [
      | inl h ↦ (c, inl refl, sym h)
      | inr h ↦ (x, inr m, e ∙ sym h)
    ]

absent : (i : ℕ) (ids : List ℕ) → any_of (λ j. j == i) ids ≡ false → All (λ j. j ≢ i) ids
absent i [] h = tt
absent i (j ∷ ids) h =
    ((λ e. cc (rw (e, ==_refl i) at h)), absent i ids (later (j == i) (any_of (λ k. k == i) ids) h))
  where
    later : (a b : Bool) → (a || b) ≡ false → b ≡ false
    later true b e = cc
    later false b e = e

add_ids-Distinct :
    (ids is : List ℕ) → Distinct (λ (i : ℕ). i) ids → Distinct (λ (i : ℕ). i) (add_ids ids is)
add_ids-Distinct ids [] h = h
add_ids-Distinct ids (i ∷ is) h = add_ids-Distinct (add_id ids i) is (
    if_cases (Distinct (λ (j : ℕ). j)) (any_of (λ j. j == i) ids) ids (ids ++ i ∷ []) (λ _. h)
      (λ new. Distinct-append (λ (j : ℕ). j) ids i h (absent i ids new)))

InList-map :
    (i : ℕ) (cs : List PatternCandidate)
    → InList i (map (λ (c : PatternCandidate). c.charter_id) cs)
      ↔ ((c : PatternCandidate) × InList c cs × (c.charter_id ≡ i))
InList-map i [] = ((λ m. elim m [ ]), (λ (c, m, e). elim m [ ]))
InList-map i (x ∷ cs) =
    let (f, g) = InList-map i cs in
    (
      (λ m. elim m [ inl e ↦ (x, inl refl, e) | inr n ↦ let (c, k, e) = f n in (c, inr k, e) ]),
      (λ (c, m, e). elim m [
        | inl same ↦ inl (ap (λ (y : PatternCandidate). y.charter_id) same ∙ e)
        | inr n ↦ inr (g (c, n, e))
      ]),
    )

charters-IsCharters : (cs : List PatternCandidate) → IsCharters cs (charters cs)
charters-IsCharters cs = (
  add_ids-Distinct [] (map (λ (c : PatternCandidate). c.charter_id) cs) tt,
  (λ i.
      let ids = map (λ (c : PatternCandidate). c.charter_id) cs in
      let (f, g) = InList-add_ids i [] ids in
      let (p, q) = InList-map i cs in
      ((λ m. elim (f m) [ inl n ↦ elim n [ ] | inr n ↦ p n ]), (λ h. g (inr (q h))))),
)

rows-IsAggregated :
    (t k : String) (cs : List PatternCandidate) → IsAggregated t k cs (aggregated_rows t k cs)
rows-IsAggregated t k [] = refl
rows-IsAggregated t k (c ∷ cs) = (
  (aggregated t k (c ∷ cs)).0,
  refl,
  refl,
  refl,
  refl,
  earliest-IsFirst c cs,
  latest-IsLast c cs,
  charters-IsCharters (c ∷ cs),
)

-- Of a key with no candidate there is no aggregation, and of any other one: with all its candidates in
-- their order, their number as its evidence, the times of the first and of the last of them, and the
-- charters that they name, each once.
pub aggregate-IsAggregated :
    (t k : String) (candidates : List PatternCandidate)
    → IsAggregated t k
        (select (is_candidate_of t k) candidates)
        (select (is_aggregated_of t k) (aggregate candidates))
aggregate-IsAggregated t k candidates =
    subst (IsAggregated t k (select (is_candidate_of t k) candidates))
      (sym (select-aggregate t k candidates))
      (rows-IsAggregated t k (select (is_candidate_of t k) candidates))
