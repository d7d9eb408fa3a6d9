-- ===== src/Remediation/Frontier/Again.antt =====
-- A run that is counted in the frontier of its line twice.
use mathlib.Core.Path.{subst}
use synthetos.Prelude.{
  ℕ, ==_refl, ◌≡◌, refl, ap, ◌∙◌, inl, inr, Bool, true, false, Option, none, some, List, [], ◌∷◌,
  ◌++◌, first_where, first_where-update_where, first_where-passes, update_where, Option-cases,
}
use synthetos.Prelude.Int.{ℤ}
use synthetos.Domain.{MetricFrontier}
use synthetos.Remediation.Frontier.{
  Observation, is_of_line, first_frontier, with_result, improves, upsert_frontier,
}
use synthetos.Remediation.Frontier.Summary.{not_better_self}
use synthetos.Remediation.Frontier.Best.{first_where-snoc, line-with_result, update_row-best}

-- The row of the line after the second count of the run.
abbrev pub recounted : Observation → MetricFrontier → MetricFrontier
recounted o f = with_result o false f

-- After a count of a successful run: the row of the line, and what a second count makes of it.
abbrev pub IsRecount : ℕ → ℕ → Observation → List MetricFrontier → Type 0
IsRecount charter card o table =
    (f : MetricFrontier) × (first_where (is_of_line charter card) table ≡ some f)
    × (upsert_frontier charter card o table
        ≡ some (
          recounted o f,
          false,
          update_where (is_of_line charter card) (λ _. recounted o f) table,
        ))
    × (first_where (is_of_line charter card)
          (update_where (is_of_line charter card) (λ _. recounted o f) table)
        ≡ some (recounted o f))

module _ (charter card : ℕ) (o : Observation) where
  abbrev line : MetricFrontier → Bool
  line = is_of_line charter card

  -- A row with a best value that the run does not beat.
  recount :
      (table : List MetricFrontier) (f : MetricFrontier) (best : ℤ)
      → first_where line table ≡ some f
      → f.best_metric_value ≡ some best
      → improves o best ≡ false
      → IsRecount charter card o table
  unfolding upsert_frontier
  recount table f best found has beaten = (
    f,
    found,
    rw (found, update_row-best o f f.best_metric_value best has, beaten) refl,
    first_where-update_where line (λ _. recounted o f)
        (λ _ _. line-with_result charter card o false f ∙ first_where-passes line table found) table
        f found,
  )

  not_improves_self : improves o o.metric_value ≡ false
  not_improves_self = rw (not_better_self o.metric_direction o.metric_value) refl

  after_first :
      (table : List MetricFrontier)
      → first_where line table ≡ none
      → IsRecount charter card o (table ++ first_frontier charter card o ∷ [])
  after_first table absent =
      recount (table ++ first_frontier charter card o ∷ []) (first_frontier charter card o)
        o.metric_value
        (first_where-snoc line table (first_frontier charter card o) absent
          (rw (==_refl charter, ==_refl card) refl))
        refl not_improves_self

  after_next :
      (table : List MetricFrontier) (g : MetricFrontier) (best : ℤ) (c : Bool)
      → first_where line table ≡ some g
      → g.best_metric_value ≡ some best
      → improves o best ≡ c
      → IsRecount charter card o (update_where line (λ _. with_result o c g) table)
  after_next table g best c found has e =
      let kept =
        first_where-update_where line (λ _. with_result o c g)
          (λ _ _. line-with_result charter card o c g ∙ first_where-passes line table found) table g
          found in
      go c kept e
    where
      go :
          (c : Bool)
          → first_where line (update_where line (λ _. with_result o c g) table)
            ≡ some (with_result o c g)
          → improves o best ≡ c
          → IsRecount charter card o (update_where line (λ _. with_result o c g) table)
      go true kept e =
          recount (update_where line (λ _. with_result o true g) table) (with_result o true g)
            o.metric_value kept refl not_improves_self
      go false kept e =
          recount (update_where line (λ _. with_result o false g) table) (with_result o false g)
            best kept has e

  -- Whatever the table was, if the count has not raised.
  pub upsert_frontier-again :
      (table : List MetricFrontier) (r : MetricFrontier × Bool × List MetricFrontier)
      → upsert_frontier charter card o table ≡ some r
      → IsRecount charter card o r.2
  unfolding upsert_frontier
  upsert_frontier-again table r e = elim (Option-cases (first_where line table)) [
    | inl absent ↦
        let same : table ++ first_frontier charter card o ∷ [] ≡ r.2 = ap third (rw absent at e) in
        subst (IsRecount charter card o) same (after_first table absent)
    | inr (g, found) ↦ elim (Option-cases g.best_metric_value) [
      | inl empty ↦ cc (rw (found, empty) at e)
      | inr (best, has) ↦
          let same : update_where line (λ _. with_result o (improves o best) g) table ≡ r.2 =
            ap third (rw (found, update_row-best o g g.best_metric_value best has) at e) in
          subst (IsRecount charter card o) same
            (after_next table g best (improves o best) found has refl)
    ]
  ]
    where
      third : Option (MetricFrontier × Bool × List MetricFrontier) → List MetricFrontier
      third none = []
      third (some x) = x.2
