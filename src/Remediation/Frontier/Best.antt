-- ===== src/Remediation/Frontier/Best.antt =====
-- What the frontier of libs/remediation/frontier.py says of the runs of a line.
use mathlib.Core.Path.{subst}
use synthetos.Prelude.{
  ℕ, ==_refl, ◌≡◌, refl, ◌∙◌, ap, sym, inl, inr, Bool, true, false, Option, none, some, List, [],
  ◌∷◌, ◌++◌, first_where, update_where, first_where-update_where, All, first_where-passes,
  Bool-cases,
}
use synthetos.Prelude.Int.{ℤ}
use synthetos.Domain.{Direction, MetricFrontier}
use synthetos.Remediation.Frontier.{
  Observation, is_of_line, first_frontier, with_result, improves, update_row, upsert_frontier,
}
use synthetos.Remediation.Frontier.Summary.{IsSummary, first-IsSummary, with_result-IsSummary}

abbrev pub table_of :
    Option (MetricFrontier × Bool × List MetricFrontier) → Option (List MetricFrontier)
table_of none = none
table_of (some (f, improved, table)) = some table

abbrev pub then_upsert :
    ℕ → ℕ → Observation → Option (List MetricFrontier) → Option (List MetricFrontier)
then_upsert charter card o none = none
then_upsert charter card o (some table) = table_of (upsert_frontier charter card o table)

-- The table after the runs of one line; the list has the newest run first.
pub upsert_all : ℕ → ℕ → List Observation → List MetricFrontier → Option (List MetricFrontier)
upsert_all charter card [] table = some table
upsert_all charter card (o ∷ os) table =
    then_upsert charter card o (upsert_all charter card os table)

-- The row of a line in a table stands for the runs.
abbrev pub IsLine : ℕ → ℕ → Direction → List Observation → List MetricFrontier → Type 0
IsLine charter card d os table =
    (f : MetricFrontier) × (first_where (is_of_line charter card) table ≡ some f) × IsSummary d os f

pub first_where-snoc :
    {A : Type 0} (test : A → Bool) (xs : List A) (x : A)
    → first_where test xs ≡ none
    → test x ≡ true
    → first_where test (xs ++ x ∷ []) ≡ some x
first_where-snoc test [] x e h = rw h refl
first_where-snoc test (y ∷ xs) x e h = elim (Bool-cases (test y)) [
  | inl hit ↦ cc (rw hit at e)
  | inr miss ↦ rw miss (first_where-snoc test xs x (rw miss at e) h)
]

pub line-with_result :
    (charter card : ℕ) (o : Observation) (c : Bool) (f : MetricFrontier)
    → is_of_line charter card (with_result o c f) ≡ is_of_line charter card f
line-with_result charter card o true f = refl
line-with_result charter card o false f = refl

then_upsert-first :
    (charter card : ℕ) (o : Observation) (table : List MetricFrontier)
    → first_where (is_of_line charter card) table ≡ none
    → (t : List MetricFrontier) × (then_upsert charter card o (some table) ≡ some t)
      × IsLine charter card o.metric_direction (o ∷ []) t
unfolding upsert_frontier
then_upsert-first charter card o table absent =
    let f = first_frontier charter card o in
    rw absent (
      table ++ f ∷ [],
      refl,
      (
        f,
        first_where-snoc (is_of_line charter card) table f absent
            (rw (==_refl charter, ==_refl card) refl),
        first-IsSummary charter card o,
      ),
    )

pub update_row-best :
    (o : Observation) (f : MetricFrontier) (m : Option ℤ) (best : ℤ)
    → m ≡ some best
    → update_row o f m ≡ some (with_result o (improves o best) f, improves o best)
update_row-best o f m best e = rw e refl

then_upsert-next :
    (charter card : ℕ) (o : Observation) (os : List Observation) (table : List MetricFrontier)
    → IsLine charter card o.metric_direction os table
    → (t : List MetricFrontier) × (then_upsert charter card o (some table) ≡ some t)
      × IsLine charter card o.metric_direction (o ∷ os) t
unfolding upsert_frontier
then_upsert-next charter card o os table (f, found, (best, has, total, good, since, was, matched)) =
    let c = improves o best in
    let f' = with_result o c f in
    let line = is_of_line charter card in
    rw (found, update_row-best o f f.best_metric_value best has)
      (
        update_where line (λ _. f') table,
        refl,
        (
          f',
          first_where-update_where line (λ _. f')
              (λ _ _. line-with_result charter card o c f ∙ first_where-passes line table found)
              table f found,
          with_result-IsSummary o os f best c refl total good since was has matched,
        ),
      )

-- All runs are measured in one direction.
abbrev pub IsDirected : Direction → Observation → Type 0
IsDirected d o = o.metric_direction ≡ d

-- For runs of a line that are all measured in one direction, from a table without a row for the line:
-- the upserts never raise, and they leave a row that counts the runs and the successful ones, whose
-- best value is that of the run it names, and which no successful run beats; runs without improvement
-- are fewer than the runs.
pub upsert_all-IsLine :
    (charter card : ℕ) (d : Direction) (o : Observation) (os : List Observation)
    (table : List MetricFrontier)
    → first_where (is_of_line charter card) table ≡ none
    → All (IsDirected d) (o ∷ os)
    → (t : List MetricFrontier) × (upsert_all charter card (o ∷ os) table ≡ some t)
      × IsLine charter card d (o ∷ os) t
unfolding upsert_all
upsert_all-IsLine charter card d o [] table absent (same, _) =
    subst
      (λ d.
        (t : List MetricFrontier) × (then_upsert charter card o (some table) ≡ some t)
        × IsLine charter card d (o ∷ []) t)
      same (then_upsert-first charter card o table absent)
upsert_all-IsLine charter card d o (p ∷ os) table absent (same, rest) =
    let (t, e, line) = upsert_all-IsLine charter card d p os table absent rest in
    let (t', e', line') =
      then_upsert-next charter card o (p ∷ os) t
        (subst (λ k. IsLine charter card k (p ∷ os) t) (sym same) line) in
    (
      t',
      ap (then_upsert charter card o) e ∙ e',
      subst (λ k. IsLine charter card k (o ∷ (p ∷ os)) t') same line',
    )
