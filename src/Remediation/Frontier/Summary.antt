-- ===== src/Remediation/Frontier/Summary.antt =====
-- A row of the frontier as the summary of the runs of its line.
use synthetos.Prelude.{
  ℕ, ◌+◌, ◌≡◌, refl, ◌∙◌, ◌≤◌, inl, inr, Bool, true, false, ◌&&◌, some, List, [], ◌∷◌,
  if◌then◌else◌, arith, length, count_if, All, All-map, InList, Bool-cases,
}
use synthetos.Prelude.Int.{ℤ}
use synthetos.Domain.{Direction, maximize, minimize, other, MetricFrontier}
use synthetos.Remediation.Frontier.{
  Observation, is_improvement, first_frontier, with_result, improves,
}

abbrev pub is_success : Observation → Bool
is_success o = o.is_successful

-- A run that does not beat the best value, or does not count because it failed.
abbrev pub IsMatched : Direction → ℤ → Observation → Type 0
IsMatched d best o = (is_improvement o.metric_value best d && o.is_successful) ≡ false

-- A run that has the value, and the identifier, of the best one.
abbrev pub IsBest : ℤ → MetricFrontier → Observation → Type 0
IsBest best f o = (o.metric_value ≡ best) × (o.run_id ≡ f.best_run_id)

-- A row that stands for runs: the counts, a best value that one of the runs has, and that no
-- successful run beats.
abbrev pub IsSummary : Direction → List Observation → MetricFrontier → Type 0
IsSummary d os f =
    (best : ℤ) × (f.best_metric_value ≡ some best)
    × (f.total_runs ≡ length os)
    × (f.successful_runs ≡ count_if is_success os)
    × (f.runs_since_improvement + 1 ≤ f.total_runs)
    × ((o : Observation) × InList o os × IsBest best f o)
    × All (IsMatched d best) os

not_better_trans :
    (d : Direction) (x a b : ℤ)
    → is_improvement x a d ≡ false
    → is_improvement b a d ≡ true
    → is_improvement x b d ≡ false
unfolding is_improvement
not_better_trans maximize x a b h k = ground arith
not_better_trans minimize x a b h k = ground arith
not_better_trans other x a b h k = ground arith

pub not_better_self : (d : Direction) (x : ℤ) → is_improvement x x d ≡ false
unfolding is_improvement
not_better_self maximize x = ground arith
not_better_self minimize x = ground arith
not_better_self other x = ground arith

-- What an improved value matches, and what it beats.
still-IsMatched :
    (d : Direction) (best new : ℤ) (o : Observation)
    → is_improvement new best d ≡ true
    → IsMatched d best o
    → IsMatched d new o
still-IsMatched d best new o better h = elim (Bool-cases (is_improvement o.metric_value best d)) [
  | inl e ↦ ground (arith, rw e at h)
  | inr e ↦ rw (not_better_trans d o.metric_value best new e better) refl
]

and_true : (a b : Bool) → (a && b) ≡ true → (a ≡ true) × (b ≡ true)
and_true true b h = (refl, h)
and_true false b h = cc

pub first-IsSummary :
    (charter card : ℕ) (o : Observation)
    → IsSummary o.metric_direction (o ∷ []) (first_frontier charter card o)
first-IsSummary charter card o = (
  o.metric_value,
  refl,
  refl,
  omega arith,
  omega arith,
  (o, inl refl, (refl, refl)),
  (rw (not_better_self o.metric_direction o.metric_value) refl, tt),
)

count-IsSummary :
    (o : Observation) (os : List Observation) (n : ℕ)
    → n ≡ count_if is_success os
    → (if o.is_successful then n + 1 else n) ≡ count_if is_success (o ∷ os)
count-IsSummary o os n e = ground arith

older-IsBest :
    (best : ℤ) (f g : MetricFrontier) (o : Observation) (os : List Observation)
    → f.best_run_id ≡ g.best_run_id
    → (x : Observation) × InList x os × IsBest best f x
    → (x : Observation) × InList x (o ∷ os) × IsBest best g x
older-IsBest best f g o os e (x, found, (value, id)) = (x, inr found, (value, id ∙ e))

-- One more run for a row that stands for the runs before it.
pub with_result-IsSummary :
    (o : Observation) (os : List Observation) (f : MetricFrontier) (best : ℤ) (c : Bool)
    → improves o best ≡ c
    → f.total_runs ≡ length os
    → f.successful_runs ≡ count_if is_success os
    → f.runs_since_improvement + 1 ≤ f.total_runs
    → (x : Observation) × InList x os × IsBest best f x
    → f.best_metric_value ≡ some best
    → All (IsMatched o.metric_direction best) os
    → IsSummary o.metric_direction (o ∷ os) (with_result o c f)
with_result-IsSummary o os f best true beats total good since was has matched =
    let d = o.metric_direction in
    let (better, success) = and_true (is_improvement o.metric_value best d) o.is_successful beats in
    (
      o.metric_value,
      refl,
      omega (arith, total),
      count-IsSummary o os f.successful_runs good,
      omega arith,
      (o, inl refl, (refl, refl)),
      (
        rw (not_better_self d o.metric_value) refl,
        All-map (IsMatched d best) (IsMatched d o.metric_value)
            (λ x. still-IsMatched d best o.metric_value x better) os matched,
      ),
    )
with_result-IsSummary o os f best false beats total good since was has matched = (
  best,
  has,
  omega (arith, total),
  count-IsSummary o os f.successful_runs good,
  omega (arith, since),
  older-IsBest best f (with_result o false f) o os refl was,
  (beats, matched),
)
