-- ===== src/Autonomy/Budget/Limits.antt =====
-- What the budget of libs/autonomy/budget.py counts, and when its checks stop the loop.
use synthetos.Prelude.{
  ℕ, ◌+◌, ◌*◌, ◌==◌, leb, ◌≡◌, refl, ◌≤◌, ◌↔◌, ◌⊎◌, Bool, true, false, Option, none, some, List, [],
  ◌∷◌, arith, if◌then◌else◌, length,
}
use synthetos.Prelude.Dict.{count_of, sum_values, sum_values-insert, lookup-insert}
use synthetos.Autonomy.{AutonomyPolicy}
use synthetos.Autonomy.Budget.{
  AutonomyBudget, max_total_runs, new_budget, increment_budget, check_budget, within, over,
}

-- The total is the sum of the runs of the hypotheses.
abbrev pub IsBalanced : AutonomyBudget → Type 0
IsBalanced b = b.total_runs ≡ sum_values b.runs_per_hypothesis

-- The runs of a sequence of hypotheses, each counted when its run completes.
pub run_all : List (ℕ × ℕ) → AutonomyBudget → AutonomyBudget
run_all [] b = b
run_all ((now, card) ∷ runs) b = run_all runs (increment_budget now card b)

-- How many of the runs were of one hypothesis.
abbrev pub runs_of : ℕ → List (ℕ × ℕ) → ℕ
runs_of card [] = 0
runs_of card ((_, k) ∷ runs) = (if k == card then 1 else 0) + runs_of card runs

increment_budget-IsBalanced :
    (now card : ℕ) (b : AutonomyBudget) → IsBalanced b → IsBalanced (increment_budget now card b)
unfolding increment_budget
increment_budget-IsBalanced now card b h = omega (
  arith,
  h,
  sum_values-insert card (count_of card b.runs_per_hypothesis + 1) b.runs_per_hypothesis,
)

count_of-increment_budget :
    (now card k : ℕ) (b : AutonomyBudget)
    → count_of k (increment_budget now card b).runs_per_hypothesis
      ≡ (if card == k then 1 else 0) + count_of k b.runs_per_hypothesis
unfolding increment_budget
count_of-increment_budget now card k b =
    ground
      (arith, lookup-insert card k (count_of card b.runs_per_hypothesis + 1) b.runs_per_hypothesis)

run_all-IsBalanced :
    (runs : List (ℕ × ℕ)) (b : AutonomyBudget) → IsBalanced b → IsBalanced (run_all runs b)
unfolding run_all
run_all-IsBalanced [] b h = h
run_all-IsBalanced ((now, card) ∷ runs) b h =
    run_all-IsBalanced runs (increment_budget now card b) (increment_budget-IsBalanced now card b h)

total_runs-increment_budget :
    (now card : ℕ) (b : AutonomyBudget)
    → (increment_budget now card b).total_runs ≡ b.total_runs + 1
unfolding increment_budget
total_runs-increment_budget now card b = refl

total_runs-run_all :
    (runs : List (ℕ × ℕ)) (b : AutonomyBudget)
    → (run_all runs b).total_runs ≡ b.total_runs + length runs
unfolding run_all
total_runs-run_all [] b = omega arith
total_runs-run_all ((now, card) ∷ runs) b = omega (
  arith,
  total_runs-run_all runs (increment_budget now card b),
  total_runs-increment_budget now card b,
)

count_of-run_all :
    (k : ℕ) (runs : List (ℕ × ℕ)) (b : AutonomyBudget)
    → count_of k (run_all runs b).runs_per_hypothesis
      ≡ runs_of k runs + count_of k b.runs_per_hypothesis
unfolding run_all
count_of-run_all k [] b = omega arith
count_of-run_all k ((now, card) ∷ runs) b = omega (
  arith,
  count_of-run_all k runs (increment_budget now card b),
  count_of-increment_budget now card k b,
)

-- From a fresh budget the counters are those of the runs: the total is their number and the sum of
-- the counts of the hypotheses, and each hypothesis has the count of its own runs.
pub run_all-counts :
    (cycle now : ℕ) (runs : List (ℕ × ℕ))
    → let b = run_all runs (new_budget cycle now) in
      (b.total_runs ≡ length runs)
      × (sum_values b.runs_per_hypothesis ≡ length runs)
      × ((card : ℕ) → count_of card b.runs_per_hypothesis ≡ runs_of card runs)
unfolding new_budget
run_all-counts cycle now runs =
    let b = new_budget cycle now in
    (
      omega (arith, total_runs-run_all runs b),
      omega (arith, total_runs-run_all runs b, run_all-IsBalanced runs b refl),
      (λ card. omega (arith, count_of-run_all card runs b)),
    )

-- A limit that is set and reached.
abbrev pub IsReached : Option ℕ → ℕ → Type 0
IsReached none n = ⊥
IsReached (some limit) n = limit ≤ n

-- The same for a limit in hours.
abbrev pub IsTimeUp : Option ℕ → ℕ → Type 0
IsTimeUp none elapsed = ⊥
IsTimeUp (some hours) elapsed = 3600 * hours ≤ elapsed

-- The check stops the loop exactly when the run limit is reached or the elapsed time is the hours
-- of the limit at least, and names the run limit first.
pub check_budget_iff :
    (policy : AutonomyPolicy) (b : AutonomyBudget)
    → let r = check_budget policy b in
      ((r.limit_name ≡ some max_total_runs) ↔ IsReached policy.max_total_runs b.total_runs)
      × ((r.exceeded ≡ true) ↔ (
          IsReached policy.max_total_runs b.total_runs
          ⊎ IsTimeUp policy.max_wall_clock_hours b.wall_clock_elapsed))
unfolding check_budget
check_budget_iff policy b = ((ground arith, ground arith), (ground arith, ground arith))

over_or_within : (c : Bool) → (if c then over max_total_runs else within).exceeded ≡ c
over_or_within true = refl
over_or_within false = refl

-- The first run that takes a fresh budget to its limit stops the loop, and no earlier one.
pub budget_stops_at_limit :
    (policy : AutonomyPolicy) (limit cycle now : ℕ) (runs : List (ℕ × ℕ))
    → policy.max_total_runs ≡ some limit
    → policy.max_wall_clock_hours ≡ none
    → (check_budget policy (run_all runs (new_budget cycle now))).exceeded ≡ leb limit (length runs)
unfolding check_budget
budget_stops_at_limit policy limit cycle now runs set no_hours =
    rw (set, no_hours, (run_all-counts cycle now runs).0) (over_or_within (leb limit (length runs)))
