-- ===== src/Remediation/Attempts/Lineage.antt =====
-- The walk through the lineage of a run, when one more run or action is added to the tables.
use synthetos.Prelude.{
  ℕ, suc, zero, ◌==◌, ne→==-false, ==→eq, ◌≡◌, refl, sym, ◌∙◌, ap, ◌<◌, inl, inr, Bool, false,
  Option, none, some, List, [], ◌∷◌, ◌++◌, arith, Bool-cases, All, All-first_where, first_where,
  first_where-passes,
}
use synthetos.Remediation.Attempts.{Run, find_run, parent_of, walk}

-- A parent that is an earlier row.
abbrev pub IsBelow : Option ℕ → ℕ → Type 0
IsBelow none i = Unit
IsBelow (some p) i = p < i

abbrev pub IsEarlier : Run → Type 0
IsEarlier r = IsBelow r.parent_run_id r.id

-- The parent of what a look-up finds is below what was looked up.
parent-IsBelow :
    (i : ℕ) (runs : List Run) (o : Option Run)
    → All IsEarlier runs
    → find_run i runs ≡ o
    → IsBelow (parent_of o) i
parent-IsBelow i runs none h e = tt
parent-IsBelow i runs (some r) h e =
    let same : r.id ≡ i = ==→eq r.id i (first_where-passes (λ x. x.id == i) runs e) in
    rw (sym same) (All-first_where IsEarlier (λ x. x.id == i) runs r h e)

walk-none : (n : ℕ) (runs : List Run) → walk n runs none ≡ []
unfolding walk
walk-none zero runs = refl
walk-none (suc n) runs = refl

walk-enough-below :
    (n m : ℕ) (runs : List Run) (i : ℕ) (p : Option ℕ)
    → IsBelow p i
    → ((k : ℕ) → k < i → walk n runs (some k) ≡ walk m runs (some k))
    → walk n runs p ≡ walk m runs p
walk-enough-below n m runs i none b h = walk-none n runs ∙ sym (walk-none m runs)
walk-enough-below n m runs i (some p) b h = h p b

-- More fuel than the run's identifier makes no difference.
pub walk-enough :
    (n m : ℕ) (runs : List Run) (i : ℕ)
    → All IsEarlier runs
    → i < n
    → i < m
    → walk n runs (some i) ≡ walk m runs (some i)
unfolding walk
walk-enough zero m runs i h a b = let absurd : ⊥ = omega (arith, a) in elim absurd [ ]
walk-enough (suc n) zero runs i h a b = let absurd : ⊥ = omega (arith, b) in elim absurd [ ]
walk-enough (suc n) (suc m) runs i h a b =
    ap (λ ids. i ∷ ids)
      (walk-enough-below n m runs i (parent_of (find_run i runs))
        (parent-IsBelow i runs (find_run i runs) h refl)
        (λ k below. walk-enough n m runs k h (omega (arith, a, below)) (omega (arith, b, below))))

first_where-snoc-miss :
    {A : Type 0} (test : A → Bool) (xs : List A) (x : A)
    → test x ≡ false
    → first_where test (xs ++ x ∷ []) ≡ first_where test xs
first_where-snoc-miss test [] x h = rw h refl
first_where-snoc-miss test (y ∷ xs) x h = elim (Bool-cases (test y)) [
  | inl hit ↦ rw hit refl
  | inr miss ↦ rw miss (first_where-snoc-miss test xs x h)
]

-- A new row changes no walk that starts below it.
pub walk-snoc :
    (n : ℕ) (runs : List Run) (r : Run) (o : Option ℕ)
    → All IsEarlier runs
    → IsBelow o r.id
    → walk n (runs ++ r ∷ []) o ≡ walk n runs o
unfolding walk
walk-snoc n runs r none h b = walk-none n (runs ++ r ∷ []) ∙ sym (walk-none n runs)
walk-snoc zero runs r (some i) h b = refl
walk-snoc (suc n) runs r (some i) h b =
    let found : find_run i (runs ++ r ∷ []) ≡ find_run i runs =
      first_where-snoc-miss (λ x. x.id == i) runs r
        (ne→==-false r.id i (λ e. omega (arith, b, e))) in
    rw found (
      ap (λ ids. i ∷ ids)
        (walk-snoc n runs r (parent_of (find_run i runs)) h
          (below (parent_of (find_run i runs)) (parent-IsBelow i runs (find_run i runs) h refl))))
  where
    below : (p : Option ℕ) → IsBelow p i → IsBelow p r.id
    below none _ = tt
    below (some p) h' = omega (arith, h', b)
