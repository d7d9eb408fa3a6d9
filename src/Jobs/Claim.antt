-- ===== src/Jobs/Claim.antt =====
-- What `claim_job` hands to a worker (libs/core/services/job_service.py).
use mathlib.Core.Path.{subst}
use synthetos.Prelude.{
  sym, ℕ, ◌≡◌, refl, inl, inr, Bool, true, false, Option, none, some, List, [], ◌∷◌, arith, All,
  All-map, InList, Distinct, first_where-key, first_where-update_where, Bool-cases, update_where,
}
use synthetos.Jobs.{
  Job, Queue, has_id, before, is_eligible, earlier, next_job, claim_row, claim_job,
}

module _ {P : Type 0} where
  before_irrefl : (a : Job P) → before a a ≡ false
  before_irrefl a = ground arith

  before_asym : (a b : Job P) → before a b ≡ true → before b a ≡ false
  before_asym a b h = ground arith

  not-before_trans : (c b a : Job P) → before c b ≡ false → before b a ≡ false → before c a ≡ false
  not-before_trans c b a h k = ground arith

  earlier_better : (x k : Job P) → before k x ≡ true → earlier x (some k) ≡ k
  earlier_better x k better = rw better

  earlier_kept : (x k : Job P) → before k x ≡ false → earlier x (some k) ≡ x
  earlier_kept x k no_better = rw no_better

module _ {P : Type 0} (locked : ℕ → Bool) where
  -- No eligible row of the list comes before `j`.
  abbrev pub IsFirst : Job P → List (Job P) → Type 0
  IsFirst j = All (λ k. is_eligible locked k ≡ true → before k j ≡ false)

  -- What a choice means: with none no row is eligible, and a chosen row is an eligible one that
  -- no other eligible row comes before.
  abbrev pub IsChoice : List (Job P) → Option (Job P) → Type 0
  IsChoice js none = All (λ k. is_eligible locked k ≡ false) js
  IsChoice js (some j) = InList j js × (is_eligible locked j ≡ true) × IsFirst j js

  IsChoice-skip :
      (x : Job P) (js : List (Job P)) (o : Option (Job P))
      → is_eligible locked x ≡ false
      → IsChoice js o
      → IsChoice (x ∷ js) o
  IsChoice-skip x js none no_fit h = (no_fit, h)
  IsChoice-skip x js (some j) no_fit h = (inr h.0, h.1, ((λ fits. cc (no_fit, fits)), h.2))

  IsChoice-take :
      (x : Job P) (js : List (Job P)) (o : Option (Job P))
      → is_eligible locked x ≡ true
      → IsChoice js o
      → IsChoice (x ∷ js) (some (earlier x o))
  IsChoice-take x js none fits h = (
    inl refl,
    fits,
    ((λ _. before_irrefl x), All-map _ _ (λ k no_fit fit. cc (no_fit, fit)) js h),
  )
  IsChoice-take x js (some k) fits h = elim (Bool-cases (before k x)) [
    | inl better ↦
        subst chosen (sym (earlier_better x k better))
          (inr h.0, h.1, ((λ _. before_asym k x better), h.2))
    | inr no_better ↦ subst chosen (sym (earlier_kept x k no_better)) (
      inl refl,
      fits,
      (
        (λ _. before_irrefl x),
        All-map _ _ (λ y first fit. not-before_trans y k x (first fit) no_better) js h.2,
      ),
    )
  ]
    where
      chosen : Job P → Type 0
      chosen y = IsChoice (x ∷ js) (some y)

  pub next_job-IsChoice : (js : List (Job P)) → IsChoice js (next_job locked js)
  unfolding next_job
  next_job-IsChoice [] = tt
  next_job-IsChoice (x ∷ js) = elim (Bool-cases (is_eligible locked x)) [
    | inl fits ↦ rw fits (IsChoice-take x js (next_job locked js) fits (next_job-IsChoice js))
    | inr no_fit ↦ rw no_fit (IsChoice-skip x js (next_job locked js) no_fit (next_job-IsChoice js))
  ]

module _ {P : Type 0} (locked : ℕ → Bool) (worker now : ℕ) where
  -- What a worker gets: nothing, with the queue untouched, when no job can be had; or a row of the
  -- table that was the first of the eligible ones, claimed by this worker, and in the new table
  -- only the rows with its identifier are changed, by that claim.
  abbrev pub IsClaim : Queue P → Option (Job P) × Queue P → Type 0
  IsClaim q (none, q') = All (λ k. is_eligible locked k ≡ false) q.jobs × (q' ≡ q)
  IsClaim q (some j, q') =
      (old : Job P) × InList old q.jobs
      × (is_eligible locked old ≡ true)
      × IsFirst locked old q.jobs
      × (j ≡ claim_row worker now old)
      × (q' ≡ record q { jobs = update_where (has_id old.id) (claim_row worker now) q.jobs })

  with_choice-IsClaim :
      (q : Queue P) (o : Option (Job P))
      → next_job locked q.jobs ≡ o
      → IsChoice locked q.jobs o
      → Distinct (λ (j : Job P). j.id) q.jobs
      → IsClaim q (claim_job locked worker now q)
  unfolding claim_job
  with_choice-IsClaim q none e h d = rw e (h, refl)
  with_choice-IsClaim q (some old) e h d =
      let found = first_where-key (λ (j : Job P). j.id) q.jobs old d h.0 in
      let after =
        first_where-update_where (has_id old.id) (claim_row worker now) (λ x hit. hit) q.jobs old
          found in
      rw (e, after) (old, h.0, h.1, h.2, refl, refl)

  -- A claim does what it should on every table with distinct identifiers.
  pub claim_job-IsClaim :
      (q : Queue P)
      → Distinct (λ (j : Job P). j.id) q.jobs
      → IsClaim q (claim_job locked worker now q)
  claim_job-IsClaim q d =
      with_choice-IsClaim q (next_job locked q.jobs) refl (next_job-IsChoice locked q.jobs) d
