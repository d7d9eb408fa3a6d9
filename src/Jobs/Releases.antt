-- ===== src/Jobs/Releases.antt =====
-- How often the log says that a job was released, against the job's own counter: the events of
-- `reclaim_stale_jobs` (libs/core/services/job_service.py).
use synthetos.Prelude.{
  ℕ, ◌+◌, ◌==◌, ◌≡◌, refl, sym, ◌≢◌, Bool, true, false, List, [], ◌∷◌, arith, if◌then◌else◌,
  Bool-cases, inl, inr, count_if, All, All-map₂, Distinct,
}
use synthetos.Jobs.{Job, JobEvent, reclaimed, is_stale, reclaim_one, reclaim_rows}
use synthetos.Jobs.Reclaim.{reclaim_row}

abbrev pub is_release_of : ℕ → JobEvent → Bool
is_release_of i (reclaimed k _) = k == i
is_release_of i _ = false

-- How often the log says that a job went back to the queue.
abbrev pub releases : ℕ → List JobEvent → ℕ
releases i = count_if (is_release_of i)

module _ {P : Type 0} where
  abbrev pub HasDistinct : List (Job P) → Type 0
  HasDistinct = Distinct (λ (j : Job P). j.id)

module _ {P : Type 0} (timeout limit now cutoff : ℕ) where
  abbrev pub events_of : List (Job P) → List JobEvent
  events_of js = (reclaim_rows timeout limit now cutoff js).1

  events_stale :
      (j : Job P) (js : List (Job P))
      → is_stale cutoff j ≡ true
      → events_of (j ∷ js) ≡ (reclaim_one timeout limit now j).1 ∷ events_of js
  unfolding reclaim_rows
  events_stale j js stale = rw (stale, events_of)

  events_fresh :
      (j : Job P) (js : List (Job P))
      → is_stale cutoff j ≡ false
      → events_of (j ∷ js) ≡ events_of js
  unfolding reclaim_rows
  events_fresh j js fresh = rw (fresh, events_of)

  release_other :
      (i : ℕ) (j : Job P) → j.id ≢ i → is_release_of i (reclaim_one timeout limit now j).1 ≡ false
  unfolding reclaim_one
  release_other i j ne = ground arith

  release_own :
      (j : Job P)
      → is_stale cutoff j ≡ true
      → (if is_release_of j.id (reclaim_one timeout limit now j).1 then 1 else 0) + j.reclaim_count
        ≡ (reclaim_row timeout limit now cutoff j).reclaim_count
  unfolding reclaim_one
  release_own j stale = rw stale (ground arith)

  -- A job that is not in the table is not released.
  releases-absent :
      (i : ℕ) (js : List (Job P)) → All (λ (j : Job P). j.id ≢ i) js → releases i (events_of js) ≡ 0
  releases-absent i [] h = unfold reclaim_rows in refl
  releases-absent i (j ∷ js) h = elim (Bool-cases (is_stale cutoff j)) [
    | inl stale ↦
        rw (events_stale j js stale, release_other i j h.0)
          (omega (arith, releases-absent i js h.1))
    | inr fresh ↦ rw (events_fresh j js fresh) (releases-absent i js h.1)
  ]

  -- The log gains the releases that the row's own counter counts.
  abbrev pub IsCounted : List JobEvent → Job P → Type 0
  IsCounted es j =
      releases j.id es + j.reclaim_count ≡ (reclaim_row timeout limit now cutoff j).reclaim_count

  IsCounted-head :
      (j : Job P) (js : List (Job P))
      → All (λ (k : Job P). k.id ≢ j.id) js
      → IsCounted (events_of (j ∷ js)) j
  IsCounted-head j js h = elim (Bool-cases (is_stale cutoff j)) [
    | inl stale ↦
        rw (events_stale j js stale) (omega (arith, releases-absent j.id js h, release_own j stale))
    | inr fresh ↦ rw (events_fresh j js fresh, fresh) (omega (arith, releases-absent j.id js h))
  ]

  IsCounted-tail :
      (j : Job P) (js : List (Job P)) (k : Job P)
      → k.id ≢ j.id
      → IsCounted (events_of js) k
      → IsCounted (events_of (j ∷ js)) k
  IsCounted-tail j js k ne h = elim (Bool-cases (is_stale cutoff j)) [
    | inl stale ↦
        rw (events_stale j js stale, release_other k.id j (λ e. ne (sym e))) (omega (arith, h))
    | inr fresh ↦ rw (events_fresh j js fresh) h
  ]

  pub All-IsCounted : (js : List (Job P)) → HasDistinct js → All (IsCounted (events_of js)) js
  All-IsCounted [] d = tt
  All-IsCounted (j ∷ js) d = (
    IsCounted-head j js d.0,
    All-map₂ _ _ _ (λ k ne h. IsCounted-tail j js k ne h) js d.0 (All-IsCounted js d.1),
  )
