-- ===== src/Jobs/Reclaim.antt =====
-- What `reclaim_stale_jobs` does to the table (libs/core/services/job_service.py).
use synthetos.Prelude.{
  ℕ, ◌+◌, ◌-◌, ltb, ◌≡◌, refl, Bool, true, false, List, [], ◌∷◌, map, arith, if◌then◌else◌,
  Bool-cases, inl, inr, count_if, length, length-append, ◌∙◌,
}
use synthetos.Jobs.{
  Job, Queue, is_stale, exhaust_row, release_row, reclaim_one, reclaim_rows, reclaim_stale_jobs,
}

module _ {P : Type 0} (timeout max_reclaims now cutoff : ℕ) where
  -- What becomes of one row: a stale one goes back to the queue, or fails when it has gone back
  -- `max_reclaims` times; any other is left.
  abbrev pub reclaim_row : Job P → Job P
  reclaim_row j =
      if is_stale cutoff j
      then if ltb j.reclaim_count max_reclaims then release_row j else exhaust_row timeout now j
      else j

  reclaim_one-row :
      (j : Job P)
      → (reclaim_one timeout max_reclaims now j).0
        ≡ (if ltb j.reclaim_count max_reclaims then release_row j else exhaust_row timeout now j)
  unfolding reclaim_one
  reclaim_one-row j = ground arith

  reclaim_one-counts :
      (j : Job P)
      → (reclaim_one timeout max_reclaims now j).2.0 + (reclaim_one timeout max_reclaims now j).2.1
        ≡ 1
  unfolding reclaim_one
  reclaim_one-counts j = ground arith

  pub reclaim_rows-map :
      (js : List (Job P)) → (reclaim_rows timeout max_reclaims now cutoff js).0 ≡ map reclaim_row js
  unfolding reclaim_rows
  reclaim_rows-map [] = refl
  reclaim_rows-map (j ∷ js) = elim (Bool-cases (is_stale cutoff j)) [
    | inl stale ↦ rw stale (cc (reclaim_one-row j, reclaim_rows-map js))
    | inr fresh ↦ rw fresh (cc (reclaim_rows-map js))
  ]

  -- The two counts add up to the number of stale rows, and there is an event for each.
  reclaim_rows-counts :
      (js : List (Job P))
      → let (_, es, (n, m)) = reclaim_rows timeout max_reclaims now cutoff js in
        (n + m ≡ count_if (is_stale cutoff) js) × (length es ≡ n + m)
  unfolding reclaim_rows
  reclaim_rows-counts [] = omega arith
  reclaim_rows-counts (j ∷ js) = elim (Bool-cases (is_stale cutoff j)) [
    | inl stale ↦ rw stale (omega (arith, reclaim_one-counts j, reclaim_rows-counts js))
    | inr fresh ↦ rw fresh (omega (arith, reclaim_rows-counts js))
  ]

  given_up-not_stale :
      (b : Bool) (j : Job P)
      → is_stale cutoff (if b then release_row j else exhaust_row timeout now j) ≡ false
  given_up-not_stale true j = refl
  given_up-not_stale false j = refl

  reclaim_row-not_stale : (j : Job P) → is_stale cutoff (reclaim_row j) ≡ false
  reclaim_row-not_stale j = elim (Bool-cases (is_stale cutoff j)) [
    | inl stale ↦ rw stale (given_up-not_stale (ltb j.reclaim_count max_reclaims) j)
    | inr fresh ↦ rw fresh fresh
  ]

  none_stale : (js : List (Job P)) → count_if (is_stale cutoff) (map reclaim_row js) ≡ 0
  none_stale [] = refl
  none_stale (j ∷ js) = rw (reclaim_row-not_stale j) (omega (arith, none_stale js))

-- The reclaim, as a whole: each row is reclaimed by itself, the counts that it returns add up to the
-- number of stale rows, one event is logged for each, and no row is stale any more.
pub reclaim_stale_jobs_lem :
    {P : Type 0} (timeout max_reclaims now : ℕ) (q : Queue P)
    → let ((reclaims, failures), q') = reclaim_stale_jobs timeout max_reclaims now q in
      let stale = is_stale {P = P} (now - timeout) in
      (q'.jobs ≡ map (reclaim_row timeout max_reclaims now (now - timeout)) q.jobs)
      × (reclaims + failures ≡ count_if stale q.jobs)
      × (length q'.events ≡ length q.events + count_if stale q.jobs)
      × (count_if stale q'.jobs ≡ 0)
unfolding reclaim_stale_jobs
reclaim_stale_jobs_lem timeout max_reclaims now q =
    let cutoff = now - timeout in
    let rows = reclaim_rows-map timeout max_reclaims now cutoff q.jobs in
    let counts = reclaim_rows-counts timeout max_reclaims now cutoff q.jobs in
    (
      rows,
      counts.0,
      length-append q.events _ ∙ omega (arith, counts),
      rw rows (none_stale timeout max_reclaims now cutoff q.jobs),
    )
