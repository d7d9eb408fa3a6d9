-- ===== src/Jobs/Pending.antt =====
-- How a claim lowers the number of pending jobs (libs/core/services/job_service.py).
use mathlib.Core.Path.{subst}
use synthetos.Prelude.{
  sym, first_where, ℕ, ◌+◌, ◌≤◌, ◌≡◌, refl, ap, ◌∙◌, true, false, Option, none, some, List, [], ◌∷◌,
  arith, Bool-cases, inl, inr, All, InList, count_if, first_where-hit, first_where-passes,
  first_where-update_where, update_where, ==_refl, ==→eq,
}
use synthetos.Jobs.{
  is_pending, Job, Queue, has_id, get_job, next_job, is_eligible, claim_row, claim_found, claim_job,
}
use synthetos.Jobs.Claim.{IsChoice, next_job-IsChoice}
use synthetos.Jobs.Updates.{pending_count, count_if-update_where}

module _ {P : Type 0} where
  -- A change of rows that leaves them not pending, one of which was pending.
  count_if-update_where-falls :
      (i : ℕ) (change : Job P → Job P)
      → ((j : Job P) → is_pending (change j).status ≡ false)
      → (js : List (Job P)) (k : Job P) → InList k js
      → has_id i k ≡ true
      → is_pending k.status ≡ true
      → count_if (λ j. is_pending j.status) (update_where (has_id i) change js) + 1
        ≤ count_if (λ j. is_pending j.status) js
  count_if-update_where-falls i change busy [] k m hit waits = elim m [ ]
  count_if-update_where-falls i change busy (j ∷ js) k (inl e) hit waits =
      let hit' = ap (has_id i) e ∙ hit in
      let waits' = ap (λ (x : Job P). is_pending x.status) e ∙ waits in
      rw (hit', busy j, waits') (omega (arith, count_if-update_where i change busy js))
  count_if-update_where-falls i change busy (j ∷ js) k (inr m) hit waits =
      elim (Bool-cases (has_id i j)) [
        | inl same ↦
            rw (same, busy j)
              (omega (arith, count_if-update_where-falls i change busy js k m hit waits))
        | inr other ↦
            rw other (omega (arith, count_if-update_where-falls i change busy js k m hit waits))
      ]

  none_pending :
      (js : List (Job P))
      → All (λ j. is_eligible (λ _. false) j ≡ false) js
      → count_if (λ j. is_pending j.status) js ≡ 0
  none_pending [] h = refl
  none_pending (j ∷ js) h = ground (arith, none_pending js h.1, h.0)

  -- With no row locked, a claim leaves one pending job fewer and its job is in the table; it finds
  -- none only when no job is pending.
  abbrev pub IsProgress : Queue P → Option (Job P) × Queue P → Type 0
  IsProgress q (none, q') = pending_count q' ≡ 0
  IsProgress q (some j, q') = (pending_count q' + 1 ≤ pending_count q) × (get_job j.id q' ≡ some j)

  pending_of_eligible : (k : Job P) → is_eligible (λ _. false) k ≡ true → is_pending k.status ≡ true
  pending_of_eligible k h = ground arith

  claim_found-IsProgress :
      (worker now : ℕ) (q : Queue P) (o : Option (Job P))
      → IsChoice (λ _. false) q.jobs o
      → IsProgress q (claim_found worker now q o)
  unfolding claim_found get_job
  claim_found-IsProgress worker now q none h = none_pending q.jobs h
  claim_found-IsProgress worker now q (some k) h =
      let (old, found) = first_where-hit (has_id k.id) q.jobs k h.0 (==_refl k.id) in
      let after =
        first_where-update_where (has_id k.id) (claim_row worker now) (λ x hit. hit) q.jobs old
          found in
      let same = ==→eq old.id k.id (first_where-passes (has_id k.id) q.jobs found) in
      let table = update_where (has_id k.id) (claim_row worker now) q.jobs in
      rw after (
        count_if-update_where-falls k.id (claim_row worker now) (λ j. refl) q.jobs k h.0
            (==_refl k.id) (pending_of_eligible k h.1),
        subst (λ i. first_where (has_id i) table ≡ some (claim_row worker now old)) (sym same)
            after,
      )

  pub claim_job-IsProgress :
      (worker now : ℕ) (q : Queue P) → IsProgress q (claim_job (λ _. false) worker now q)
  unfolding claim_job
  claim_job-IsProgress worker now q =
      claim_found-IsProgress worker now q (next_job (λ _. false) q.jobs)
        (next_job-IsChoice (λ _. false) q.jobs)
