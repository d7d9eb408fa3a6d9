-- ===== src/Jobs/Updates.antt =====
-- What the statements of libs/core/services/job_service.py on one row do where the row exists.
use Prim.Native.String.{String}
use synthetos.Prelude.{
  ℕ, ◌≡◌, refl, sym, ap, ◌∙◌, false, not, Option, some, List, [], ◌∷◌, ◌≤◌, arith, Bool-cases, inl,
  inr, select, count_if, ==→eq, ◌==◌, first_where-passes, first_where-update_where, update_where,
  select-update_where,
}
use synthetos.Jobs.{
  JobStatus, running, completed, failed, paused, is_pending, Job, Queue, has_id, get_job,
  update_job, start_job, complete_job, fail_job, pause_job,
}

module _ {P : Type 0} where
  -- The rows of the other jobs.
  abbrev pub others : ℕ → Queue P → List (Job P)
  others i q = select (λ j. not (has_id i j)) q.jobs

  abbrev pub pending_count : Queue P → ℕ
  pending_count q = count_if (λ j. is_pending j.status) q.jobs

  -- A change of one row that leaves it not pending does not add a pending row.
  pub count_if-update_where :
      (i : ℕ) (change : Job P → Job P)
      → ((j : Job P) → is_pending (change j).status ≡ false)
      → (js : List (Job P))
      → count_if (λ j. is_pending j.status) (update_where (has_id i) change js)
        ≤ count_if (λ j. is_pending j.status) js
  count_if-update_where i change busy [] = omega arith
  count_if-update_where i change busy (j ∷ js) = elim (Bool-cases (has_id i j)) [
    | inl hit ↦ rw (hit, busy j) (omega (arith, count_if-update_where i change busy js))
    | inr miss ↦ rw miss (omega (arith, count_if-update_where i change busy js))
  ]

  -- What a statement on the row of a job does: it answers the changed row, which the new table
  -- has, and nothing else changes but the number of pending rows, which does not grow.
  pub record IsWritten (status : JobStatus) (i : ℕ) (q : Queue P) (out : Option (Job P × Queue P))
      : Type 0 where
    pub row : Job P
    pub table : Queue P
    pub answer : out ≡ some (row, table)
    pub stored : get_job i table ≡ some row
    pub same_id : row.id ≡ i
    pub same_type : (old : Job P) → get_job i q ≡ some old → row.job_type ≡ old.job_type
    pub new_status : row.status ≡ status
    pub same_others : others i table ≡ others i q
    pub same_events : table.events ≡ q.events
    pub no_more_pending : pending_count table ≤ pending_count q

  pub job_type_of : {j k : Job P} → some j ≡ some k → j.job_type ≡ k.job_type
  job_type_of {j} {k} e = let same : j ≡ k = cc in ap (λ x. x.job_type) same

  update_job-IsWritten :
      (status : JobStatus) (i : ℕ) (change : Job P → Job P) (q : Queue P) (j : Job P)
      → ((k : Job P) → (change k).id ≡ k.id)
      → ((k : Job P) → (change k).job_type ≡ k.job_type)
      → ((k : Job P) → (change k).status ≡ status)
      → is_pending status ≡ false
      → get_job i q ≡ some j
      → IsWritten status i q (update_job i change q)
  unfolding update_job
  update_job-IsWritten status i change q j same kind becomes busy found =
      let after =
        first_where-update_where (has_id i) change (λ k hit. ap (λ n. n == i) (same k) ∙ hit) q.jobs
          j found in
      let hit = first_where-passes (has_id i) q.jobs found in
      record {
        row = change j;
        table = record q { jobs = update_where (has_id i) change q.jobs };
        answer = rw after;
        stored = after;
        same_id = ground (arith, same j);
        same_type = λ old e. kind j ∙ job_type_of (sym found ∙ e);
        new_status = becomes j;
        same_others =
            select-update_where (has_id i) change (λ k hit. ap (λ n. n == i) (same k) ∙ hit) q.jobs;
        same_events = refl;
        no_more_pending =
            count_if-update_where i change (λ k. ap is_pending (becomes k) ∙ busy) q.jobs;
      }

  pub start_job-IsWritten :
      (i : ℕ) (q : Queue P) (j : Job P)
      → get_job i q ≡ some j
      → IsWritten running i q (start_job i q)
  unfolding start_job
  start_job-IsWritten i q j =
      update_job-IsWritten running i _ q j (λ k. refl) (λ k. refl) (λ k. refl) refl

  pub complete_job-IsWritten :
      (i : ℕ) (result : Option P) (now : ℕ) (q : Queue P) (j : Job P)
      → get_job i q ≡ some j
      → IsWritten completed i q (complete_job i result now q)
  unfolding complete_job
  complete_job-IsWritten i result now q j =
      update_job-IsWritten completed i _ q j (λ k. refl) (λ k. refl) (λ k. refl) refl

  pub fail_job-IsWritten :
      (i : ℕ) (error : String) (now : ℕ) (q : Queue P) (j : Job P)
      → get_job i q ≡ some j
      → IsWritten failed i q (fail_job i error now q)
  unfolding fail_job
  fail_job-IsWritten i error now q j =
      update_job-IsWritten failed i _ q j (λ k. refl) (λ k. refl) (λ k. refl) refl

  pub pause_job-IsWritten :
      (i : ℕ) (result : Option P) (q : Queue P) (j : Job P)
      → get_job i q ≡ some j
      → IsWritten paused i q (pause_job i result q)
  unfolding pause_job
  pause_job-IsWritten i result q j =
      update_job-IsWritten paused i _ q j (λ k. refl) (λ k. refl) (λ k. refl) refl

  pub get_job-id : (i : ℕ) (q : Queue P) (j : Job P) → get_job i q ≡ some j → j.id ≡ i
  unfolding get_job
  get_job-id i q j found = ==→eq j.id i (first_where-passes (has_id i) q.jobs found)
