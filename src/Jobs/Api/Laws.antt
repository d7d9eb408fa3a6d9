-- ===== src/Jobs/Api/Laws.antt =====
-- What the controls of apps/api/routers/jobs.py promise their caller.
use mathlib.Core.Path.{subst}
use synthetos.Prelude.{
  sym, ◌++◌, [], ◌∷◌, ℕ, ◌≡◌, refl, Bool, true, false, Option, none, some, Bool-cases, inl, inr,
  first_where, update_where, first_where-update_where, first_where-passes, ==→eq,
}
use synthetos.Jobs.{JobStatus, pending, cancelled, Job, Queue, JobEvent, has_id, get_job}
use synthetos.Jobs.Api.{conflict, done, control, cancel_job, api_pause_job, api_resume_job}

module _ {P : Type 0} where
  -- A control that is done found the row in an allowed status, and the row is the changed one after.
  control_done :
      (allowed : JobStatus → Bool) (change : Job P → Job P) (event : JobEvent)
      → ((j : Job P) → (change j).id ≡ j.id)
      → (i : ℕ) (q : Queue P) {t : Queue P} → control allowed change event q (get_job i q) ≡ done t
      → (j : Job P) × (get_job i q ≡ some j)
        × (allowed j.status ≡ true)
        × (get_job i t ≡ some (change j))
  unfolding get_job control
  control_done allowed change event same i q {t} e = go (get_job i q) refl e
    where
      written :
          (j : Job P)
          → get_job i q ≡ some j
          → record {
            jobs = update_where (has_id j.id) change q.jobs;
            events = q.events ++ event ∷ [];
          }
            ≡ t
          → get_job i t ≡ some (change j)
      written j found same_queue =
          let own : j.id ≡ i = ==→eq j.id i (first_where-passes (has_id i) q.jobs {x = j} found) in
          subst (λ (s : Queue P). first_where (has_id i) s.jobs ≡ some (change j)) same_queue
            (subst
              (λ n.
                first_where (has_id i) (update_where (has_id n) change q.jobs) ≡ some (change j))
              (sym own)
              (first_where-update_where (has_id i) change (λ k hit. rw (same k) hit) q.jobs j
                found))

      go :
          (o : Option (Job P))
          → get_job i q ≡ o
          → control allowed change event q o ≡ done t
          → (j : Job P) × (get_job i q ≡ some j)
            × (allowed j.status ≡ true)
            × (get_job i t ≡ some (change j))
      go none found e = cc
      go (some j) found e = elim (Bool-cases (allowed j.status)) [
        | inl fine ↦ (j, found, fine, written j found (cc (rw fine at e)))
        | inr refused ↦ cc (rw refused at e)
      ]

  accepted :
      (allowed : JobStatus → Bool) (change : Job P → Job P) (event : JobEvent) (i : ℕ) (t : Queue P)
      (j : Job P)
      → get_job i t ≡ some j
      → allowed j.status ≡ true
      → (u : Queue P) × (control allowed change event t (get_job i t) ≡ done u)
  accepted allowed change event i t j found fine = (
    record { jobs = update_where (has_id j.id) change t.jobs; events = t.events ++ event ∷ [] },
    rw found (unfold control in rw fine),
  )

  refused :
      (allowed : JobStatus → Bool) (change : Job P → Job P) (event : JobEvent) (i : ℕ) (t : Queue P)
      (j : Job P)
      → get_job i t ≡ some j
      → allowed j.status ≡ false
      → control allowed change event t (get_job i t) ≡ conflict j.status
  refused allowed change event i t j found no_way = rw found (unfold control in rw no_way)

  -- On the tables that a cancellation leaves, each control of the job answers 409.
  pub cancel_job-final :
      (i now later : ℕ) (q : Queue P) {t : Queue P}
      → cancel_job i now q ≡ done t
      → (cancel_job i later t ≡ conflict cancelled)
        × (api_pause_job i t ≡ conflict cancelled)
        × (api_resume_job i t ≡ conflict cancelled)
  unfolding cancel_job api_pause_job api_resume_job
  cancel_job-final i now later q {t} e =
      let (j, found, fine, after) = control_done _ _ _ (λ k. refl) i q e in
      (
        refused _ _ _ i t _ after refl,
        refused _ _ _ i t _ after refl,
        refused _ _ _ i t _ after refl,
      )

  -- A paused job can be resumed, and is then pending with no claim; a resumed one cannot be resumed.
  pub resume_after_pause :
      (i : ℕ) (q : Queue P) {t : Queue P}
      → api_pause_job i q ≡ done t
      → (u : Queue P) × (j : Job P) × (api_resume_job i t ≡ done u)
        × (get_job i u ≡ some j)
        × (j.status ≡ pending)
        × (j.claimed_by ≡ none)
        × (api_resume_job i u ≡ conflict pending)
  unfolding api_pause_job api_resume_job
  resume_after_pause i q {t} e =
      let (j, found, fine, after) = control_done _ _ _ (λ k. refl) i q e in
      let (u, resumed) = accepted _ _ _ i t _ after refl in
      let (k, found', fine', row) = control_done _ _ _ (λ k. refl) i t resumed in
      (u, _, resumed, row, refl, refl, refused _ _ _ i u _ row refl)

  -- The row that a cancellation leaves, of the job's type.
  pub cancel_job-stored :
      (i now : ℕ) (q : Queue P) {t : Queue P}
      → cancel_job i now q ≡ done t
      → (j : Job P) × (get_job i q ≡ some j)
        × (k : Job P) × (get_job i t ≡ some k)
        × (k.job_type ≡ j.job_type)
  unfolding cancel_job
  cancel_job-stored i now q {t} e =
      let (j, found, fine, after) = control_done _ _ _ (λ k. refl) i q e in
      (j, found, _, after, refl)
