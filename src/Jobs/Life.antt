-- ===== src/Jobs/Life.antt =====
-- The life of the queue: any sequence of the operations of libs/core/services/job_service.py and of
-- the controls of apps/api/routers/jobs.py, with one limit of reclaims.
use Prim.Native.String.{String}
use mathlib.Core.Path.{subst}
use synthetos.Prelude.{
  ℕ, ◌≡◌, refl, ◌≢◌, Bool, false, Option, none, some, List, [], ◌∷◌, ◌++◌, arith, Bool-cases, inl,
  inr, All, All-append, Distinct-append, update_where,
}
use synthetos.Prelude.Int.{ℤ}
use synthetos.Jobs.{
  JobStatus, pending, Job, Queue, JobEvent, has_id, create_job, claim_job, claim_found, claim_row,
  next_job, start_job, complete_job, fail_job, heartbeat_job, pause_job, resume_job, update_job,
  with_queue, reclaim_stale_jobs, get_job,
}
use synthetos.Jobs.Api.{done, control, cancel_job, api_pause_job, api_resume_job}
use synthetos.Jobs.Releases.{is_release_of, releases}
use synthetos.Jobs.Sound.{IsRow, IsSound, update-IsSound, log-IsSound, reclaim-IsSound}

module _ {P : Type 0} where
  -- A new identifier: no row has it and no event releases it.
  abbrev pub IsFresh : ℕ → Queue P → Type 0
  IsFresh id q = All (λ (j : Job P). j.id ≢ id) q.jobs × (releases id q.events ≡ 0)

  abbrev pub empty : Queue P
  empty = record { jobs = []; events = [] }

-- One operation, by a worker, by the periodic task or by a client; an operation that raises is
-- rolled back and is no step.
pub data Step {P : Type 0} (limit : ℕ) (q : Queue P) : Queue P → Type 0 where
  create :
      (id : ℕ) (cycle : Option ℕ) (job_type : String) (payload : Option P) (priority : ℤ) (now : ℕ)
      → IsFresh id q
      → Step limit q (create_job id cycle job_type payload priority now q).1
  claim : (locked : ℕ → Bool) (worker now : ℕ) → Step limit q (claim_job locked worker now q).1
  start : (id : ℕ) {j : Job P} {t : Queue P} → start_job id q ≡ some (j, t) → Step limit q t
  complete :
      (id : ℕ) (result : Option P) (now : ℕ) {j : Job P} {t : Queue P}
      → complete_job id result now q ≡ some (j, t)
      → Step limit q t
  fail :
      (id : ℕ) (error : String) (now : ℕ) {j : Job P} {t : Queue P}
      → fail_job id error now q ≡ some (j, t)
      → Step limit q t
  heartbeat : (id now : ℕ) → Step limit q (heartbeat_job id now q)
  pause :
      (id : ℕ) (result : Option P) {j : Job P} {t : Queue P}
      → pause_job id result q ≡ some (j, t)
      → Step limit q t
  resume : (id : ℕ) {j : Job P} {t : Queue P} → resume_job id q ≡ some (j, t) → Step limit q t
  reclaim : (timeout now : ℕ) → Step limit q (reclaim_stale_jobs timeout limit now q).1
  cancel : (id now : ℕ) {t : Queue P} → cancel_job id now q ≡ done t → Step limit q t
  api_pause : (id : ℕ) {t : Queue P} → api_pause_job id q ≡ done t → Step limit q t
  api_resume : (id : ℕ) {t : Queue P} → api_resume_job id q ≡ done t → Step limit q t

pub data Life {P : Type 0} (limit : ℕ) : Queue P → Type 0 where
  begin : Life limit empty
  next : {q t : Queue P} → Life limit q → Step limit q t → Life limit t

module _ {P : Type 0} (limit : ℕ) where
  -- A change of a row that is not left pending.
  held :
      (es : List JobEvent) (k k' : Job P)
      → IsRow limit es k
      → k'.id ≡ k.id
      → k'.reclaim_count ≡ k.reclaim_count
      → k'.status ≢ pending
      → IsRow limit es k'
  held es k k' row same_id same_count busy = record {
    counted = rw (same_id, same_count) row.counted;
    bounded = rw same_count row.bounded;
    unclaimed = λ e. absurd (busy e);
  }

  -- A change that returns the row to the queue.
  returned :
      (es : List JobEvent) (k k' : Job P)
      → IsRow limit es k
      → k'.id ≡ k.id
      → k'.reclaim_count ≡ k.reclaim_count
      → (k'.claimed_by ≡ none) × (k'.claimed_at ≡ none)
      → IsRow limit es k'
  returned es k k' row same_id same_count free = record {
    counted = rw (same_id, same_count) row.counted;
    bounded = rw same_count row.bounded;
    unclaimed = λ _. free;
  }

  create-IsSound :
      (id : ℕ) (cycle : Option ℕ) (job_type : String) (payload : Option P) (priority : ℤ) (now : ℕ)
      (q : Queue P)
      → IsFresh id q
      → IsSound limit q
      → IsSound limit (create_job id cycle job_type payload priority now q).1
  unfolding create_job
  create-IsSound id cycle job_type payload priority now q fresh h = record {
    distinct = Distinct-append (λ (j : Job P). j.id) q.jobs _ h.distinct fresh.0;
    rows =
        All-append (IsRow limit q.events) q.jobs _ h.rows
          (record { counted = fresh.1; bounded = omega arith; unclaimed = λ _. (refl, refl) }, tt);
  }

  claim_found-IsSound :
      (worker now : ℕ) (q : Queue P) (o : Option (Job P))
      → IsSound limit q
      → IsSound limit (claim_found worker now q o).1
  unfolding claim_found
  claim_found-IsSound worker now q none h = h
  claim_found-IsSound worker now q (some j) h =
      update-IsSound limit j.id (claim_row worker now)
        (λ es k row. held es k _ row refl refl (λ e. cc)) (λ k. refl) q h

  -- A single-row update that went through, for changes that keep the row's part of the invariant.
  update_job-IsSound :
      (id : ℕ) (change : Job P → Job P)
      → ((es : List JobEvent) (k : Job P) → IsRow limit es k → IsRow limit es (change k))
      → ((k : Job P) → (change k).id ≡ k.id)
      → (q : Queue P) {j : Job P} {t : Queue P} → update_job id change q ≡ some (j, t)
      → IsSound limit q
      → IsSound limit t
  unfolding update_job
  update_job-IsSound id change keeps same q {j} {t} e h =
      let after = record q { jobs = update_where (has_id id) change q.jobs } in
      stored (get_job id after) e (update-IsSound limit id change keeps same q h)
    where
      stored :
          {q' : Queue P} (o : Option (Job P))
          → with_queue q' o ≡ some (j, t)
          → IsSound limit q'
          → IsSound limit t
      stored none e s = cc
      stored {q'} (some k) e s = let same_queue : q' ≡ t = cc in subst (IsSound limit) same_queue s

  control-IsSound :
      (allowed : JobStatus → Bool) (change : Job P → Job P) (event : JobEvent)
      → ((es : List JobEvent) (k : Job P) → IsRow limit es k → IsRow limit es (change k))
      → ((k : Job P) → (change k).id ≡ k.id)
      → ((i : ℕ) → is_release_of i event ≡ false)
      → (q : Queue P) (o : Option (Job P)) {t : Queue P} → control allowed change event q o ≡ done t
      → IsSound limit q
      → IsSound limit t
  unfolding control
  control-IsSound allowed change event keeps same silent q none e h = cc
  control-IsSound allowed change event keeps same silent q (some j) {t} e h =
      let q' = record q { jobs = update_where (has_id j.id) change q.jobs } in
      elim (Bool-cases (allowed j.status)) [
        | inl fine ↦
            let same_queue : record q' { events = q'.events ++ event ∷ [] } ≡ t =
              cc (rw fine at e) in
            subst (IsSound limit) same_queue
              (log-IsSound limit event q' silent (update-IsSound limit j.id change keeps same q h))
        | inr refused ↦ cc (rw refused at e)
      ]

  Step-IsSound : {q t : Queue P} → Step limit q t → IsSound limit q → IsSound limit t
  unfolding start_job complete_job fail_job heartbeat_job pause_job resume_job claim_job cancel_job
      api_pause_job api_resume_job
  Step-IsSound {q} (create id cycle job_type payload priority now fresh) h =
      create-IsSound id cycle job_type payload priority now q fresh h
  Step-IsSound {q} (claim locked worker now) h =
      claim_found-IsSound worker now q (next_job locked q.jobs) h
  Step-IsSound {q} (start id e) h =
      update_job-IsSound id _ (λ es k row. held es k _ row refl refl (λ p. cc)) (λ k. refl) q e h
  Step-IsSound {q} (complete id result now e) h =
      update_job-IsSound id _ (λ es k row. held es k _ row refl refl (λ p. cc)) (λ k. refl) q e h
  Step-IsSound {q} (fail id error now e) h =
      update_job-IsSound id _ (λ es k row. held es k _ row refl refl (λ p. cc)) (λ k. refl) q e h
  Step-IsSound {q} (heartbeat id now) h =
      update-IsSound limit id _
        (λ es k row. record {
          counted = row.counted;
          bounded = row.bounded;
          unclaimed = row.unclaimed;
        })
        (λ k. refl) q h
  Step-IsSound {q} (pause id result e) h =
      update_job-IsSound id _ (λ es k row. held es k _ row refl refl (λ p. cc)) (λ k. refl) q e h
  Step-IsSound {q} (resume id e) h =
      update_job-IsSound id _ (λ es k row. returned es k _ row refl refl (refl, refl)) (λ k. refl) q
        e h
  Step-IsSound {q} (reclaim timeout now) h = reclaim-IsSound limit timeout now q h
  Step-IsSound {q} (cancel id now e) h =
      control-IsSound _ _ _ (λ es k row. held es k _ row refl refl (λ p. cc)) (λ k. refl)
        (λ i. refl) q (get_job id q) e h
  Step-IsSound {q} (api_pause id e) h =
      control-IsSound _ _ _ (λ es k row. held es k _ row refl refl (λ p. cc)) (λ k. refl)
        (λ i. refl) q (get_job id q) e h
  Step-IsSound {q} (api_resume id e) h =
      control-IsSound _ _ _ (λ es k row. returned es k _ row refl refl (refl, refl)) (λ k. refl)
        (λ i. refl) q (get_job id q) e h

  -- In every life of the queue the identifiers are distinct, a job has been released as often as it
  -- counts and `limit` times at most, and no pending job has a claim.
  pub Life-IsSound : {q : Queue P} → Life limit q → IsSound limit q
  Life-IsSound begin = record { distinct = tt; rows = tt }
  Life-IsSound (next life step) = Step-IsSound step (Life-IsSound life)
