-- ===== src/Execution/Control/Final.antt =====
-- What a cancellation of a run does to its jobs (libs/core/services/experiment_service.py).
use mathlib.Core.Path.{subst}
use synthetos.Prelude.{
  ℕ, ◌≡◌, refl, sym, Bool, true, false, ◌&&◌, not, Option, none, some, List, [], ◌∷◌, All,
  update_where, first_where, first_where-update_where, first_where-passes, ==→eq, if_cases,
}
use synthetos.Jobs.{Job, JobStatus}
use synthetos.Execution.{cancelled}
use synthetos.Execution.Control.{
  ControlRun, RunPayload, ControlDb, Reply, replied, not_found, not_allowed, Fresh, cancel, allows,
  act, is_run, is_job_of, is_live, with_run, control_run,
}
use synthetos.Execution.Control.Later.{IsOff, Calls, IsRefused, IsOff-IsRefused, Calls-IsOff}

-- No job of the run is pending, claimed, running or paused.
abbrev pub IsStopped : ℕ → List (Job RunPayload) → Type 0
IsStopped run = All (λ j. is_job_of run j ≡ true → is_live j.status ≡ false)

abbrev stop : ℕ → Job RunPayload → Job RunPayload
stop now j = record j { status = JobStatus.cancelled; completed_at = some now }

stop-IsStopped :
    (run now : ℕ) (js : List (Job RunPayload))
    → IsStopped run (update_where (λ j. is_live j.status && is_job_of run j) (stop now) js)
stop-IsStopped run now [] = tt
stop-IsStopped run now (j ∷ js) = (
  if_cases (λ (k : Job RunPayload). is_job_of run k ≡ true → is_live k.status ≡ false)
      (is_live j.status && is_job_of run j) (stop now j) j (λ _ _. refl)
      (λ miss mine. left (is_live j.status) (is_job_of run j) miss mine),
  stop-IsStopped run now js,
)
  where
    left : (a b : Bool) → (a && b) ≡ false → b ≡ true → a ≡ false
    left true b h k = cc
    left false b h k = refl

abbrev Ends : ℕ → Reply → Type 0
Ends id (replied r t) = IsOff id t × IsStopped id t.queue.jobs
Ends id not_found = Unit
Ends id not_allowed = Unit

act-Ends :
    (f : Fresh) (id : ℕ) (db : ControlDb) (run : ControlRun)
    → first_where (is_run id) db.runs ≡ some run
    → run.id ≡ id
    → Ends id (act f run db cancel)
unfolding control_run
act-Ends f id db run found own =
    let change : ControlRun → ControlRun =
      λ r. record r { status = cancelled; completed_at = some f.now } in
    let stored =
      subst
        (λ k. first_where (is_run id) (update_where (is_run k) change db.runs) ≡ some (change run))
        (sym own) (first_where-update_where (is_run id) change (λ x hit. hit) db.runs run found) in
    let stopped =
      subst
        (λ k.
          IsStopped k
            (update_where (λ j. is_live j.status && is_job_of run.id j) (stop f.now) db.queue.jobs))
        own (stop-IsStopped run.id f.now db.queue.jobs) in
    ((change run, stored, refl), stopped)

with_run-Ends :
    (f : Fresh) (id : ℕ) (db : ControlDb) (o : Option ControlRun)
    → first_where (is_run id) db.runs ≡ o
    → Ends id (with_run f cancel db o)
with_run-Ends f id db none found = tt
with_run-Ends f id db (some run) found =
    if_cases (Ends id) (not (allows run.status cancel)) _ _ (λ _. tt)
      (λ _.
        act-Ends f id db run found (==→eq run.id id (first_where-passes (is_run id) db.runs found)))

-- After a cancellation that replies the run is cancelled and none of its jobs is pending, claimed,
-- running or paused; and after any later calls of start_run and control_run, for this and other runs,
-- with no operator between them, the run is still cancelled, and no call cancels, pauses or resumes it.
pub cancel-IsCancelled :
    (f : Fresh) (id : ℕ) (db : ControlDb) {r : ControlRun} {t u : ControlDb}
    → control_run f id cancel db ≡ replied r t
    → Calls t u
    → IsOff id t × IsStopped id t.queue.jobs × IsOff id u × IsRefused id u
unfolding control_run
cancel-IsCancelled f id db {t = t} {u = u} e calls =
    let (off, stopped) =
      subst (Ends id) e (with_run-Ends f id db (first_where (is_run id) db.runs) refl) in
    let later = Calls-IsOff id calls off in (off, stopped, later, IsOff-IsRefused id u later)
