-- ===== src/Worker/Failure/Keeps.antt =====
-- What the marks of apps/worker/main.py leave alone: the queue, the cycles and the event log.
use Prim.Native.String.{String}
use text.Mathlib.Text.{starts_with}
use synthetos.Prelude.{ℕ, ◌≡◌, refl, Bool-cases, inl, inr}
use synthetos.Jobs.{Job}
use synthetos.Worker.{Document, WorkerDb}
use synthetos.Worker.Failure.{
  is_run_job, mark_discovery_job_failed, mark_ideation_job_failed, mark_analysis_job_failed,
  mark_execution_job_failed,
}

abbrev pub IsKept : WorkerDb → WorkerDb → Type 0
IsKept db db' =
    (db'.queue ≡ db.queue)
    × (db'.store ≡ db.store)
    × (db'.log ≡ db.log)
    × (db'.decay_state ≡ db.decay_state)

module _ (j : Job Document) (error : String) (now : ℕ) (db : WorkerDb) where
  pub mark_discovery_job_failed-IsKept : IsKept db (mark_discovery_job_failed j error now db).1
  unfolding mark_discovery_job_failed
  mark_discovery_job_failed-IsKept = elim (Bool-cases (starts_with j.job_type "discovery_")) [
    | inl hit ↦ rw hit (refl, refl, refl, refl)
    | inr miss ↦ rw miss (refl, refl, refl, refl)
  ]

  pub mark_ideation_job_failed-IsKept : IsKept db (mark_ideation_job_failed j error now db).1
  unfolding mark_ideation_job_failed
  mark_ideation_job_failed-IsKept = elim (Bool-cases (starts_with j.job_type "hypothesis_")) [
    | inl hit ↦ rw hit (refl, refl, refl, refl)
    | inr miss ↦ rw miss (refl, refl, refl, refl)
  ]

  pub mark_analysis_job_failed-IsKept : IsKept db (mark_analysis_job_failed j error now db).1
  unfolding mark_analysis_job_failed
  mark_analysis_job_failed-IsKept = elim (Bool-cases (starts_with j.job_type "analysis_")) [
    | inl hit ↦ rw hit (refl, refl, refl, refl)
    | inr miss ↦ rw miss (refl, refl, refl, refl)
  ]

  pub mark_execution_job_failed-IsKept : IsKept db (mark_execution_job_failed j error now db).1
  unfolding mark_execution_job_failed
  mark_execution_job_failed-IsKept = elim (Bool-cases (is_run_job j.job_type)) [
    | inl hit ↦ rw hit (refl, refl, refl, refl)
    | inr miss ↦ rw miss (refl, refl, refl, refl)
  ]
