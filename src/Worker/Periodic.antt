-- ===== src/Worker/Periodic.antt =====
-- The periodic tasks of apps/worker/periodic.py.
pub mod Decay
use Prim.Native.String.{String}
use synthetos.Prelude.{
  ℕ, ◌+◌, ◌*◌, ltb, Bool, true, false, Option, none, some, List, [], ◌∷◌, ◌++◌, if◌then◌else◌,
  holds,
}
use synthetos.Prelude.Int.{pos}
use synthetos.Jobs.{new_job, reclaim_stale_jobs}
use synthetos.Worker.{Value, json, fields, PeriodicState, WorkerDb}

pub record Settings : Type 0 where
  pub job_heartbeat_timeout_s : ℕ
  pub job_max_reclaims : ℕ
  pub worker_periodic_tick_s : ℕ
  pub pattern_decay_interval_h : ℕ
  -- the text of the number `pattern_max_staleness_days`
  pub pattern_max_staleness_days : String

-- `timedelta(hours=…)` in seconds, the unit of the clock.
abbrev pub decay_interval : Settings → ℕ
decay_interval s = s.pattern_decay_interval_h * 3600

-- A clock that was set back also keeps the gate shut.
abbrev pub is_gated : ℕ → ℕ → PeriodicState → Bool
is_gated interval now state = holds (λ last. ltb now (last + interval)) state.last_enqueued_at

-- `_maybe_enqueue_decay`, with the fresh identifier of the job.
unfoldable pub maybe_enqueue_decay : Settings → ℕ → ℕ → WorkerDb → Bool × WorkerDb
unfolding new_job
maybe_enqueue_decay settings id now db =
    if holds (is_gated (decay_interval settings) now) db.decay_state then (false, db) else (
      true,
      record db {
        queue = record db.queue {
          jobs =
              db.queue.jobs
              ++ new_job id none "decay_patterns"
                  (some (
                    fields (("max_staleness_days", json settings.pattern_max_staleness_days) ∷ [])))
                  (pos 0) now
                ∷ [];
        };
        decay_state = some (record { last_enqueued_at = some now; last_job_id = some id });
      },
    )

-- `run_periodic_tasks`: the reclaim, then the decay; the counts are only logged.
unfoldable pub run_periodic_tasks : Settings → ℕ → ℕ → WorkerDb → WorkerDb
unfolding maybe_enqueue_decay reclaim_stale_jobs
run_periodic_tasks settings id now db =
    let (_, q) =
      reclaim_stale_jobs settings.job_heartbeat_timeout_s settings.job_max_reclaims now db.queue in
    (maybe_enqueue_decay settings id now (record db { queue = q })).1
