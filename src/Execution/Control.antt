-- ===== src/Execution/Control.antt =====
-- The control of runs in libs/core/services/experiment_service.py: `start_run` and `control_run`.
-- The clean-up of a worktree and the end of a container are left out; a call that raises is rolled
-- back.
pub mod Numbered
pub mod Later
pub mod Final
pub mod Reopened
mod Tests
use Prim.Native.String.{String}
use synthetos.Prelude.{
  ℕ, ◌+◌, ◌==◌, Bool, true, false, ◌&&◌, not, Option, none, some, List, [], ◌∷◌, ◌++◌,
  if◌then◌else◌, any_of, first_where, update_where, count_if, holds,
}
use synthetos.Prelude.Int.{pos}
use synthetos.Cycle.{CycleStatus, protocol_ready, same_status, ResearchCycle, has_id}
use synthetos.Jobs.{Job, JobStatus, is_pending, is_held, Queue, create_job}
use synthetos.Execution.{
  RunStatus, pending, workspace_setup, building, running, capturing, completed, failed, paused,
  cancelled,
}

-- A row of `run_records`, as far as the service reads and writes it.
pub record ControlRun : Type 0 where
  pub id : ℕ
  pub experiment_spec_id : ℕ
  pub charter_id : ℕ
  pub cycle_id : ℕ
  pub run_number : ℕ
  pub status : RunStatus
  pub completed_at : Option ℕ

pub data SpecStatus : Type 0 where
  draft validated executing : SpecStatus

pub record SpecRow : Type 0 where
  pub id : ℕ
  pub charter_id : ℕ
  pub cycle_id : ℕ
  pub status : SpecStatus

-- The payloads of jobs with a run, and any other.
pub data RunPayload : Type 0 where
  of_run : ℕ → RunPayload
  resuming : ℕ → RunPayload
  of_other : RunPayload

pub data ControlEvent : Type 0 where
  workspace_created run_cancelled run_paused : ℕ → ControlEvent

pub record ControlDb : Type 0 where
  pub runs : List ControlRun
  pub specs : List SpecRow
  pub cycles : List ResearchCycle
  pub queue : Queue RunPayload
  pub events : List ControlEvent

-- The reply with its run, or an `ExperimentServiceError`.
pub data Reply : Type 0 where
  replied : ControlRun → ControlDb → Reply
  not_found not_allowed : Reply

-- The clock, and the fresh identifiers of a run and a job.
pub record Fresh : Type 0 where
  pub now : ℕ
  pub run_id : ℕ
  pub job_id : ℕ

abbrev pub is_of_spec : ℕ → ControlRun → Bool
is_of_spec spec r = r.experiment_spec_id == spec

-- The number of the next run of a spec.
abbrev pub next_number : ℕ → ControlDb → ℕ
next_number spec db = count_if (is_of_spec spec) db.runs + 1

abbrev pub new_run : Fresh → ℕ → ℕ → ℕ → ControlDb → ControlRun
new_run f spec charter cycle db = record {
  id = f.run_id;
  experiment_spec_id = spec;
  charter_id = charter;
  cycle_id = cycle;
  run_number = next_number spec db;
  status = pending;
  completed_at = none;
}

abbrev pub enqueue : Fresh → ℕ → String → RunPayload → ControlDb → ControlDb
enqueue f cycle job_type payload db = record db {
  queue = (create_job f.job_id (some cycle) job_type (some payload) (pos 10) f.now db.queue).1;
}

abbrev pub is_validated : SpecStatus → Bool
is_validated validated = true
is_validated _ = false

abbrev pub find_spec : ℕ → List SpecRow → Option SpecRow
find_spec i = first_where (λ s. s.id == i)

-- Cycles that pass a test are set running, with no check of the transition and no event.
abbrev pub set_running : (ResearchCycle → Bool) → ℕ → List ResearchCycle → List ResearchCycle
set_running test now =
    update_where test (λ c. record c { status = CycleStatus.running; updated_at = now })

unfoldable pub start_for : Fresh → SpecRow → ControlDb → Reply
unfolding create_job same_status
start_for f spec db =
    let run = new_run f spec.id spec.charter_id spec.cycle_id db in
    replied run (
      enqueue f spec.cycle_id "execution_setup" (of_run f.run_id) (record {
        runs = db.runs ++ run ∷ [];
        specs = update_where (λ s. s.id == spec.id) (λ s. record s { status = executing }) db.specs;
        cycles =
            set_running (λ c. c.id == spec.cycle_id && same_status c.status protocol_ready) f.now
              db.cycles;
        queue = db.queue;
        events = db.events ++ workspace_created f.run_id ∷ [];
      }))

abbrev pub with_cycle : Fresh → SpecRow → ControlDb → Option ResearchCycle → Reply
with_cycle f spec db none = not_found
with_cycle f spec db (some _) = start_for f spec db

abbrev pub with_spec : Fresh → ControlDb → Option SpecRow → Reply
with_spec f db none = not_found
with_spec f db (some spec) =
    if not (is_validated spec.status)
    then not_allowed
    else with_cycle f spec db (first_where (has_id spec.cycle_id) db.cycles)

unfoldable pub start_run : Fresh → ℕ → ControlDb → Reply
unfolding start_for
start_run f spec_id db = with_spec f db (find_spec spec_id db.specs)

-- The actions of the API, and any other text.
pub data Action : Type 0 where
  cancel pause resume retry other : Action

-- `action in _ALLOWED_ACTIONS.get(run.status, [])`
unfoldable pub allows : RunStatus → Action → Bool
allows pending cancel = true
allows workspace_setup cancel = true
allows building cancel = true
allows running cancel = true
allows running pause = true
allows paused cancel = true
allows paused resume = true
allows failed retry = true
allows cancelled retry = true
allows _ _ = false

abbrev pub is_run : ℕ → ControlRun → Bool
is_run i r = r.id == i

abbrev pub names_run : ℕ → RunPayload → Bool
names_run i (of_run k) = k == i
names_run i (resuming k) = k == i
names_run i of_other = false

abbrev pub is_job_of : ℕ → Job RunPayload → Bool
is_job_of i j = holds (names_run i) j.payload

-- Pending, claimed, running or paused.
abbrev pub is_live : JobStatus → Bool
is_live JobStatus.completed = false
is_live JobStatus.failed = false
is_live JobStatus.cancelled = false
is_live _ = true

abbrev pub write : ℕ → (ControlRun → ControlRun) → ControlDb → ControlDb
write run change db = record db { runs = update_where (is_run run) change db.runs }

abbrev pub stop_jobs :
    ℕ → (JobStatus → Bool) → (Job RunPayload → Job RunPayload) → ControlDb → ControlDb
stop_jobs run test change db = record db {
  queue = record db.queue {
    jobs = update_where (λ j. test j.status && is_job_of run j) change db.queue.jobs;
  };
}

abbrev pub log : ControlEvent → ControlDb → ControlDb
log e db = record db { events = db.events ++ e ∷ [] }

-- A cycle that is not running is set running, whatever its status is.
abbrev pub restart : ℕ → ℕ → ControlDb → ControlDb
restart cycle now db = record db {
  cycles =
      set_running (λ c. c.id == cycle && not (same_status c.status CycleStatus.running)) now
        db.cycles;
}

unfoldable pub act : Fresh → ControlRun → ControlDb → Action → Reply
unfolding create_job same_status
act f run db cancel =
    replied (record run { status = cancelled; completed_at = some f.now })
      (log (run_cancelled run.id) (
        stop_jobs run.id is_live
          (λ j. record j { status = JobStatus.cancelled; completed_at = some f.now })
          (write run.id (λ r. record r { status = cancelled; completed_at = some f.now }) db)))
act f run db pause =
    replied (record run { status = paused })
      (log (run_paused run.id) (
        stop_jobs run.id is_held (λ j. record j { status = JobStatus.paused })
          (write run.id (λ r. record r { status = paused }) db)))
act f run db resume =
    replied (record run { status = running })
      (restart run.cycle_id f.now (
        enqueue f run.cycle_id "execution_run" (resuming run.id)
          (write run.id (λ r. record r { status = running }) db)))
act f run db retry =
    let again = new_run f run.experiment_spec_id run.charter_id run.cycle_id db in
    replied again (
      enqueue f run.cycle_id "execution_setup" (of_run f.run_id)
        (restart run.cycle_id f.now (record db { runs = db.runs ++ again ∷ [] })))
act f run db other = not_allowed

abbrev pub with_run : Fresh → Action → ControlDb → Option ControlRun → Reply
with_run f action db none = not_found
with_run f action db (some run) =
    if not (allows run.status action) then not_allowed else act f run db action

unfoldable pub control_run : Fresh → ℕ → Action → ControlDb → Reply
unfolding act allows
control_run f run_id action db = with_run f action db (first_where (is_run run_id) db.runs)
