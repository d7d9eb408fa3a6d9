-- ===== src/Execution/Control/Tests.antt =====
-- Tests and examples of the control of runs (libs/core/services/experiment_service.py).
use synthetos.Prelude.{◌≡◌, refl, none, some, [], ◌∷◌, ◌++◌, map, first_where}
use synthetos.Cycle.{
  CycleStatus, closed, protocol_ready, ResearchCycle, has_id, err, invalid_transition,
  validate_transition,
}
use synthetos.Jobs.{Job, JobStatus}
use synthetos.Execution.{pending, failed}
use synthetos.Execution.Control.{
  ControlRun, validated, ControlDb, Reply, replied, not_found, not_allowed, Fresh, start_run,
  cancel, retry, control_run,
}
use synthetos.Execution.Control.Numbered.{
  IsNumbered, begin, next, start, control, add, Step, History-IsNumbered,
}
use synthetos.Execution.Control.Later.{IsOff, IsRefused, none_made, controlled}
use synthetos.Execution.Control.Final.{IsStopped, cancel-IsCancelled}
use synthetos.Execution.Control.Reopened.{retry-reopens}

abbrev cycle : CycleStatus → ResearchCycle
cycle status = record {
  id = 1;
  charter_id = 2;
  status = status;
  started_at = some 4;
  completed_at = none;
  updated_at = 5;
}

abbrev ready : ControlDb
ready = record {
  runs = [];
  specs = record { id = 3; charter_id = 2; cycle_id = 1; status = validated } ∷ [];
  cycles = cycle protocol_ready ∷ [];
  queue = record { jobs = []; events = [] };
  events = [];
}

abbrev at_start : Fresh
at_start = record { now = 10; run_id = 5; job_id = 20 }

abbrev at_retry : Fresh
at_retry = record { now = 12; run_id = 6; job_id = 21 }

-- The tables that a reply leaves.
abbrev after : Reply → ControlDb
after (replied r t) = t
after not_found = ready
after not_allowed = ready

abbrev run_of : Reply → ControlRun
run_of (replied r t) = r
run_of _ = record {
  id = 0;
  experiment_spec_id = 0;
  charter_id = 0;
  cycle_id = 0;
  run_number = 0;
  status = pending;
  completed_at = none;
}

abbrev begun : ControlDb
begun = after (start_run at_start 3 ready)

abbrev stopped : ControlDb
stopped = after (control_run at_start 5 cancel begun)

abbrev again : ControlDb
again = after (control_run at_retry 5 retry stopped)

starts : start_run at_start 3 ready ≡ replied (run_of (start_run at_start 3 ready)) begun
unfolding start_run
starts = refl

cancels :
    control_run at_start 5 cancel begun
    ≡ replied (run_of (control_run at_start 5 cancel begun)) stopped
unfolding start_run control_run
cancels = refl

retries :
    control_run at_retry 5 retry stopped
    ≡ replied (run_of (control_run at_retry 5 retry stopped)) again
unfolding start_run control_run
retries = refl

two_runs : map (λ r. r.run_number) again.runs ≡ 1 ∷ 2 ∷ []
unfolding start_run control_run
two_runs = refl

job_is_stopped : map (λ (j : Job _). j.status) stopped.queue.jobs ≡ JobStatus.cancelled ∷ []
unfolding start_run control_run
job_is_stopped = refl

-- An operator adds a run of another spec.
abbrev foreign : ControlRun
foreign = record (run_of (control_run at_retry 5 retry stopped)) { id = 7; experiment_spec_id = 4 }

abbrev with_foreign : ControlDb
with_foreign = record again { runs = again.runs ++ foreign ∷ [] }

joins : Step 3 again with_foreign
unfolding control_run
joins = add foreign refl refl

History-IsNumbered_example : IsNumbered 3 with_foreign.runs
History-IsNumbered_example = History-IsNumbered 3 (
    next
      (next
        (next (next (begin {db = ready} refl) (start at_start 3 starts))
          (control at_start 5 cancel cancels))
        (control at_retry 5 retry retries))
      joins)

-- The run is cancelled, and another run takes its place.
cancel-IsCancelled_example :
    IsOff 5 stopped × IsStopped 5 stopped.queue.jobs × IsOff 5 again × IsRefused 5 again
cancel-IsCancelled_example =
    cancel-IsCancelled at_start 5 begun cancels (controlled none_made at_retry 5 retry retries)

abbrev lost : ControlRun
lost = record {
  id = 5;
  experiment_spec_id = 3;
  charter_id = 2;
  cycle_id = 1;
  run_number = 1;
  status = failed;
  completed_at = some 9;
}

abbrev over : ControlDb
over = record ready { runs = lost ∷ []; cycles = cycle closed ∷ [] }

retry-reopens_example :
    (r : ControlRun) × (t : ControlDb) × (c' : ResearchCycle) × (control_run at_retry 5 retry over
      ≡ replied r t)
    × (first_where (has_id 1) t.cycles ≡ some c')
    × (c'.status ≡ CycleStatus.running)
    × (validate_transition closed CycleStatus.running
        ≡ err (invalid_transition closed CycleStatus.running))
retry-reopens_example = retry-reopens at_retry 5 over lost (cycle closed) refl refl refl refl
