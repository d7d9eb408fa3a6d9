-- ===== src/Worker/Tests.antt =====
-- Tests and examples of the worker (apps/worker).
use Prim.Native.String.{String}
use text.Mathlib.Text.{◌==◌ as str_eq}
use synthetos.Prelude.{
  ◌≡◌, refl, true, false, none, some, List, [], ◌∷◌, arith, Bool-cases, inl, inr, ◌≤◌, ◌+◌, ◌*◌,
}
use synthetos.Prelude.Int.{pos}
use synthetos.Cycle.{created, apply_state_patch, get_cycle, validate_transition, parse_status}
use synthetos.Jobs.{
  Job, Queue, pending, claimed, cancelled, job_cancelled, get_job, fail_job, complete_job,
}
use synthetos.Jobs.Api.{done, cancel_job}
use synthetos.Worker.{
  Document, fields, identifier, OperatorResult, OperatorInput, WorkerDb, Registry, Operator,
  returns, raises, execute, error_result,
}
use synthetos.Worker.Persist.{persist}
use synthetos.Worker.Persist.Contract.{IsPersisted}
use synthetos.Worker.Persist.Outcome.{persist-IsPersisted}
use synthetos.Worker.Periodic.{Settings}
use synthetos.Worker.Periodic.Decay.{Call, decays, decays_bounded}
use synthetos.Worker.Pass.{Tick, Turn, going, ended, loop, work_on, pass}
use synthetos.Worker.Pass.Drain.{IsDrained, IsQuiet, loop-IsDrained}
use synthetos.Worker.Pass.Cancelled.{Completes, cancel_before_start-Completes}

abbrev good : OperatorResult
good = record {
  events = record { event_type = "search_done"; payload = none } ∷ [];
  state_patch = record { cycle_status = none; target_status = none };
  artifacts = [];
  summary = "found 3";
  success = true;
  error = none;
}

-- A success that moves a created cycle where it cannot go.
abbrev leaps : OperatorResult
leaps = record good { state_patch = record { cycle_status = some "running"; target_status = none } }

abbrev search : Job Document
search = record {
  id = 7;
  cycle_id = some 1;
  job_type = "discovery_search";
  status = pending;
  payload = some (fields (("session_id", identifier 4) ∷ []));
  priority = pos 10;
  created_at = 3;
  claimed_by = none;
  claimed_at = none;
  heartbeat_at = none;
  completed_at = none;
  reclaim_count = 0;
  result = none;
  error = none;
}

abbrev db : WorkerDb
db = record {
  queue = record { jobs = search ∷ []; events = [] };
  store = record {
    cycles =
        record {
          id = 1;
          charter_id = 2;
          status = created;
          started_at = none;
          completed_at = none;
          updated_at = 0;
        }
        ∷ [];
    events = [];
  };
  discovery =
      record { id = 4; status = "searching"; error = none; completed_at = none; step_log = [] }
      ∷ [];
  analysis = [];
  ideation = [];
  runs = [];
  log = [];
  decay_state = none;
}

abbrev succeeds : Operator
succeeds i d = (returns good, d)

abbrev jumps : Operator
jumps i d = (returns leaps, d)

abbrev breaks : Operator
breaks i d = (raises "no source", d)

abbrev tick : Tick
tick = record { mono = 0; now = 20; later = 21; locked = (λ _. false); fresh = 99 }

abbrev status_after : Turn → List String
status_after (going d) = elim d.discovery [
  | [] ↦ []
  | ◌∷◌ s _ ↦ s.status ∷ elim s.error [ none ↦ [] | some e ↦ e ∷ [] ]
]
status_after (ended _ _) = "ended" ∷ []

raised_fails_session :
    status_after (pass (("discovery_search", breaks) ∷ []) 5 tick db)
    ≡ "failed" ∷ "Handler for 'discovery_search' raised: no source" ∷ []
unfolding pass fail_job complete_job apply_state_patch get_cycle validate_transition parse_status
raised_fails_session = refl

unknown_fails_session :
    status_after (pass [] 5 tick db)
    ≡ "failed" ∷ "No handler registered for job_type='discovery_search'" ∷ []
unfolding pass fail_job complete_job apply_state_patch get_cycle validate_transition parse_status
unknown_fails_session = refl

success_keeps_session :
    status_after (pass (("discovery_search", succeeds) ∷ []) 5 tick db) ≡ "searching" ∷ []
unfolding pass fail_job complete_job apply_state_patch get_cycle validate_transition parse_status
success_keeps_session = refl

refused_patch_ends : status_after (pass (("discovery_search", jumps) ∷ []) 5 tick db) ≡ "ended" ∷ []
unfolding pass fail_job complete_job apply_state_patch get_cycle validate_transition parse_status
refused_patch_ends = refl

abbrev bad : OperatorResult
bad = error_result "no source"

search_found : get_job 7 db.queue ≡ some search
unfolding get_job
search_found = refl

persist-IsPersisted_example : IsPersisted 5 30 search bad db (persist 5 30 7 bad db)
persist-IsPersisted_example = persist-IsPersisted 5 30 7 bad db search search_found

abbrev settings : Settings
settings = record {
  job_heartbeat_timeout_s = 120;
  job_max_reclaims = 3;
  worker_periodic_tick_s = 60;
  pattern_decay_interval_h = 24;
  pattern_max_staleness_days = "180";
}

abbrev one_operator : Registry
one_operator = ("discovery_search", succeeds) ∷ []

one_operator-IsQuiet : IsQuiet one_operator
unfolding execute
one_operator-IsQuiet i d = elim (Bool-cases (str_eq "discovery_search" i.job_type)) [
  | inl hit ↦ rw hit (omega arith)
  | inr miss ↦ rw miss (omega arith)
]

loop-IsDrained_example : IsDrained (loop settings one_operator 5 0 (tick ∷ []) db)
loop-IsDrained_example =
    loop-IsDrained settings one_operator 5 0 (tick ∷ []) db one_operator-IsQuiet ((refl, refl), tt)
      (omega arith)

-- Two calls within a day enqueue one job.
abbrev decayed : WorkerDb
decayed = record db {
  decay_state = some (record { last_enqueued_at = some 0; last_job_id = some 1 });
}

abbrev calls : List Call
calls =
    record { id = 8; now = 90000; meanwhile = λ d. d }
    ∷ record { id = 9; now = 100000; meanwhile = λ d. d }
    ∷ []

decays_once : (decays settings calls decayed).0 ≡ 1
unfolding decays
decays_once = refl

decays_bounded_example : (decays settings calls decayed).0 * 86400 + 0 ≤ 100000
decays_bounded_example =
    decays_bounded settings calls decayed 0 100000 ((λ d. refl), ((λ d. refl), tt)) (some 1, refl)
      (omega arith) (omega arith, (omega arith, tt))

-- The job is claimed, then cancelled, then started.
abbrev held : WorkerDb
held = record db {
  queue = record {
    jobs = record search { status = claimed; claimed_by = some 5 } ∷ [];
    events = [];
  };
}

abbrev called_off : Queue Document
called_off = record {
  jobs = record search { status = cancelled; claimed_by = some 5; completed_at = some 30 } ∷ [];
  events = job_cancelled 7 ∷ [];
}

called_off_done : cancel_job 7 30 held.queue ≡ done called_off
unfolding cancel_job get_job
called_off_done = refl

held_found : get_job 7 held.queue ≡ some (record search { status = claimed; claimed_by = some 5 })
unfolding get_job
held_found = refl

always_good :
    (i : OperatorInput) (d : WorkerDb)
    → i.job_type ≡ "discovery_search"
    → execute one_operator i d ≡ (good, d)
unfolding execute
always_good i d e = rw e refl

cancel_before_start-Completes_example :
    Completes 7 (work_on one_operator 5 31 7 (record held { queue = called_off }))
cancel_before_start-Completes_example =
    cancel_before_start-Completes one_operator good 5 30 31 7 held called_off
      (record search { status = claimed; claimed_by = some 5 }) held_found called_off_done refl refl
      always_good
