-- ===== src/Worker.antt =====
-- The worker of apps/worker: the operator contract of libs/core/operators.py, the registry and the
-- dispatch of apps/worker/executor.py, and the tables that a pass of apps/worker/main.py writes.
pub mod Failure
pub mod Persist
pub mod Pass
pub mod Periodic
mod Tests
use Prim.Native.String.{String, ◌++◌ as joined}
use text.Mathlib.Text.{◌==◌ as str_eq}
use synthetos.Prelude.{
  ℕ, Bool, true, false, Option, none, some, List, [], ◌∷◌, ◌++◌, map, if◌then◌else◌,
}
use synthetos.Cycle.{Store, StatePatch, get_cycle}
use synthetos.Jobs.{Job, Queue}

-- A value of a payload: an identifier is a text that `UUID(…)` reads, anything else is JSON.
pub data Value : Type 0 where
  identifier : ℕ → Value
  json : String → Value
  null : Value

abbrev pub Payload : Type 0
Payload = List (String × Value)

-- `payload.get(key)`
abbrev pub value_of : String → Payload → Value
value_of key [] = null
value_of key (e ∷ es) = let rest = value_of key es in if str_eq e.0 key then e.1 else rest

pub record OperatorEvent : Type 0 where
  pub event_type : String
  pub payload : Option String

-- Of the patch, the two keys that the worker reads.
pub record OperatorResult : Type 0 where
  pub events : List OperatorEvent
  pub state_patch : StatePatch
  pub artifacts : List String
  pub summary : String
  pub success : Bool
  pub error : Option String

-- What the columns `payload` and `result` of a job hold.
pub data Document : Type 0 where
  fields : Payload → Document
  outcome : String → StatePatch → List String → List OperatorEvent → Document

-- An identifier of 0 is `UUID(int=0)`.
pub record OperatorInput : Type 0 where
  pub cycle_id : ℕ
  pub charter_id : ℕ
  pub job_id : ℕ
  pub job_type : String
  pub payload : Payload

-- An entry of a session's step log, with its detail.
pub record StepEntry : Type 0 where
  pub step : String
  pub status : String
  pub at : ℕ
  pub job_id : ℕ
  pub job_type : String
  pub error : String

-- A row of a discovery or hypothesis session.
pub record SessionRow : Type 0 where
  pub id : ℕ
  pub status : String
  pub error : Option String
  pub completed_at : Option ℕ
  pub step_log : List StepEntry

pub record AnalysisRow : Type 0 where
  pub session : SessionRow
  pub paper_card_id : ℕ

pub record RunRow : Type 0 where
  pub id : ℕ
  pub status : String
  pub error : Option String
  pub completed_at : Option ℕ

-- The domain events that the worker itself emits, with their payloads.
pub data WorkerEvent : Type 0 where
  job_started : ℕ → String → WorkerEvent
  job_cancelled_acknowledged job_paused_at_checkpoint : ℕ → WorkerEvent
  job_completed : ℕ → String → WorkerEvent
  job_failed : ℕ → Option String → WorkerEvent
  discovery_session_failed ideation_session_failed : ℕ → String → Option String → WorkerEvent
  execution_run_failed : ℕ → String → Option String → WorkerEvent
  analysis_session_failed : ℕ → ℕ → String → Option String → WorkerEvent
  operator_event : OperatorEvent → WorkerEvent

pub record LogEntry : Type 0 where
  pub charter_id : Option ℕ
  pub cycle_id : Option ℕ
  pub actor_id : ℕ
  pub event : WorkerEvent

-- The row `decay_patterns` of the table of periodic jobs.
pub record PeriodicState : Type 0 where
  pub last_enqueued_at : Option ℕ
  pub last_job_id : Option ℕ

-- The tables. The queue and the cycles keep the events of their own services.
pub record WorkerDb : Type 0 where
  pub queue : Queue Document
  pub store : Store
  pub discovery : List SessionRow
  pub analysis : List AnalysisRow
  pub ideation : List SessionRow
  pub runs : List RunRow
  pub log : List LogEntry
  pub decay_state : Option PeriodicState

-- How an operator ends.
pub data Ending : Type 0 where
  returns : OperatorResult → Ending
  raises : String → Ending

-- An operator commits by itself: its second part are the tables when it ends, with what others did
-- to them meanwhile.
abbrev pub Operator : Type 0
Operator = OperatorInput → WorkerDb → Ending × WorkerDb

-- `_REGISTRY`
abbrev pub Registry : Type 0
Registry = List (String × Operator)

-- `_REGISTRY[job_type] = handler`
pub register_operator : String → Operator → Registry → Registry
register_operator job_type handler [] = (job_type, handler) ∷ []
register_operator job_type handler (e ∷ es) =
    let rest = register_operator job_type handler es in
    if str_eq e.0 job_type then (e.0, handler) ∷ es else e ∷ rest

-- `_REGISTRY.get(job_type)`
pub handler_of : String → Registry → Option Operator
handler_of job_type [] = none
handler_of job_type (e ∷ es) =
    let rest = handler_of job_type es in if str_eq e.0 job_type then some e.1 else rest

-- `repr` of a text with no quote and no escape, as the types of jobs are.
abbrev pub quoted : String → String
quoted s = joined "'" (joined s "'")

abbrev pub error_result : String → OperatorResult
error_result error = record {
  events = [];
  state_patch = record { cycle_status = none; target_status = none };
  artifacts = [];
  summary = "";
  success = false;
  error = some error;
}

-- The `try` around the handler.
abbrev pub caught : String → Ending → OperatorResult
caught job_type (returns result) = result
caught job_type (raises text) =
    error_result (joined "Handler for " (joined (quoted job_type) (joined " raised: " text)))

pub dispatch : OperatorInput → WorkerDb → Option Operator → OperatorResult × WorkerDb
dispatch i db none =
    (error_result (joined "No handler registered for job_type=" (quoted i.job_type)), db)
dispatch i db (some handler) = let (ending, db') = handler i db in (caught i.job_type ending, db')

pub execute : Registry → OperatorInput → WorkerDb → OperatorResult × WorkerDb
unfolding handler_of dispatch
execute registry i db = dispatch i db (handler_of i.job_type registry)

-- `_resolve_charter_id`
pub resolve_charter_id : Job Document → WorkerDb → Option ℕ
resolve_charter_id j db = elim j.cycle_id [
  | none ↦ none
  | some cycle ↦ elim (get_cycle cycle db.store) [ none ↦ none | some c ↦ some c.charter_id ]
]

abbrev pub or_nil : Option ℕ → ℕ
or_nil none = 0
or_nil (some i) = i

-- `job.payload or {}`
abbrev pub payload_of : Job Document → Payload
payload_of j = elim j.payload [
  | none ↦ []
  | some d ↦ elim d [ fields p ↦ p | outcome _ _ _ _ ↦ [] ]
]

pub build_operator_input : Job Document → WorkerDb → OperatorInput
unfolding resolve_charter_id
build_operator_input j db = record {
  cycle_id = or_nil j.cycle_id;
  charter_id = or_nil (resolve_charter_id j db);
  job_id = j.id;
  job_type = j.job_type;
  payload = payload_of j;
}

-- `emit_event_sync` of the worker.
abbrev pub emit : Option ℕ → Option ℕ → ℕ → WorkerEvent → WorkerDb → WorkerDb
emit charter cycle worker event db = record db {
  log =
      db.log
      ++ record { charter_id = charter; cycle_id = cycle; actor_id = worker; event = event } ∷ [];
}

-- `_persist_operator_events`
pub persist_operator_events : Option ℕ → Option ℕ → ℕ → List OperatorEvent → WorkerDb → WorkerDb
persist_operator_events charter cycle worker events db = record db {
  log =
      db.log
      ++ map
          (λ e. record {
            charter_id = charter;
            cycle_id = cycle;
            actor_id = worker;
            event = operator_event e;
          })
          events;
}
