-- ===== src/Cycle.antt =====
-- The life of a research cycle: the status enum (libs/core/types.py), the transition table
-- (libs/core/state_machine.py), and the two writers of a cycle's status, `transition_cycle`
-- (libs/core/services/cycle_service.py) and `_apply_state_patch` (apps/worker/main.py).
pub mod Reach
pub mod Logged
pub mod Writers
pub mod History
mod Tests
use Prim.Native.String.{String}
use text.Mathlib.Text.{◌==◌ as str_eq}
use synthetos.Prelude.{
  ℕ, ◌==◌, Bool, true, false, ◌&&◌, not, Option, none, some, List, [], ◌∷◌, ◌++◌, if◌then◌else◌,
  is_some, any_of, first_where, update_where,
}

pub data CycleStatus : Type 0 where
  created discovery_ready discovery_screened analysis_ready evidence_ready : CycleStatus
  portfolio_ready protocol_ready running verifying loop_deciding reporting closed : CycleStatus

-- The value of a status, as the database and the operators' patches hold it.
unfoldable pub status_value : CycleStatus → String
status_value created = "created"
status_value discovery_ready = "discovery_ready"
status_value discovery_screened = "discovery_screened"
status_value analysis_ready = "analysis_ready"
status_value evidence_ready = "evidence_ready"
status_value portfolio_ready = "portfolio_ready"
status_value protocol_ready = "protocol_ready"
status_value running = "running"
status_value verifying = "verifying"
status_value loop_deciding = "loop_deciding"
status_value reporting = "reporting"
status_value closed = "closed"

abbrev pub all_statuses : List CycleStatus
all_statuses =
    created ∷ discovery_ready ∷ discovery_screened ∷ analysis_ready ∷ evidence_ready
    ∷ portfolio_ready ∷ protocol_ready ∷ running ∷ verifying ∷ loop_deciding ∷ reporting ∷ closed
    ∷ []

-- `CycleStatus(raw)`; `none` is the `ValueError`.
unfoldable pub parse_status : String → Option CycleStatus
unfolding status_value
parse_status raw = first_where (λ s. str_eq (status_value s) raw) all_statuses

-- `==` on the enum compares the values.
unfoldable pub same_status : CycleStatus → CycleStatus → Bool
unfolding status_value
same_status a b = str_eq (status_value a) (status_value b)

-- The dict `ALLOWED_TRANSITIONS`.
unfoldable pub allowed_transitions : CycleStatus → List CycleStatus
allowed_transitions created = discovery_ready ∷ []
allowed_transitions discovery_ready = discovery_screened ∷ []
allowed_transitions discovery_screened = analysis_ready ∷ []
allowed_transitions analysis_ready = analysis_ready ∷ evidence_ready ∷ []
allowed_transitions evidence_ready = portfolio_ready ∷ []
allowed_transitions portfolio_ready = protocol_ready ∷ []
allowed_transitions protocol_ready = running ∷ []
allowed_transitions running = verifying ∷ running ∷ []
allowed_transitions verifying = reporting ∷ running ∷ loop_deciding ∷ []
allowed_transitions loop_deciding = running ∷ reporting ∷ []
allowed_transitions reporting = closed ∷ []
allowed_transitions closed = []

-- What a change of status may raise.
pub data StatusError : Type 0 where
  no_cycle : StatusError
  bad_status : String → StatusError
  invalid_transition : CycleStatus → CycleStatus → StatusError

pub data Result (A : Type 0) : Type 0 where
  ok : A → Result A
  err : StatusError → Result A

infixl 5 ◌>>=◌ ◌>>◌
abbrev pub ◌>>=◌ : {A B : Type 0} → Result A → (A → Result B) → Result B
ok a >>= f = f a
err e >>= f = err e

abbrev pub ◌>>◌ : {B : Type 0} → Result (Unit {0}) → Result B → Result B
m >> k = m >>= λ _. k

unfoldable pub validate_transition : CycleStatus → CycleStatus → Result (Unit {0})
unfolding allowed_transitions same_status
validate_transition current target =
    if not (any_of (same_status target) (allowed_transitions current))
    then err (invalid_transition current target)
    else ok tt

-- A row of `research_cycles`; times are clock readings.
pub record ResearchCycle : Type 0 where
  pub id : ℕ
  pub charter_id : ℕ
  pub status : CycleStatus
  pub started_at : Option ℕ
  pub completed_at : Option ℕ
  pub updated_at : ℕ

pub data ActorType : Type 0 where
  system user orchestrator worker : ActorType

-- The event `research_cycle_transitioned`.
pub record TransitionEvent : Type 0 where
  pub charter_id : ℕ
  pub cycle_id : ℕ
  pub from_status : CycleStatus
  pub to_status : CycleStatus
  pub actor_type : ActorType

abbrev pub is_discovery_ready : CycleStatus → Bool
is_discovery_ready discovery_ready = true
is_discovery_ready _ = false

abbrev pub is_closed : CycleStatus → Bool
is_closed closed = true
is_closed _ = false

-- The assignments to the row once the transition is allowed; `later` is the clock's second reading.
unfoldable pub move_to : CycleStatus → ℕ → ℕ → ResearchCycle → ResearchCycle
move_to target now later c = record c {
  status = target;
  updated_at = now;
  started_at =
      if is_discovery_ready target && not (is_some c.started_at) then some later else c.started_at;
  completed_at = if is_closed target then some later else c.completed_at;
}

-- The tables that a change of status writes.
pub record Store : Type 0 where
  pub cycles : List ResearchCycle
  pub events : List TransitionEvent

abbrev pub has_id : ℕ → ResearchCycle → Bool
has_id i c = c.id == i

unfoldable pub get_cycle : ℕ → Store → Option ResearchCycle
get_cycle i s = first_where (has_id i) s.cycles

pub write_move : ResearchCycle → CycleStatus → ActorType → ℕ → ℕ → ℕ → Store → Store
unfolding move_to
write_move c target actor charter now later s = record {
  cycles = update_where (has_id c.id) (move_to target now later) s.cycles;
  events =
      s.events
      ++ record {
        charter_id = charter;
        cycle_id = c.id;
        from_status = c.status;
        to_status = target;
        actor_type = actor;
      }
        ∷ [];
}

abbrev pub or_raise : {A : Type 0} → Option A → StatusError → Result A
or_raise none e = err e
or_raise (some a) e = ok a

-- `scalar_one` raises when there is no such row.
pub transition_cycle : ℕ → CycleStatus → ActorType → ℕ → ℕ → Store → Result Store
transition_cycle cycle_id target actor now later s = do
  cycle ← or_raise (get_cycle cycle_id s) no_cycle
  validate_transition cycle.status target
  ok (write_move cycle target actor cycle.charter_id now later s)

-- The two keys of an operator's `state_patch` that the worker reads.
pub record StatePatch : Type 0 where
  pub cycle_status : Option String
  pub target_status : Option String

-- `patch.get("cycle_status") or patch.get("target_status")`: the empty text counts as absent.
abbrev pub raw_target : StatePatch → Option String
raw_target p = elim p.cycle_status [
  | none ↦ p.target_status
  | some raw ↦ if str_eq raw "" then p.target_status else some raw
]

patch_cycle : ResearchCycle → String → Option ℕ → ℕ → Store → Result Store
patch_cycle cycle raw charter now s = do
  target ← or_raise (parse_status raw) (bad_status raw)
  validate_transition cycle.status target
  ok (
      write_move cycle target worker (elim charter [ none ↦ cycle.charter_id | some c ↦ c ]) now now
        s)

patch_target : ℕ → Option ℕ → ℕ → Store → Option String → Result Store
patch_target cycle_id charter now s none = ok s
patch_target cycle_id charter now s (some raw) = elim (get_cycle cycle_id s) [
  | none ↦ ok s
  | some cycle ↦ patch_cycle cycle raw charter now s
]

-- The worker's use of the patch: with no cycle, no target or no such row nothing happens.
unfoldable pub apply_state_patch : Option ℕ → Option ℕ → StatePatch → ℕ → Store → Result Store
unfolding patch_target patch_cycle
apply_state_patch none charter patch now s = ok s
apply_state_patch (some cycle_id) charter patch now s =
    patch_target cycle_id charter now s (raw_target patch)

-- The row that a new cycle gets.
pub create_cycle : ℕ → ℕ → ℕ → Store → Store
create_cycle id charter now s = record s {
  cycles =
      s.cycles
      ++ record {
        id = id;
        charter_id = charter;
        status = created;
        started_at = none;
        completed_at = none;
        updated_at = now;
      }
        ∷ [];
}
