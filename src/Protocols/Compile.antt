-- ===== src/Protocols/Compile.antt =====
-- The operator protocol_compile of libs/protocols/operators/compile.py over the tables of the loop.
-- What the language model answers is an argument, with none for an exception; titles, reasons and the
-- usage of skills are left out, with the event that the result carries for the worker; fresh specs have
-- consecutive identifiers.
pub mod Operator
use Prim.Native.String.{String}
use synthetos.Prelude.{
  ℕ, suc, ◌+◌, ◌==◌, leb, Bool, true, false, ◌&&◌, ◌||◌, not, Option, none, some, List, [], ◌∷◌,
  ◌++◌, if◌then◌else◌, any_of, select, length, take, first_where, update_where, count_if,
}
use synthetos.Prelude.Int.{pos}
use synthetos.Domain.{HardwareProfile, CodePlan, BuildRecipe, ExperimentSpec}
use synthetos.Cycle.{CycleStatus, protocol_ready, loop_deciding}
use synthetos.Jobs.{Job, Queue, JobStatus, create_job}
use synthetos.Autonomy.{AutonomyPolicy, default_policy}
use synthetos.Autonomy.Budget.{AutonomyBudget, load_or_create_budget}
use synthetos.Autonomy.Gates.{GateName}
use synthetos.Autonomy.Lifecycle.{
  HypothesisCard, HypothesisStatus, candidate, selected, compiled, is_status,
}
use synthetos.Autonomy.Loop.{
  CycleConfig, LoopDb, LoopDecision, LoopPayload, run_record, prepared_run, stop_gate,
  execution_setup, max_run_number,
}
use synthetos.Autonomy.Loop.Pivot.{has_card_id, ranks_before, check_execution}
use synthetos.Protocols.{CompiledSpec, validate_spec, is_nonempty, is_given}

pub record HypothesisSession : Type 0 where
  pub id : ℕ
  pub charter_id : ℕ
  pub cycle_id : ℕ

-- `loop_context` of the payload.
pub record LoopContext : Type 0 where
  pub run_record_id : Option ℕ
  pub recommendation_id : Option ℕ
  pub hypothesis_card_id : Option ℕ
  pub context_summary : Option ℕ
  pub current_hardware_profile : Option HardwareProfile

-- The payload, the answer, the clock and the fresh identifiers.
pub record CompileInput : Type 0 where
  pub hypothesis_session_id : Option ℕ
  pub hypothesis_card_ids : List ℕ
  pub hardware_profile : Option HardwareProfile
  pub base_image : Option String
  pub from_loop : Bool
  pub loop_context : LoopContext
  pub answer : Option (List CompiledSpec)
  pub now : ℕ
  pub first_spec_id : ℕ
  pub new_run_id : ℕ
  pub new_job_id : ℕ

pub data CompileEvent : Type 0 where
  spec_compiled spec_rejected : ℕ → ℕ → CompileEvent
  compilation_completed : ℕ → ℕ → CompileEvent
  gate_triggered : GateName → ℕ → ℕ → CompileEvent

pub record CompileDb : Type 0 where
  pub sessions : List HypothesisSession
  pub tables : LoopDb
  pub events : List CompileEvent

pub data CompileError : Type 0 where
  no_session_id session_not_found out_of_scope no_hypotheses compilation_failed : CompileError

-- An error of the result with nothing committed, or the tables that are committed, with the success
-- of the result and its patch.
pub data CompileOutcome : Type 0 where
  failed : CompileError → CompileOutcome
  ended : Bool → CompileDb → Option CycleStatus → CompileOutcome

-- The cards that the payload names, in the scope of the session.
abbrev pub is_named : CompileInput → HypothesisSession → HypothesisCard → Bool
is_named i hs c =
    any_of (λ k. k == c.id) i.hypothesis_card_ids
    && (c.hypothesis_session_id == hs.id
        && (c.cycle_id == hs.cycle_id && c.charter_id == hs.charter_id))

abbrev pub is_open : HypothesisSession → HypothesisCard → Bool
is_open hs c =
    c.hypothesis_session_id == hs.id
    && (is_status c.status candidate || is_status c.status selected)

-- `ORDER BY rank ASC NULLS LAST`, in the order of the table among equals.
abbrev pub insert_by_rank : HypothesisCard → List HypothesisCard → List HypothesisCard
insert_by_rank c [] = c ∷ []
insert_by_rank c (d ∷ ds) =
    let rest = insert_by_rank c ds in if ranks_before d.rank c.rank then d ∷ rest else c ∷ d ∷ ds

abbrev pub by_rank : List HypothesisCard → List HypothesisCard
by_rank [] = []
by_rank (c ∷ cs) = insert_by_rank c (by_rank cs)

-- The cards to compile: those named, or the first five that are open; `none` is an error of scope.
unfoldable pub cards_of : CompileInput → HypothesisSession → LoopDb → Option (List HypothesisCard)
cards_of i hs db =
    let named = select (is_named i hs) db.cards in
    if is_nonempty i.hypothesis_card_ids
    then if length named == length i.hypothesis_card_ids then some named else none
    else some (take 5 (by_rank (select (is_open hs) db.cards)))

abbrev pub is_among : List HypothesisCard → HypothesisCard → Bool
is_among cards c = any_of (λ (d : HypothesisCard). d.id == c.id) cards

abbrev pub select_card : ℕ → HypothesisCard → HypothesisCard
select_card now c =
    if is_status c.status candidate then record c { status = selected; updated_at = now } else c

unfoldable pub mark_selected : ℕ → List HypothesisCard → LoopDb → LoopDb
mark_selected now cards db = record db {
  cards = update_where (is_among cards) (select_card now) db.cards;
}

abbrev pub empty_plan : CodePlan
empty_plan = record {
  requires_network = none;
  network_access = none;
  files = none;
  entry_point = none;
  dependencies = none;
  instructions = none;
}

abbrev pub plan_of : Option CodePlan → CodePlan
plan_of none = empty_plan
plan_of (some p) = p

-- `a or b` of texts.
abbrev pub or_else : Option String → Option String → Option String
or_else a b = if is_given a then a else b

abbrev pub spec_row :
    CompileInput → HypothesisSession → ℕ → HypothesisCard → CompiledSpec → ExperimentSpec
spec_row i hs id card s = record {
  id = id;
  cycle_id = hs.cycle_id;
  hypothesis_card_id = some card.id;
  validated = (validate_spec s).valid;
  created_at = i.now;
  hardware_profile = i.hardware_profile;
  base_image = or_else s.base_image i.base_image;
  code_plan = plan_of s.code_plan;
  build_recipe = record {
    requires_network = none;
    network_access = none;
    dockerfile_content = none;
  };
  stop_conditions = s.stop_conditions;
  fingerprint = s.fingerprint;
  without_controls = s.without_controls;
  controls = s.controls;
}

abbrev pub compiled_card : ℕ → Bool → HypothesisCard → HypothesisCard
compiled_card now valid c = record c {
  status = if valid then compiled else c.status;
  updated_at = now;
}

-- One card with its spec: the spec's row, the card's status and the event.
unfoldable pub persist_spec :
    CompileInput → HypothesisSession → ℕ → HypothesisCard → CompiledSpec → CompileDb → CompileDb
persist_spec i hs id card s db =
    let valid = (validate_spec s).valid in
    record db {
      tables = record (db.tables) {
        specs = db.tables.specs ++ spec_row i hs id card s ∷ [];
        cards = update_where (has_card_id card.id) (compiled_card i.now valid) db.tables.cards;
      };
      events =
          db.events ++ (if valid then spec_compiled id card.id else spec_rejected id card.id) ∷ [];
    }

-- A spec among the results: its identifier if it is valid, and one more that is rejected if not.
abbrev pub add_result : Bool → ℕ → List ℕ × ℕ × CompileDb → List ℕ × ℕ × CompileDb
add_result true id rest = (id ∷ rest.0, rest.1, rest.2)
add_result false id rest = (rest.0, suc (rest.1), rest.2)

-- The specs that are valid, the number of the others, and the tables; the longer list is cut.
unfoldable pub persist_specs :
    CompileInput
    → HypothesisSession
    → ℕ
    → List HypothesisCard
    → List CompiledSpec
    → CompileDb
    → List ℕ × ℕ × CompileDb
unfolding persist_spec
persist_specs i hs id [] ss db = ([], 0, db)
persist_specs i hs id (c ∷ cs) [] db = ([], 0, db)
persist_specs i hs id (c ∷ cs) (s ∷ ss) db =
    let rest = persist_specs i hs (suc id) cs ss (persist_spec i hs id c s db) in
    add_result (validate_spec s).valid id rest
