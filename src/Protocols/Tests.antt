-- ===== src/Protocols/Tests.antt =====
-- The theorems on protocols at concrete inputs.
use synthetos.Prelude.{ℕ, ◌≡◌, refl, ◌↔◌, true, false, none, some, List, [], ◌∷◌}
use synthetos.Domain.{CodePlan}
use synthetos.Cycle.{
  running, err, invalid_transition, loop_deciding, ResearchCycle, Store, get_cycle,
  apply_state_patch,
}
use synthetos.Autonomy.{AutonomyPolicy, default_gates, default_policy}
use synthetos.Autonomy.Gates.{evaluate_gates, preview_next_spec, detect_network_access}
use synthetos.Autonomy.Lifecycle.{HypothesisCard, candidate}
use synthetos.Autonomy.Loop.{LoopDb}
use synthetos.Protocols.{CompiledSpec, MetricDef, validate_spec}
use synthetos.Protocols.Validity.{IsComplete, validate_spec_iff}
use synthetos.Protocols.Compile.{HypothesisSession, CompileInput, CompileDb, CompileOutcome, ended}
use synthetos.Protocols.Compile.Operator.{compile_cards, protocol_compile}
use synthetos.Protocols.Compile.Operator.Patches.{HoldsRun, patch_with, from_loop-IsRefused}
use synthetos.Protocols.Compile.Operator.Contract.{IsCompiled, compile_cards-IsCompiled}
use synthetos.Protocols.Compile.Operator.Stored.{rows_of}

-- A plan that says that it needs the network.
abbrev plan : CodePlan
plan = record {
  requires_network = some true;
  network_access = none;
  files = some (("main.py", "print(1)") ∷ []);
  entry_point = some "main.py";
  dependencies = none;
  instructions = none;
}

abbrev answer_with : List MetricDef → CompiledSpec
answer_with metrics = record {
  baseline = some (some "the mean");
  metrics = metrics;
  stop_conditions = [];
  code_plan = some plan;
  base_image = none;
  fingerprint = "a";
  without_controls = "b";
  controls = none;
}

abbrev accuracy : MetricDef
accuracy = record { name = some "accuracy"; direction = some "maximize" }

validate_spec_iff_example :
    (validate_spec (answer_with (accuracy ∷ []))).valid ≡ true
    ↔ IsComplete (answer_with (accuracy ∷ []))
validate_spec_iff_example = validate_spec_iff (answer_with (accuracy ∷ []))

-- Without a stop condition the spec is valid; without a metric it is not.
validities :
    ((validate_spec (answer_with (accuracy ∷ []))).valid ≡ true)
    × ((validate_spec (answer_with [])).valid ≡ false)
unfolding validate_spec
validities = (refl, refl)

abbrev session : HypothesisSession
session = record { id = 5; charter_id = 1; cycle_id = 7 }

abbrev card : ℕ → HypothesisCard
card i = record {
  id = i;
  hypothesis_session_id = 5;
  charter_id = 1;
  cycle_id = 7;
  status = candidate;
  rank = some i;
  updated_at = 0;
}

abbrev guarded : AutonomyPolicy
guarded = record default_policy {
  checkpoint_gates = record default_gates { before_network_execution = true };
}

abbrev tables : LoopDb
tables = record {
  runs = [];
  recommendations = [];
  specs = [];
  cycles = record { id = 7; policy = guarded } ∷ [];
  cards = card 2 ∷ card 1 ∷ [];
  decisions = [];
  budgets = [];
  signals = [];
  frontiers = [];
  sessions = [];
  queue = record { jobs = []; events = [] };
  events = [];
}

abbrev db : CompileDb
db = record { sessions = session ∷ []; tables = tables; events = [] }

abbrev input : CompileInput
input = record {
  hypothesis_session_id = some 5;
  hypothesis_card_ids = [];
  hardware_profile = none;
  base_image = none;
  from_loop = true;
  loop_context = record {
    run_record_id = some 3;
    recommendation_id = some 4;
    hypothesis_card_id = none;
    context_summary = none;
    current_hardware_profile = none;
  };
  answer = some (answer_with [] ∷ answer_with (accuracy ∷ []) ∷ []);
  now = 100;
  first_spec_id = 20;
  new_run_id = 30;
  new_job_id = 31;
}

abbrev tables_of : CompileOutcome → CompileDb
tables_of (CompileOutcome.failed e) = db
tables_of (ended b new p) = new

pauses :
    protocol_compile input db
    ≡ ended true (tables_of (protocol_compile input db)) (some loop_deciding)
unfolding protocol_compile validate_spec evaluate_gates preview_next_spec detect_network_access
pauses = refl

abbrev cycle : ResearchCycle
cycle = record {
  id = 7;
  charter_id = 1;
  status = running;
  started_at = some 0;
  completed_at = none;
  updated_at = 0;
}

abbrev store : Store
store = record { cycles = cycle ∷ []; events = [] }

from_loop-IsRefused_example :
    HoldsRun input (tables_of (protocol_compile input db))
    × (apply_state_patch (some 7) none (patch_with loop_deciding) 100 store
        ≡ err (invalid_transition running loop_deciding))
unfolding get_cycle
from_loop-IsRefused_example =
    from_loop-IsRefused input db (tables_of (protocol_compile input db)) true loop_deciding 7 none
      cycle 100 store refl pauses refl refl

compile_cards-IsCompiled_example :
    IsCompiled input
      (rows_of input session 20
        (card 1 ∷ card 2 ∷ [])
        (answer_with [] ∷ answer_with (accuracy ∷ []) ∷ []))
      tables
      (compile_cards input session
        (card 1 ∷ card 2 ∷ [])
        (some (answer_with [] ∷ answer_with (accuracy ∷ []) ∷ []))
        db)
compile_cards-IsCompiled_example =
    compile_cards-IsCompiled input session (card 1 ∷ card 2 ∷ [])
      (answer_with [] ∷ answer_with (accuracy ∷ []) ∷ []) db
