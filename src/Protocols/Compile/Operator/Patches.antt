-- ===== src/Protocols/Compile/Operator/Patches.antt =====
-- The patch of a compilation that the loop has asked for, as the worker applies it.
use mathlib.Core.Path.{subst}
use synthetos.Prelude.{
  ℕ, ◌==◌, ◌≡◌, refl, sym, ap, Bool, true, Option, none, some, List, [], ◌∷◌, ◌++◌, first_where,
}
use synthetos.Domain.{ExperimentSpec}
use synthetos.Cycle.{
  CycleStatus, status_value, running, loop_deciding, err, invalid_transition, ResearchCycle, Store,
  get_cycle, StatePatch, apply_state_patch, validate_transition, same_status, allowed_transitions,
}
use synthetos.Cycle.Writers.{apply_state_patch-refused}
use synthetos.Jobs.{Job, JobStatus}
use synthetos.Autonomy.Budget.{AutonomyBudget, load_or_create_budget}
use synthetos.Autonomy.Loop.{LoopPayload, LoopDb, CycleConfig, prepared_run}
use synthetos.Protocols.{CompiledSpec}
use synthetos.Autonomy.Lifecycle.{HypothesisCard}
use synthetos.Autonomy.Gates.{GateName}
use synthetos.Autonomy.Loop.Pivot.{check_execution}
use synthetos.Protocols.Compile.{
  HypothesisSession, CompileInput, CompileDb, CompileOutcome, CompileError, ended, cards_of,
  persist_specs, mark_selected,
}
use synthetos.Protocols.Compile.Operator.{
  pause_run, set_up_run, at_gate, with_compiled, conclude, compile_cards, with_cards, with_session,
  protocol_compile, policy_of, cycle_of, completed, persist_loop_gate, add_loop_run,
}

-- The patch of a result with a status.
abbrev pub patch_with : CycleStatus → StatePatch
patch_with s = record { cycle_status = some (status_value s); target_status = none }

-- A job that is paused with the run that it holds, at the end of the queue.
abbrev pub HoldsRun : CompileInput → CompileDb → Type 0
HoldsRun i db =
    (jobs : List (Job LoopPayload)) × (j : Job LoopPayload) × (db.tables.queue.jobs
      ≡ jobs ++ j ∷ [])
    × (j.status ≡ JobStatus.paused)
    × (j.payload ≡ some (prepared_run i.new_run_id))

-- The patch of a call from the loop.
abbrev pub IsPause : CompileInput → CompileOutcome → Type 0
IsPause i (CompileOutcome.failed e) = Unit
IsPause i (ended b new none) = Unit
IsPause i (ended b new (some s)) = (b ≡ true) × (s ≡ loop_deciding) × HoldsRun i new

-- A gate's decision leaves the other tables.
abbrev pub SameTables : LoopDb → LoopDb → Type 0
SameTables new old = (new.queue ≡ old.queue) × (new.runs ≡ old.runs) × (new.specs ≡ old.specs)

pub persist_loop_gate-SameTables :
    (i : CompileInput) (spec : ExperimentSpec) (hs : HypothesisSession) (b : AutonomyBudget)
    (g : GateName) (run rec : Option ℕ) (cycle : Option CycleConfig) (db : LoopDb)
    → SameTables (persist_loop_gate i spec hs b g run rec cycle db) db
persist_loop_gate-SameTables i spec hs b g (some run) (some rec) (some cycle) db =
    (refl, refl, refl)
persist_loop_gate-SameTables i spec hs b g none rec cycle db = (refl, refl, refl)
persist_loop_gate-SameTables i spec hs b g (some run) none cycle db = (refl, refl, refl)
persist_loop_gate-SameTables i spec hs b g (some run) (some rec) none db = (refl, refl, refl)

at_gate-IsPause :
    (i : CompileInput) (hs : HypothesisSession) (spec : ExperimentSpec) (g : Option GateName)
    (db : CompileDb)
    → IsPause i (at_gate i hs spec g db)
unfolding pause_run set_up_run
at_gate-IsPause i hs spec none db = tt
at_gate-IsPause i hs spec (some g) db = (
  refl,
  refl,
  (
    (add_loop_run i hs spec db.tables).queue.jobs,
    _,
    ap (λ q. q.jobs)
        (persist_loop_gate-SameTables i spec hs
          (load_or_create_budget spec.cycle_id i.now db.tables.budgets).0 g
          i.loop_context.run_record_id i.loop_context.recommendation_id
          (cycle_of spec.cycle_id db.tables) _).0,
    refl,
    refl,
  ),
)

with_compiled-IsPause :
    (i : CompileInput) (hs : HypothesisSession) (spec : Option ExperimentSpec) (db : CompileDb)
    → IsPause i (with_compiled i hs spec db)
with_compiled-IsPause i hs none db = tt
with_compiled-IsPause i hs (some spec) db =
    at_gate-IsPause i hs spec
      (check_execution (policy_of (cycle_of spec.cycle_id db.tables))
        i.loop_context.current_hardware_profile spec)
      db

conclude-IsPause :
    (i : CompileInput) (hs : HypothesisSession) (ids : List ℕ) (db : CompileDb)
    → i.from_loop ≡ true
    → IsPause i (conclude i hs ids db)
conclude-IsPause i hs [] db loop = tt
conclude-IsPause i hs (k ∷ ids) db loop = simp loop (
    with_compiled-IsPause i hs (first_where (λ (s : ExperimentSpec). s.id == k) db.tables.specs) db)

with_cards-IsPause :
    (i : CompileInput) (hs : HypothesisSession) (cards : Option (List HypothesisCard))
    (db : CompileDb)
    → i.from_loop ≡ true
    → IsPause i (with_cards i hs cards db)
unfolding compile_cards
with_cards-IsPause i hs none db loop = tt
with_cards-IsPause i hs (some []) db loop = tt
with_cards-IsPause i hs (some (c ∷ cs)) db loop = go i.answer
  where
    go : (answer : Option (List CompiledSpec)) → IsPause i (compile_cards i hs (c ∷ cs) answer db)
    go none = tt
    go (some specs) =
        let r =
          persist_specs i hs i.first_spec_id (c ∷ cs) specs
            (record db { tables = mark_selected i.now (c ∷ cs) db.tables }) in
        conclude-IsPause i hs r.0 (completed r.1 r.0 r.2) loop

protocol_compile-IsPause :
    (i : CompileInput) (db : CompileDb) → i.from_loop ≡ true → IsPause i (protocol_compile i db)
unfolding protocol_compile
protocol_compile-IsPause i db loop = go i.hypothesis_session_id
  where
    of_session : (hs : Option HypothesisSession) → IsPause i (with_session i hs db)
    of_session none = tt
    of_session (some hs) = with_cards-IsPause i hs (cards_of i hs db.tables) db loop

    go :
        (s : Option ℕ)
        → IsPause i (elim s [
          | none ↦ CompileOutcome.failed CompileError.no_session_id
          | some k ↦
              with_session i (first_where (λ (h : HypothesisSession). h.id == k) db.sessions) db
        ])
    go none = tt
    go (some k) = of_session (first_where (λ (h : HypothesisSession). h.id == k) db.sessions)

-- A move from "running" to "loop_deciding" is none that the worker applies.
loop_deciding-refused :
    (k : ℕ) (charter : Option ℕ) (cycle : ResearchCycle) (now : ℕ) (store : Store)
    → get_cycle k store ≡ some cycle
    → cycle.status ≡ running
    → apply_state_patch (some k) charter (patch_with loop_deciding) now store
      ≡ err (invalid_transition running loop_deciding)
unfolding validate_transition allowed_transitions same_status status_value
loop_deciding-refused k charter cycle now store found status =
    apply_state_patch-refused k charter cycle loop_deciding now store
      (invalid_transition running loop_deciding) found (rw status refl)

-- A call from the loop that hands back a status has committed a paused job with the run that it
-- holds, and the worker refuses the patch in a cycle that is running, as the loop leaves it.
pub from_loop-IsRefused :
    (i : CompileInput) (db new : CompileDb) (b : Bool) (s : CycleStatus) (k : ℕ)
    (charter : Option ℕ) (cycle : ResearchCycle) (now : ℕ) (store : Store)
    → i.from_loop ≡ true
    → protocol_compile i db ≡ ended b new (some s)
    → get_cycle k store ≡ some cycle
    → cycle.status ≡ running
    → HoldsRun i new
      × (apply_state_patch (some k) charter (patch_with s) now store
          ≡ err (invalid_transition running loop_deciding))
from_loop-IsRefused i db new b s k charter cycle now store loop e found status =
    let (_, same, held) = subst (IsPause i) e (protocol_compile-IsPause i db loop) in
    (
      held,
      subst
          (λ t.
            apply_state_patch (some k) charter (patch_with t) now store
            ≡ err (invalid_transition running loop_deciding))
          (sym same) (loop_deciding-refused k charter cycle now store found status),
    )
