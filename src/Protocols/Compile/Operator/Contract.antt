-- ===== src/Protocols/Compile/Operator/Contract.antt =====
-- What protocol_compile leaves of its tables.
use mathlib.Core.Path.{subst}
use synthetos.Prelude.{
  ℕ, ◌+◌, ◌==◌, ==_refl, ◌≡◌, refl, sym, ap, ◌∙◌, inl, inr, Bool, true, false, ◌&&◌, Option, none,
  some, List, [], ◌∷◌, ◌++◌, any_of, length, length-append, All, InList, Bool-cases, if◌then◌else◌,
  first_where-hit, arith,
}
use synthetos.Domain.{ExperimentSpec}
use synthetos.Cycle.{CycleStatus, protocol_ready}
use synthetos.Autonomy.Lifecycle.{HypothesisCard}
use synthetos.Autonomy.Gates.{GateName}
use synthetos.Jobs.{JobStatus, new_job, create_job}
use synthetos.Autonomy.Budget.{load_or_create_budget}
use synthetos.Autonomy.Loop.{LoopDb, prepared_run}
use synthetos.Prelude.Int.{pos}
use synthetos.Autonomy.Loop.Pivot.{check_execution}
use synthetos.Protocols.{CompiledSpec, is_nonempty}
use synthetos.Protocols.Compile.{
  HypothesisSession, CompileInput, CompileDb, CompileOutcome, ended, persist_specs, mark_selected,
}
use synthetos.Protocols.Compile.Operator.{
  add_loop_run, pause_run, set_up_run, at_gate, with_compiled, conclude, compile_cards, policy_of,
  cycle_of, completed,
}
use synthetos.Protocols.Compile.Operator.Patches.{persist_loop_gate-SameTables}
-- The rows of the specs: one for each card with its answer, in their order.
use synthetos.Protocols.Compile.Operator.Stored.{
  rows_of, is_valid_row, IsRowId, SameRest, persist_specs-IsStored,
}

if-true {ℓ} : {A : Type ℓ} (b : Bool) (x y : A) → b ≡ true → (if b then x else y) ≡ x
if-true b x y e = rw e refl

-- One for a call from the loop that succeeds.
abbrev pub in_loop : Bool → Bool → ℕ
in_loop ok loop = if ok && loop then 1 else 0

-- The status that the cycle is to take: none without a valid spec, "protocol_ready" for a call that
-- is not from the loop.
abbrev pub IsPatch : Bool → Bool → Option CycleStatus → Type 0
IsPatch false loop p = p ≡ none
IsPatch true false p = p ≡ some protocol_ready
IsPatch true true p = Unit

abbrev pub IsCompiled : CompileInput → List ExperimentSpec → LoopDb → CompileOutcome → Type 0
IsCompiled i rows old out =
    (ok : Bool) × (new : CompileDb) × (p : Option CycleStatus) × (out ≡ ended ok new p)
    × (ok ≡ any_of is_valid_row rows)
    × (new.tables.specs ≡ old.specs ++ rows)
    × (length new.tables.queue.jobs ≡ length old.queue.jobs + in_loop ok i.from_loop)
    × (length new.tables.runs ≡ length old.runs + in_loop ok i.from_loop)
    × IsPatch ok i.from_loop p

InList-right :
    (xs ys : List ExperimentSpec) (s : ExperimentSpec) → InList s ys → InList s (xs ++ ys)
InList-right [] ys s m = m
InList-right (x ∷ xs) ys s m = inr (InList-right xs ys s m)

module _ (i : CompileInput) (hs : HypothesisSession) (rows : List ExperimentSpec) (old : LoopDb)
    (db : CompileDb) (specs : db.tables.specs ≡ old.specs ++ rows) (same : SameRest db.tables old)
    (some_valid : true ≡ any_of is_valid_row rows) (loop : i.from_loop ≡ true) where
  grown :
      {A : Type 0} (xs ys : List A) (x : A)
      → xs ≡ ys
      → length (xs ++ x ∷ []) ≡ length ys + in_loop true i.from_loop
  grown xs ys x e = simp loop (length-append xs (x ∷ []) ∙ ap (λ zs. length zs + 1) e)

  any-IsPatch : (p : Option CycleStatus) → IsPatch true i.from_loop p
  any-IsPatch p = subst (λ b. IsPatch true b p) (sym loop) tt

  looped-IsCompiled :
      (spec : ExperimentSpec) (gate : Option GateName)
      → IsCompiled i rows old (at_gate i hs spec gate db)
  unfolding pause_run set_up_run create_job
  looped-IsCompiled spec none = (
    true,
    _,
    none,
    refl,
    some_valid,
    specs,
    grown db.tables.queue.jobs old.queue.jobs _ (ap (λ q. q.jobs) same.0),
    grown db.tables.runs old.runs _ same.1,
    any-IsPatch none,
  )
  looped-IsCompiled spec (some gate) =
      let (queue, runs, kept) =
        persist_loop_gate-SameTables i spec hs
          (load_or_create_budget spec.cycle_id i.now db.tables.budgets).0 gate
          i.loop_context.run_record_id i.loop_context.recommendation_id
          (cycle_of spec.cycle_id db.tables) (queued spec) in
      (
        true,
        _,
        _,
        refl,
        some_valid,
        kept ∙ specs,
        ap (λ q. length q.jobs) queue
            ∙ grown db.tables.queue.jobs old.queue.jobs _ (ap (λ q. q.jobs) same.0),
        ap length runs ∙ grown db.tables.runs old.runs _ same.1,
        any-IsPatch _,
      )
    where
      queued : ExperimentSpec → LoopDb
      queued spec =
          let t = add_loop_run i hs spec db.tables in
          let job =
            new_job i.new_job_id (some spec.cycle_id) "loop_decide"
              (some (prepared_run i.new_run_id)) (pos 10) i.now in
          record t {
            queue = record (t.queue) {
              jobs = t.queue.jobs ++ record job { status = JobStatus.paused } ∷ [];
            };
          }

  concluded-IsCompiled :
      (k : ℕ) (ids : List ℕ) → IsRowId rows k → IsCompiled i rows old (conclude i hs (k ∷ ids) db)
  concluded-IsCompiled k ids (s, m, e) =
      let (spec, found) =
        first_where-hit (λ (x : ExperimentSpec). x.id == k) db.tables.specs s
          (subst (InList s) (sym specs) (InList-right old.specs rows s m)) (rw e (==_refl k)) in
      let gate =
        check_execution (policy_of (cycle_of spec.cycle_id db.tables))
          i.loop_context.current_hardware_profile spec in
      subst (IsCompiled i rows old)
        (sym (
          if-true i.from_loop _ (ended true db (some protocol_ready)) loop
          ∙ ap (λ o. with_compiled i hs o db) found))
        (looped-IsCompiled spec gate)

-- The end of a call by its valid specs.
conclude-IsCompiled :
    (i : CompileInput) (hs : HypothesisSession) (rows : List ExperimentSpec) (old : LoopDb)
    (ids : List ℕ) (db : CompileDb)
    → db.tables.specs ≡ old.specs ++ rows
    → SameRest db.tables old
    → is_nonempty ids ≡ any_of is_valid_row rows
    → All (IsRowId rows) ids
    → IsCompiled i rows old (conclude i hs ids db)
conclude-IsCompiled i hs rows old [] db specs same some_valid h =
    (false, db, none, refl, some_valid, specs, same_length same.0, same_runs same.1, refl)
  where
    same_length :
        db.tables.queue ≡ old.queue → length db.tables.queue.jobs ≡ length old.queue.jobs + 0
    same_length e = omega (arith, ap (λ q. length q.jobs) e)

    same_runs : db.tables.runs ≡ old.runs → length db.tables.runs ≡ length old.runs + 0
    same_runs e = omega (arith, ap (length {0}) e)
conclude-IsCompiled i hs rows old (k ∷ ids) db specs same some_valid h =
    elim (Bool-cases i.from_loop) [
      | inl loop ↦ concluded-IsCompiled i hs rows old db specs same some_valid loop k ids h.0
      | inr direct ↦
          let out : conclude i hs (k ∷ ids) db ≡ ended true db (some protocol_ready) =
            rw direct refl in
          (
            true,
            db,
            some protocol_ready,
            out,
            some_valid,
            specs,
            simp direct (omega (arith, ap (λ q. length q.jobs) same.0)),
            simp direct (omega (arith, ap (λ rs. length rs) same.1)),
            subst (λ b. IsPatch true b (some protocol_ready)) (sym direct) refl,
          )
    ]

-- A compilation with an answer of the model: one spec for each card and answer, in their order, which
-- is validated exactly when it is valid; the call succeeds exactly when a spec is valid; from the loop
-- it then adds one run and one job, and otherwise it hands back "protocol_ready" and adds none.
pub compile_cards-IsCompiled :
    (i : CompileInput) (hs : HypothesisSession) (cards : List HypothesisCard)
    (specs : List CompiledSpec) (db : CompileDb)
    → IsCompiled i
        (rows_of i hs i.first_spec_id cards specs)
        db.tables
        (compile_cards i hs cards (some specs) db)
unfolding compile_cards mark_selected
compile_cards-IsCompiled i hs cards specs db =
    let marked = record db { tables = mark_selected i.now cards db.tables } in
    let r = persist_specs i hs i.first_spec_id cards specs marked in
    let (stored, same, some_valid, ids) =
      persist_specs-IsStored i hs i.first_spec_id cards specs marked in
    conclude-IsCompiled i hs (rows_of i hs i.first_spec_id cards specs) db.tables r.0
      (completed r.1 r.0 r.2) stored same some_valid ids
