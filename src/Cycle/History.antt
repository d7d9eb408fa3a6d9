-- ===== src/Cycle/History.antt =====
-- Histories of the cycle tables: creations by libs/core/services/cycle_service.py, its changes of
-- status, those of the worker's patches (apps/worker/main.py), and the writes of the other code, which
-- sets a status past the state machine and the log: start_run and control_run of
-- libs/core/services/experiment_service.py, start_analysis of libs/core/services/analysis_service.py,
-- and the autonomy controls of apps/api/routers/autonomy.py and apps/cli/commands/autonomy.py.
use synthetos.Prelude.{
  ℕ, ◌≡◌, refl, ◌≢◌, List, [], ◌∷◌, arith, Option, All, Bool, true, false, if_cases, ap, sym, ◌∙◌,
  ◌||◌, ◌==◌, ==_refl, ==→eq, update_where,
}
use synthetos.Cycle.{
  CycleStatus, created, ok, ActorType, TransitionEvent, Store, StatePatch, Result, transition_cycle,
  apply_state_patch, create_cycle, ResearchCycle, has_id,
}
use synthetos.Cycle.Writers.{transition_cycle-IsLogged, apply_state_patch-IsLogged}
use synthetos.Cycle.Logged.{replay, IsKept, is_overwritten, IsLogged, Keeps, All-append}

abbrev pub empty : Store
empty = record { cycles = []; events = [] }

-- The identifiers of new cycles are new: no event names them.
abbrev pub IsFresh : ℕ → Store → Type 0
IsFresh id s = All (λ (e : TransitionEvent). e.cycle_id ≢ id) s.events

-- A committed step, with the cycles that are overwritten before and after; one that raises is rolled
-- back and is no step. An overwriting keeps the identifier and adds no event.
pub data Step (ids : List ℕ) (s : Store) : List ℕ → Store → Type 0 where
  create : (id charter now : ℕ) → IsFresh id s → Step ids s ids (create_cycle id charter now s)
  transition :
      (id : ℕ) (target : CycleStatus) (actor : ActorType) (now later : ℕ) {t : Store}
      → transition_cycle id target actor now later s ≡ ok t
      → Step ids s ids t
  patch :
      (id charter : Option ℕ) (p : StatePatch) (now : ℕ) {t : Store}
      → apply_state_patch id charter p now s ≡ ok t
      → Step ids s ids t
  overwrite :
      (id : ℕ) (change : ResearchCycle → ResearchCycle)
      → ((c : ResearchCycle) → (change c).id ≡ c.id)
      → Step ids s (id ∷ ids) (record s { cycles = update_where (has_id id) change s.cycles })

pub data History : List ℕ → Store → Type 0 where
  start : History [] empty
  next : {ids js : List ℕ} {s t : Store} → History ids s → Step ids s js t → History js t

replay_fresh :
    (id : ℕ) (st : CycleStatus) (es : List TransitionEvent)
    → All (λ (e : TransitionEvent). e.cycle_id ≢ id) es
    → replay id st es ≡ st
replay_fresh id st [] h = refl
replay_fresh id st (e ∷ es) h = ground (arith, h.0, replay_fresh id st es h.1)

create_cycle-IsLogged :
    (ids : List ℕ) (id charter now : ℕ) (s : Store)
    → IsFresh id s
    → IsLogged ids s
    → IsLogged ids (create_cycle id charter now s)
unfolding create_cycle
create_cycle-IsLogged ids id charter now s fresh h = record {
  rows = All-append (IsKept ids s.events) s.cycles _ h.rows (λ _.
      (record { started = λ _. refl; completed = refl }, replay_fresh id created s.events fresh));
  log = h.log;
}

-- An overwriting leaves what the log says of the other cycles.
overwrite-IsKept :
    (ids : List ℕ) (id : ℕ) (change : ResearchCycle → ResearchCycle) (es : List TransitionEvent)
    (cs : List ResearchCycle)
    → ((c : ResearchCycle) → (change c).id ≡ c.id)
    → All (IsKept ids es) cs
    → All (IsKept (id ∷ ids) es) (update_where (has_id id) change cs)
overwrite-IsKept ids id change es [] same h = tt
overwrite-IsKept ids id change es (c ∷ cs) same h = (
  if_cases (IsKept (id ∷ ids) es) (has_id id c) (change c) c
      (λ hit free. absurd (no_row hit (ap (is_overwritten (id ∷ ids)) (sym (same c)) ∙ free)))
      (λ miss free. h.0 (or_false (id == c.id) (is_overwritten ids c.id) free)),
  overwrite-IsKept ids id change es cs same h.1,
)
  where
    or_false : (a b : Bool) → (a || b) ≡ false → b ≡ false
    or_false true b e = cc
    or_false false b e = e

    no_row : has_id id c ≡ true → is_overwritten (id ∷ ids) c.id ≡ false → ⊥
    no_row hit free = cc (rw (==→eq c.id id hit, ==_refl id) at free)

Keeps-ok : (ids : List ℕ) (r : Result Store) {t : Store} → r ≡ ok t → Keeps ids r → IsLogged ids t
Keeps-ok ids r e h = rw e at h

Step-IsLogged : {ids js : List ℕ} {s t : Store} → Step ids s js t → IsLogged ids s → IsLogged js t
Step-IsLogged {ids} (create id charter now fresh) h =
    create_cycle-IsLogged ids id charter now _ fresh h
Step-IsLogged {ids} (transition id target actor now later e) h =
    Keeps-ok ids _ e (transition_cycle-IsLogged ids id target actor now later _ h)
Step-IsLogged {ids} (patch id charter p now e) h =
    Keeps-ok ids _ e (apply_state_patch-IsLogged ids id charter p now _ h)
Step-IsLogged {ids} {s = s} (overwrite id change same) h = record {
  rows = overwrite-IsKept ids id change s.events s.cycles same h.rows;
  log = h.log;
}

-- In every history of creations with new identifiers, changes of status by the service and patches by
-- the worker, between which other code may write cycles past the log, every event of the log is an arrow of the picture,
-- and for every cycle that no other code has written the log accounts for its status, it has a
-- completion time exactly when it is closed, and is new if it has no start time.
pub History-IsLogged : {ids : List ℕ} {s : Store} → History ids s → IsLogged ids s
History-IsLogged start = record { rows = tt; log = tt }
History-IsLogged (next h step) = Step-IsLogged step (History-IsLogged h)
