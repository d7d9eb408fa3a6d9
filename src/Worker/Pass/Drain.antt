-- ===== src/Worker/Pass/Drain.antt =====
-- The passes of the worker (apps/worker/main.py) work through the queue.
use mathlib.Core.Path.{subst}
use synthetos.Prelude.{
  sym, ℕ, ◌-◌, ◌≤◌, ◌≡◌, false, Option, none, some, List, [], ◌∷◌, arith, length, All, Option-cases,
  inl, inr,
}
use synthetos.Jobs.{running, Job, Queue, get_job, claim_job, start_job}
use synthetos.Jobs.Updates.{pending_count, start_job-IsWritten, IsWritten}
use synthetos.Jobs.Pending.{IsProgress, claim_job-IsProgress}
use synthetos.Cycle.{StatusError}
use synthetos.Worker.{
  Document, OperatorInput, OperatorResult, WorkerDb, Registry, execute, job_started,
  resolve_charter_id, build_operator_input, emit,
}
use synthetos.Worker.Persist.{refused, Saved, saved, stopped, persist}
use synthetos.Worker.Persist.Contract.{IsPersisted}
use synthetos.Worker.Persist.Outcome.{persist-IsPersisted}
use synthetos.Worker.Periodic.{Settings}
use synthetos.Worker.Pass.{
  Tick, Turn, going, ended, outcome_of, started, work_on, claimed, pass, is_due, and_then, loop,
}

-- Operators that add no pending job.
abbrev pub IsQuiet : Registry → Type 0
IsQuiet registry =
    (i : OperatorInput) (db : WorkerDb)
    → pending_count (execute registry i db).1.queue ≤ pending_count db.queue

-- At most so many jobs are pending after a turn, and only a refused patch ends the loop.
abbrev pub Falls : ℕ → Turn → Type 0
Falls n (going db) = pending_count db.queue ≤ n
Falls n (ended stop db) = (e : StatusError) × (stop ≡ refused e)

-- A pass with no periodic task due and no row locked by others.
abbrev pub IsPlain : Settings → ℕ → Tick → Type 0
IsPlain settings last t = (is_due settings last t ≡ false) × (t.locked ≡ (λ _. false))

module _ (registry : Registry) (quiet : IsQuiet registry) (worker : ℕ) where
  saved-Falls :
      (now : ℕ) (j : Job Document) (r : OperatorResult) (db : WorkerDb) (out : Saved)
      → IsPersisted worker now j r db out
      → Falls (pending_count db.queue) (outcome_of db out)
  unfolding outcome_of
  saved-Falls now j r db (saved db') h = h.no_more_pending
  saved-Falls now j r db (stopped stop) h = (h.0, h.1)

  persist-Falls :
      (now id : ℕ) (r : OperatorResult) (db : WorkerDb)
      → Falls (pending_count db.queue) (outcome_of db (persist worker now id r db))
  unfolding outcome_of persist
  persist-Falls now id r db = elim (Option-cases (get_job id db.queue)) [
    | inl gone ↦ rw (persist, gone) (omega arith)
    | inr (j, found) ↦
        saved-Falls now j r db (persist worker now id r db)
          (persist-IsPersisted worker now id r db j found)
  ]

  le_trans : (a b c : ℕ) → a ≤ b → b ≤ c → a ≤ c
  le_trans a b c h k = omega arith

  Falls-mono : (m n : ℕ) (t : Turn) → m ≤ n → Falls m t → Falls n t
  Falls-mono m n (going db) le h = omega arith
  Falls-mono m n (ended stop db) le h = h

  started-Falls :
      (later i : ℕ) (db : WorkerDb) (out : Option (Job Document × Queue Document))
      → IsWritten running i db.queue out
      → Falls (pending_count db.queue) (started registry worker later db out)
  unfolding started
  started-Falls later i db out w =
      let db0 = record db { queue = w.table } in
      let db1 =
        emit (resolve_charter_id w.row db0) w.row.cycle_id worker
          (job_started w.row.id w.row.job_type) db0 in
      let (r, db2) = execute registry (build_operator_input w.row db1) db1 in
      let tame = quiet (build_operator_input w.row db1) db1 in
      rw w.answer (
        Falls-mono (pending_count db2.queue) (pending_count db.queue) _
          (le_trans _ _ _ tame w.no_more_pending) (persist-Falls later w.row.id r db2))

  claimed-Falls :
      (later : ℕ) (db : WorkerDb) (out : Option (Job Document) × Queue Document)
      → IsProgress db.queue out
      → Falls (pending_count db.queue - 1) (claimed registry worker later db out)
  unfolding claimed work_on
  claimed-Falls later db (none, q) h = omega arith
  claimed-Falls later db (some j, q) h =
      Falls-mono (pending_count q) (pending_count db.queue - 1) _ (omega arith) (
        started-Falls later j.id (record db { queue = q }) (start_job j.id q)
          (start_job-IsWritten j.id q j h.1))

  and_then-Falls :
      (m n : ℕ) (turn : Turn) (next : WorkerDb → Turn)
      → Falls m turn
      → ((db : WorkerDb) → pending_count db.queue ≤ m → Falls n (next db))
      → Falls n (and_then turn next)
  and_then-Falls m n (going db) next h f = f db h
  and_then-Falls m n (ended stop db) next h f = h

  pass-Falls :
      (t : Tick) (db : WorkerDb)
      → t.locked ≡ (λ _. false)
      → Falls (pending_count db.queue - 1) (pass registry worker t db)
  unfolding pass
  pass-Falls t db open_rows = claimed-Falls t.later db (claim_job t.locked worker t.now db.queue) (
      subst (λ l. IsProgress db.queue (claim_job l worker t.now db.queue)) (sym open_rows)
        (claim_job-IsProgress worker t.now db.queue))

  loop-Falls :
      (settings : Settings) (last : ℕ) (ticks : List Tick) (db : WorkerDb)
      → All (IsPlain settings last) ticks
      → Falls (pending_count db.queue - length ticks) (loop settings registry worker last ticks db)
  unfolding loop
  loop-Falls settings last [] db h = omega arith
  loop-Falls settings last (t ∷ ts) db h = rw h.0.0 (
      and_then-Falls (pending_count db.queue - 1) _ (pass registry worker t db) _
        (pass-Falls t db h.0.1)
        (λ db' le.
          Falls-mono (pending_count db'.queue - length ts) _ _ (omega arith)
            (loop-Falls settings last ts db' h.1)))

abbrev pub IsDrained : Turn → Type 0
IsDrained (going db) = pending_count db.queue ≡ 0
IsDrained (ended stop db) = (e : StatusError) × (stop ≡ refused e)

Falls-zero : (t : Turn) → Falls 0 t → IsDrained t
Falls-zero (going db) h = omega arith
Falls-zero (ended stop db) h = h

-- With operators that add no pending job, no row locked and no periodic task due, as many passes as
-- there are pending jobs leave no job pending, unless an operator's change of the cycle's status is
-- refused, which ends the worker; nothing else does.
pub loop-IsDrained :
    (settings : Settings) (registry : Registry) (worker last : ℕ) (ticks : List Tick)
    (db : WorkerDb)
    → IsQuiet registry
    → All (IsPlain settings last) ticks
    → pending_count db.queue ≤ length ticks
    → IsDrained (loop settings registry worker last ticks db)
loop-IsDrained settings registry worker last ticks db quiet plain enough = Falls-zero _ (
    Falls-mono registry quiet worker (pending_count db.queue - length ticks) 0 _ (omega arith)
      (loop-Falls registry quiet worker settings last ticks db plain))
