-- ===== src/Worker/Persist/Outcome.antt =====
-- What the transaction that persists an outcome does to the tables (apps/worker/main.py).
use Prim.Native.String.{String}
use mathlib.Core.List.{append-nil, append_assoc}
use mathlib.Core.Path.{subst}
use synthetos.Prelude.{
  ℕ, ◌≡◌, refl, sym, ◌∙◌, ap, true, false, Option, none, some, List, [], ◌++◌, ◌≤◌, arith,
  Bool-cases, inl, inr, if_cases, not, ◌||◌, ◌≢◌, if◌then◌else◌,
}
use synthetos.Cycle.{Result, ok, err, Store, apply_state_patch}
use synthetos.Jobs.{
  JobStatus, pending, claimed, running, completed, failed, paused, cancelled, Job, Queue, get_job,
  fail_job,
}
use synthetos.Jobs.Updates.{
  others, pending_count, get_job-id, IsWritten, complete_job-IsWritten, fail_job-IsWritten,
  pause_job-IsWritten,
}
use synthetos.Worker.{
  Document, OperatorResult, LogEntry, WorkerEvent, job_cancelled_acknowledged,
  job_paused_at_checkpoint, job_completed, job_failed, WorkerDb, resolve_charter_id,
  persist_operator_events, emit,
}
use synthetos.Worker.Failure.{
  Mark, AnalysisMark, mark_discovery_job_failed, mark_analysis_job_failed, mark_ideation_job_failed,
}
use synthetos.Worker.Failure.Keeps.{
  IsKept, mark_discovery_job_failed-IsKept, mark_analysis_job_failed-IsKept,
  mark_ideation_job_failed-IsKept, mark_execution_job_failed-IsKept,
}
use synthetos.Worker.Persist.{
  is_cancelled, is_paused, result_document, error_text, finish, patched, persist_success, announce,
  announce_analysis, announce_sessions, announce_failure, failure_stored, persist_failure,
  persist_outcome, persist, marked,
}
use synthetos.Worker.Persist.Contract.{
  final_status, verdict, Extends, IsTold, SameSessions, IsStored, IsPersisted,
}

is_cancelled-eq : (s : JobStatus) → is_cancelled s ≡ true → s ≡ cancelled
is_cancelled-eq cancelled h = refl
is_cancelled-eq pending h = cc
is_cancelled-eq claimed h = cc
is_cancelled-eq paused h = cc
is_cancelled-eq running h = cc
is_cancelled-eq completed h = cc
is_cancelled-eq failed h = cc

Extends-refl : (l : List LogEntry) → Extends l l
Extends-refl l = ([], sym (append-nil l))

Extends-append :
    (l : List LogEntry) {k : List LogEntry} (m : List LogEntry) → Extends l k → Extends l (k ++ m)
Extends-append l m (more, e) = (more ++ m, ap (λ x. x ++ m) e ∙ append_assoc l more m)

module _ (worker now : ℕ) (j : Job Document) (r : OperatorResult) (db : WorkerDb) where
  CyclesOf : WorkerDb → Type 0
  CyclesOf db' =
      if is_cancelled j.status || not r.success
      then (db'.store ≡ db.store)
      else (apply_state_patch j.cycle_id (resolve_charter_id j db) r.state_patch now db.store
          ≡ ok db'.store)

  build :
      (status : JobStatus) (out : Option (Job Document × Queue Document)) {q : Queue Document}
      (w : IsWritten status j.id q out)
      → q ≡ db.queue
      → status ≡ final_status r.success j.status
      → (db' : WorkerDb) → db'.queue ≡ w.table
      → IsTold worker j r db db'
      → (final_status r.success j.status ≢ failed → SameSessions db db')
      → CyclesOf db'
      → IsStored worker now j r db db'
  unfolding CyclesOf
  build status out w start final db' same told sessions cycles = record {
    row = w.row;
    stored = rw same w.stored;
    status = w.new_status ∙ final;
    same_others = rw same (w.same_others ∙ ap (others j.id) start);
    same_events = rw same (w.same_events ∙ ap (λ q. q.events) start);
    no_more_pending =
        rw same (subst (λ n. pending_count w.table ≤ n) (ap pending_count start) w.no_more_pending);
    told = told;
    same_sessions = sessions;
    cycles = cycles;
  }

  abbrev charter : Option ℕ
  charter = resolve_charter_id j db

  heard : WorkerDb
  unfolding persist_operator_events
  heard = persist_operator_events charter j.cycle_id worker r.events db

  heard-Extends : Extends db.log heard.log
  unfolding heard
  heard-Extends = Extends-append db.log _ (Extends-refl db.log)

  emit-IsTold :
      (mid : WorkerDb) (event : WorkerEvent)
      → event ≡ verdict j r
      → Extends db.log mid.log
      → IsTold worker j r db (emit charter j.cycle_id worker event mid)
  emit-IsTold mid event e more = (mid.log, more, rw e refl)

  -- A success whose patch is accepted.
  finish-IsStored :
      get_job j.id db.queue ≡ some j
      → is_cancelled j.status ≡ false
      → r.success ≡ true
      → (s : Store) → apply_state_patch j.cycle_id charter r.state_patch now db.store ≡ ok s
      → IsPersisted worker now j r db (finish worker now j r charter (record heard { store = s }))
  unfolding finish heard CyclesOf
  finish-IsStored found going good s patch = elim (Bool-cases (is_paused j.status)) [
    | inl pausing ↦
        let w = pause_job-IsWritten j.id (some (result_document r)) db.queue j found in
        rw (pausing, w.answer)
          (build paused _ w refl (rw (going, good, pausing) refl) _ refl
            (emit-IsTold (record heard { queue = w.table }) (job_paused_at_checkpoint j.id)
              (rw (going, good, pausing) refl) heard-Extends)
            (λ _. (refl, refl, refl, refl)) (rw (going, good) patch))
    | inr running_on ↦
        let w = complete_job-IsWritten j.id (some (result_document r)) now db.queue j found in
        rw (running_on, w.answer)
          (build completed _ w refl (rw (going, good, running_on) refl) _ refl
            (emit-IsTold (record heard { queue = w.table }) (job_completed j.id r.summary)
              (rw (going, good, running_on) refl) heard-Extends)
            (λ _. (refl, refl, refl, refl)) (rw (going, good) patch))
  ]

  patched-IsPersisted :
      get_job j.id db.queue ≡ some j
      → is_cancelled j.status ≡ false
      → r.success ≡ true
      → (out : Result Store) → apply_state_patch j.cycle_id charter r.state_patch now db.store ≡ out
      → IsPersisted worker now j r db (patched worker now j r charter heard out)
  unfolding patched
  patched-IsPersisted found going good (ok s) patch = finish-IsStored found going good s patch
  patched-IsPersisted found going good (err e) patch = (e, refl, going, good, patch)

  -- What the events after a failure leave, and that they only add to the log.
  abbrev IsAnnounced : WorkerDb → WorkerDb → Type 0
  IsAnnounced old new = (new.queue ≡ old.queue) × (new.store ≡ old.store) × Extends db.log new.log

  announce-IsAnnounced :
      (event : ℕ → WorkerEvent) (m : Mark) (old mid : WorkerDb)
      → IsAnnounced old mid
      → IsAnnounced old (announce charter j worker event m mid)
  announce-IsAnnounced event none old mid h = h
  announce-IsAnnounced event (some (i, true)) old mid h = (h.0, h.1, Extends-append db.log _ h.2)
  announce-IsAnnounced event (some (i, false)) old mid h = h

  announce_analysis-IsAnnounced :
      (event : ℕ → ℕ → WorkerEvent) (m : AnalysisMark) (old mid : WorkerDb)
      → IsAnnounced old mid
      → IsAnnounced old (announce_analysis charter j worker event m mid)
  announce_analysis-IsAnnounced event none old mid h = h
  announce_analysis-IsAnnounced event (some (i, paper, true)) old mid h =
      (h.0, h.1, Extends-append db.log _ h.2)
  announce_analysis-IsAnnounced event (some (i, paper, false)) old mid h = h

  announce_sessions-IsAnnounced :
      (d : Mark) (a : AnalysisMark) (i e : Mark) (old mid : WorkerDb)
      → IsAnnounced old mid
      → IsAnnounced old (announce_sessions worker j r charter d a i e mid)
  unfolding announce_sessions
  announce_sessions-IsAnnounced d a i e old mid h = announce_analysis-IsAnnounced _ a old _ (
      announce-IsAnnounced _ d old _
        (announce-IsAnnounced _ e old _ (announce-IsAnnounced _ i old mid h)))

  marked-IsKept : (error : String) (old : WorkerDb) → IsKept old (marked j error now old).1
  unfolding marked
  marked-IsKept error old =
      let db1 = (mark_discovery_job_failed j error now old).1 in
      let db2 = (mark_analysis_job_failed j error now db1).1 in
      let db3 = (mark_ideation_job_failed j error now db2).1 in
      let d = mark_discovery_job_failed-IsKept j error now old in
      let a = mark_analysis_job_failed-IsKept j error now db1 in
      let i = mark_ideation_job_failed-IsKept j error now db2 in
      let e = mark_execution_job_failed-IsKept j error now db3 in
      (e.0 ∙ i.0 ∙ a.0 ∙ d.0, e.1 ∙ i.1 ∙ a.1 ∙ d.1, e.2 ∙ i.2 ∙ a.2 ∙ d.2, e.3 ∙ i.3 ∙ a.3 ∙ d.3)

  -- A failure, once the marks are made.
  stored-IsPersisted :
      get_job j.id db.queue ≡ some j
      → is_cancelled j.status ≡ false
      → r.success ≡ false
      → (m : Mark × AnalysisMark × Mark × Mark) (after : WorkerDb) → IsKept heard after
      → IsPersisted worker now j r db (
          failure_stored
            (announce_failure worker j r charter m.0 m.1 m.2 m.3)
            after
            (fail_job j.id (error_text r.error) now after.queue))
  unfolding failure_stored announce_failure heard CyclesOf
  stored-IsPersisted found going bad m after kept =
      let w = fail_job-IsWritten j.id (error_text r.error) now after.queue j (rw kept.0 found) in
      let mid = record after { queue = w.table } in
      let told =
        announce_sessions-IsAnnounced m.0 m.1 m.2 m.3 mid mid
          (refl, refl, subst (λ l. Extends db.log l) (sym kept.2) heard-Extends) in
      rw w.answer (
        build failed _ w kept.0 (rw (going, bad) refl) _ told.0
          (emit-IsTold (announce_sessions worker j r charter m.0 m.1 m.2 m.3 mid)
            (job_failed j.id r.error) (rw (going, bad) refl) told.2)
          (λ fine. absurd (fine (rw (going, bad) refl))) (rw (going, bad) (told.1 ∙ kept.1)))

  acknowledged :
      get_job j.id db.queue ≡ some j
      → is_cancelled j.status ≡ true
      → IsStored worker now j r db
          (emit charter j.cycle_id worker (job_cancelled_acknowledged j.id) db)
  unfolding CyclesOf
  acknowledged found gone = record {
    row = j;
    stored = found;
    status = rw gone (is_cancelled-eq j.status gone);
    same_others = refl;
    same_events = refl;
    no_more_pending = omega arith;
    told = emit-IsTold db (job_cancelled_acknowledged j.id) (rw gone refl) (Extends-refl db.log);
    same_sessions = λ _. (refl, refl, refl, refl);
    cycles = rw gone refl;
  }

  persist_outcome-IsPersisted :
      get_job j.id db.queue ≡ some j
      → IsPersisted worker now j r db (persist_outcome worker now j r charter db)
  unfolding persist_outcome persist_success persist_failure heard
  persist_outcome-IsPersisted found =
      if_cases (IsPersisted worker now j r db) (is_cancelled j.status) _ _
        (λ gone. acknowledged found gone)
        (λ going.
          if_cases (IsPersisted worker now j r db) r.success _ _
            (λ good. patched-IsPersisted found going good _ refl)
            (λ bad.
              stored-IsPersisted found going bad _ _ (marked-IsKept (error_text r.error) heard)))

-- Persisting the outcome of a job that the table still has gives the job its final status, a
-- cancelled job keeping its own, tells the verdict last, and changes no other job and no event of
-- the queue; the sessions and runs change only if the job fails, and the cycles as the patch of a
-- success says. The transaction is given up exactly by a success whose patch is refused.
pub persist-IsPersisted :
    (worker now id : ℕ) (r : OperatorResult) (db : WorkerDb) (j : Job Document)
    → get_job id db.queue ≡ some j
    → IsPersisted worker now j r db (persist worker now id r db)
unfolding persist
persist-IsPersisted worker now id r db j found =
    let same = get_job-id id db.queue j found in
    rw (persist, found)
      (persist_outcome-IsPersisted worker now j r db
        (subst (λ i. get_job i db.queue ≡ some j) (sym same) found))
