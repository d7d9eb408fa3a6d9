-- ===== src/Worker/Failure.antt =====
-- What a failed job does to the session or the run that it worked for: `mark_failed` of
-- libs/discovery, libs/analysis and libs/ideation (operators/_common.py) and the four
-- `_mark_*_job_failed` of apps/worker/main.py.
pub mod Keeps
use Prim.Native.String.{String, len, slice}
use text.Mathlib.Text.{◌==◌ as str_eq, starts_with}
use synthetos.Prelude.{
  ℕ, ◌==◌, Bool, true, false, ◌&&◌, ◌||◌, Option, none, some, List, [], ◌∷◌, ◌++◌, if◌then◌else◌,
  holds, any_of, first_where, update_where,
}
use synthetos.Jobs.{Job}
use synthetos.Worker.{
  Value, identifier, json, null, value_of, payload_of, Document, StepEntry, SessionRow, AnalysisRow,
  RunRow, WorkerDb,
}

-- `*_id_from_payload`: with no value an error of the state, with one that is no identifier a
-- `ValueError`; the callers here catch both.
pub id_from_payload : String → Job Document → Option ℕ
id_from_payload key j = elim (value_of key (payload_of j)) [
  | identifier i ↦ some i
  | json _ ↦ none
  | null ↦ none
]

-- `text.removeprefix(prefix)`
abbrev pub remove_prefix : String → String → String
remove_prefix prefix text =
    if starts_with text prefix then slice text (len prefix) (len text) else text

abbrev pub carries_failure : String → SessionRow → Bool
carries_failure error s = str_eq s.status "failed" && holds (λ e. str_eq e error) s.error

-- The row that `mark_failed` leaves, and whether it changed it.
unfoldable pub mark_failed : String → String → ℕ → String → ℕ → SessionRow → SessionRow × Bool
mark_failed step error job_id job_type now s = if carries_failure error s then (s, false) else (
  record s {
    status = "failed";
    error = some error;
    completed_at = some now;
    step_log =
        s.step_log
        ++ record {
          step = step;
          status = "failed";
          at = now;
          job_id = job_id;
          job_type = job_type;
          error = error;
        }
          ∷ [];
  },
  true,
)

-- What a mark reports: the row's identifier, and whether it was changed.
abbrev pub Mark : Type 0
Mark = Option (ℕ × Bool)

abbrev pub is_session : ℕ → SessionRow → Bool
is_session i s = s.id == i

mark_session :
    String → String → Job Document → String → ℕ → List SessionRow → Mark × List SessionRow
unfolding id_from_payload mark_failed
mark_session key prefix j error now rows = elim (id_from_payload key j) [
  | none ↦ (none, rows)
  | some i ↦ elim (first_where (is_session i) rows) [
    | none ↦ (none, rows)
    | some s ↦
        let (s', changed) =
          mark_failed (remove_prefix prefix j.job_type) error j.id j.job_type now s in
        (some (i, changed), update_where (is_session i) (λ _. s') rows)
  ]
]

unfoldable pub mark_discovery_job_failed : Job Document → String → ℕ → WorkerDb → Mark × WorkerDb
unfolding mark_session
mark_discovery_job_failed j error now db =
    if starts_with j.job_type "discovery_"
    then (let (m, rows) = mark_session "session_id" "discovery_" j error now db.discovery in
        (m, record db { discovery = rows }))
    else (none, db)

unfoldable pub mark_ideation_job_failed : Job Document → String → ℕ → WorkerDb → Mark × WorkerDb
unfolding mark_session
mark_ideation_job_failed j error now db =
    if starts_with j.job_type "hypothesis_"
    then (let (m, rows) =
          mark_session "hypothesis_session_id" "hypothesis_" j error now db.ideation in
        (m, record db { ideation = rows }))
    else (none, db)

abbrev pub is_analysis : ℕ → AnalysisRow → Bool
is_analysis i a = a.session.id == i

-- The analysis also reports the paper of its session.
abbrev pub AnalysisMark : Type 0
AnalysisMark = Option (ℕ × ℕ × Bool)

mark_analysis :
    Job Document → String → ℕ → List AnalysisRow → Option ℕ → AnalysisMark × List AnalysisRow
unfolding mark_failed
mark_analysis j error now rows none = (none, rows)
mark_analysis j error now rows (some i) = elim (first_where (is_analysis i) rows) [
  | none ↦ (none, rows)
  | some a ↦
      let (s', changed) =
        mark_failed (remove_prefix "analysis_" j.job_type) error j.id j.job_type now a.session in
      (
        some (i, a.paper_card_id, changed),
        update_where (is_analysis i) (λ r. record r { session = s' }) rows,
      )
]

unfoldable pub mark_analysis_job_failed :
    Job Document → String → ℕ → WorkerDb → AnalysisMark × WorkerDb
unfolding mark_analysis id_from_payload
mark_analysis_job_failed j error now db =
    if starts_with j.job_type "analysis_"
    then (let (m, rows) =
          mark_analysis j error now db.analysis (id_from_payload "analysis_session_id" j) in
        (m, record db { analysis = rows }))
    else (none, db)

abbrev pub is_run : ℕ → RunRow → Bool
is_run i r = r.id == i

-- The prefixes of execution, verification and protocol jobs.
abbrev pub is_run_job : String → Bool
is_run_job job_type =
    any_of (starts_with job_type) ("execution_" ∷ "verification_" ∷ "protocol_" ∷ [])

mark_run : String → ℕ → List RunRow → Option ℕ → Mark × List RunRow
mark_run error now rows none = (none, rows)
mark_run error now rows (some i) = elim (first_where (is_run i) rows) [
  | none ↦ (none, rows)
  | some r ↦
      if str_eq r.status "failed" || str_eq r.status "cancelled" then (some (i, false), rows) else (
        some (i, true),
        update_where (is_run i)
            (λ k. record k { status = "failed"; error = some error; completed_at = some now }) rows,
      )
]

unfoldable pub mark_execution_job_failed : Job Document → String → ℕ → WorkerDb → Mark × WorkerDb
unfolding mark_run id_from_payload
mark_execution_job_failed j error now db =
    if is_run_job j.job_type
    then (let (m, rows) = mark_run error now db.runs (id_from_payload "run_record_id" j) in
        (m, record db { runs = rows }))
    else (none, db)
