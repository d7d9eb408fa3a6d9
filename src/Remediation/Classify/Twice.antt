-- ===== src/Remediation/Classify/Twice.antt =====
-- A job of signal_classify that is executed twice, as after a reclaim.
use mathlib.Core.Path.{subst}
use synthetos.Prelude.{
  ℕ, ◌==◌, ==_refl, ◌≡◌, refl, sym, ap, ◌∙◌, inl, inr, Bool, true, false, Option, none, some, List,
  [], ◌∷◌, ◌++◌, any_of, select, first_where, update_where, select-snoc-hit, select-update_own,
  update_where-snoc, update_where_twice, Option-cases,
}
use synthetos.Prelude.Int.{ℤ}
use synthetos.Domain.{MetricFrontier}
use synthetos.Remediation.Frontier.{is_of_line, upsert_frontier}
use synthetos.Remediation.Frontier.Again.{recounted, upsert_frontier-again}
use synthetos.Remediation.Classify.{
  Reading, is_signal_of, signal_row, store_signal, is_report_of, link_report, observation_of,
  with_stored, with_kept, written, classified, signal_classify,
}
use synthetos.Remediation.Reading.{
  SpecMetric, SignalSpec, SignalRun, DirectionalSignal, ReportRow, SignalDb, committed,
  get_primary_metric, value_of, name_of, history_of, prior_runs,
}

module _ (run : SignalRun) (spec : SignalSpec) (r : Reading) where
  abbrev own : DirectionalSignal → Bool
  own = is_signal_of run.id

  abbrev store : ℕ → List DirectionalSignal → Option (ℕ × List DirectionalSignal)
  store fresh table = store_signal fresh run spec r table (select own table)

  -- The row as it is stored, over one with the same identifier.
  abbrev renewed : ℕ → DirectionalSignal → DirectionalSignal
  renewed id t = record (signal_row id run spec r) {
    run_record_id = t.run_record_id;
    experiment_spec_id = t.experiment_spec_id;
  }

  -- One row: a second store leaves the table.
  store-one :
      (fresh : ℕ) (table : List DirectionalSignal) (s : DirectionalSignal)
      → select own table ≡ s ∷ []
      → update_where own (renewed s.id) table ≡ table
      → store fresh table ≡ some (s.id, table)
  unfolding store_signal
  store-one fresh table s one same = rw one (ap (λ t. some (s.id, t)) same)

  store-again :
      (fresh fresh' : ℕ) (table : List DirectionalSignal) (x : ℕ × List DirectionalSignal)
      → (rows : List DirectionalSignal) → select own table ≡ rows
      → store_signal fresh run spec r table rows ≡ some x
      → store fresh' x.1 ≡ some x
  unfolding store_signal signal_row
  store-again fresh fresh' table x [] absent e =
      let s = signal_row fresh run spec r in
      let one : select own (table ++ s ∷ []) ≡ s ∷ [] =
        select-snoc-hit own table s (==_refl run.id) ∙ rw absent refl in
      let again =
        store-one fresh' (table ++ s ∷ []) s one
          (update_where-snoc own (renewed fresh) table s absent (==_refl run.id)) in
      subst (λ y. store fresh' y.1 ≡ some y) (pair_of e) again
    where
      pair_of : {y : ℕ × List DirectionalSignal} → some y ≡ some x → y ≡ x
      pair_of e = cc
  store-again fresh fresh' table x (s ∷ []) one e =
      let new = update_where own (renewed s.id) table in
      let still : select own new ≡ renewed s.id s ∷ [] =
        select-update_own own (renewed s.id) (λ t. refl) table s one in
      let again =
        store-one fresh' new (renewed s.id s) still
          (update_where_twice own (renewed s.id) (renewed s.id) (λ t. refl) (λ t. refl) table) in
      subst (λ y. store fresh' y.1 ≡ some y) (pair_of e) again
    where
      pair_of : {y : ℕ × List DirectionalSignal} → some y ≡ some x → y ≡ x
      pair_of e = cc
  store-again fresh fresh' table x (s ∷ t ∷ ts) many e = cc

-- A report that is linked again.
link-again :
    (run signal : ℕ) (table new : List ReportRow)
    → (rows : List ReportRow) → select (is_report_of run) table ≡ rows
    → link_report run signal table rows ≡ some new
    → link_report run signal new (select (is_report_of run) new) ≡ some new
link-again run signal table new [] absent e =
    let same : table ≡ new = cc in
    subst (λ t. link_report run signal t (select (is_report_of run) t) ≡ some t) same
      (rw absent refl)
link-again run signal table new (v ∷ []) one e =
    let link : ReportRow → ReportRow = λ w. record w { directional_signal_id = some signal } in
    let own = is_report_of run in
    let same : update_where own link table ≡ new = cc in
    subst (λ t. link_report run signal t (select own t) ≡ some t) same
      (rw (select-update_own own link (λ t. refl) table v one)
        (ap some (update_where_twice own link link (λ t. refl) (λ t. refl) table)))
link-again run signal table new (v ∷ w ∷ ws) many e = cc

abbrev count_of :
    SignalRun
    → SignalSpec
    → Reading
    → List MetricFrontier
    → Option (MetricFrontier × Bool × List MetricFrontier)
count_of run spec r table =
    upsert_frontier run.charter_id spec.hypothesis_card_id (observation_of run r) table

-- The three results that a committed call has.
abbrev IsWritten : ℕ → SignalRun → SignalSpec → Reading → SignalDb → SignalDb → Type 0
IsWritten fresh run spec r db new =
    (x : ℕ × List DirectionalSignal) × (reports : List ReportRow) × (kept : MetricFrontier
      × Bool
      × List MetricFrontier)
    × (store run spec r fresh db.signals ≡ some x)
    × (link_report run.id x.0 db.reports (select (is_report_of run.id) db.reports) ≡ some reports)
    × (count_of run spec r db.frontiers ≡ some kept)
    × (written run spec r db x.1 reports kept ≡ new)

classified-IsWritten :
    (fresh : ℕ) (run : SignalRun) (spec : SignalSpec) (r : Reading) (db new : SignalDb)
    → classified fresh run spec r db ≡ committed new
    → IsWritten fresh run spec r db new
unfolding classified
classified-IsWritten fresh run spec r db new e =
    elim (Option-cases (store run spec r fresh db.signals)) [
      | inl h ↦ cc (rw h at e)
      | inr (x, h) ↦ of_stored x h (rw h at e)
    ]
  where
    of_kept :
        (x : ℕ × List DirectionalSignal) (reports : List ReportRow)
        → store run spec r fresh db.signals ≡ some x
        → link_report run.id x.0 db.reports (select (is_report_of run.id) db.reports) ≡ some reports
        → (o : Option (MetricFrontier × Bool × List MetricFrontier))
        → count_of run spec r db.frontiers ≡ o
        → with_kept run spec r db x.1 reports o ≡ committed new
        → IsWritten fresh run spec r db new
    of_kept x reports h k none l e = cc
    of_kept x reports h k (some kept) l e = (x, reports, kept, h, k, l, cc)

    of_stored :
        (x : ℕ × List DirectionalSignal)
        → store run spec r fresh db.signals ≡ some x
        → with_stored run spec r db (some x) ≡ committed new
        → IsWritten fresh run spec r db new
    of_stored x h e =
        elim (Option-cases
          (link_report run.id x.0 db.reports (select (is_report_of run.id) db.reports))) [
            | inl k ↦ cc (rw k at e)
            | inr (reports, k) ↦
                of_kept x reports h k (count_of run spec r db.frontiers) refl (rw k at e)
          ]

-- A second execution after one that has classified.
abbrev pub IsRepeated : SignalRun → SignalSpec → Reading → SignalDb → SignalDb → Type 0
IsRepeated run spec r db again =
    (again.signals ≡ db.signals)
    × (again.reports ≡ db.reports)
    × (again.recommend_jobs ≡ db.recommend_jobs ++ run.id ∷ [])
    × ((f : MetricFrontier) × (first_where (is_of_line run.charter_id spec.hypothesis_card_id)
            db.frontiers
          ≡ some f)
        × (first_where (is_of_line run.charter_id spec.hypothesis_card_id) again.frontiers
            ≡ some (recounted (observation_of run r) f)))

classified-again :
    (fresh fresh' : ℕ) (run : SignalRun) (spec : SignalSpec) (r : Reading) (db new : SignalDb)
    → classified fresh run spec r db ≡ committed new
    → (again : SignalDb) × (classified fresh' run spec r new ≡ committed again)
      × IsRepeated run spec r new again
unfolding classified
classified-again fresh fresh' run spec r db new e =
    let (x, reports, kept, h, k, l, same) = classified-IsWritten fresh run spec r db new e in
    let (f, found, count, after) =
      upsert_frontier-again run.charter_id spec.hypothesis_card_id (observation_of run r)
        db.frontiers kept l in
    subst
      (λ d.
        (again : SignalDb) × (classified fresh' run spec r d ≡ committed again)
        × IsRepeated run spec r d again)
      same
      (
        (let line = is_of_line run.charter_id spec.hypothesis_card_id in
            let f' = recounted (observation_of run r) f in
            written run spec r (written run spec r db x.1 reports kept) x.1 reports
              (f', false, update_where line (λ _. f') kept.2)),
        rw
            (
              store-again run spec r fresh fresh' db.signals x
                  (select (is_signal_of run.id) db.signals) refl h,
              link-again run.id x.0 db.reports reports (select (is_report_of run.id) db.reports)
                  refl k,
              count,
            )
            refl,
        (refl, refl, refl, (f, found, after)),
      )

abbrev pub run_of : ℕ → SignalDb → Option SignalRun
run_of id db = first_where (λ (x : SignalRun). x.id == id) db.runs

abbrev pub spec_of : SignalRun → SignalDb → Option SignalSpec
spec_of run db = first_where (λ (s : SignalSpec). s.id == run.experiment_spec_id) db.specs

abbrev pub has_card : SignalSpec → SignalDb → Bool
has_card spec db = any_of (λ c. c == spec.hypothesis_card_id) db.cards

abbrev pub reading_of : SignalRun → SignalSpec → SpecMetric → ℤ → SignalDb → Reading
reading_of run spec m v db = record {
  metric = m;
  value = v;
  window = history_of (name_of m) (prior_runs run spec db);
}

module _ (id : ℕ) (run : SignalRun) (spec : SignalSpec) (m : SpecMetric) (v : ℤ) where
  call-classified :
      (fresh : ℕ) (db : SignalDb)
      → run_of id db ≡ some run
      → spec_of run db ≡ some spec
      → has_card spec db ≡ true
      → get_primary_metric spec ≡ some m
      → value_of (name_of m) run.metrics_output ≡ some v
      → signal_classify (some id) fresh db
        ≡ classified fresh run spec (reading_of run spec m v db) db
  unfolding signal_classify
  call-classified fresh db found known card primary value =
      rw (found, known, primary, value, card) refl

  -- For a run of a known spec with a primary metric and a value for it, and with the card of the
  -- hypothesis: if the call commits, the same call again commits as well, leaves the signals and the
  -- reports, adds one more job, and counts the run in the frontier of its line once more, as one that
  -- has not improved it.
  pub classified_twice-counts :
      (fresh fresh' : ℕ) (db new : SignalDb)
      → run_of id db ≡ some run
      → spec_of run db ≡ some spec
      → has_card spec db ≡ true
      → get_primary_metric spec ≡ some m
      → value_of (name_of m) run.metrics_output ≡ some v
      → signal_classify (some id) fresh db ≡ committed new
      → (again : SignalDb) × (signal_classify (some id) fresh' new ≡ committed again)
        × IsRepeated run spec (reading_of run spec m v db) new again
  unfolding prior_runs
  classified_twice-counts fresh fresh' db new found known card primary value e =
      let r = reading_of run spec m v db in
      let first : classified fresh run spec r db ≡ committed new =
        sym (call-classified fresh db found known card primary value) ∙ e in
      let (again, second, repeated) = classified-again fresh fresh' run spec r db new first in
      let (x, reports, kept, _, _, _, same) = classified-IsWritten fresh run spec r db new first in
      let call : signal_classify (some id) fresh' new ≡ classified fresh' run spec r new =
        subst (λ d. signal_classify (some id) fresh' d ≡ classified fresh' run spec r d) same
          (call-classified fresh' (written run spec r db x.1 reports kept) found known card primary
            value) in
      (again, call ∙ second, repeated)
