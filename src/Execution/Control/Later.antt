-- ===== src/Execution/Control/Later.antt =====
-- What the later calls of libs/core/services/experiment_service.py do with a run that is cancelled.
use mathlib.Core.Path.{subst}
use synthetos.Prelude.{
  ℕ, ◌≡◌, refl, sym, ap, ◌∙◌, Bool, true, false, not, Option, none, some, List, [], ◌∷◌, ◌++◌, ◌⊎◌,
  ◌≢◌, ◌==◌, ==_refl, ne→==-false, inl, inr, Bool-cases, if◌then◌else◌, update_where, first_where,
  first_where-passes, ==→eq, if_cases,
}
use synthetos.Cycle.{ResearchCycle, has_id}
use synthetos.Execution.{cancelled, paused, running}
use synthetos.Execution.Control.{
  ControlRun, ControlDb, Reply, replied, not_found, not_allowed, Fresh, Action, cancel, pause,
  resume, retry, other, SpecRow, is_validated, find_spec, with_cycle, with_spec, start_for,
  start_run, allows, act, is_run, with_run, control_run,
}

-- The run's row is cancelled.
abbrev pub IsOff : ℕ → ControlDb → Type 0
IsOff run t =
    (row : ControlRun) × (first_where (is_run run) t.runs ≡ some row) × (row.status ≡ cancelled)

-- Calls of the service that reply, for any specs and runs.
pub data Calls : ControlDb → ControlDb → Type 0 where
  none_made : {db : ControlDb} → Calls db db
  started :
      {db t u : ControlDb} {r : ControlRun}
      → Calls db t
      → (g : Fresh) (spec : ℕ) → start_run g spec t ≡ replied r u
      → Calls db u
  controlled :
      {db t u : ControlDb} {r : ControlRun}
      → Calls db t
      → (g : Fresh) (run : ℕ) (action : Action) → control_run g run action t ≡ replied r u
      → Calls db u

abbrev pub IsRefused : ℕ → ControlDb → Type 0
IsRefused run t =
    (g : Fresh)
    → (control_run g run cancel t ≡ not_allowed)
      × (control_run g run pause t ≡ not_allowed)
      × (control_run g run resume t ≡ not_allowed)

refused :
    (g : Fresh) (action : Action) (t : ControlDb) (o : Option ControlRun) (row : ControlRun)
    → o ≡ some row
    → allows row.status action ≡ false
    → with_run g action t o ≡ not_allowed
refused g action t o row found no_way = ap (with_run g action t) found ∙ rw no_way refl

pub IsOff-IsRefused : (id : ℕ) (t : ControlDb) → IsOff id t → IsRefused id t
unfolding control_run
IsOff-IsRefused id t (row, found, off) g = (
  refused g cancel t (first_where (is_run id) t.runs) row found (rw off refl),
  refused g pause t (first_where (is_run id) t.runs) row found (rw off refl),
  refused g resume t (first_where (is_run id) t.runs) row found (rw off refl),
)

-- The first row that a test names stays the first when rows are added, and when others change.
first_where-snoc :
    (test : ControlRun → Bool) (xs : List ControlRun) (x row : ControlRun)
    → first_where test xs ≡ some row
    → first_where test (xs ++ x ∷ []) ≡ some row
first_where-snoc test [] x row h = cc
first_where-snoc test (y ∷ xs) x row h = elim (Bool-cases (test y)) [
  | inl hit ↦ rw hit (rw hit at h)
  | inr miss ↦ rw miss (first_where-snoc test xs x row (rw miss at h))
]

first_where-others :
    (k id : ℕ) (change : ControlRun → ControlRun) (xs : List ControlRun)
    → k ≢ id
    → ((r : ControlRun) → (change r).id ≡ r.id)
    → first_where (is_run id) (update_where (is_run k) change xs) ≡ first_where (is_run id) xs
first_where-others k id change [] ne same = refl
first_where-others k id change (x ∷ xs) ne same = elim (Bool-cases (is_run k x)) [
  | inl hit ↦
      let mine : x.id ≡ k = ==→eq x.id k hit in
      let miss : is_run id x ≡ false = rw mine (ne→==-false k id ne) in
      let miss' : is_run id (change x) ≡ false = rw (same x) miss in
      rw hit (rw (miss, miss') (first_where-others k id change xs ne same))
  | inr unlike ↦
      rw unlike
        (ap (λ r. if is_run id x then some x else r) (first_where-others k id change xs ne same))
]

-- What a reply leaves of a run that is cancelled.
abbrev StaysOff : ℕ → Reply → Type 0
StaysOff id (replied r t) = IsOff id t
StaysOff id not_found = Unit
StaysOff id not_allowed = Unit

-- An action that the status of its run allows.
act-StaysOff :
    (g : Fresh) (id : ℕ) (t : ControlDb) (run : ControlRun) (action : Action)
    → IsOff id t
    → (run.id ≢ id) ⊎ (action ≡ retry)
    → StaysOff id (act g run t action)
unfolding act
act-StaysOff g id t run cancel (row, found, off) (inl ne) = (
  row,
  first_where-others run.id id (λ r. record r { status = cancelled; completed_at = some g.now })
        t.runs ne (λ r. refl)
      ∙ found,
  off,
)
act-StaysOff g id t run pause (row, found, off) (inl ne) = (
  row,
  first_where-others run.id id (λ r. record r { status = paused }) t.runs ne (λ r. refl) ∙ found,
  off,
)
act-StaysOff g id t run resume (row, found, off) (inl ne) = (
  row,
  first_where-others run.id id (λ r. record r { status = running }) t.runs ne (λ r. refl) ∙ found,
  off,
)
act-StaysOff g id t run retry (row, found, off) h =
    (row, first_where-snoc (is_run id) t.runs _ row found, off)
act-StaysOff g id t run other h ne = tt
act-StaysOff g id t run cancel h (inr e) = cc
act-StaysOff g id t run pause h (inr e) = cc
act-StaysOff g id t run resume h (inr e) = cc

cancelled_allows : (action : Action) → allows cancelled action ≡ true → action ≡ retry
unfolding allows
cancelled_allows cancel h = cc
cancelled_allows pause h = cc
cancelled_allows resume h = cc
cancelled_allows retry h = refl
cancelled_allows other h = cc

unnegated : (b : Bool) → not b ≡ false → b ≡ true
unnegated true e = refl
unnegated false e = cc

controlled-StaysOff :
    (g : Fresh) (id k : ℕ) (action : Action) (t : ControlDb) (o : Option ControlRun)
    → first_where (is_run k) t.runs ≡ o
    → IsOff id t
    → StaysOff id (with_run g action t o)
controlled-StaysOff g id k action t none found h = tt
controlled-StaysOff g id k action t (some run) found h =
    if_cases (StaysOff id) (not (allows run.status action)) _ _ (λ _. tt)
      (λ allowed. act-StaysOff g id t run action h (whose allowed))
  where
    whose : not (allows run.status action) ≡ false → (run.id ≢ id) ⊎ (action ≡ retry)
    whose allowed = elim (Bool-cases (run.id == id)) [
      | inl same ↦
          let mine : run.id ≡ k = ==→eq run.id k (first_where-passes (is_run k) t.runs found) in
          let at_id : k ≡ id = sym mine ∙ ==→eq run.id id same in
          let (row, stored, off) = h in
          let one : row ≡ run = cc (stored, found, ap (λ n. first_where (is_run n) t.runs) at_id) in
          let off' : run.status ≡ cancelled = cc (off, ap (λ x. x.status) one) in
          inr (cancelled_allows action (unnegated (allows cancelled action) (rw off' at allowed)))
      | inr ne ↦ inl (λ e. cc (rw (e, ==_refl id) at ne))
    ]

started-StaysOff :
    (g : Fresh) (id : ℕ) (t : ControlDb) (o : Option SpecRow)
    → IsOff id t
    → StaysOff id (with_spec g t o)
unfolding start_for
started-StaysOff g id t none h = tt
started-StaysOff g id t (some spec) (row, found, off) =
    if_cases (StaysOff id) (not (is_validated spec.status)) _ _ (λ _. tt)
      (λ _. in_cycle (first_where (has_id spec.cycle_id) t.cycles))
  where
    in_cycle : (o : Option ResearchCycle) → StaysOff id (with_cycle g spec t o)
    in_cycle none = tt
    in_cycle (some _) = (row, first_where-snoc (is_run id) t.runs _ row found, off)

pub Calls-IsOff : (id : ℕ) {t u : ControlDb} → Calls t u → IsOff id t → IsOff id u
unfolding start_run control_run
Calls-IsOff id none_made h = h
Calls-IsOff id (started {t = v} calls g spec e) h =
    subst (StaysOff id) e
      (started-StaysOff g id v (find_spec spec v.specs) (Calls-IsOff id calls h))
Calls-IsOff id (controlled {t = v} calls g run action e) h = subst (StaysOff id) e (
    controlled-StaysOff g id run action v (first_where (is_run run) v.runs) refl
      (Calls-IsOff id calls h))
