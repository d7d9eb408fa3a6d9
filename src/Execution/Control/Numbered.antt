-- ===== src/Execution/Control/Numbered.antt =====
-- The numbers of a spec's runs (libs/core/services/experiment_service.py).
use mathlib.Core.Path.{subst, ap₂}
use synthetos.Prelude.{
  ℕ, zero, suc, ◌+◌, ◌==◌, ◌≡◌, refl, sym, ap, ◌∙◌, Bool, true, false, not, Option, none, some,
  List, [], ◌∷◌, ◌++◌, map, select, count_if, update_where, first_where, Bool-cases, inl, inr,
  arith, if◌then◌else◌, if_cases, count_if-append, ==→eq,
}
use synthetos.Cycle.{ResearchCycle, has_id}
use synthetos.Execution.Control.{
  ControlRun, SpecRow, ControlDb, Reply, replied, not_found, not_allowed, Fresh, is_of_spec,
  new_run, find_spec, is_validated, with_cycle, with_spec, start_for, start_run, Action, cancel,
  pause, resume, retry, other, allows, act, is_run, with_run, control_run,
}

abbrev pub numbers : ℕ → List ControlRun → List ℕ
numbers spec runs = map (λ r. r.run_number) (select (is_of_spec spec) runs)

-- 1, …, n
abbrev pub up_to : ℕ → List ℕ
up_to zero = []
up_to (suc n) = up_to n ++ suc n ∷ []

-- The runs of a spec are numbered from 1 in the order of their creation.
abbrev pub IsNumbered : ℕ → List ControlRun → Type 0
IsNumbered spec runs = numbers spec runs ≡ up_to (count_if (is_of_spec spec) runs)

numbers-snoc-hit :
    (spec : ℕ) (runs : List ControlRun) (r : ControlRun)
    → is_of_spec spec r ≡ true
    → numbers spec (runs ++ r ∷ []) ≡ numbers spec runs ++ r.run_number ∷ []
numbers-snoc-hit spec [] r hit = rw hit refl
numbers-snoc-hit spec (x ∷ xs) r hit = elim (Bool-cases (is_of_spec spec x)) [
  | inl mine ↦ rw mine (ap (λ ns. x.run_number ∷ ns) (numbers-snoc-hit spec xs r hit))
  | inr not_mine ↦ rw not_mine (numbers-snoc-hit spec xs r hit)
]

numbers-snoc-miss :
    (spec : ℕ) (runs : List ControlRun) (r : ControlRun)
    → is_of_spec spec r ≡ false
    → numbers spec (runs ++ r ∷ []) ≡ numbers spec runs
numbers-snoc-miss spec [] r miss = rw miss refl
numbers-snoc-miss spec (x ∷ xs) r miss = elim (Bool-cases (is_of_spec spec x)) [
  | inl mine ↦ rw mine (ap (λ ns. x.run_number ∷ ns) (numbers-snoc-miss spec xs r miss))
  | inr not_mine ↦ rw not_mine (numbers-snoc-miss spec xs r miss)
]

count-snoc-hit :
    (spec : ℕ) (runs : List ControlRun) (r : ControlRun)
    → is_of_spec spec r ≡ true
    → count_if (is_of_spec spec) (runs ++ r ∷ []) ≡ suc (count_if (is_of_spec spec) runs)
count-snoc-hit spec runs r hit =
    count_if-append (is_of_spec spec) runs (r ∷ []) ∙ rw hit (omega arith)

count-snoc-miss :
    (spec : ℕ) (runs : List ControlRun) (r : ControlRun)
    → is_of_spec spec r ≡ false
    → count_if (is_of_spec spec) (runs ++ r ∷ []) ≡ count_if (is_of_spec spec) runs
count-snoc-miss spec runs r miss =
    count_if-append (is_of_spec spec) runs (r ∷ []) ∙ rw miss (omega arith)

-- A new run of another spec, and one with the next number of its spec.
add-other-IsNumbered :
    (spec : ℕ) (runs : List ControlRun) (r : ControlRun)
    → is_of_spec spec r ≡ false
    → IsNumbered spec runs
    → IsNumbered spec (runs ++ r ∷ [])
add-other-IsNumbered spec runs r miss h =
    numbers-snoc-miss spec runs r miss ∙ h ∙ sym (ap up_to (count-snoc-miss spec runs r miss))

add-IsNumbered :
    (spec : ℕ) (runs : List ControlRun) (r : ControlRun)
    → r.run_number ≡ count_if (is_of_spec r.experiment_spec_id) runs + 1
    → IsNumbered spec runs
    → IsNumbered spec (runs ++ r ∷ [])
add-IsNumbered spec runs r next h = elim (Bool-cases (is_of_spec spec r)) [
  | inl mine ↦
      let same : r.experiment_spec_id ≡ spec = ==→eq r.experiment_spec_id spec mine in
      let count = count_if (is_of_spec spec) runs in
      let number : r.run_number ≡ suc count =
        next ∙ ap (λ k. count_if (is_of_spec k) runs + 1) same ∙ omega arith in
      numbers-snoc-hit spec runs r mine
      ∙ ap₂ (λ ns n. ns ++ n ∷ []) h number
      ∙ sym (ap up_to (count-snoc-hit spec runs r mine))
  | inr not_mine ↦ add-other-IsNumbered spec runs r not_mine h
]

-- A change of rows that keeps their spec and number.
module _ (test : ControlRun → Bool) (change : ControlRun → ControlRun)
    (same_spec : (r : ControlRun) → (change r).experiment_spec_id ≡ r.experiment_spec_id)
    (same_number : (r : ControlRun) → (change r).run_number ≡ r.run_number) where
  abbrev changed : ControlRun → ControlRun
  changed r = if test r then change r else r

  changed-spec : (spec : ℕ) (r : ControlRun) → is_of_spec spec (changed r) ≡ is_of_spec spec r
  changed-spec spec r = elim (Bool-cases (test r)) [
    | inl hit ↦ rw hit (ap (λ k. k == spec) (same_spec r))
    | inr miss ↦ rw miss refl
  ]

  changed-number : (r : ControlRun) → (changed r).run_number ≡ r.run_number
  changed-number r = elim (Bool-cases (test r)) [
    | inl hit ↦ rw hit (same_number r)
    | inr miss ↦ rw miss refl
  ]

  numbers-update :
      (spec : ℕ) (runs : List ControlRun)
      → (numbers spec (update_where test change runs) ≡ numbers spec runs)
        × (count_if (is_of_spec spec) (update_where test change runs)
            ≡ count_if (is_of_spec spec) runs)
  numbers-update spec [] = (refl, refl)
  numbers-update spec (x ∷ xs) =
      let (ns, n) = numbers-update spec xs in
      elim (Bool-cases (is_of_spec spec x)) [
        | inl mine ↦
            let mine' = changed-spec spec x ∙ mine in
            rw (mine', mine) (ap₂ (λ a as'. a ∷ as') (changed-number x) ns, ap (λ k. 1 + k) n)
        | inr not_mine ↦
            let not_mine' = changed-spec spec x ∙ not_mine in
            rw (not_mine', not_mine) (ns, ap (λ k. 0 + k) n)
      ]

  change-IsNumbered :
      (spec : ℕ) (runs : List ControlRun)
      → IsNumbered spec runs
      → IsNumbered spec (update_where test change runs)
  change-IsNumbered spec runs h =
      let (ns, n) = numbers-update spec runs in ns ∙ h ∙ sym (ap up_to n)

-- What a call leaves, if it replies.
abbrev IsKept : ℕ → Reply → Type 0
IsKept spec (replied r t) = IsNumbered spec t.runs
IsKept spec not_found = Unit
IsKept spec not_allowed = Unit

act-IsNumbered :
    (own : ℕ) (f : Fresh) (run : ControlRun) (db : ControlDb) (action : Action)
    → IsNumbered own db.runs
    → IsKept own (act f run db action)
unfolding act
act-IsNumbered own f run db cancel h =
    change-IsNumbered (is_run run.id) _ (λ r. refl) (λ r. refl) own db.runs h
act-IsNumbered own f run db pause h =
    change-IsNumbered (is_run run.id) _ (λ r. refl) (λ r. refl) own db.runs h
act-IsNumbered own f run db resume h =
    change-IsNumbered (is_run run.id) _ (λ r. refl) (λ r. refl) own db.runs h
act-IsNumbered own f run db retry h =
    add-IsNumbered own db.runs (new_run f run.experiment_spec_id run.charter_id run.cycle_id db)
      refl h
act-IsNumbered own f run db other h = tt

with_run-IsNumbered :
    (own : ℕ) (f : Fresh) (action : Action) (db : ControlDb) (o : Option ControlRun)
    → IsNumbered own db.runs
    → IsKept own (with_run f action db o)
with_run-IsNumbered own f action db none h = tt
with_run-IsNumbered own f action db (some run) h =
    if_cases (IsKept own) (not (allows run.status action)) _ _ (λ _. tt)
      (λ _. act-IsNumbered own f run db action h)

with_spec-IsNumbered :
    (own : ℕ) (f : Fresh) (db : ControlDb) (o : Option SpecRow)
    → IsNumbered own db.runs
    → IsKept own (with_spec f db o)
unfolding start_for
with_spec-IsNumbered own f db none h = tt
with_spec-IsNumbered own f db (some spec) h =
    if_cases (IsKept own) (not (is_validated spec.status)) _ _ (λ _. tt)
      (λ _. cycle_step (first_where (has_id spec.cycle_id) db.cycles))
  where
    cycle_step : (o : Option ResearchCycle) → IsKept own (with_cycle f spec db o)
    cycle_step none = tt
    cycle_step (some _) =
        add-IsNumbered own db.runs (new_run f spec.id spec.charter_id spec.cycle_id db) refl h

-- One call that replies; a change of rows by the operators, which keep the spec and the number; or a
-- run of another spec that an operator adds, with whatever number.
pub data Step (own : ℕ) (db : ControlDb) : ControlDb → Type 0 where
  start :
      (f : Fresh) (spec : ℕ) {r : ControlRun} {t : ControlDb}
      → start_run f spec db ≡ replied r t
      → Step own db t
  control :
      (f : Fresh) (run : ℕ) (action : Action) {r : ControlRun} {t : ControlDb}
      → control_run f run action db ≡ replied r t
      → Step own db t
  operate :
      (test : ControlRun → Bool) (change : ControlRun → ControlRun) {t : ControlDb}
      → ((r : ControlRun) → (change r).experiment_spec_id ≡ r.experiment_spec_id)
      → ((r : ControlRun) → (change r).run_number ≡ r.run_number)
      → t.runs ≡ update_where test change db.runs
      → Step own db t
  add :
      (r : ControlRun) {t : ControlDb}
      → is_of_spec own r ≡ false
      → t.runs ≡ db.runs ++ r ∷ []
      → Step own db t

pub data History (own : ℕ) : ControlDb → Type 0 where
  begin : {db : ControlDb} → db.runs ≡ [] → History own db
  next : {db t : ControlDb} → History own db → Step own db t → History own t

Step-IsNumbered :
    (own : ℕ) {db t : ControlDb} → Step own db t → IsNumbered own db.runs → IsNumbered own t.runs
unfolding start_run control_run
Step-IsNumbered own {db} (start f spec e) h =
    subst (IsKept own) e (with_spec-IsNumbered own f db (find_spec spec db.specs) h)
Step-IsNumbered own {db} (control f run action e) h =
    subst (IsKept own) e (with_run-IsNumbered own f action db (first_where (is_run run) db.runs) h)
Step-IsNumbered own {db} (operate test change same_spec same_number e) h =
    subst (IsNumbered own) (sym e)
      (change-IsNumbered test change same_spec same_number own db.runs h)
Step-IsNumbered own {db} (add r miss e) h =
    subst (IsNumbered own) (sym e) (add-other-IsNumbered own db.runs r miss h)

-- In every history of starts, controls and operators from a table without runs, where the operators keep
-- the spec and the number of the rows that they write, the runs of a spec for which no operator adds a
-- run have the numbers from 1 on, in the order of their creation, whatever runs the operators add for
-- other specs.
pub History-IsNumbered : (own : ℕ) {db : ControlDb} → History own db → IsNumbered own db.runs
History-IsNumbered own (begin e) = subst (IsNumbered own) (sym e) refl
History-IsNumbered own (next h step) = Step-IsNumbered own step (History-IsNumbered own h)
