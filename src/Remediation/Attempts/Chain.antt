-- ===== src/Remediation/Attempts/Chain.antt =====
-- The chain of retries that `auto_remediate` makes of a failed run, and its length.
use mathlib.Core.Path.{subst}
use synthetos.Prelude.{
  ℕ, suc, ◌==◌, ne→==-false, ==_refl, ◌≡◌, refl, sym, ◌∙◌, ap, ◌≤◌, ◌<◌, inl, inr, Bool, true, some,
  List, [], ◌∷◌, ◌++◌, arith, Bool-cases, All, All-first_where, first_where-passes, ==→eq, length,
  length-append, select, select-snoc-hit, any_of,
}
use synthetos.Cycle.{running}
use synthetos.Remediation.Strategies.{Overrides}
use synthetos.Remediation.Attempts.{
  Run, RemediationAction, RemedyDb, committed, RemedyInput, default_max_attempts, find_run, walk,
  load_lineage_run_ids, is_in, load_lineage_actions, retry_run, auto_remediate,
}
use synthetos.Remediation.Attempts.Lineage.{IsEarlier, walk-enough, walk-snoc}
use synthetos.Remediation.Attempts.Bound.{IsRemedy, auto_remediate-IsRemedy}

-- Parents are earlier rows, and the identifier of the next run is above all that are in use.
abbrev pub IsNext : ℕ → RemedyDb → Type 0
IsNext new db =
    All IsEarlier db.runs
    × All (λ (r : Run). r.id < new) db.runs
    × All (λ (a : RemediationAction). a.run_record_id < new) db.actions

find-new :
    (new : ℕ) (runs : List Run) (r : Run)
    → r.id ≡ new
    → All (λ (x : Run). x.id < new) runs
    → find_run new (runs ++ r ∷ []) ≡ some r
find-new new [] r e h = rw (e, ==_refl new) refl
find-new new (x ∷ runs) r e (below, rest) =
    rw (ne→==-false x.id new (λ same. omega (arith, below, same))) (find-new new runs r e rest)

select-same :
    (p q : ℕ → Bool) (actions : List RemediationAction)
    → All (λ (a : RemediationAction). p a.run_record_id ≡ q a.run_record_id) actions
    → select (λ (a : RemediationAction). p a.run_record_id) actions
      ≡ select (λ (a : RemediationAction). q a.run_record_id) actions
select-same p q [] h = refl
select-same p q (a ∷ actions) (same, others) = elim (Bool-cases (q a.run_record_id)) [
  | inl e ↦ rw (same, e) (ap (λ rest. a ∷ rest) (select-same p q actions others))
  | inr e ↦ rw (same, e) (select-same p q actions others)
]

is_in-new : (new k : ℕ) (ids : List ℕ) → k < new → is_in (new ∷ ids) k ≡ is_in ids k
is_in-new new k ids h = rw (ne→==-false new k (λ same. omega (arith, h, same))) refl

-- The lineage of the new run is the new run on top of the failed run's lineage.
lineage-retry :
    (i : RemedyInput) (db : RemedyDb) (run : Run) (o : Overrides)
    → IsNext i.new_run_id db
    → run.id < i.new_run_id
    → load_lineage_run_ids i.new_run_id (db.runs ++ retry_run i run o ∷ [])
      ≡ i.new_run_id ∷ load_lineage_run_ids run.id db.runs
unfolding load_lineage_run_ids walk
lineage-retry i db run o (ordered, below, _) h =
    let r = retry_run i run o in
    rw (find-new i.new_run_id db.runs r refl below) (
      ap (λ ids. i.new_run_id ∷ ids)
        (walk-snoc i.new_run_id db.runs r (some run.id) ordered h
          ∙ walk-enough i.new_run_id (suc run.id) db.runs run.id ordered h (omega arith)))

pub lineage_self : (i : ℕ) (runs : List Run) → is_in (load_lineage_run_ids i runs) i ≡ true
unfolding load_lineage_run_ids walk
lineage_self i runs = rw (==_refl i) refl

All-is_in-new :
    (new : ℕ) (ids : List ℕ) (actions : List RemediationAction)
    → All (λ (a : RemediationAction). a.run_record_id < new) actions
    → All
        (λ (a : RemediationAction). is_in (new ∷ ids) a.run_record_id ≡ is_in ids a.run_record_id)
        actions
All-is_in-new new ids [] h = tt
All-is_in-new new ids (a ∷ actions) (h, rest) =
    (is_in-new new a.run_record_id ids h, All-is_in-new new ids actions rest)

abbrev pub of_runs : List ℕ → List RemediationAction → List RemediationAction
of_runs ids = select (λ (a : RemediationAction). is_in ids a.run_record_id)

-- A retry brings one more action into the lineage.
actions-retry :
    (i : RemedyInput) (db db' : RemedyDb) (run : Run) (o : Overrides) (a : RemediationAction)
    → IsNext i.new_run_id db
    → run.id < i.new_run_id
    → db'.runs ≡ db.runs ++ retry_run i run o ∷ []
    → db'.actions ≡ db.actions ++ a ∷ []
    → a.run_record_id ≡ run.id
    → load_lineage_actions i.new_run_id db' ≡ load_lineage_actions run.id db ++ a ∷ []
unfolding load_lineage_actions
actions-retry i db db' run o a next h runs actions same =
    let new = i.new_run_id in
    let ids = load_lineage_run_ids run.id db.runs in
    let (_, _, acted) = next in
    let mine : is_in (new ∷ ids) a.run_record_id ≡ true =
      is_in-new new a.run_record_id ids (rw same h)
      ∙ subst (λ k. is_in ids k ≡ true) (sym same) (lineage_self run.id db.runs) in
    ap (λ ks. of_runs ks db'.actions)
      (ap (load_lineage_run_ids new) runs ∙ lineage-retry i db run o next h)
    ∙ ap (of_runs (new ∷ ids)) actions
    ∙ select-snoc-hit (λ (b : RemediationAction). is_in (new ∷ ids) b.run_record_id) db.actions a
        mine
    ∙ ap (λ kept. kept ++ a ∷ [])
        (select-same (is_in (new ∷ ids)) (is_in ids) db.actions
          (All-is_in-new new ids db.actions acted))

-- A run at the end of a line of retries, each made by a call of the operator for the run before it.
-- Between the calls any work may change the tables, further calls of the operator for the same or other
-- runs included, as long as it takes no action of the lineage away.
pub data Chain : RemedyDb → ℕ → ℕ → Type 0 where
  root : {db : RemedyDb} {r : ℕ} → Chain db r 0
  other :
      {db db' : RemedyDb} {r k : ℕ}
      → Chain db r k
      → length (load_lineage_actions r db) ≤ length (load_lineage_actions r db')
      → Chain db' r k
  again :
      {db db' : RemedyDb} {r k : ℕ}
      → Chain db r k
      → (i : RemedyInput) (run : Run) → i.run_record_id ≡ some r
      → find_run r db.runs ≡ some run
      → any_of (λ s. s == run.experiment_spec_id) db.spec_ids ≡ true
      → IsNext i.new_run_id db
      → auto_remediate i db ≡ committed db' (some running)
      → Chain db' i.new_run_id (suc k)

-- The lineage has an action for each retry at least, and there are no more retries than the limit.
abbrev IsCounted : RemedyDb → ℕ → ℕ → Type 0
IsCounted db r k = (k ≤ length (load_lineage_actions r db)) × (k ≤ default_max_attempts)

again-IsCounted :
    (db db' : RemedyDb) (r k : ℕ) (i : RemedyInput) (run : Run)
    → find_run r db.runs ≡ some run
    → IsNext i.new_run_id db
    → k ≤ length (load_lineage_actions r db)
    → IsRemedy i run (length (load_lineage_actions run.id db)) db (committed db' (some running))
    → IsCounted db' i.new_run_id (suc k)
again-IsCounted db db' r k i run found next count (a, _, _, _, _, inl (no_patch, _, _)) = cc
again-IsCounted db db' r k i run found next count
      (a, actions, mine, _, _, inr (_, _, few, (o, runs))) =
    let same : run.id ≡ r = ==→eq run.id r (first_where-passes (λ x. x.id == r) db.runs found) in
    let (_, all_below, _) = next in
    let below =
      All-first_where (λ (x : Run). x.id < i.new_run_id) (λ x. x.id == r) db.runs run all_below
        found in
    let more = actions-retry i db db' run o a next below runs actions mine in
    let n : k ≤ length (load_lineage_actions run.id db) = rw same count in
    (
      rw more (omega (arith, length-append (load_lineage_actions run.id db) (a ∷ []), n)),
      omega (arith, few, n),
    )

-- A line of retries, each made by a call for the run before it and with an identifier above all that
-- are in use, has three at most, and the lineage of its last run has as many actions at least, as long
-- as other work, repeated calls for one run included, takes no action of the lineage away.
pub Chain-bounded :
    {db : RemedyDb} {r k : ℕ}
    → Chain db r k
    → (k ≤ length (load_lineage_actions r db)) × (k ≤ default_max_attempts)
Chain-bounded root = (omega arith, omega arith)
Chain-bounded (other c e) = let (n, bound) = Chain-bounded c in (omega (arith, n, e), bound)
Chain-bounded (again {db = db} {db' = db'} {r = r} {k = k} c i run named found known next e) =
    again-IsCounted db db' r k i run found next (Chain-bounded c).0 (
      subst (IsRemedy i run (length (load_lineage_actions run.id db)) db) e
        (auto_remediate-IsRemedy i db r run named found known))
