-- ===== src/Protocols/Compile/Operator/Stored.antt =====
-- The rows of the specs that a compilation stores.
use mathlib.Core.List.{append-nil, append_assoc}
use synthetos.Prelude.{
  ℕ, suc, ◌≡◌, refl, sym, ◌∙◌, inl, inr, Bool, true, false, List, [], ◌∷◌, ◌++◌, any_of, All,
  All-map, InList,
}
use synthetos.Domain.{ExperimentSpec}
use synthetos.Autonomy.Lifecycle.{HypothesisCard}
use synthetos.Autonomy.Loop.{LoopDb}
use synthetos.Protocols.{CompiledSpec, validate_spec, is_nonempty}
use synthetos.Protocols.Compile.{
  HypothesisSession, CompileInput, CompileDb, spec_row, persist_spec, persist_specs, add_result,
}

abbrev pub rows_of :
    CompileInput
    → HypothesisSession
    → ℕ
    → List HypothesisCard
    → List CompiledSpec
    → List ExperimentSpec
rows_of i hs id [] ss = []
rows_of i hs id (c ∷ cs) [] = []
rows_of i hs id (c ∷ cs) (s ∷ ss) = spec_row i hs id c s ∷ rows_of i hs (suc id) cs ss

abbrev pub is_valid_row : ExperimentSpec → Bool
is_valid_row s = s.validated

abbrev pub IsRowId : List ExperimentSpec → ℕ → Type 0
IsRowId rows k = (s : ExperimentSpec) × InList s rows × (s.id ≡ k)

-- The parts of the tables that the specs leave alone.
abbrev pub SameRest : LoopDb → LoopDb → Type 0
SameRest new old = (new.queue ≡ old.queue) × (new.runs ≡ old.runs)

abbrev IsStored :
    CompileInput
    → HypothesisSession
    → List ExperimentSpec
    → LoopDb
    → List ℕ × ℕ × CompileDb
    → Type 0
IsStored i hs rows old r =
    (r.2.tables.specs ≡ old.specs ++ rows)
    × SameRest r.2.tables old
    × (is_nonempty r.0 ≡ any_of is_valid_row rows)
    × All (IsRowId rows) r.0

IsRowId-later :
    (s : ExperimentSpec) (rows : List ExperimentSpec) (k : ℕ)
    → IsRowId rows k
    → IsRowId (s ∷ rows) k
IsRowId-later s rows k (t, m, e) = (t, inr m, e)

add_result-IsStored :
    (i : CompileInput) (hs : HypothesisSession) (b : Bool) (row : ExperimentSpec)
    (rows : List ExperimentSpec) (old : LoopDb) (rest : List ℕ × ℕ × CompileDb)
    → row.validated ≡ b
    → rest.2.tables.specs ≡ old.specs ++ row ∷ rows
    → SameRest rest.2.tables old
    → is_nonempty rest.0 ≡ any_of is_valid_row rows
    → All (IsRowId rows) rest.0
    → IsStored i hs (row ∷ rows) old (add_result b row.id rest)
add_result-IsStored i hs true row rows old rest e specs same some_valid ids = (
  specs,
  same,
  rw e refl,
  (
    (row, inl refl, refl),
    All-map (IsRowId rows) (IsRowId (row ∷ rows)) (IsRowId-later row rows) rest.0 ids,
  ),
)
add_result-IsStored i hs false row rows old rest e specs same some_valid ids = (
  specs,
  same,
  rw e some_valid,
  All-map (IsRowId rows) (IsRowId (row ∷ rows)) (IsRowId-later row rows) rest.0 ids,
)

pub persist_specs-IsStored :
    (i : CompileInput) (hs : HypothesisSession) (id : ℕ) (cs : List HypothesisCard)
    (ss : List CompiledSpec) (db : CompileDb)
    → IsStored i hs (rows_of i hs id cs ss) db.tables (persist_specs i hs id cs ss db)
unfolding persist_specs
persist_specs-IsStored i hs id [] ss db = (sym (append-nil db.tables.specs), (refl, refl), refl, tt)
persist_specs-IsStored i hs id (c ∷ cs) [] db =
    (sym (append-nil db.tables.specs), (refl, refl), refl, tt)
persist_specs-IsStored i hs id (c ∷ cs) (s ∷ ss) db =
    let (specs, rest, some_valid, ids) =
      persist_specs-IsStored i hs (suc id) cs ss (persist_spec i hs id c s db) in
    let row = spec_row i hs id c s in
    let rows = rows_of i hs (suc id) cs ss in
    add_result-IsStored i hs (validate_spec s).valid row rows db.tables
      (persist_specs i hs (suc id) cs ss (persist_spec i hs id c s db)) refl
      (specs ∙ append_assoc db.tables.specs (row ∷ []) rows) rest some_valid ids
