-- ===== src/Patterns/Observations.antt =====
-- The observations of a pattern: upsert_observations of libs/patterns/upsert.py. The identifiers of
-- the rows, the contribution and the times are left out.
use Prim.Native.String.{String}
use text.Mathlib.Text.{◌==◌ as str_eq}
use text.Mathlib.TextEquality.{eq_iff}
use synthetos.Prelude.{
  ℕ, suc, ◌+◌, ◌==◌, ==_refl, ◌≡◌, refl, ◌∙◌, ap, inl, inr, Bool, true, false, ◌&&◌, not, List, [],
  ◌∷◌, ◌++◌, any_of, map, select, length, length-append, InList, select-InList, Bool-cases,
}

pub record Candidate : Type 0 where
  pub charter_id : ℕ
  pub source_artifact_type : String
  pub source_artifact_id : ℕ

pub record PatternObservation : Type 0 where
  pub pattern_id : ℕ
  pub charter_id : ℕ
  pub source_artifact_type : String
  pub source_artifact_id : ℕ

-- The row of a pattern for the candidate's artifact.
abbrev pub is_link : ℕ → Candidate → PatternObservation → Bool
is_link pattern c o =
    o.pattern_id == pattern
    && (str_eq o.source_artifact_type c.source_artifact_type
        && o.source_artifact_id == c.source_artifact_id)

-- `key in existing_keys`: the keys are read before the first row is added.
abbrev pub is_linked : ℕ → List PatternObservation → Candidate → Bool
is_linked pattern table c = any_of (is_link pattern c) table

abbrev pub observation : ℕ → Candidate → PatternObservation
observation pattern c = record {
  pattern_id = pattern;
  charter_id = c.charter_id;
  source_artifact_type = c.source_artifact_type;
  source_artifact_id = c.source_artifact_id;
}

abbrev pub new_candidates : ℕ → List PatternObservation → List Candidate → List Candidate
new_candidates pattern table = select (λ c. not (is_linked pattern table c))

-- How many rows were inserted, and the table.
unfoldable pub upsert_observations :
    ℕ → List Candidate → List PatternObservation → ℕ × List PatternObservation
upsert_observations pattern candidates table =
    let added = new_candidates pattern table candidates in
    (length added, table ++ map (observation pattern) added)

any_of-left :
    (test : PatternObservation → Bool) (xs ys : List PatternObservation)
    → any_of test xs ≡ true
    → any_of test (xs ++ ys) ≡ true
any_of-left test [] ys h = cc
any_of-left test (x ∷ xs) ys h = elim (Bool-cases (test x)) [
  | inl e ↦ rw e refl
  | inr e ↦ rw e (any_of-left test xs ys (rw e at h))
]

any_of-right :
    (test : PatternObservation → Bool) (xs ys : List PatternObservation)
    → any_of test ys ≡ true
    → any_of test (xs ++ ys) ≡ true
any_of-right test [] ys h = h
any_of-right test (x ∷ xs) ys h = elim (Bool-cases (test x)) [
  | inl e ↦ rw e refl
  | inr e ↦ rw e (any_of-right test xs ys h)
]

own_link : (p : ℕ) (c : Candidate) → is_link p c (observation p c) ≡ true
own_link p c =
    rw
      (
        ==_refl p,
        (eq_iff c.source_artifact_type c.source_artifact_type).1 refl,
        ==_refl c.source_artifact_id,
      )
      refl

link-map :
    (p : ℕ) (c : Candidate) (cs : List Candidate)
    → InList c cs
    → any_of (is_link p c) (map (observation p) cs) ≡ true
link-map p c [] m = elim m [ ]
link-map p c (d ∷ cs) (inl e) = rw (e, own_link p c) refl
link-map p c (d ∷ cs) (inr m) = elim (Bool-cases (is_link p c (observation p d))) [
  | inl e ↦ rw e refl
  | inr e ↦ rw e (link-map p c cs m)
]

abbrev table_after : ℕ → List Candidate → List PatternObservation → List PatternObservation
table_after p cs table = table ++ map (observation p) (new_candidates p table cs)

linked_after :
    (p : ℕ) (cs : List Candidate) (table : List PatternObservation) (c : Candidate)
    → InList c cs
    → is_linked p (table_after p cs table) c ≡ true
linked_after p cs table c m = elim (Bool-cases (is_linked p table c)) [
  | inl e ↦ any_of-left (is_link p c) table (map (observation p) (new_candidates p table cs)) e
  | inr e ↦ any_of-right (is_link p c) table (map (observation p) (new_candidates p table cs)) (
      link-map p c (new_candidates p table cs)
        (select-InList (λ d. not (is_linked p table d)) cs c m (rw e refl)))
]

select-none :
    (test : Candidate → Bool) (cs : List Candidate)
    → ((c : Candidate) → InList c cs → test c ≡ false)
    → select test cs ≡ []
select-none test [] h = refl
select-none test (c ∷ cs) h = rw (h c (inl refl)) (select-none test cs (λ d m. h d (inr m)))

length-observations : (p : ℕ) (cs : List Candidate) → length (map (observation p) cs) ≡ length cs
length-observations p [] = refl
length-observations p (c ∷ cs) = ap suc (length-observations p cs)

append_nothing : (xs : List PatternObservation) → xs ++ [] ≡ xs
append_nothing [] = refl
append_nothing (x ∷ xs) = ap (λ ys. x ∷ ys) (append_nothing xs)

-- After an upsert every candidate is linked to the pattern; it has added as many rows as it counts;
-- and the same upsert once more inserts nothing and leaves the table as it is.
pub upsert_observations_lem :
    (p : ℕ) (cs : List Candidate) (table : List PatternObservation)
    → let r = upsert_observations p cs table in
      ((c : Candidate) → InList c cs → is_linked p r.1 c ≡ true)
      × (length r.1 ≡ length table + r.0)
      × (upsert_observations p cs r.1 ≡ (0, r.1))
unfolding upsert_observations
upsert_observations_lem p cs table =
    let again : new_candidates p (table_after p cs table) cs ≡ [] =
      select-none (λ c. not (is_linked p (table_after p cs table) c)) cs
        (λ c m. rw (linked_after p cs table c m) refl) in
    (
      linked_after p cs table,
      length-append table (map (observation p) (new_candidates p table cs))
          ∙ ap (λ n. length table + n) (length-observations p (new_candidates p table cs)),
      rw again (ap (λ t. (0, t)) (append_nothing (table_after p cs table))),
    )
