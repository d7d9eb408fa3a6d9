-- ===== src/Patterns/Upsert/Summary.antt =====
-- What the rows of patterns tell after a sequence of calls of upsert_pattern.
use Prim.Native.String.{String}
use text.Mathlib.Text.{◌==◌ as str_eq}
use text.Mathlib.TextEquality.{eq_iff}
use synthetos.Prelude.{
  ℕ, ◌≡◌, refl, ◌∙◌, inl, inr, Bool, true, false, ◌&&◌, Option, none, some, List, [], ◌∷◌, ◌++◌,
  InList, ◌↔◌, Bool-cases, select, update_where, select-snoc-hit, select-snoc-miss,
  select-update_own, select-update_other, and_left, and_right,
}
use synthetos.Patterns.{auto}
use synthetos.Patterns.Upsert.Calls.{
  Call, IsGreatest, IsNamed, IsGreatest-one, IsGreatest-max, IsGreatest-if, IsNamed-after,
}
use synthetos.Patterns.Upsert.{
  CanonicalPattern, compute_confidence, is_of, new_pattern, reinforce, of_existing, upsert_pattern,
}

abbrev pub table_of :
    Option (CanonicalPattern × Bool × List CanonicalPattern) → Option (List CanonicalPattern)
table_of none = none
table_of (some r) = some r.2

abbrev pub upsert_call : Call → List CanonicalPattern → Option (List CanonicalPattern)
upsert_call c table = table_of (upsert_pattern c.fresh c.now c.version c.agg table)

abbrev pub after_call : Call → Option (List CanonicalPattern) → Option (List CanonicalPattern)
after_call c none = none
after_call c (some table) = upsert_call c table

-- The table after calls on the empty one; the latest call stands first.
unfoldable pub upsert_all : List Call → Option (List CanonicalPattern)
upsert_all [] = some []
upsert_all (c ∷ past) = after_call c (upsert_all past)

abbrev pub is_call_of : String → String → Call → Bool
is_call_of t k c = str_eq c.agg.pattern_type t && str_eq c.agg.content_key k

-- What the calls for one key leave of it: no row, or one row in the tier "auto" with the greatest
-- evidence, confidence and time of the calls and with the charters that they name.
abbrev pub IsSummary : List Call → List CanonicalPattern → Type 0
IsSummary [] rows = rows ≡ []
IsSummary (c ∷ cs) rows =
    (p : CanonicalPattern) × (rows ≡ p ∷ [])
    × IsGreatest (λ d. d.agg.evidence_count) (c ∷ cs) p.evidence_count
    × IsGreatest (λ d. compute_confidence d.agg) (c ∷ cs) p.confidence
    × IsGreatest (λ d. d.agg.last_observed_at) (c ∷ cs) p.last_observed_at
    × (p.trust_tier ≡ auto)
    × ((i : ℕ) → InList i p.source_charter_ids ↔ IsNamed i (c ∷ cs))

-- The rows of a key.
abbrev rows_of : String → String → List CanonicalPattern → List CanonicalPattern
rows_of t k table = select (is_of t k) table

-- One call by the rows of its key: what a call leaves of a key, its own and another.
abbrev next_rows : Call → List CanonicalPattern → List CanonicalPattern
next_rows c [] = new_pattern c.fresh c.now c.version c.agg ∷ []
next_rows c (p ∷ ps) = reinforce c.now c.version c.agg p ∷ []

IsSummary-next :
    (c : Call) (cs : List Call) (rows : List CanonicalPattern)
    → IsSummary cs rows
    → IsSummary (c ∷ cs) (next_rows c rows)
unfolding new_pattern reinforce
IsSummary-next c [] rows h = rw h (
  new_pattern c.fresh c.now c.version c.agg,
  refl,
  IsGreatest-one (λ d. d.agg.evidence_count) c,
  IsGreatest-one (λ d. compute_confidence d.agg) c,
  IsGreatest-one (λ d. d.agg.last_observed_at) c,
  refl,
  (λ i. ((λ m. inl m), (λ m. elim m [ inl n ↦ n | inr n ↦ elim n [ ] ]))),
)
IsSummary-next c (d ∷ ds) rows (p, e, evidence, confidence, last, tier, ids) = rw e (
  reinforce c.now c.version c.agg p,
  refl,
  IsGreatest-max (λ d. d.agg.evidence_count) c (d ∷ ds) p.evidence_count evidence,
  IsGreatest-if (λ d. compute_confidence d.agg) c (d ∷ ds) p.confidence confidence,
  IsGreatest-max (λ d. d.agg.last_observed_at) c (d ∷ ds) p.last_observed_at last,
  rw tier refl,
  (λ i. IsNamed-after i p.source_charter_ids c (d ∷ ds) (ids i)),
)

-- The keys of two rows: a row that a call is for, and one that it is not for.
own_key : (c : Call) → is_call_of c.agg.pattern_type c.agg.content_key c ≡ true
own_key c =
    rw
      (
        (eq_iff c.agg.pattern_type c.agg.pattern_type).1 refl,
        (eq_iff c.agg.content_key c.agg.content_key).1 refl,
      )
      refl

other_key :
    (t k : String) (c : Call) (p : CanonicalPattern)
    → is_call_of t k c ≡ false
    → is_of c.agg.pattern_type c.agg.content_key p ≡ true
    → is_of t k p ≡ false
other_key t k c p miss hit =
    let same_type : p.pattern_type ≡ c.agg.pattern_type =
      (eq_iff p.pattern_type c.agg.pattern_type).0 (
        and_left (str_eq p.pattern_type c.agg.pattern_type) (str_eq p.content_key c.agg.content_key)
          hit) in
    let same_key : p.content_key ≡ c.agg.content_key = (eq_iff p.content_key c.agg.content_key).0 (
      and_right (str_eq p.pattern_type c.agg.pattern_type) (str_eq p.content_key c.agg.content_key)
        hit) in
    rw (same_type, same_key) miss

-- What a call does to the tables of keys: it never raises where its key has one row at most, and it
-- changes the rows of its own key alone.
abbrev IsStep : Call → List CanonicalPattern → List CanonicalPattern → Type 0
IsStep c table new =
    (upsert_call c table ≡ some new)
    × (rows_of c.agg.pattern_type c.agg.content_key new
        ≡ next_rows c (rows_of c.agg.pattern_type c.agg.content_key table))
    × ((t' k' : String) → is_call_of t' k' c ≡ false → rows_of t' k' new ≡ rows_of t' k' table)

module _ (c : Call) where
  abbrev own : CanonicalPattern → Bool
  own = is_of c.agg.pattern_type c.agg.content_key

  abbrev created : CanonicalPattern
  created = new_pattern c.fresh c.now c.version c.agg

  abbrev reinforced : CanonicalPattern → CanonicalPattern
  reinforced = reinforce c.now c.version c.agg

  create-IsStep :
      (table : List CanonicalPattern)
      → select own table ≡ []
      → IsStep c table (table ++ created ∷ [])
  unfolding upsert_pattern of_existing new_pattern
  create-IsStep table none_yet = (
    rw none_yet refl,
    select-snoc-hit own table created (own_key c) ∙ rw none_yet refl,
    (λ t k miss. select-snoc-miss (is_of t k) table created miss),
  )

  reinforce-IsStep :
      (table : List CanonicalPattern) (p : CanonicalPattern)
      → select own table ≡ p ∷ []
      → IsStep c table (update_where own reinforced table)
  unfolding upsert_pattern of_existing reinforce
  reinforce-IsStep table p one = (
    rw one refl,
    select-update_own own reinforced (λ q. refl) table p one ∙ rw one refl,
    (λ t k miss.
        select-update_other (is_of t k) own reinforced (λ q. other_key t k c q miss) (λ q. refl)
          table),
  )

  IsStep-of :
      (table : List CanonicalPattern) (past : List Call)
      → IsSummary past (select own table)
      → (new : List CanonicalPattern) × IsStep c table new
  IsStep-of table [] h = (table ++ created ∷ [], create-IsStep table h)
  IsStep-of table (d ∷ ds) (p, one, _, _, _, _, _) =
      (update_where own reinforced table, reinforce-IsStep table p one)

-- The calls for a key after one more call.
IsSummary-after :
    (c : Call) (past : List Call) (table new : List CanonicalPattern) (t k : String)
    → ((t k : String) → IsSummary (select (is_call_of t k) past) (rows_of t k table))
    → IsStep c table new
    → IsSummary (select (is_call_of t k) (c ∷ past)) (rows_of t k new)
IsSummary-after c past table new t k h (_, same, apart) = elim (Bool-cases (is_call_of t k c)) [
  | inl hit ↦
      let same_type : c.agg.pattern_type ≡ t =
        (eq_iff c.agg.pattern_type t).0
          (and_left (str_eq c.agg.pattern_type t) (str_eq c.agg.content_key k) hit) in
      let same_key : c.agg.content_key ≡ k =
        (eq_iff c.agg.content_key k).0
          (and_right (str_eq c.agg.pattern_type t) (str_eq c.agg.content_key k) hit) in
      let rows : rows_of t k new ≡ next_rows c (rows_of t k table) =
        rw (← same_type, ← same_key) same in
      rw (hit, rows) (IsSummary-next c (select (is_call_of t k) past) (rows_of t k table) (h t k))
  | inr miss ↦ rw (miss, apart t k miss) (h t k)
]

-- However the calls come on the empty table, none raises, and for every key the calls for it leave
-- one row, in the tier "auto", whose evidence, confidence and last time are the greatest of them and
-- whose charters are those that they name, or no row if no call is for the key.
pub upsert_all-IsSummary :
    (calls : List Call)
    → (table : List CanonicalPattern) × (upsert_all calls ≡ some table)
      × ((t k : String) → IsSummary (select (is_call_of t k) calls) (select (is_of t k) table))
unfolding upsert_all
upsert_all-IsSummary [] = ([], refl, (λ t k. refl))
upsert_all-IsSummary (c ∷ past) =
    let (table, e, h) = upsert_all-IsSummary past in
    let t = c.agg.pattern_type in
    let k = c.agg.content_key in
    let (new, step) = IsStep-of c table (select (is_call_of t k) past) (h t k) in
    (new, rw e step.0, (λ t k. IsSummary-after c past table new t k h step))
