-- ===== src/Cycle/Logged.antt =====
-- What an event log is that accounts for the status of every cycle that no other code overwrites, and
-- that the write of a move keeps it.
use text.Mathlib.Text.{◌==◌ as str_eq}
use mathlib.Core.Path.{subst}
use synthetos.Prelude.{
  ℕ, ◌==◌, ◌≡◌, refl, ◌≢◌, ◌⊎◌, true, false, none, some, List, [], ◌∷◌, ◌++◌, arith, Bool-cases, ap,
  if◌then◌else◌, is_some, All, Bool, any_of, sym, ◌∙◌, inl, inr, first_where, update_where, ==→eq,
}
use synthetos.Cycle.{
  CycleStatus, created, discovery_ready, ok, err, status_value, ResearchCycle, ActorType,
  TransitionEvent, Store, Result, is_closed, has_id, get_cycle, validate_transition, move_to,
  write_move,
}
use synthetos.Cycle.Reach.{◌⟶◌, prepare, validate_transition-iff-arrow}

abbrev pub replay : ℕ → CycleStatus → List TransitionEvent → CycleStatus
replay i s [] = s
replay i s (e ∷ es) = replay i (if e.cycle_id == i then e.to_status else s) es

-- A row's times agree with its status.
pub record IsTimed (c : ResearchCycle) : Type 0 where
  pub started : c.started_at ≡ none → c.status ≡ created
  pub completed : is_some c.completed_at ≡ is_closed c.status

abbrev pub IsRow : List TransitionEvent → ResearchCycle → Type 0
IsRow es c = IsTimed c × (replay c.id created es ≡ c.status)

-- The cycles that other code has written past the log.
abbrev pub is_overwritten : List ℕ → ℕ → Bool
is_overwritten ids i = any_of (λ k. k == i) ids

abbrev pub IsKept : List ℕ → List TransitionEvent → ResearchCycle → Type 0
IsKept ids es c = is_overwritten ids c.id ≡ false → IsRow es c

-- Every row that is not overwritten is timed and has the status that the log gives it; every event is
-- an arrow.
pub record IsLogged (ids : List ℕ) (s : Store) : Type 0 where
  pub rows : All (IsKept ids s.events) s.cycles
  pub log : All (λ (e : TransitionEvent). e.from_status ⟶ e.to_status) s.events

replay-append :
    (i : ℕ) (s : CycleStatus) (es : List TransitionEvent) (e : TransitionEvent)
    → replay i s (es ++ e ∷ []) ≡ (if e.cycle_id == i then e.to_status else replay i s es)
replay-append i s [] e = refl
replay-append i s (x ∷ es) e = replay-append i (if x.cycle_id == i then x.to_status else s) es e

pub All-append {ℓ κ} :
    {A : Type ℓ} (P : A → Type κ) (xs : List A) (x : A) → All P xs → P x → All P (xs ++ x ∷ [])
All-append P [] x h p = (p, tt)
All-append P (y ∷ xs) x h p = (h.0, All-append P xs x h.1 p)

-- Nothing leaves `closed`, and `created` is left for `discovery_ready` only.
arrow-source : {a b : CycleStatus} → a ⟶ b → is_closed a ≡ false
arrow-source prepare = refl
arrow-source _ = refl

arrow-first : {a b : CycleStatus} → a ⟶ b → (a ≢ created) ⊎ (b ≡ discovery_ready)
arrow-first prepare = inr refl
arrow-first _ = inl (λ e. cc)

-- An arrow into a row's new status keeps its times right.
move_to-IsTimed :
    (target : CycleStatus) (now later : ℕ) (c : ResearchCycle)
    → c.status ⟶ target
    → IsTimed c
    → IsTimed (move_to target now later c)
unfolding move_to
move_to-IsTimed target now later c arrow h =
    ground (arith, arrow-source arrow, arrow-first arrow, h.started, h.completed)

-- The text of a status is not the empty one, which a patch counts as absent.
pub status_value-nonempty : (s : CycleStatus) → str_eq (status_value s) "" ≡ false
unfolding status_value
status_value-nonempty created = refl
status_value-nonempty _ = refl

module _ (cycle : ResearchCycle) (target : CycleStatus) (actor : ActorType) (charter now later : ℕ)
    (es : List TransitionEvent) where
  abbrev event : TransitionEvent
  event = record {
    charter_id = charter;
    cycle_id = cycle.id;
    from_status = cycle.status;
    to_status = target;
    actor_type = actor;
  }

  -- One row, whether or not it is the one that moves.
  row-IsRow :
      (c : ResearchCycle)
      → cycle.status ⟶ target
      → (has_id cycle.id c ≡ true → replay cycle.id created es ≡ cycle.status)
      → IsRow es c
      → IsRow (es ++ event ∷ []) (if has_id cycle.id c then move_to target now later c else c)
  unfolding move_to
  row-IsRow c arrow same h = elim (Bool-cases (has_id cycle.id c)) [
    | inl own ↦ rw own (
      move_to-IsTimed target now later c (subst (λ t. t ⟶ target) (statuses own) arrow) h.0,
      ground (arith, replay-append c.id created es event, own),
    )
    | inr other ↦ rw other (h.0, ground (arith, replay-append c.id created es event, other))
  ]
    where
      statuses : has_id cycle.id c ≡ true → cycle.status ≡ c.status
      statuses own = cc (same own, h.1, ap (λ i. replay i created es) (==→eq c.id cycle.id own))

  moved_id :
      (c : ResearchCycle) → (if has_id cycle.id c then move_to target now later c else c).id ≡ c.id
  unfolding move_to
  moved_id c = elim (Bool-cases (has_id cycle.id c)) [
    | inl own ↦ rw own refl
    | inr other ↦ rw other refl
  ]

  rows-IsKept :
      (ids : List ℕ) (cs : List ResearchCycle)
      → cycle.status ⟶ target
      → (is_overwritten ids cycle.id ≡ false → replay cycle.id created es ≡ cycle.status)
      → All (IsKept ids es) cs
      → All
          (IsKept ids (es ++ event ∷ []))
          (update_where (has_id cycle.id) (move_to target now later) cs)
  rows-IsKept ids [] arrow same h = tt
  rows-IsKept ids (c ∷ cs) arrow same h = (
    (λ free.
        let mine : is_overwritten ids c.id ≡ false =
          sym (ap (is_overwritten ids) (moved_id c)) ∙ free in
        row-IsRow c arrow
          (λ own. same (ap (is_overwritten ids) (sym (==→eq c.id cycle.id own)) ∙ mine))
          (h.0 mine)),
    rows-IsKept ids cs arrow same h.1,
  )

-- The row that a look-up finds is one of the table's.
get_cycle-IsKept :
    (ids : List ℕ) (i : ℕ) (es : List TransitionEvent) (cs : List ResearchCycle) (c : ResearchCycle)
    → All (IsKept ids es) cs
    → first_where (has_id i) cs ≡ some c
    → IsKept ids es c
get_cycle-IsKept ids i es [] c h e = cc
get_cycle-IsKept ids i es (x ∷ cs) c h e = elim (Bool-cases (has_id i x)) [
  | inl hit ↦ let same : x ≡ c = cc (rw hit at e) in subst (λ r. IsKept ids es r) same h.0
  | inr miss ↦ get_cycle-IsKept ids i es cs c h.1 (rw miss at e)
]

-- What a writer returns: a store with a sound log, or an error and nothing written.
abbrev pub Keeps : List ℕ → Result Store → Type 0
Keeps ids (ok s) = IsLogged ids s
Keeps ids (err _) = Unit

pub write_move-IsLogged :
    (ids : List ℕ) (i : ℕ) (c : ResearchCycle) (target : CycleStatus) (actor : ActorType)
    (charter now later : ℕ) (s : Store)
    → get_cycle i s ≡ some c
    → validate_transition c.status target ≡ ok tt
    → IsLogged ids s
    → IsLogged ids (write_move c target actor charter now later s)
unfolding get_cycle write_move
write_move-IsLogged ids i c target actor charter now later s found allowed h =
    let arrow = (validate_transition-iff-arrow c.status target).0 allowed in
    let row = get_cycle-IsKept ids i s.events s.cycles c h.rows found in
    record {
      rows =
          rows-IsKept c target actor charter now later s.events ids s.cycles arrow
            (λ free. (row free).1) h.rows;
      log =
          All-append (λ (e : TransitionEvent). e.from_status ⟶ e.to_status) s.events _ h.log arrow;
    }
