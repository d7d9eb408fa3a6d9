-- ===== src/Autonomy/Lifecycle/Progress.antt =====
-- How far a hypothesis can move: the updates of libs/autonomy/hypothesis_lifecycle.py, one for each
-- iteration of the loop, between which other code writes the status of the card, as protocol_compile
-- (libs/protocols/operators/compile.py) does when it compiles the hypothesis again, and
-- update_hypothesis_card (libs/core/services/experiment_service.py) for the user.
use synthetos.Prelude.{
  ℕ, ap, ◌∙◌, suc, ◌+◌, ◌*◌, Bool, map, false, ◌≡◌, refl, ◌≤◌, ◌<◌, inl, inr, true, Option, none,
  some, List, [], ◌∷◌, arith, Bool-cases, not, if◌then◌else◌,
}
use synthetos.Domain.{Signal, RecommendationType, MetricFrontier, StopCondition}
use synthetos.Autonomy.Lifecycle.{
  HypothesisStatus, candidate, compiled, deferred, active, promising, validated, HypothesisCard,
  compute_lifecycle_status, update_hypothesis_status, apply_status, is_status,
}
use synthetos.Autonomy.Lifecycle.Moves.{
  Move, activate, revive, drop_active, drop_stalled, validate, advance, stall_active,
  stall_promising, compute_lifecycle_status-iff-Move,
}

-- What one iteration of the loop hands to the update.
pub record Iteration : Type 0 where
  pub now : ℕ
  pub signal : Option Signal
  pub frontier : Option MetricFrontier
  pub recommendation : RecommendationType
  pub conditions : Option (List StopCondition)

abbrev pub step : Iteration → HypothesisCard → HypothesisCard
step i c = update_hypothesis_status i.now c i.signal i.frontier i.recommendation i.conditions

-- A status that other code writes, whatever the card's is, or an update by the loop.
pub data Turn : Type 0 where
  rewritten : HypothesisStatus → Turn
  updated : Iteration → Turn

abbrev pub turn : Turn → HypothesisCard → HypothesisCard
turn (rewritten s) c = record c { status = s }
turn (updated i) c = step i c

pub after : List Turn → HypothesisCard → HypothesisCard
after [] c = c
after (t ∷ ts) c = after ts (turn t c)

-- How many of the turns change the status.
pub changes : List Turn → HypothesisCard → ℕ
changes [] c = 0
changes (t ∷ ts) c =
    (if not (is_status (turn t c).status c.status) then 1 else 0) + changes ts (turn t c)

-- How many of the turns are writes of other code.
pub rewrites : List Turn → ℕ
rewrites [] = 0
rewrites (rewritten s ∷ ts) = suc (rewrites ts)
rewrites (updated i ∷ ts) = rewrites ts

-- The stage of a status; those with no way on share the last.
abbrev pub stage : HypothesisStatus → ℕ
stage compiled = 0
stage deferred = 0
stage active = 1
stage promising = 2
stage HypothesisStatus.stalled = 3
stage _ = 4

is_status_refl : (s : HypothesisStatus) → is_status s s ≡ true
is_status_refl candidate = refl
is_status_refl _ = refl

unmoved : (i : Iteration) (c : HypothesisCard) → c.status ≡ validated → step i c ≡ c
unfolding update_hypothesis_status compute_lifecycle_status
unmoved i c e = rw e

module _ (i : Iteration) where
  Move-stage :
      {s t : HypothesisStatus}
      → Move i.signal i.frontier i.recommendation i.conditions s t
      → stage s < stage t
  Move-stage activate = omega arith
  Move-stage revive = omega arith
  Move-stage (drop_active p) = omega arith
  Move-stage (drop_stalled p) = omega arith
  Move-stage (validate m) = omega arith
  Move-stage (advance p a) = omega arith
  Move-stage (stall_active p a l) = omega arith
  Move-stage (stall_promising m l) = omega arith

  -- One update either leaves the status or raises the stage.
  apply_status-stage :
      (c : HypothesisCard) (o : Option HypothesisStatus)
      → compute_lifecycle_status c.status i.signal i.frontier i.recommendation i.conditions ≡ o
      → let c' = apply_status i.now c o in
        (if not (is_status c'.status c.status) then 1 else 0) + stage c.status ≤ stage c'.status
  apply_status-stage c none e = rw (is_status_refl c.status) (omega arith)
  apply_status-stage c (some t) e = elim (Bool-cases (is_status t c.status)) [
    | inl same ↦ rw same (rw (is_status_refl c.status) (omega arith))
    | inr moved ↦ rw moved (
        rw moved (
          omega (
            arith,
            Move-stage (
                (compute_lifecycle_status-iff-Move i.signal i.frontier i.recommendation i.conditions
                    c.status t).0
                  e),
          )))
  ]

  step-stage :
      (c : HypothesisCard)
      → (if not (is_status (step i c).status c.status) then 1 else 0) + stage c.status
        ≤ stage (step i c).status
  unfolding update_hypothesis_status
  step-stage c = apply_status-stage c _ refl

stage-le : (s : HypothesisStatus) → stage s ≤ 4
stage-le compiled = omega arith
stage-le _ = omega arith

one_at_most : (b : Bool) → (if b then 1 else 0) ≤ 1
one_at_most true = omega arith
one_at_most false = omega arith

changes-stage :
    (ts : List Turn) (c : HypothesisCard)
    → changes ts c + stage c.status ≤ stage (after ts c).status + 5 * rewrites ts
unfolding changes after rewrites
changes-stage [] c = omega arith
changes-stage (rewritten s ∷ ts) c = omega (
  arith,
  changes-stage ts (record c { status = s }),
  stage-le c.status,
  one_at_most (not (is_status s c.status)),
)
changes-stage (updated i ∷ ts) c = omega (arith, step-stage i c, changes-stage ts (step i c))

-- Over any number of updates of a hypothesis, and writes of its status by other code between them, the
-- status changes four times at most and five times more for each of those writes, and an update never
-- lowers the stage.
pub changes_bounded :
    (ts : List Turn) (c : HypothesisCard) (i : Iteration)
    → (changes ts c ≤ 4 + 5 * rewrites ts)
      × (stage (after ts c).status ≤ stage (step i (after ts c)).status)
changes_bounded ts c i = (
  omega (arith, changes-stage ts c, stage-le (after ts c).status),
  omega (arith, step-stage i (after ts c)),
)

-- Updates leave a validated hypothesis validated.
pub validated_stays :
    (is : List Iteration) (c : HypothesisCard) → c.status ≡ validated → after (map updated is) c ≡ c
unfolding after
validated_stays [] c e = refl
validated_stays (i ∷ is) c e = ap (after (map updated is)) (unmoved i c e) ∙ validated_stays is c e
