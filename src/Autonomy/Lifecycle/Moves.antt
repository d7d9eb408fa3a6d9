-- ===== src/Autonomy/Lifecycle/Moves.antt =====
-- The moves of a hypothesis under libs/autonomy/hypothesis_lifecycle.py.
use mathlib.Core.Path.{subst}
use synthetos.Prelude.{
  Bool-cases, ◌≡◌, refl, ◌↔◌, inl, inr, Bool, true, false, Option, some, List, ◌&&◌,
}
use synthetos.Domain.{Signal, RecommendationType, MetricFrontier, StopCondition}
use synthetos.Autonomy.Lifecycle.{
  HypothesisStatus, candidate, selected, compiled, rejected, deferred, active, promising,
  deprioritized, validated, is_progress, is_target_met, is_stalling, compute_lifecycle_status,
  is_pivot,
}

-- The documented moves, each with what it needs.
pub data Move (signal : Option Signal) (f : Option MetricFrontier)
    (recommendation : RecommendationType) (conditions : Option (List StopCondition))
    : HypothesisStatus → HypothesisStatus → Type 0 where
  activate : Move signal f recommendation conditions compiled active
  revive : Move signal f recommendation conditions deferred active
  drop_active :
      is_pivot recommendation ≡ true → Move signal f recommendation conditions active deprioritized
  drop_stalled :
      is_pivot recommendation ≡ true
      → Move signal f recommendation conditions HypothesisStatus.stalled deprioritized
  validate :
      is_target_met conditions f ≡ true
      → Move signal f recommendation conditions promising validated
  advance :
      is_pivot recommendation ≡ false
      → is_progress signal ≡ true
      → Move signal f recommendation conditions active promising
  stall_active :
      is_pivot recommendation ≡ false
      → is_progress signal ≡ false
      → is_stalling f ≡ true
      → Move signal f recommendation conditions active HypothesisStatus.stalled
  stall_promising :
      is_target_met conditions f ≡ false
      → is_stalling f ≡ true
      → Move signal f recommendation conditions promising HypothesisStatus.stalled

and_false : (b : Bool) → (b && false) ≡ false
and_false true = refl
and_false false = refl

module _ (signal : Option Signal) (f : Option MetricFrontier) (recommendation : RecommendationType)
    (conditions : Option (List StopCondition)) where
  pub Move-computed :
      {s t : HypothesisStatus}
      → Move signal f recommendation conditions s t
      → compute_lifecycle_status s signal f recommendation conditions ≡ some t
  unfolding compute_lifecycle_status
  Move-computed activate = refl
  Move-computed revive = refl
  Move-computed (drop_active p) = rw p
  Move-computed (drop_stalled p) = rw p
  Move-computed (validate t) = rw (t, and_false)
  Move-computed (advance p a) = rw (p, a)
  Move-computed (stall_active p a l) = rw (p, a, l)
  Move-computed (stall_promising t l) =
      rw (t, l, and_false (is_pivot recommendation), and_false (is_progress signal))

  -- A computed status as the goal of a move that is known.
  to_target :
      {s t u : HypothesisStatus}
      → Move signal f recommendation conditions s u
      → some u ≡ some t
      → Move signal f recommendation conditions s t
  to_target {s} {t} {u} m e =
      let same : u ≡ t = cc in subst (Move signal f recommendation conditions s) same m

  computed-Move :
      (s : HypothesisStatus) {t : HypothesisStatus}
      → compute_lifecycle_status s signal f recommendation conditions ≡ some t
      → Move signal f recommendation conditions s t
  unfolding compute_lifecycle_status
  computed-Move compiled h = to_target activate h
  computed-Move deferred h = to_target revive h
  computed-Move active h = elim (Bool-cases (is_pivot recommendation)) [
    | inl p ↦ to_target (drop_active p) (rw p at h)
    | inr p ↦ elim (Bool-cases (is_progress signal)) [
      | inl a ↦ to_target (advance p a) (rw (p, a) at h)
      | inr a ↦ elim (Bool-cases (is_stalling f)) [
        | inl l ↦ to_target (stall_active p a l) (rw (p, a, l) at h)
        | inr l ↦ cc (rw (p, a, l) at h)
      ]
    ]
  ]
  computed-Move promising h = elim (Bool-cases (is_target_met conditions f)) [
    | inl m ↦ to_target (validate m) (rw (m, and_false) at h)
    | inr m ↦ elim (Bool-cases (is_stalling f)) [
      | inl l ↦
          to_target (stall_promising m l)
            (rw (m, l, and_false (is_pivot recommendation), and_false (is_progress signal)) at h)
      | inr l ↦
          cc (rw (m, l, and_false (is_pivot recommendation), and_false (is_progress signal)) at h)
    ]
  ]
  computed-Move HypothesisStatus.stalled h = elim (Bool-cases (is_pivot recommendation)) [
    | inl p ↦ to_target (drop_stalled p) (rw p at h)
    | inr p ↦ cc (rw (p, and_false (is_progress signal), and_false (is_stalling f)) at h)
  ]
  computed-Move candidate h = cc
  computed-Move selected h = cc
  computed-Move rejected h = cc
  computed-Move deprioritized h = cc
  computed-Move validated h = cc

  -- The computed status is exactly the target of a documented move, from every status.
  pub compute_lifecycle_status-iff-Move :
      (s t : HypothesisStatus)
      → (compute_lifecycle_status s signal f recommendation conditions ≡ some t)
        ↔ Move signal f recommendation conditions s t
  compute_lifecycle_status-iff-Move s t = (computed-Move s, Move-computed)
