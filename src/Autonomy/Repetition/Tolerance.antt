-- ===== src/Autonomy/Repetition/Tolerance.antt =====
-- What the repetition check of libs/autonomy/repetition.py decides.
use text.Mathlib.TextEquality.{eq_iff}
use synthetos.Prelude.{
  Option, select, InList, first_where, InList-select, first_where-InList, first_where-passes,
  first_where-hit, select-InList, ◌↔◌, ℕ, ◌≡◌, refl, true, false, none, some, List, [], ◌∷◌, arith,
}
use synthetos.Prelude.Int.{ℤ, ◌-ℤ◌, abs}
use synthetos.Domain.{Controls, ExperimentSpec}
use synthetos.Autonomy.Repetition.{
  is_close, all_close, numbers_close, item_numbers, controls_within_tolerance, is_prior,
  RepetitionResult, detect_repetition, exact_result, near_result, is_exact_match, is_near_match,
}

abs-sub_comm : (a b : ℤ) → abs (a -ℤ b) ≡ abs (b -ℤ a)
unfolding ◌-ℤ◌
abs-sub_comm a b = ground arith

is_close_comm : (a b : ℤ) → is_close a b ≡ is_close b a
unfolding is_close
is_close_comm a b = ground (arith, abs-sub_comm a b)

all_close_comm : (xs ys : List ℤ) → all_close xs ys ≡ all_close ys xs
unfolding all_close
all_close_comm [] [] = refl
all_close_comm [] (b ∷ ys) = refl
all_close_comm (a ∷ xs) [] = refl
all_close_comm (a ∷ xs) (b ∷ ys) = cc (is_close_comm a b, all_close_comm xs ys)

numbers_close_comm : (xs ys : List ℤ) → numbers_close xs ys ≡ numbers_close ys xs
numbers_close_comm [] [] = refl
numbers_close_comm [] (b ∷ ys) = ground arith
numbers_close_comm (a ∷ xs) [] = ground arith
numbers_close_comm (a ∷ xs) (b ∷ ys) = ground (arith, all_close_comm (a ∷ xs) (b ∷ ys))

-- The tolerance does not depend on which of the two specs is the earlier one.
pub controls_within_tolerance_comm :
    (a b : Option Controls) → controls_within_tolerance a b ≡ controls_within_tolerance b a
unfolding controls_within_tolerance
controls_within_tolerance_comm none none = refl
controls_within_tolerance_comm none (some b) = refl
controls_within_tolerance_comm (some a) none = refl
controls_within_tolerance_comm (some a) (some b) = ground (
  arith,
  eq_iff a.dumped b.dumped,
  eq_iff b.dumped a.dumped,
  numbers_close_comm (item_numbers a.items) (item_numbers b.items),
)

-- Another validated spec of the cycle with the same fingerprint.
abbrev pub IsRepeat : List ExperimentSpec → ℕ → ExperimentSpec → ExperimentSpec → Type 0
IsRepeat specs cycle current s =
    InList s specs × (is_prior cycle current s ≡ true) × (current.fingerprint ≡ s.fingerprint)

exact_result-found :
    (o : Option ExperimentSpec) (r : RepetitionResult)
    → r.is_duplicate ≡ false
    → (exact_result o r).is_duplicate ≡ true
    → (s : ExperimentSpec) × (o ≡ some s)
exact_result-found none r unset e = cc
exact_result-found (some s) r unset e = (s, refl)

near_result-no_duplicate : (o : Option ExperimentSpec) → (near_result o).is_duplicate ≡ false
near_result-no_duplicate none = refl
near_result-no_duplicate (some s) = refl

-- The check reports a duplicate exactly when the cycle has another validated spec with the same
-- fingerprint, wherever it stands in the table.
pub detect_repetition_iff :
    (specs : List ExperimentSpec) (cycle : ℕ) (current : ExperimentSpec)
    → ((detect_repetition specs cycle current).is_duplicate ≡ true)
      ↔ ((s : ExperimentSpec) × IsRepeat specs cycle current s)
unfolding detect_repetition
detect_repetition_iff specs cycle current = (found, reported)
  where
    prior : List ExperimentSpec
    prior = select (is_prior cycle current) specs

    found :
        (detect_repetition specs cycle current).is_duplicate ≡ true
        → (s : ExperimentSpec) × IsRepeat specs cycle current s
    found e =
        let near = near_result (first_where (is_near_match current) prior) in
        let (s, hit) =
          exact_result-found (first_where (is_exact_match current) prior) near
            (near_result-no_duplicate (first_where (is_near_match current) prior)) e in
        let (row, fits) =
          InList-select (is_prior cycle current) specs s
            (first_where-InList (is_exact_match current) prior s hit) in
        (
          s,
          (
            row,
            fits,
            (eq_iff current.fingerprint s.fingerprint).0
                (first_where-passes (is_exact_match current) prior {x = s} hit),
          ),
        )

    reported :
        ((s : ExperimentSpec) × IsRepeat specs cycle current s)
        → (detect_repetition specs cycle current).is_duplicate ≡ true
    reported (s, (row, fits, same)) =
        let (t, hit) =
          first_where-hit (is_exact_match current) prior s
            (select-InList (is_prior cycle current) specs s row fits)
            ((eq_iff current.fingerprint s.fingerprint).1 same) in
        rw hit
