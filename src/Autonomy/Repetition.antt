-- ===== src/Autonomy/Repetition.antt =====
-- Repetition of experiments: libs/autonomy/repetition.py. Numbers are integers in a unit in which
-- the compared values are whole; digests are equal exactly when the canonical texts are.
pub mod Tolerance
use Prim.Native.String.{String}
use text.Mathlib.Text.{◌==◌ as str_eq}
use synthetos.Prelude.{
  ℕ, suc, ◌*◌, ◌==◌, ltb, max, Bool, true, false, ◌&&◌, not, Option, none, some, List, [], ◌∷◌,
  ◌++◌, if◌then◌else◌, select, first_where, length,
}
use synthetos.Prelude.Int.{ℤ, pos, ◌-ℤ◌, abs}
use synthetos.Domain.{
  Json, null, bool, num, str, arr, obj, Items, nil, cons, Fields, end, field, Controls,
  ExperimentSpec,
}

-- In Python a Boolean is an integer, so it is a number here too.
unfoldable mutual
  pub extract_numbers : Json → List ℤ
  extract_numbers null = []
  extract_numbers (bool b) = pos (if b then 1 else 0) ∷ []
  extract_numbers (num n) = n ∷ []
  extract_numbers (str s) = []
  extract_numbers (arr items) = item_numbers items
  extract_numbers (obj fields) = field_numbers fields

  pub item_numbers : Items → List ℤ
  item_numbers nil = []
  item_numbers (cons x xs) = extract_numbers x ++ item_numbers xs

  pub field_numbers : Fields → List ℤ
  field_numbers end = []
  field_numbers (field k x xs) = extract_numbers x ++ field_numbers xs

abbrev pub is_zero : ℤ → Bool
is_zero a = abs a == 0

-- `|a - b| / max(|a|, |b|) > 0.01` refuses a pair; two zeros are passed over.
unfoldable pub is_close : ℤ → ℤ → Bool
is_close a b =
    if is_zero a && is_zero b then true else not (ltb (max (abs a) (abs b)) (100 * abs (a -ℤ b)))

pub all_close : List ℤ → List ℤ → Bool
all_close (a ∷ xs) (b ∷ ys) = is_close a b && all_close xs ys
all_close _ _ = true

abbrev pub is_empty {ℓ} : {A : Type ℓ} → List A → Bool
is_empty [] = true
is_empty (_ ∷ _) = false

abbrev pub item_count : Items → ℕ
item_count nil = 0
item_count (cons _ xs) = suc (item_count xs)

abbrev numbers_close : List ℤ → List ℤ → Bool
numbers_close xs ys =
    if not (length xs == length ys) then false else if is_empty xs then false else all_close xs ys

unfoldable pub controls_within_tolerance : Option Controls → Option Controls → Bool
unfolding extract_numbers
controls_within_tolerance none none = true
controls_within_tolerance none (some b) = false
controls_within_tolerance (some a) none = false
controls_within_tolerance (some a) (some b) =
    if not (item_count a.items == item_count b.items)
    then false
    else if str_eq a.dumped b.dumped
    then true
    else numbers_close (item_numbers a.items) (item_numbers b.items)

-- `match_type` is "exact", "near_duplicate" or `None`.
pub data MatchType : Type 0 where
  exact near_duplicate : MatchType

pub record RepetitionResult : Type 0 where
  pub is_duplicate : Bool
  pub is_near_duplicate : Bool
  pub prior_spec_id : Option ℕ
  pub match_type : Option MatchType

-- The query: other validated specs of the cycle.
abbrev pub is_prior : ℕ → ExperimentSpec → ExperimentSpec → Bool
is_prior cycle current s = s.cycle_id == cycle && (not (s.id == current.id) && s.validated)

abbrev pub is_exact_match : ExperimentSpec → ExperimentSpec → Bool
is_exact_match current s = str_eq current.fingerprint s.fingerprint

abbrev pub is_near_match : ExperimentSpec → ExperimentSpec → Bool
is_near_match current s =
    str_eq current.without_controls s.without_controls
    && controls_within_tolerance current.controls s.controls

abbrev pub near_result : Option ExperimentSpec → RepetitionResult
near_result (some s) = record {
  is_duplicate = false;
  is_near_duplicate = true;
  prior_spec_id = some s.id;
  match_type = some near_duplicate;
}
near_result none = record {
  is_duplicate = false;
  is_near_duplicate = false;
  prior_spec_id = none;
  match_type = none;
}

abbrev pub exact_result : Option ExperimentSpec → RepetitionResult → RepetitionResult
exact_result none otherwise = otherwise
exact_result (some s) otherwise = record {
  is_duplicate = true;
  is_near_duplicate = false;
  prior_spec_id = some s.id;
  match_type = some exact;
}

unfoldable pub detect_repetition : List ExperimentSpec → ℕ → ExperimentSpec → RepetitionResult
detect_repetition specs cycle current =
    let prior = select (is_prior cycle current) specs in
    exact_result (first_where (is_exact_match current) prior)
      (near_result (first_where (is_near_match current) prior))
