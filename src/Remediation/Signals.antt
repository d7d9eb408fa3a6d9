-- ===== src/Remediation/Signals.antt =====
-- The classification of a metric's trend: libs/remediation/signal_classification.py. Values are
-- integers in units of 1e-8, so that the smallest denominator of the code is 1; the default noise
-- band of one percent is used, and ratios, the mean and the deviation are exact where the code has
-- floating-point numbers. Reasons are left out.
pub mod Band
use synthetos.Prelude.{
  ℕ, suc, zero, ◌+◌, ◌-◌, ◌*◌, ltb, leb, max, Bool, true, false, ◌&&◌, Option, none, some, List, [],
  ◌∷◌, ◌++◌, if◌then◌else◌, length,
}
use synthetos.Prelude.Int.{ℤ, pos, ◌-ℤ◌, ◌*ℤ◌, ltb_ℤ, abs, pos_part, neg_part, sub_ℕ}
use synthetos.Domain.{
  Signal, advancing, regressing, noisy, breakthrough, Direction, maximize, minimize, other,
}

pub record SignalResult : Type 0 where
  pub signal : Signal
  pub delta : Option ℤ

abbrev pub result : Signal → ℤ → SignalResult
result s d = record { signal = s; delta = some d }

abbrev pub drop : {A : Type 0} → ℕ → List A → List A
drop zero xs = xs
drop (suc n) [] = []
drop (suc n) (x ∷ xs) = drop n xs

-- `xs[-n:]`
abbrev pub last_values : ℕ → List ℤ → List ℤ
last_values n xs = drop (length xs - n) xs

-- `xs[-1]` of the list `x ∷ xs`
abbrev pub last_of : ℤ → List ℤ → ℤ
last_of x [] = x
last_of x (y ∷ ys) = last_of y ys

abbrev pub from : ℤ → List ℤ → List ℤ
from x [] = []
from x (y ∷ ys) = (y -ℤ x) ∷ from y ys

-- The change from each value to the next.
abbrev pub deltas : List ℤ → List ℤ
deltas [] = []
deltas (x ∷ xs) = from x xs

abbrev pub changes_from : ℤ → List ℤ → ℕ
changes_from d [] = 0
changes_from d (e ∷ es) = (if ltb_ℤ (e *ℤ d) (pos 0) then 1 else 0) + changes_from e es

-- How many neighbours among the changes have opposite signs.
abbrev pub sign_changes : List ℤ → ℕ
sign_changes [] = 0
sign_changes (d ∷ ds) = changes_from d ds

-- `abs(b - a) / max(abs(a), 1e-8) <= 0.01`
abbrev pub is_within : ℤ → ℤ → Bool
is_within a b = leb (100 * abs (b -ℤ a)) (max (abs a) 1)

abbrev pub within_from : ℤ → List ℤ → Bool
within_from x [] = true
within_from x (y ∷ ys) = is_within x y && within_from y ys

abbrev pub all_within : List ℤ → Bool
all_within [] = true
all_within (x ∷ xs) = within_from x xs

-- Sums over the integers, by their positive and negative parts.
abbrev pub add : ℤ → ℤ → ℤ
add a b = sub_ℕ (pos_part a + pos_part b) (neg_part a + neg_part b)

abbrev pub sum : List ℤ → ℤ
sum [] = pos 0
sum (x ∷ xs) = add x (sum xs)

abbrev pub squares : List ℤ → ℕ
squares [] = 0
squares (x ∷ xs) = abs x * abs x + squares xs

-- n times the sum of the squared distances from the mean, n Q - S² for n values of sum S and sum of
-- squares Q; it is 0
-- exactly when the deviation is.
abbrev pub spread : List ℤ → ℕ
spread xs = length xs * squares xs - abs (sum xs) * abs (sum xs)

-- n times the distance from the mean
abbrev pub distance : ℤ → List ℤ → ℕ
distance current xs = abs (
    sub_ℕ (length xs * pos_part current + neg_part (sum xs))
      (length xs * neg_part current + pos_part (sum xs)))

-- `stdev > 0 and abs(current - mean) / stdev > 2`
abbrev pub is_outlier : ℤ → List ℤ → Bool
is_outlier current xs =
    ltb 0 (spread xs)
    && ltb (4 * length xs * spread xs) (distance current xs * distance current xs * (length xs - 1))

abbrev pub is_improving : Direction → ℤ → Bool
is_improving maximize d = ltb_ℤ (pos 0) d
is_improving minimize d = ltb_ℤ d (pos 0)
is_improving other d = ltb_ℤ d (pos 0)

-- Every neighbouring pair among the last changes flips its sign.
abbrev pub is_oscillating : ℤ → List ℤ → Bool
is_oscillating current history =
    let ds = deltas (last_values 3 history ++ current ∷ []) in leb (length ds - 1) (sign_changes ds)

abbrev pub classify_after : ℤ → ℤ → List ℤ → Direction → SignalResult
classify_after current prev history direction =
    let delta = current -ℤ prev in
    let improving = is_improving direction delta in
    let enough = leb 3 (length history) in
    let in_band = is_within prev current in
    if enough && (improving && is_outlier current history)
    then result breakthrough delta
    else if enough && is_oscillating current history
    then result noisy delta
    else if (leb 2 (length history) && in_band)
        && all_within (last_values 2 history ++ current ∷ [])
    then result Signal.stalled delta
    else if in_band
    then result Signal.stalled delta
    else if improving
    then result advancing delta
    else result regressing delta

-- The history has the oldest value first.
unfoldable pub classify_signal : ℤ → List ℤ → Direction → SignalResult
classify_signal current [] direction = record { signal = advancing; delta = none }
classify_signal current (x ∷ xs) direction =
    classify_after current (last_of x xs) (x ∷ xs) direction
