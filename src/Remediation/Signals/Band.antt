-- ===== src/Remediation/Signals/Band.antt =====
-- What each signal of libs/remediation/signal_classification.py says of the values.
use synthetos.Prelude.{
  ◌≡◌, refl, ◌↔◌, ◌||◌, Bool, true, false, ◌&&◌, some, List, [], ◌∷◌, ◌++◌, if◌then◌else◌, leb,
  length, arith,
}
use synthetos.Prelude.Int.{ℤ, ◌-ℤ◌}
use synthetos.Domain.{Signal, advancing, regressing, noisy, breakthrough, Direction}
use synthetos.Remediation.Signals.{
  result, last_of, last_values, is_within, all_within, is_outlier, is_improving, is_oscillating,
  classify_signal,
}

-- What a signal says of the last step, from the previous value to the current one.
abbrev pub IsReading : Direction → ℤ → ℤ → List ℤ → Signal → Type 0
IsReading d prev current history advancing =
    (is_improving d (current -ℤ prev) ≡ true) × (is_within prev current ≡ false)
IsReading d prev current history regressing =
    (is_improving d (current -ℤ prev) ≡ false) × (is_within prev current ≡ false)
IsReading d prev current history Signal.stalled = is_within prev current ≡ true
IsReading d prev current history noisy =
    (leb 3 (length history) ≡ true) × (is_oscillating current history ≡ true)
IsReading d prev current history breakthrough =
    (leb 3 (length history) ≡ true)
    × (is_improving d (current -ℤ prev) ≡ true)
    × (is_outlier current history ≡ true)

-- The chain of tests, over any answers to them.
abbrev choose : Bool → Bool → Bool → Bool → Bool → Bool → Bool → Signal
choose enough improving outlier oscillating two band all =
    if enough && (improving && outlier)
    then breakthrough
    else if enough && oscillating
    then noisy
    else if (two && band) && all
    then Signal.stalled
    else if band
    then Signal.stalled
    else if improving
    then advancing
    else regressing

-- When the chain ends in each of the signals.
abbrev IsChosen : Bool → Bool → Bool → Bool → Bool → Signal → Type 0
IsChosen enough improving outlier oscillating band advancing = (improving ≡ true) × (band ≡ false)
IsChosen enough improving outlier oscillating band regressing = (improving ≡ false) × (band ≡ false)
IsChosen enough improving outlier oscillating band Signal.stalled = band ≡ true
IsChosen enough improving outlier oscillating band noisy = (enough ≡ true) × (oscillating ≡ true)
IsChosen enough improving outlier oscillating band breakthrough =
    (enough ≡ true) × (improving ≡ true) × (outlier ≡ true)

-- The tests before the band, as one.
abbrev pub is_marked : ℤ → ℤ → List ℤ → Direction → Bool
is_marked current prev history d =
    leb 3 (length history)
    && (is_improving d (current -ℤ prev) && is_outlier current history
        || is_oscillating current history)

rest-IsChosen :
    (e i u o t b a : Bool)
    → IsChosen e i u o b (
        if (t && b) && a
        then Signal.stalled
        else if b
        then Signal.stalled
        else if i
        then advancing
        else regressing)
rest-IsChosen e i u o true true true = refl
rest-IsChosen e i u o true true false = refl
rest-IsChosen e i u o false true a = refl
rest-IsChosen e true u o true false a = (refl, refl)
rest-IsChosen e true u o false false a = (refl, refl)
rest-IsChosen e false u o true false a = (refl, refl)
rest-IsChosen e false u o false false a = (refl, refl)

choose-IsChosen : (e i u o t b a : Bool) → IsChosen e i u o b (choose e i u o t b a)
choose-IsChosen true true true o t b a = (refl, refl, refl)
choose-IsChosen true true false true t b a = (refl, refl)
choose-IsChosen true true false false t b a = rest-IsChosen true true false false t b a
choose-IsChosen true false u true t b a = (refl, refl)
choose-IsChosen true false u false t b a = rest-IsChosen true false u false t b a
choose-IsChosen false i u o t b a = rest-IsChosen false i u o t b a

choose-stalled :
    (e i u o t b a : Bool)
    → (choose e i u o t b a ≡ Signal.stalled) ↔ ((b ≡ true) × ((e && (i && u || o)) ≡ false))
choose-stalled e i u o t b a = (ground arith, ground arith)

result-if :
    (c : Bool) (d : ℤ) (s t : Signal)
    → (if c then result s d else result t d) ≡ result (if c then s else t) d
result-if true d s t = refl
result-if false d s t = refl

-- The chain on results is the chain on signals, with the change beside it.
result-choose :
    (e i u o t b a : Bool) (d : ℤ)
    → (if e && (i && u)
        then result breakthrough d
        else if e && o
        then result noisy d
        else if (t && b) && a
        then result Signal.stalled d
        else if b
        then result Signal.stalled d
        else if i
        then result advancing d
        else result regressing d)
      ≡ result (choose e i u o t b a) d
result-choose e i u o t b a d =
    rw
      (
        result-if i d advancing regressing,
        result-if b d Signal.stalled (if i then advancing else regressing),
        result-if ((t && b) && a) d Signal.stalled
            (if b then Signal.stalled else if i then advancing else regressing),
        result-if (e && o) d noisy (
            if (t && b) && a
            then Signal.stalled
            else if b
            then Signal.stalled
            else if i
            then advancing
            else regressing),
        result-if (e && (i && u)) d breakthrough (
            if e && o
            then noisy
            else if (t && b) && a
            then Signal.stalled
            else if b
            then Signal.stalled
            else if i
            then advancing
            else regressing),
      )
      refl

to_reading :
    (d : Direction) (prev current : ℤ) (history : List ℤ) (s : Signal)
    → IsChosen
        (leb 3 (length history))
        (is_improving d (current -ℤ prev))
        (is_outlier current history)
        (is_oscillating current history)
        (is_within prev current)
        s
    → IsReading d prev current history s
to_reading d prev current history advancing h = h
to_reading d prev current history regressing h = h
to_reading d prev current history Signal.stalled h = h
to_reading d prev current history noisy h = h
to_reading d prev current history breakthrough h = h

-- After at least one value, the change from the last value comes with a signal that tells of it: an
-- advance improves and a regression does not, both by more than the band; what is stalled lies within
-- the band, and a step within the band is stalled exactly when it is neither a breakthrough nor
-- noise, which need three values before.
pub classify_signal_lem :
    (current x : ℤ) (xs : List ℤ) (d : Direction)
    → let prev = last_of x xs in
      let r = classify_signal current (x ∷ xs) d in
      IsReading d prev current (x ∷ xs) r.signal
      × ((r.signal ≡ Signal.stalled)
          ↔ ((is_within prev current ≡ true) × (is_marked current prev (x ∷ xs) d ≡ false)))
      × (r.delta ≡ some (current -ℤ prev))
unfolding classify_signal
classify_signal_lem current x xs d =
    let prev = last_of x xs in
    let history = x ∷ xs in
    let e = leb 3 (length history) in
    let i = is_improving d (current -ℤ prev) in
    let u = is_outlier current history in
    let o = is_oscillating current history in
    let t = leb 2 (length history) in
    let b = is_within prev current in
    let a = all_within (last_values 2 history ++ current ∷ []) in
    rw (result-choose e i u o t b a (current -ℤ prev)) (
      to_reading d prev current history (choose e i u o t b a) (choose-IsChosen e i u o t b a),
      choose-stalled e i u o t b a,
      refl,
    )
