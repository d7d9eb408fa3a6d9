-- ===== src/Patterns/Sweep.antt =====
-- The operator decay_patterns of libs/patterns/operators/decay.py over the table of patterns. A row
-- is an identifier with what the decay reads of it; the rounded score is left out.
use mathlib.Core.Path.{ap₂}
use synthetos.Prelude.{
  ℕ, ◌+◌, ◌≡◌, refl, ap, ◌↔◌, Bool, true, false, ◌&&◌, Option, none, some, List, [], ◌∷◌, ◌++◌, map,
  if◌then◌else◌, All, arith, length,
}
use synthetos.Patterns.{TrustTier, auto, curated, deprecated, is_tier}
use synthetos.Patterns.Decay.{
  CanonicalPattern, DecayOutcome, evaluate, tier_by, aged_of, score_reaches,
}

abbrev pub PatternRow : Type 0
PatternRow = ℕ × CanonicalPattern

pub data PatternEvent : Type 0 where
  decay_started : Bool → ℕ → PatternEvent
  demoted is_deprecated : ℕ → PatternEvent
  decay_completed : ℕ → ℕ → ℕ → PatternEvent

-- The table, its events, and the last job of the decay with the time of its end.
pub record PatternDb : Type 0 where
  pub patterns : List PatternRow
  pub events : List PatternEvent
  pub last_job : Option (ℕ × ℕ)

-- `_read_max_staleness`
abbrev pub read_max_staleness : Option ℕ → ℕ
read_max_staleness none = 90
read_max_staleness (some n) = n

module _ (now days : ℕ) (force : Bool) where
  abbrev pub outcome_of : PatternRow → DecayOutcome
  outcome_of p = evaluate p.1 now days force

  pub decay_row : PatternRow → PatternRow
  unfolding evaluate
  decay_row p = (p.0, record p.1 { trust_tier = (outcome_of p).new_tier })

  pub decay_events : PatternRow → List PatternEvent
  unfolding evaluate
  decay_events p =
      let o = outcome_of p in
      (if o.demoted then demoted p.0 ∷ [] else [])
      ++ (if o.is_deprecated then PatternEvent.is_deprecated p.0 ∷ [] else [])

  abbrev count_of : (DecayOutcome → Bool) → List PatternRow → ℕ
  count_of test [] = 0
  count_of test (p ∷ ps) = (if test (outcome_of p) then 1 else 0) + count_of test ps

  abbrev events_of : List PatternRow → List PatternEvent
  events_of [] = []
  events_of (p ∷ ps) = decay_events p ++ events_of ps

  unfoldable pub sweep : List PatternRow → List PatternRow
  unfolding decay_row
  sweep rows = map decay_row rows

-- The whole call, by the settings of its payload.
pub decay_patterns : Option ℕ → Bool → ℕ → ℕ → PatternDb → PatternDb
unfolding sweep decay_events
decay_patterns max_staleness force job now db =
    let days = read_max_staleness max_staleness in
    record {
      patterns = sweep now days force db.patterns;
      events =
          db.events
          ++ decay_started force days
            ∷ (events_of now days force db.patterns
                ++ decay_completed (length db.patterns)
                    (count_of now days force (λ o. o.demoted) db.patterns)
                    (count_of now days force (λ o. o.is_deprecated) db.patterns)
                  ∷ []);
      last_job = some (job, now);
    }

-- A pattern that no run has touched and that is older than twice the window.
abbrev pub falls_twice : ℕ → ℕ → PatternRow → Bool
falls_twice now days p = is_tier p.1.trust_tier auto && score_reaches 2 days (aged_of p.1 now)

-- A tier after two evaluations at one time does not change in a third.
third_by :
    (o v : Bool) (t : TrustTier)
    → tier_by o v (tier_by o v (tier_by o v t)) ≡ tier_by o v (tier_by o v t)
third_by true true auto = refl
third_by true false auto = refl
third_by false v auto = refl
third_by o true curated = refl
third_by o false curated = refl
third_by o v deprecated = refl

-- The second evaluation changes a tier exactly of an automatic pattern past twice the window.
second_by :
    (o v : Bool) (t : TrustTier)
    → (v ≡ true → o ≡ true)
    → tier_by o v (tier_by o v t) ≡ tier_by o v t ↔ (is_tier t auto && v) ≡ false
second_by true true auto h = ((λ e. cc), (λ e. cc))
second_by true false auto h = ((λ _. refl), (λ _. refl))
second_by false true auto h = cc (h refl)
second_by false false auto h = ((λ _. refl), (λ _. refl))
second_by o true curated h = ((λ _. refl), (λ _. refl))
second_by o false curated h = ((λ _. refl), (λ _. refl))
second_by o v deprecated h = ((λ _. refl), (λ _. refl))

older : (days a : ℕ) → score_reaches 2 days a ≡ true → score_reaches 1 days a ≡ true
older days a h = ground arith

module _ (now days : ℕ) where
  abbrev run : List PatternRow → List PatternRow
  run = sweep now days false

  row_third :
      (p : PatternRow)
      → decay_row now days false (decay_row now days false (decay_row now days false p))
        ≡ decay_row now days false (decay_row now days false p)
  unfolding decay_row
  row_third p =
      ap (λ t. (p.0, record p.1 { trust_tier = t }))
        (third_by (score_reaches 1 days (aged_of p.1 now)) (score_reaches 2 days (aged_of p.1 now))
          p.1.trust_tier)

  row_second :
      (p : PatternRow)
      → decay_row now days false (decay_row now days false p) ≡ decay_row now days false p
        ↔ falls_twice now days p ≡ false
  unfolding decay_row
  row_second p =
      let a = aged_of p.1 now in
      let (f, g) =
        second_by (score_reaches 1 days a) (score_reaches 2 days a) p.1.trust_tier (older days a) in
      (
        (λ e. f (ap (λ (q : PatternRow). q.1.trust_tier) e)),
        (λ h. ap (λ t. (p.0, record p.1 { trust_tier = t })) (g h)),
      )

  heads : {p q : PatternRow} {ps qs : List PatternRow} → p ∷ ps ≡ q ∷ qs → (p ≡ q) × (ps ≡ qs)
  heads e = (cc, cc)

  -- Runs at one time without force: a third changes nothing that a second has left, and a second
  -- changes nothing exactly when no automatic pattern is past twice the window.
  pub sweep_again :
      (rows : List PatternRow)
      → (run (run (run rows)) ≡ run (run rows))
        × (run (run rows) ≡ run rows ↔ All (λ p. falls_twice now days p ≡ false) rows)
  unfolding sweep
  sweep_again [] = (refl, ((λ _. tt), (λ _. refl)))
  sweep_again (p ∷ ps) =
      let (settled, (f, g)) = sweep_again ps in
      let (f', g') = row_second p in
      (
        ap₂ (λ q qs. q ∷ qs) (row_third p) settled,
        ((λ e. let (h, t) = heads e in (f' h, f t)), (λ h. ap₂ (λ q qs. q ∷ qs) (g' h.0) (g h.1))),
      )
