-- ===== src/Patterns/Injection.antt =====
-- The policy of libs/patterns/injection.py. Confidences are in ten-thousandths, and the candidates are
-- the matches that the retrieval finds, each with whether a valid approval for the charter exists.
use synthetos.Prelude.{
  ℕ, suc, ◌+◌, leb, ◌≡◌, refl, sym, ap, ◌∙◌, zero, Bool, true, false, List, [], ◌∷◌, if◌then◌else◌,
  arith, Bool-cases, inl, inr, select, take,
}
use synthetos.Patterns.{TrustTier, auto, curated, deprecated}

pub record PatternMatch : Type 0 where
  pub id : ℕ
  pub trust_tier : TrustTier
  pub effective_confidence : ℕ
  pub has_valid_approval : Bool

pub record InjectionPolicy : Type 0 where
  pub min_confidence_auto : ℕ
  pub limit : ℕ

abbrev pub passes_in : TrustTier → InjectionPolicy → PatternMatch → Bool
passes_in auto policy m = leb policy.min_confidence_auto m.effective_confidence
passes_in curated policy m = m.has_valid_approval
passes_in deprecated policy m = false

abbrev pub passes : InjectionPolicy → PatternMatch → Bool
passes policy m = passes_in m.trust_tier policy m

-- The loop, with how many matches are applied already; it breaks when the limit is reached.
unfoldable pub apply_from : InjectionPolicy → ℕ → List PatternMatch → List PatternMatch
apply_from policy n [] = []
apply_from policy n (m ∷ ms) =
    let more = apply_from policy (n + 1) ms in
    let same = apply_from policy n ms in
    if passes policy m then m ∷ (if leb policy.limit (n + 1) then [] else more) else same

unfoldable pub inject_patterns : InjectionPolicy → List PatternMatch → List PatternMatch
unfolding apply_from
inject_patterns policy candidates = apply_from policy 0 candidates

limit_reached : (limit n : ℕ) → n + 1 ≡ limit → leb limit (n + 1) ≡ true
limit_reached limit n e = ground arith

limit_ahead : (limit n k : ℕ) → n + suc (suc k) ≡ limit → leb limit (n + 1) ≡ false
limit_ahead limit n k e = ground arith

take-none : (xs : List PatternMatch) → take 0 xs ≡ []
take-none [] = refl
take-none (x ∷ xs) = refl

-- The rest of the list after one more match, when so many may follow.
after_match :
    (policy : InjectionPolicy) (n k : ℕ) (ms : List PatternMatch)
    → n + suc k ≡ policy.limit
    → ((j : ℕ)
        → n + 1 + suc j ≡ policy.limit
        → apply_from policy (n + 1) ms ≡ take (suc j) (select (passes policy) ms))
    → (if leb policy.limit (n + 1) then [] else apply_from policy (n + 1) ms)
      ≡ take k (select (passes policy) ms)
after_match policy n zero ms e h =
    rw (limit_reached policy.limit n (omega (arith, e)))
      (sym (take-none (select (passes policy) ms)))
after_match policy n (suc k) ms e h = rw (limit_ahead policy.limit n k e) (h k (omega (arith, e)))

apply_from-take :
    (policy : InjectionPolicy) (n left : ℕ) (ms : List PatternMatch)
    → n + suc left ≡ policy.limit
    → apply_from policy n ms ≡ take (suc left) (select (passes policy) ms)
unfolding apply_from
apply_from-take policy n left [] e = refl
apply_from-take policy n left (m ∷ ms) e = elim (Bool-cases (passes policy m)) [
  | inl hit ↦ rw hit (
      ap (λ xs. m ∷ xs)
        (after_match policy n left ms e (λ j e'. apply_from-take policy (n + 1) j ms e')))
  | inr miss ↦ rw miss (apply_from-take policy n left ms e)
]

-- With a limit of one at least, the injection is the first matches, as many as the limit, among those
-- that pass the policy, in the order of the retrieval.
pub inject_patterns_lem :
    (policy : InjectionPolicy) (k : ℕ) (candidates : List PatternMatch)
    → policy.limit ≡ suc k
    → inject_patterns policy candidates ≡ take policy.limit (select (passes policy) candidates)
unfolding inject_patterns
inject_patterns_lem policy k candidates e =
    apply_from-take policy 0 k candidates (omega (arith, e))
    ∙ ap (λ n. take n (select (passes policy) candidates)) (sym e)
