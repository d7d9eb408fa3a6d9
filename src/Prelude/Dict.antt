-- ===== src/Prelude/Dict.antt =====
-- A Python dict in insertion order, with keys compared by a test on numbers.
use Prim.Native.Nat.{ℕ, ◌+◌}
use mathlib.Core.Path.{◌≡◌, refl}
use mathlib.Core.Option.{Option, none, some}
use mathlib.Core.List.{List, [], ◌∷◌}
use native.Mathlib.Omega.{arith}
use synthetos.Prelude.Tests.{◌==◌, if◌then◌else◌}

abbrev pub Dict {ℓ} : Type ℓ → Type ℓ
Dict V = List (ℕ × V)

module _ {ℓ} {V : Type ℓ} where
  -- `d.get(k)`
  abbrev pub lookup : ℕ → Dict V → Option V
  lookup k [] = none
  lookup k (e ∷ d) = if e.0 == k then some e.1 else lookup k d

  -- `d[k] = v`
  abbrev pub insert : ℕ → V → Dict V → Dict V
  insert k v [] = (k, v) ∷ []
  insert k v (e ∷ d) = if e.0 == k then (e.0, v) ∷ d else e ∷ insert k v d

  pub lookup-insert :
      (k j : ℕ) (v : V) (d : Dict V)
      → lookup j (insert k v d) ≡ (if k == j then some v else lookup j d)
  lookup-insert k j v [] = refl
  lookup-insert k j v (e ∷ d) = ground (arith, lookup-insert k j v d)

-- `d.get(k, 0)`
abbrev pub count_of : ℕ → Dict ℕ → ℕ
count_of k d = elim (lookup k d) [ none ↦ 0 | some n ↦ n ]

abbrev pub sum_values : Dict ℕ → ℕ
sum_values [] = 0
sum_values (e ∷ d) = e.1 + sum_values d

pub sum_values-insert :
    (k v : ℕ) (d : Dict ℕ) → sum_values (insert k v d) + count_of k d ≡ sum_values d + v
sum_values-insert k v [] = omega arith
sum_values-insert k v (e ∷ d) = ground (arith, sum_values-insert k v d)
