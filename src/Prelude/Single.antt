-- ===== src/Prelude/Single.antt =====
-- Tables in which a test names no row or one: what an update and a new row leave of the selection.
use mathlib.Core.Path.{◌≡◌, refl, ap, ◌∙◌}
use mathlib.Core.Logic.{inl, inr}
use mathlib.Core.Bool.{Bool, true, false}
use mathlib.Core.List.{List, [], ◌∷◌, ◌++◌}
use synthetos.Prelude.Tests.{Bool-cases}
use synthetos.Prelude.Lists.{select, update_where}

module _ {ℓ} {A : Type ℓ} (test : A → Bool) where
  -- No row: an update changes nothing.
  pub update_where-none :
      (change : A → A) (xs : List A) → select test xs ≡ [] → update_where test change xs ≡ xs
  update_where-none change [] h = refl
  update_where-none change (x ∷ xs) h = elim (Bool-cases (test x)) [
    | inl hit ↦ cc (rw hit at h)
    | inr miss ↦ rw miss (ap (λ ys. x ∷ ys) (update_where-none change xs (rw miss at h)))
  ]

  -- A new row that passes is the one row, and an update changes it.
  pub update_where-snoc :
      (change : A → A) (xs : List A) (x : A)
      → select test xs ≡ []
      → test x ≡ true
      → update_where test change (xs ++ x ∷ []) ≡ xs ++ change x ∷ []
  update_where-snoc change [] x h hit = rw hit refl
  update_where-snoc change (y ∷ ys) x h hit = elim (Bool-cases (test y)) [
    | inl found ↦ cc (rw found at h)
    | inr miss ↦ rw miss (ap (λ zs. y ∷ zs) (update_where-snoc change ys x (rw miss at h) hit))
  ]

  pub select-snoc-miss :
      (xs : List A) (x : A) → test x ≡ false → select test (xs ++ x ∷ []) ≡ select test xs
  select-snoc-miss [] x miss = rw miss refl
  select-snoc-miss (y ∷ xs) x miss = rw (select-snoc-miss xs x miss) refl

  -- One row: it is changed, and is still the one.
  pub select-update_own :
      (change : A → A)
      → ((x : A) → test (change x) ≡ test x)
      → (xs : List A) (x : A) → select test xs ≡ x ∷ []
      → select test (update_where test change xs) ≡ change x ∷ []
  select-update_own change keeps [] x h = cc
  select-update_own change keeps (y ∷ ys) x h = elim (Bool-cases (test y)) [
    | inl hit ↦ rw (hit, keeps y ∙ hit) (only y ys x (rw hit at h))
    | inr miss ↦ rw (miss, miss) (select-update_own change keeps ys x (rw miss at h))
  ]
    where
      only :
          (y : A) (ys : List A) (x : A)
          → y ∷ select test ys ≡ x ∷ []
          → change y ∷ select test (update_where test change ys) ≡ change x ∷ []
      only y ys x h =
          let e : y ≡ x = cc in
          let r : select test ys ≡ [] = cc in
          let s : select test (update_where test change ys) ≡ [] =
            ap (select test) (update_where-none change ys r) ∙ r in
          rw s (ap (λ z. change z ∷ []) e)

  -- An update twice is one by the second change after the first.
  pub update_where_twice :
      (f g : A → A)
      → ((x : A) → test (f x) ≡ test x)
      → ((x : A) → g (f x) ≡ f x)
      → (xs : List A) → update_where test g (update_where test f xs) ≡ update_where test f xs
  update_where_twice f g keeps same [] = refl
  update_where_twice f g keeps same (x ∷ xs) = elim (Bool-cases (test x)) [
    | inl hit ↦ rw (hit, keeps x ∙ hit) (rw (same x, update_where_twice f g keeps same xs) refl)
    | inr miss ↦ rw (miss, miss) (ap (λ ys. x ∷ ys) (update_where_twice f g keeps same xs))
  ]

  -- An update of other rows leaves the selection.
  pub select-update_other :
      (own : A → Bool) (change : A → A)
      → ((x : A) → own x ≡ true → test x ≡ false)
      → ((x : A) → test (change x) ≡ test x)
      → (xs : List A) → select test (update_where own change xs) ≡ select test xs
  select-update_other own change apart keeps [] = refl
  select-update_other own change apart keeps (x ∷ xs) = elim (Bool-cases (own x)) [
    | inl hit ↦ rw (hit, keeps x, apart x hit) (select-update_other own change apart keeps xs)
    | inr miss ↦ rw (miss, select-update_other own change apart keeps xs) refl
  ]
