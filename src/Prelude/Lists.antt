-- ===== src/Prelude/Lists.antt =====
-- Lists over the native numbers: lengths, tests on the elements, and the rows of a table.
use Prim.Native.Nat.{ℕ, zero, suc, ◌+◌, ◌≤◌}
use mathlib.Core.Path.{◌≡◌, subst, sym, ap, ◌∙◌}
use mathlib.Core.Bool.{Bool, true, false, ◌||◌}
use mathlib.Core.Option.{Option, none, some}
use mathlib.Core.List.{List, [], ◌∷◌, ◌++◌, map}
use native.Mathlib.Omega.{arith}
use mathlib.Core.Logic.{◌≢◌, ◌⊎◌, inl, inr}
use synthetos.Prelude.Tests.{Bool-cases, ◌==◌, ==_refl, ne→==-false, if◌then◌else◌}

-- Every element satisfies a predicate.
abbrev pub All {ℓ κ} : {A : Type ℓ} → (A → Type κ) → List A → Type κ
All P [] = Unit
All P (x ∷ xs) = P x × All P xs

module _ {ℓ} {A : Type ℓ} where
  abbrev pub length : List A → ℕ
  length [] = 0
  length (x ∷ xs) = suc (length xs)

  abbrev pub take : ℕ → List A → List A
  take zero xs = []
  take (suc n) [] = []
  take (suc n) (x ∷ xs) = x ∷ take n xs

  -- `[x for x in xs if test(x)]`
  abbrev pub select : (A → Bool) → List A → List A
  select test [] = []
  select test (x ∷ xs) = let rest = select test xs in if test x then x ∷ rest else rest

  -- the number of rows that pass a test
  abbrev pub count_if : (A → Bool) → List A → ℕ
  count_if test [] = 0
  count_if test (x ∷ xs) = (if test x then 1 else 0) + count_if test xs

  abbrev pub any_of : (A → Bool) → List A → Bool
  any_of test [] = false
  any_of test (x ∷ xs) = test x || any_of test xs

  -- The first element that passes a test.
  abbrev pub first_where : (A → Bool) → List A → Option A
  first_where test [] = none
  first_where test (x ∷ xs) = let rest = first_where test xs in if test x then some x else rest

  pub length-append : (xs ys : List A) → length (xs ++ ys) ≡ length xs + length ys
  length-append [] ys = omega arith
  length-append (x ∷ xs) ys = omega (arith, length-append xs ys)

  pub length-take-le : (n : ℕ) (xs : List A) → length (take n xs) ≤ n
  length-take-le zero xs = omega arith
  length-take-le (suc n) [] = omega arith
  length-take-le (suc n) (x ∷ xs) = omega (arith, length-take-le n xs)

  pub count_if-append :
      (test : A → Bool) (xs ys : List A)
      → count_if test (xs ++ ys) ≡ count_if test xs + count_if test ys
  count_if-append test [] ys = omega arith
  count_if-append test (x ∷ xs) ys = omega (arith, count_if-append test xs ys)

  pub count_if-le-length : (test : A → Bool) (xs : List A) → count_if test xs ≤ length xs
  count_if-le-length test [] = omega arith
  count_if-le-length test (x ∷ xs) = ground (arith, count_if-le-length test xs)

  -- `UPDATE … WHERE test`: the rows that pass are changed in place.
  abbrev pub update_where : (A → Bool) → (A → A) → List A → List A
  update_where test change [] = []
  update_where test change (x ∷ xs) = (if test x then change x else x) ∷ update_where test change xs

  pub length-update_where :
      (test : A → Bool) (change : A → A) (xs : List A)
      → length (update_where test change xs) ≡ length xs
  length-update_where test change [] = omega arith
  length-update_where test change (x ∷ xs) = omega (arith, length-update_where test change xs)

  -- What `first_where` finds passes the test.
  pub first_where-passes :
      (test : A → Bool) (xs : List A) {x : A} → first_where test xs ≡ some x → test x ≡ true
  first_where-passes test [] h = cc
  first_where-passes test (x ∷ xs) {x = y} h = ground (arith, first_where-passes test xs {x = y})

module _ {ℓ κ ν} {A : Type ℓ} (P : A → Type κ) (Q : A → Type ν) where
  pub All-map : ((x : A) → P x → Q x) → (xs : List A) → All P xs → All Q xs
  All-map f [] h = tt
  All-map f (x ∷ xs) h = (f x h.0, All-map f xs h.1)

  -- An update that takes rows with `P` to rows with `Q`, where other rows keep `P` as `Q`.
  pub All-update_where :
      (test : A → Bool) (change : A → A)
      → ((x : A) → P x → Q (if test x then change x else x))
      → (xs : List A) → All P xs
      → All Q (update_where test change xs)
  All-update_where test change f [] h = tt
  All-update_where test change f (x ∷ xs) h = (f x h.0, All-update_where test change f xs h.1)

module _ {ℓ κ} {A : Type ℓ} (P : A → Type κ) where
  pub All-append : (xs ys : List A) → All P xs → All P ys → All P (xs ++ ys)
  All-append [] ys h k = k
  All-append (x ∷ xs) ys h k = (h.0, All-append xs ys h.1 k)

  -- The first row that passes a test has what all rows have.
  pub All-first_where :
      (test : A → Bool) (xs : List A) (x : A) → All P xs → first_where test xs ≡ some x → P x
  All-first_where test [] x h e = cc
  All-first_where test (y ∷ xs) x h e = elim (Bool-cases (test y)) [
    | inl hit ↦ let same : y ≡ x = cc (rw hit at e) in subst P same h.0
    | inr miss ↦ All-first_where test xs x h.1 (rw miss at e)
  ]

-- The rows that a table has, and tables in which a key names one row at most.
pub data NoRow {ℓ} : Type ℓ where

abbrev pub InList {ℓ} : {A : Type ℓ} → A → List A → Type ℓ
InList x [] = NoRow
InList x (y ∷ xs) = (y ≡ x) ⊎ InList x xs

abbrev pub Distinct {ℓ} : {A : Type ℓ} → (A → ℕ) → List A → Type 0
Distinct key [] = Unit
Distinct key (x ∷ xs) = All (λ y. key y ≢ key x) xs × Distinct key xs

module _ {ℓ} {A : Type ℓ} where
  -- A row with what all rows have.
  pub All-InList {κ} : (P : A → Type κ) (xs : List A) (x : A) → All P xs → InList x xs → P x
  All-InList P [] x h m = elim m [ ]
  All-InList P (y ∷ xs) x h (inl e) = subst P e h.0
  All-InList P (y ∷ xs) x h (inr m) = All-InList P xs x h.1 m

  -- A look-up by a distinct key finds the row.
  pub first_where-key :
      (key : A → ℕ) (xs : List A) (x : A)
      → Distinct key xs
      → InList x xs
      → first_where (λ y. key y == key x) xs ≡ some x
  first_where-key key [] x d m = elim m [ ]
  first_where-key key (y ∷ xs) x d (inl e) = rw (e, ==_refl (key x))
  first_where-key key (y ∷ xs) x d (inr m) =
      rw (ne→==-false (key y) (key x) (λ e. All-InList (λ z. key z ≢ key y) xs x d.0 m (sym e)))
        (first_where-key key xs x d.1 m)

  -- After an update of the rows that pass a test, the first such row is the changed first one.
  pub first_where-update_where :
      (test : A → Bool) (change : A → A)
      → ((x : A) → test x ≡ true → test (change x) ≡ true)
      → (xs : List A) (x : A) → first_where test xs ≡ some x
      → first_where test (update_where test change xs) ≡ some (change x)
  first_where-update_where test change keeps [] x h = cc
  first_where-update_where test change keeps (y ∷ xs) x h = elim (Bool-cases (test y)) [
    | inl hit ↦
        let same : y ≡ x = cc (rw hit at h) in
        rw (hit, keeps y hit) (ap (λ z. some (change z)) same)
    | inr miss ↦ rw (miss, miss) (first_where-update_where test change keeps xs x (rw miss at h))
  ]

module _ {ℓ κ ν μ} {A : Type ℓ} (P : A → Type κ) (Q : A → Type ν) (R : A → Type μ) where
  pub All-map₂ : ((x : A) → P x → Q x → R x) → (xs : List A) → All P xs → All Q xs → All R xs
  All-map₂ f [] h k = tt
  All-map₂ f (x ∷ xs) h k = (f x h.0 k.0, All-map₂ f xs h.1 k.1)

module _ {ℓ κ} {A B : Type ℓ} (P : B → Type κ) where
  pub All-map_list : (f : A → B) (xs : List A) → All (λ x. P (f x)) xs → All P (map f xs)
  All-map_list f [] h = tt
  All-map_list f (x ∷ xs) h = (h.0, All-map_list f xs h.1)

module _ {ℓ} {A : Type ℓ} (key : A → ℕ) where
  -- Rows rewritten one by one, keys kept, keep their keys distinct.
  pub Distinct-map :
      (f : A → A)
      → ((x : A) → key (f x) ≡ key x)
      → (xs : List A) → Distinct key xs
      → Distinct key (map f xs)
  Distinct-map f same [] d = tt
  Distinct-map f same (x ∷ xs) d = (
    All-map_list (λ y. key y ≢ key (f x)) f xs
        (All-map (λ y. key y ≢ key x) (λ y. key (f y) ≢ key (f x))
          (λ y ne e. ne (sym (same y) ∙ e ∙ same x)) xs d.0),
    Distinct-map f same xs d.1,
  )

  pub Distinct-append :
      (xs : List A) (x : A)
      → Distinct key xs
      → All (λ y. key y ≢ key x) xs
      → Distinct key (xs ++ x ∷ [])
  Distinct-append [] x d h = (tt, tt)
  Distinct-append (y ∷ xs) x d h = (
    All-append (λ z. key z ≢ key y) xs (x ∷ []) d.0 ((λ e. h.0 (sym e)), tt),
    Distinct-append xs x d.1 h.1,
  )
