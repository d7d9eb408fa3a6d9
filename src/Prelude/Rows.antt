-- ===== src/Prelude/Rows.antt =====
-- Tables: the rows that a test names, their update, and the first of them.
use mathlib.Core.Path.{◌≡◌, refl, sym, ap, ◌∙◌}
use mathlib.Core.Bool.{Bool, true, false, ◌&&◌, not}
use mathlib.Core.Option.{some}
use mathlib.Core.List.{List, [], ◌∷◌, ◌++◌, map}
use mathlib.Core.Logic.{◌↔◌, inl, inr}
use synthetos.Prelude.Tests.{Bool-cases, if◌then◌else◌}
use synthetos.Prelude.Lists.{All, All-map, InList, first_where, select, update_where}

module _ {ℓ} {A : Type ℓ} where
  pub update_where-map :
      (test : A → Bool) (change : A → A) (xs : List A)
      → update_where test change xs ≡ map (λ x. if test x then change x else x) xs
  update_where-map test change [] = refl
  update_where-map test change (x ∷ xs) =
      ap (λ r. (if test x then change x else x) ∷ r) (update_where-map test change xs)

  -- What holds of a value and of its change holds of either.
  pub if_either {κ} : (P : A → Type κ) (b : Bool) (x y : A) → P x → P y → P (if b then x else y)
  if_either P true x y p q = p
  if_either P false x y p q = q

module _ {ℓ} {A : Type ℓ} (test : A → Bool) where
  -- What `first_where` finds is one of the rows.
  pub first_where-InList : (xs : List A) (x : A) → first_where test xs ≡ some x → InList x xs
  first_where-InList [] x h = cc
  first_where-InList (y ∷ xs) x h = elim (Bool-cases (test y)) [
    | inl hit ↦ inl (cc (rw hit at h))
    | inr miss ↦ inr (first_where-InList xs x (rw miss at h))
  ]

  -- It finds a row where there is one.
  pub first_where-hit :
      (xs : List A) (x : A) → InList x xs → test x ≡ true → (y : A) × (first_where test xs ≡ some y)
  first_where-hit [] x m h = elim m [ ]
  first_where-hit (y ∷ xs) x (inl e) h = (y, rw (ap test e ∙ h))
  first_where-hit (y ∷ xs) x (inr m) h = elim (Bool-cases (test y)) [
    | inl hit ↦ (y, rw hit)
    | inr miss ↦ rw miss (first_where-hit xs x m h)
  ]

  pub select-snoc-hit :
      (xs : List A) (x : A) → test x ≡ true → select test (xs ++ x ∷ []) ≡ select test xs ++ x ∷ []
  select-snoc-hit [] x hit = rw hit refl
  select-snoc-hit (y ∷ xs) x hit = elim (Bool-cases (test y)) [
    | inl h ↦ rw h (ap (λ ys. y ∷ ys) (select-snoc-hit xs x hit))
    | inr h ↦ rw h (select-snoc-hit xs x hit)
  ]

  -- The rows of a selection are the rows that pass.
  pub InList-select :
      (xs : List A) (x : A) → InList x (select test xs) → InList x xs × (test x ≡ true)
  InList-select [] x m = elim m [ ]
  InList-select (y ∷ xs) x m = elim (Bool-cases (test y)) [
    | inl hit ↦ kept hit (λ n. InList-select xs x n) (rw hit at m)
    | inr miss ↦ let (n, p) = InList-select xs x (rw miss at m) in (inr n, p)
  ]
    where
      kept :
          test y ≡ true
          → (InList x (select test xs) → InList x xs × (test x ≡ true))
          → InList x (y ∷ select test xs)
          → InList x (y ∷ xs) × (test x ≡ true)
      kept hit below (inl e) = (inl e, sym (ap test e) ∙ hit)
      kept hit below (inr n) = let (k, p) = below n in (inr k, p)

  pub select-InList :
      (xs : List A) (x : A) → InList x xs → test x ≡ true → InList x (select test xs)
  select-InList [] x m h = elim m [ ]
  select-InList (y ∷ xs) x (inl e) h = rw (ap test e ∙ h) (inl e)
  select-InList (y ∷ xs) x (inr m) h = elim (Bool-cases (test y)) [
    | inl hit ↦ rw hit (inr (select-InList xs x m h))
    | inr miss ↦ rw miss (select-InList xs x m h)
  ]

module _ {ℓ κ} {A : Type ℓ} where
  -- What either branch of an `if` has where it is taken.
  pub if_cases :
      (P : A → Type κ) (b : Bool) (x y : A)
      → (b ≡ true → P x)
      → (b ≡ false → P y)
      → P (if b then x else y)
  if_cases P true x y f g = f refl
  if_cases P false x y f g = g refl

module _ {ℓ} {A : Type ℓ} (test : A → Bool) where
  -- The rows that an update does not touch.
  pub select-update_where :
      (change : A → A)
      → ((x : A) → test x ≡ true → test (change x) ≡ true)
      → (xs : List A)
      → select (λ x. not (test x)) (update_where test change xs) ≡ select (λ x. not (test x)) xs
  select-update_where change keeps [] = refl
  select-update_where change keeps (x ∷ xs) = elim (Bool-cases (test x)) [
    | inl hit ↦ rw (hit, keeps x hit) (select-update_where change keeps xs)
    | inr miss ↦ rw (miss, miss) (ap (λ ks. x ∷ ks) (select-update_where change keeps xs))
  ]

  -- What all rows of a selection and of the rest have, all rows have.
  pub All-select {κ} :
      (P : A → Type κ) (xs : List A)
      → All P (select (λ x. not (test x)) xs)
      → ((x : A) → test x ≡ true → P x)
      → All P xs
  All-select P [] h f = tt
  All-select P (x ∷ xs) h f = elim (Bool-cases (test x)) [
    | inl hit ↦ (f x hit, All-select P xs (rw hit at h) f)
    | inr miss ↦ let (p, rest) = rw miss at h in (p, All-select P xs rest f)
  ]

  abbrev pub all_of : List A → Bool
  all_of [] = true
  all_of (x ∷ xs) = test x && all_of xs

  pub all_of→All : (xs : List A) → all_of xs ≡ true → All (λ x. test x ≡ true) xs
  all_of→All [] h = tt
  all_of→All (x ∷ xs) h = elim (Bool-cases (test x)) [
    | inl hit ↦ (hit, all_of→All xs (rw hit at h))
    | inr miss ↦ cc (rw miss at h)
  ]

  pub All→all_of : (xs : List A) → All (λ x. test x ≡ true) xs → all_of xs ≡ true
  All→all_of [] h = refl
  All→all_of (x ∷ xs) h = rw h.0 (All→all_of xs h.1)

  pub all_of-append : (xs ys : List A) → all_of (xs ++ ys) ≡ (all_of xs && all_of ys)
  all_of-append [] ys = refl
  all_of-append (x ∷ xs) ys = elim (Bool-cases (test x)) [
    | inl hit ↦ rw hit (all_of-append xs ys)
    | inr miss ↦ rw miss refl
  ]

pub all_of-map {ℓ κ} :
    {A : Type ℓ} {B : Type κ} (test : B → Bool) (f : A → B) (xs : List A)
    → all_of test (map f xs) ≡ all_of (λ x. test (f x)) xs
all_of-map test f [] = refl
all_of-map test f (x ∷ xs) = elim (Bool-cases (test (f x))) [
  | inl hit ↦ rw hit (all_of-map test f xs)
  | inr miss ↦ rw miss refl
]

module _ {ℓ κ ν} {A : Type ℓ} {B : Type κ} (test : B → Bool) (f : A → B) (P : A → Type ν) where
  pub all_of-map_iff :
      ((x : A) → test (f x) ≡ true ↔ P x) → (xs : List A) → all_of test (map f xs) ≡ true ↔ All P xs
  all_of-map_iff each xs = (
    (λ h.
        All-map (λ x. test (f x) ≡ true) P (λ x. (each x).0) xs
          (all_of→All (λ x. test (f x)) xs (sym (all_of-map test f xs) ∙ h))),
    (λ h.
        all_of-map test f xs
        ∙ All→all_of (λ x. test (f x)) xs
            (All-map P (λ x. test (f x) ≡ true) (λ x. (each x).1) xs h)),
  )

module _ {ℓ} {A : Type ℓ} (find : A → Bool) where
  -- A look-up after an update by another test, which keeps what the look-up asks for.
  pub first_where-update_other :
      (test : A → Bool) (change : A → A)
      → ((x : A) → find (change x) ≡ find x)
      → (xs : List A) (x : A) → first_where find xs ≡ some x
      → first_where find (update_where test change xs) ≡ some (if test x then change x else x)
  first_where-update_other test change keeps [] x h = cc
  first_where-update_other test change keeps (y ∷ ys) x h =
      let kept : find (if test y then change y else y) ≡ find y =
        if_cases (λ z. find z ≡ find y) (test y) _ _ (λ _. keeps y) (λ _. refl) in
      elim (Bool-cases (find y)) [
        | inl hit ↦
            let same : y ≡ x = cc (rw hit at h) in
            rw (kept ∙ hit) (ap (λ z. some (if test z then change z else z)) same)
        | inr miss ↦
            rw (kept ∙ miss) (first_where-update_other test change keeps ys x (rw miss at h))
      ]
