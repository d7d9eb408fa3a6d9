-- ===== src/Patterns/Upsert/Calls.antt =====
-- What calls of upsert_pattern have brought: the greatest of a number, and the charters that they
-- name.
use mathlib.Core.Path.{subst}
use synthetos.Prelude.{
  ℕ, ltb, max, ◌==◌, ==→eq, ◌≡◌, refl, ◌≤◌, ◌⊎◌, ◌↔◌, inl, inr, true, List, [], ◌∷◌, ◌++◌, All,
  InList, NoRow, any_of, Bool-cases, if◌then◌else◌, arith,
}
use synthetos.Patterns.Upsert.{AggregatedPattern, add_id, add_ids}

-- A call, by the identifier and the time that it takes and by its version.
pub record Call : Type 0 where
  pub fresh : ℕ
  pub now : ℕ
  pub version : ℕ
  pub agg : AggregatedPattern

abbrev pub IsGreatest : (Call → ℕ) → List Call → ℕ → Type 0
IsGreatest f calls n = All (λ c. f c ≤ n) calls × ((c : Call) × InList c calls × (f c ≡ n))

-- A charter that an aggregation of the calls names.
abbrev pub IsNamed : ℕ → List Call → Type 0
IsNamed i [] = NoRow
IsNamed i (c ∷ cs) = InList i c.agg.charter_ids ⊎ IsNamed i cs

All-raise :
    (f : Call → ℕ) (cs : List Call) (m n : ℕ)
    → m ≤ n
    → All (λ c. f c ≤ m) cs
    → All (λ c. f c ≤ n) cs
All-raise f [] m n le h = tt
All-raise f (c ∷ cs) m n le h = (omega (arith, le, h.0), All-raise f cs m n le h.1)

pub IsGreatest-one : (f : Call → ℕ) (c : Call) → IsGreatest f (c ∷ []) (f c)
IsGreatest-one f c = ((omega arith, tt), (c, inl refl, refl))

IsGreatest-higher :
    (f : Call → ℕ) (c : Call) (cs : List Call) (n : ℕ)
    → n ≤ f c
    → IsGreatest f cs n
    → IsGreatest f (c ∷ cs) (f c)
IsGreatest-higher f c cs n le h =
    ((omega arith, All-raise f cs n (f c) le h.0), (c, inl refl, refl))

IsGreatest-lower :
    (f : Call → ℕ) (c : Call) (cs : List Call) (n : ℕ)
    → f c ≤ n
    → IsGreatest f cs n
    → IsGreatest f (c ∷ cs) n
IsGreatest-lower f c cs n le h = let (d, m, e) = h.1 in ((le, h.0), (d, inr m, e))

pub IsGreatest-max :
    (f : Call → ℕ) (c : Call) (cs : List Call) (n : ℕ)
    → IsGreatest f cs n
    → IsGreatest f (c ∷ cs) (max n (f c))
IsGreatest-max f c cs n h = elim (Bool-cases (ltb n (f c))) [
  | inl lt ↦
      let e : f c ≡ max n (f c) = ground arith in
      subst (IsGreatest f (c ∷ cs)) e (IsGreatest-higher f c cs n (ground arith) h)
  | inr ge ↦
      let e : n ≡ max n (f c) = ground arith in
      subst (IsGreatest f (c ∷ cs)) e (IsGreatest-lower f c cs n (ground arith) h)
]

if-max : (a b : ℕ) → max a b ≡ (if ltb a b then b else a)
if-max a b = ground arith

pub IsGreatest-if :
    (f : Call → ℕ) (c : Call) (cs : List Call) (n : ℕ)
    → IsGreatest f cs n
    → IsGreatest f (c ∷ cs) (if ltb n (f c) then f c else n)
IsGreatest-if f c cs n h =
    subst (IsGreatest f (c ∷ cs)) (if-max n (f c)) (IsGreatest-max f c cs n h)

-- The identifiers of a set to which others are added.
InList-snoc :
    (i : ℕ) (xs : List ℕ) (y : ℕ) → InList i (xs ++ y ∷ []) ↔ InList i xs ⊎ InList i (y ∷ [])
InList-snoc i [] y = ((λ m. inr m), (λ m. elim m [ inl n ↦ elim n [ ] | inr n ↦ n ]))
InList-snoc i (x ∷ xs) y =
    let (f, g) = InList-snoc i xs y in
    (
      (λ m. elim m [
        | inl e ↦ inl (inl e)
        | inr n ↦ elim (f n) [ inl a ↦ inl (inr a) | inr b ↦ inr b ]
      ]),
      (λ m. elim m [
        | inl a ↦ elim a [ inl e ↦ inl e | inr n ↦ inr (g (inl n)) ]
        | inr b ↦ inr (g (inr b))
      ]),
    )

InList-any_of : (i : ℕ) (xs : List ℕ) → any_of (λ j. j == i) xs ≡ true → InList i xs
InList-any_of i [] h = cc
InList-any_of i (x ∷ xs) h = elim (Bool-cases (x == i)) [
  | inl hit ↦ inl (==→eq x i hit)
  | inr miss ↦ inr (InList-any_of i xs (rw miss at h))
]

InList-add_id :
    (i : ℕ) (xs : List ℕ) (y : ℕ) → InList i (add_id xs y) ↔ InList i xs ⊎ InList i (y ∷ [])
InList-add_id i xs y = elim (Bool-cases (any_of (λ j. j == y) xs)) [
  | inl found ↦ rw found (
    (λ m. inl m),
    (λ m. elim m [
      | inl a ↦ a
      | inr b ↦ elim b [
        | inl e ↦ subst (λ j. InList j xs) e (InList-any_of y xs found)
        | inr n ↦ elim n [ ]
      ]
    ]),
  )
  | inr new ↦ rw new (InList-snoc i xs y)
]

pub InList-add_ids : (i : ℕ) (xs ys : List ℕ) → InList i (add_ids xs ys) ↔ InList i xs ⊎ InList i ys
InList-add_ids i xs [] = ((λ m. inl m), (λ m. elim m [ inl n ↦ n | inr n ↦ elim n [ ] ]))
InList-add_ids i xs (y ∷ ys) =
    let (f, g) = InList-add_ids i (add_id xs y) ys in
    let (f', g') = InList-add_id i xs y in
    (
      (λ m. elim (f m) [
        | inl a ↦ elim (f' a) [
          | inl b ↦ inl b
          | inr b ↦ elim b [ inl e ↦ inr (inl e) | inr n ↦ elim n [ ] ]
        ]
        | inr b ↦ inr (inr b)
      ]),
      (λ m. elim m [
        | inl a ↦ g (inl (g' (inl a)))
        | inr b ↦ elim b [ inl e ↦ g (inl (g' (inr (inl e)))) | inr n ↦ g (inr n) ]
      ]),
    )

pub IsNamed-after :
    (i : ℕ) (ids : List ℕ) (c : Call) (cs : List Call)
    → (InList i ids ↔ IsNamed i cs)
    → InList i (add_ids (add_ids [] ids) c.agg.charter_ids) ↔ IsNamed i (c ∷ cs)
IsNamed-after i ids c cs (f, g) =
    let (all, back) = InList-add_ids i (add_ids [] ids) c.agg.charter_ids in
    let (old, old') = InList-add_ids i [] ids in
    (
      (λ m. elim (all m) [
        | inl a ↦ elim (old a) [ inl n ↦ elim n [ ] | inr b ↦ inr (f b) ]
        | inr b ↦ inl b
      ]),
      (λ m. elim m [ inl a ↦ back (inr a) | inr b ↦ back (inl (old' (inr (g b)))) ]),
    )
