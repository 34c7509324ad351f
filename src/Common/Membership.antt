-- ===== src/Common/Membership.antt =====
-- Membership in a list, and what the searches of Lists find.
use mathlib.Core.Path.{◌≡◌, refl, sym, subst}
use mathlib.Core.Bool.{Bool, true, false}
use mathlib.Core.Logic.{◌⊎◌, ◌↔◌, inl, inr}
use mathlib.Core.Option.{none, some}
use mathlib.Core.List.{List, [], ◌∷◌, ◌++◌, map}
use native.Mathlib.Omega.{arith}
use vnp_dbms_backend.Common.Lists.{any, find, filter, All}
use vnp_dbms_backend.Common.Cond.{Bool-cases}

module _ {A : Type 0} where
  -- `x` stands in the list.
  pub data In (x : A) : List A → Type 0 where
    here : {xs : List A} → In x (x ∷ xs)
    there : {y : A} {xs : List A} → In x xs → In x (y ∷ xs)

  pub In-cases : {x y : A} {xs : List A} → In x (y ∷ xs) → (x ≡ y) ⊎ In x xs
  In-cases here = inl refl
  In-cases (there i) = inr i

  pub not-In-nil : {x : A} → ¬ In x []
  not-In-nil i = elim i [ ]

pub find-In :
    {R : Type 0} (p : R → Bool) (rows : List R) {r : R}
    → find p rows ≡ some r
    → In r rows × (p r ≡ true)
find-In p [] h = cc
find-In p (x ∷ xs) {r} h = elim (Bool-cases (p x)) [
  | inl hit ↦
      let e : x ≡ r = ground arith in
      (subst (λ y. In y (x ∷ xs)) e here, subst (λ y. p y ≡ true) e hit)
  | inr miss ↦ let (at, holds) = find-In p xs (rw miss at h) in (there at, holds)
]

pub find-eq-none :
    {R : Type 0} (p : R → Bool) (rows : List R) → find p rows ≡ none → All (λ r. p r ≡ false) rows
find-eq-none p [] h = tt
find-eq-none p (x ∷ xs) h = elim (Bool-cases (p x)) [
  | inl hit ↦ cc (rw hit at h)
  | inr miss ↦ (miss, find-eq-none p xs (rw miss at h))
]

any-In :
    {R : Type 0} (p : R → Bool) (rows : List R)
    → any p rows ≡ true
    → (r : R) × In r rows × (p r ≡ true)
any-In p [] h = cc
any-In p (x ∷ xs) h = elim (Bool-cases (p x)) [
  | inl hit ↦ (x, here, hit)
  | inr miss ↦ let (r, at, holds) = any-In p xs (rw miss at h) in (r, there at, holds)
]

In-any :
    {R : Type 0} (p : R → Bool) {r : R} (rows : List R) → p r ≡ true → In r rows → any p rows ≡ true
In-any p [] holds i = elim i [ ]
In-any p {r} (x ∷ xs) holds i = elim (In-cases i) [
  | inl e ↦ let hit : p x ≡ true = subst (λ y. p y ≡ true) e holds in rw hit
  | inr later ↦ ground (arith, In-any p xs holds later)
]

pub any_iff :
    {R : Type 0} (p : R → Bool) (rows : List R)
    → (any p rows ≡ true) ↔ ((r : R) × In r rows × (p r ≡ true))
any_iff p rows = (any-In p rows, λ (r, at, holds). In-any p rows holds at)

module _ {A : Type 0} where
  pub In-filter : (p : A → Bool) {x : A} (xs : List A) → In x (filter p xs) → In x xs × (p x ≡ true)
  In-filter p [] i = elim i [ ]
  In-filter p {x} (y ∷ ys) i = elim (Bool-cases (p y)) [
    | inl keep ↦ elim (In-cases (rw keep at i)) [
      | inl e ↦ (subst (λ z. In z (y ∷ ys)) (sym e) here, subst (λ z. p z ≡ true) (sym e) keep)
      | inr later ↦ let (at, holds) = In-filter p ys later in (there at, holds)
    ]
    | inr drop ↦ let (at, holds) = In-filter p ys (rw drop at i) in (there at, holds)
  ]

  pub filter-In : (p : A → Bool) {x : A} (xs : List A) → In x xs → p x ≡ true → In x (filter p xs)
  filter-In p [] i holds = elim i [ ]
  filter-In p {x} (y ∷ ys) i holds = elim (In-cases i) [
    | inl e ↦
        let keep : p y ≡ true = subst (λ z. p z ≡ true) e holds in
        rw keep (subst (λ z. In x (z ∷ filter p ys)) e here)
    | inr later ↦ elim (Bool-cases (p y)) [
      | inl keep ↦ rw keep (there (filter-In p ys later holds))
      | inr drop ↦ rw drop (filter-In p ys later holds)
    ]
  ]

  pub In-append : {x : A} (xs ys : List A) → In x (xs ++ ys) ↔ (In x xs ⊎ In x ys)
  In-append [] ys = (inr, λ s. elim s [ inl i ↦ absurd (not-In-nil i) | inr i ↦ i ])
  In-append {x} (y ∷ xs) ys = (
    λ i. elim (In-cases i) [
      | inl e ↦ inl (subst (λ z. In z (y ∷ xs)) (sym e) here)
      | inr later ↦ elim ((In-append xs ys).0 later) [ inl j ↦ inl (there j) | inr j ↦ inr j ]
    ],
    λ s. elim s [
      | inl i ↦ elim (In-cases i) [
        | inl e ↦ subst (λ z. In z (y ∷ (xs ++ ys))) (sym e) here
        | inr later ↦ there ((In-append xs ys).1 (inl later))
      ]
      | inr j ↦ there ((In-append xs ys).1 (inr j))
    ],
  )

  -- No element stands in the list twice.
  abbrev pub Distinct : List A → Type 0
  Distinct [] = Unit
  Distinct (x ∷ xs) = ¬ In x xs × Distinct xs

  pub Distinct-filter : (p : A → Bool) (xs : List A) → Distinct xs → Distinct (filter p xs)
  Distinct-filter p [] d = tt
  Distinct-filter p (x ∷ xs) d = elim (Bool-cases (p x)) [
    | inl keep ↦ rw keep (λ i. d.0 (In-filter p xs i).0, Distinct-filter p xs d.1)
    | inr drop ↦ rw drop (Distinct-filter p xs d.1)
  ]

module _ {A B : Type 0} where
  pub In-map : (f : A → B) {y : B} (xs : List A) → In y (map f xs) → (x : A) × In x xs × (y ≡ f x)
  In-map f [] i = elim i [ ]
  In-map f (x ∷ xs) i = elim (In-cases i) [
    | inl e ↦ (x, here, e)
    | inr later ↦ let (z, at, e) = In-map f xs later in (z, there at, e)
  ]

  pub map-In : (f : A → B) {x : A} (xs : List A) → In x xs → In (f x) (map f xs)
  map-In f [] i = elim i [ ]
  map-In f {x} (y ∷ xs) i = elim (In-cases i) [
    | inl e ↦ subst (λ z. In (f x) (f z ∷ map f xs)) e here
    | inr later ↦ there (map-In f xs later)
  ]

pub All-In : {A : Type 0} (P : A → Type 0) (xs : List A) {x : A} → All P xs → In x xs → P x
All-In P [] a i = elim i [ ]
All-In P (y ∷ ys) a i = elim (In-cases i) [
  | inl e ↦ subst P (sym e) a.0
  | inr later ↦ All-In P ys a.1 later
]
