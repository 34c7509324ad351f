-- ===== src/Common/Sort.antt =====
-- Lists in the order of a number, and the element with the largest.
use Prim.Native.Nat.{ℕ, ◌≤◌}
use mathlib.Core.Path.{◌≡◌, refl, sym, subst}
use mathlib.Core.Logic.{◌↔◌, inl, inr}
use mathlib.Core.Option.{Option, none, some}
use mathlib.Core.List.{List, [], ◌∷◌}
use native.Mathlib.Omega.{arith}
use vnp_dbms_backend.Common.Lists.{All}
use vnp_dbms_backend.Common.Cond.{if◌then◌else◌, leb, Bool-cases, Option-cases}
use vnp_dbms_backend.Common.Membership.{In, here, there, In-cases}

abbrev pub insert_by : {R : Type 0} → (R → ℕ) → R → List R → List R
insert_by k r [] = r ∷ []
insert_by k r (x ∷ xs) =
    let rest = insert_by k r xs in if leb (k r) (k x) then r ∷ x ∷ xs else x ∷ rest

abbrev pub sort_by : {R : Type 0} → (R → ℕ) → List R → List R
sort_by k [] = []
sort_by k (x ∷ xs) = insert_by k x (sort_by k xs)

In-insert_by :
    {R : Type 0} (k : R → ℕ) (r x : R) (xs : List R) → In x (insert_by k r xs) ↔ In x (r ∷ xs)
In-insert_by k r x [] = (λ i. i, λ i. i)
In-insert_by k r x (y ∷ ys) =
    let (to, from) = In-insert_by k r x ys in
    elim (Bool-cases (leb (k r) (k y))) [
      | inl low ↦ rw low (λ i. i, λ i. i)
      | inr high ↦ rw high (
        λ i. elim (In-cases i) [
          | inl e ↦ there (subst (λ z. In z (y ∷ ys)) (sym e) here)
          | inr later ↦ elim (In-cases (to later)) [
            | inl e ↦ subst (λ z. In z (r ∷ y ∷ ys)) (sym e) here
            | inr old ↦ there (there old)
          ]
        ],
        λ i. elim (In-cases i) [
          | inl e ↦ there (from (subst (λ z. In z (r ∷ ys)) (sym e) here))
          | inr later ↦ elim (In-cases later) [
            | inl e ↦ subst (λ z. In z (y ∷ insert_by k r ys)) (sym e) here
            | inr old ↦ there (from (there old))
          ]
        ],
      )
    ]

pub In-sort_by :
    {R : Type 0} (k : R → ℕ) (rows : List R) (r : R) → In r (sort_by k rows) ↔ In r rows
In-sort_by k [] r = (λ i. i, λ i. i)
In-sort_by k (x ∷ xs) r = (
  λ i. elim (In-cases ((In-insert_by k x r (sort_by k xs)).0 i)) [
    | inl e ↦ subst (λ z. In z (x ∷ xs)) (sym e) here
    | inr later ↦ there ((In-sort_by k xs r).0 later)
  ],
  λ i. (In-insert_by k x r (sort_by k xs)).1 (elim (In-cases i) [
    | inl e ↦ subst (λ z. In z (x ∷ sort_by k xs)) (sym e) here
    | inr later ↦ there ((In-sort_by k xs r).1 later)
  ]),
)

abbrev pub larger : {R : Type 0} → (R → ℕ) → R → Option R → R
larger k x none = x
larger k x (some y) = if leb (k y) (k x) then x else y

abbrev pub largest : {R : Type 0} → (R → ℕ) → List R → Option R
largest k [] = none
largest k (x ∷ xs) = some (larger k x (largest k xs))

All-le :
    {R : Type 0} (k : R → ℕ) (m n : ℕ) (xs : List R)
    → m ≤ n
    → All (λ x. k x ≤ m) xs
    → All (λ x. k x ≤ n) xs
All-le k m n [] h a = tt
All-le k m n (x ∷ xs) h a = (omega (arith, a.0), All-le k m n xs h a.1)

pub largest-none : {R : Type 0} (k : R → ℕ) (xs : List R) → largest k xs ≡ none → xs ≡ []
largest-none k [] h = refl
largest-none k (x ∷ xs) h = cc

abbrev pub IsLargest : {R : Type 0} → (R → ℕ) → List R → R → Type 0
IsLargest k rows r = In r rows × All (λ x. k x ≤ k r) rows

pub largest-IsLargest :
    {R : Type 0} (k : R → ℕ) (rows : List R) {r : R} → largest k rows ≡ some r → IsLargest k rows r
largest-IsLargest k [] h = cc
largest-IsLargest {R} k (x ∷ xs) {r} h = elim (Option-cases (largest k xs)) [
  | inl e ↦
      let is_r : x ≡ r = ground (arith, e) in
      let nil : xs ≡ [] = largest-none k xs e in
      subst (IsLargest k (x ∷ xs)) is_r ((here, (omega arith, rw nil tt)))
  | inr (y, e) ↦
      let (y_in, below) = largest-IsLargest k xs e in
      elim (Bool-cases (leb (k y) (k x))) [
        | inl low ↦
            let is_r : x ≡ r = ground (arith, e) in
            subst (IsLargest k (x ∷ xs)) is_r
              ((here, (omega arith, All-le k (k y) (k x) xs (ground arith) below)))
        | inr high ↦
            let is_r : y ≡ r = ground (arith, e) in
            subst (IsLargest k (x ∷ xs)) is_r ((there y_in, (ground arith, below)))
      ]
]
