-- ===== src/Common/Prisma.antt =====
-- The database client (@prisma/client) is not part of the repository. A table is the list of its
-- documents; what a query does to it is a parameter, with the documented behaviour that the code
-- relies on. Which of several matching documents `find_first` returns is left open.
use Prim.Native.Nat.{ℕ, ◌≤◌}
use mathlib.Core.Path.{◌≡◌, refl}
use mathlib.Core.Bool.{Bool, true, false, not}
use mathlib.Core.Option.{Option, none, some}
use mathlib.Core.List.{List, [], ◌∷◌, ◌++◌, map}
use vnp_dbms_backend.Common.Lists.{find, filter, All, length}
use vnp_dbms_backend.Common.Cond.{if◌then◌else◌}
use vnp_dbms_backend.Common.Membership.{In, find-In, find-eq-none, In-filter, filter-In}
use vnp_dbms_backend.Common.Sort.{sort_by, In-sort_by, largest, largest-none, largest-IsLargest}
use mathlib.Core.Logic.{◌↔◌}

pub record Prisma : Type 1 where
  -- `findFirst` and `findUnique`, by the predicate of `where`
  pub find_first : {R : Type 0} → (R → Bool) → List R → Option R
  pub create : {R : Type 0} → R → List R → List R
  -- `update` and `updateMany`
  pub update : {R : Type 0} → (R → Bool) → (R → R) → List R → List R
  -- `delete` and `deleteMany`
  pub delete : {R : Type 0} → (R → Bool) → List R → List R
  -- `findMany` with `orderBy` ascending, and `findFirst` with `orderBy` descending, by a number
  pub ordered_by : {R : Type 0} → (R → ℕ) → List R → List R
  pub last_by : {R : Type 0} → (R → ℕ) → List R → Option R
  -- `findMany` with no order
  pub find_many : {R : Type 0} → (R → Bool) → List R → List R
  pub count : {R : Type 0} → (R → Bool) → List R → ℕ
  pub found_in :
      {R : Type 0} (p : R → Bool) (rows : List R) {r : R}
      → find_first p rows ≡ some r
      → In r rows × (p r ≡ true)
  pub none_found :
      {R : Type 0} (p : R → Bool) (rows : List R)
      → find_first p rows ≡ none
      → All (λ r. p r ≡ false) rows
  pub rows_create : {R : Type 0} (r : R) (rows : List R) → create r rows ≡ rows ++ r ∷ []
  pub many_iff :
      {R : Type 0} (p : R → Bool) (rows : List R) (r : R)
      → In r (find_many p rows) ↔ (In r rows × (p r ≡ true))
  pub rows_count :
      {R : Type 0} (p : R → Bool) (rows : List R) → count p rows ≡ length (filter p rows)
  pub rows_update :
      {R : Type 0} (p : R → Bool) (f : R → R) (rows : List R)
      → update p f rows ≡ map (λ r. if p r then f r else r) rows
  pub rows_delete :
      {R : Type 0} (p : R → Bool) (rows : List R) → delete p rows ≡ filter (λ r. not (p r)) rows
  pub ordered_iff :
      {R : Type 0} (k : R → ℕ) (rows : List R) (r : R) → In r (ordered_by k rows) ↔ In r rows
  pub last_is_last :
      {R : Type 0} (k : R → ℕ) (rows : List R) {r : R}
      → last_by k rows ≡ some r
      → In r rows × All (λ x. k x ≤ k r) rows
  pub none_last : {R : Type 0} (k : R → ℕ) (rows : List R) → last_by k rows ≡ none → rows ≡ []

-- A client that scans the documents in their order meets the hypotheses.
abbrev pub scanning : Prisma
scanning = record {
  find_first = λ p rows. find p rows;
  create = λ r rows. rows ++ r ∷ [];
  update = λ p f rows. map (λ r. if p r then f r else r) rows;
  delete = λ p rows. filter (λ r. not (p r)) rows;
  find_many = λ p rows. filter p rows;
  many_iff = λ p rows r. (λ i. In-filter p rows i, λ (i, holds). filter-In p rows i holds);
  count = λ p rows. length (filter p rows);
  rows_count = λ p rows. refl;
  found_in = λ p rows h. find-In p rows h;
  none_found = λ p rows h. find-eq-none p rows h;
  rows_create = λ r rows. refl;
  rows_update = λ p f rows. refl;
  rows_delete = λ p rows. refl;
  ordered_by = λ k rows. sort_by k rows;
  last_by = λ k rows. largest k rows;
  ordered_iff = λ k rows r. In-sort_by k rows r;
  last_is_last = λ k rows h. largest-IsLargest k rows h;
  none_last = λ k rows h. largest-none k rows h;
}
