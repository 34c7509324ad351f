-- ===== src/Settings/Positions.antt =====
-- Lists by their positions: moving an element.
use vnp_dbms_backend.Common.{
  ℕ, zero, suc, ◌+◌, ◌-◌, ◌≤◌, ◌<◌, ◌≡◌, refl, ap, ◌∙◌, Option, none, some, List, [], ◌∷◌, arith,
  length, ◌≢◌, ◌⊎◌, inl, inr, if◌then◌else◌, eqb, leb, ltb, ◌&&◌, Option-cases,
}

module _ {A : Type 0} where
  abbrev pub nth : List A → ℕ → Option A
  nth [] i = none
  nth (x ∷ xs) zero = some x
  nth (x ∷ xs) (suc i) = nth xs i

  abbrev pub remove_at : ℕ → List A → List A
  remove_at i [] = []
  remove_at zero (x ∷ xs) = xs
  remove_at (suc i) (x ∷ xs) = x ∷ remove_at i xs

  abbrev pub insert_at : ℕ → A → List A → List A
  insert_at zero y xs = y ∷ xs
  insert_at (suc i) y [] = y ∷ []
  insert_at (suc i) y (x ∷ xs) = x ∷ insert_at i y xs

  -- The element at position `from` taken out and put back at position `to`.
  abbrev pub move_to : ℕ → ℕ → List A → List A
  move_to from to xs = elim (nth xs from) [
    | none ↦ xs
    | some y ↦ insert_at to y (remove_at from xs)
  ]

  pub nth-insert_at_lt :
      (k i : ℕ) (y : A) (xs : List A) → k ≤ length xs → i < k → nth (insert_at k y xs) i ≡ nth xs i
  nth-insert_at_lt zero i y xs h l = absurd (omega arith)
  nth-insert_at_lt (suc k) i y [] h l = absurd (omega arith)
  nth-insert_at_lt (suc k) zero y (x ∷ xs) h l = refl
  nth-insert_at_lt (suc k) (suc i) y (x ∷ xs) h l =
      nth-insert_at_lt k i y xs (omega arith) (omega arith)

  pub nth-insert_at_eq :
      (k : ℕ) (y : A) (xs : List A) → k ≤ length xs → nth (insert_at k y xs) k ≡ some y
  nth-insert_at_eq zero y xs h = refl
  nth-insert_at_eq (suc k) y [] h = absurd (omega arith)
  nth-insert_at_eq (suc k) y (x ∷ xs) h = nth-insert_at_eq k y xs (omega arith)

  pub nth-insert_at_gt :
      (k i : ℕ) (y : A) (xs : List A)
      → k ≤ length xs
      → k ≤ i
      → nth (insert_at k y xs) (suc i) ≡ nth xs i
  nth-insert_at_gt zero i y xs h l = refl
  nth-insert_at_gt (suc k) i y [] h l = absurd (omega arith)
  nth-insert_at_gt (suc k) zero y (x ∷ xs) h l = absurd (omega arith)
  nth-insert_at_gt (suc k) (suc i) y (x ∷ xs) h l =
      nth-insert_at_gt k i y xs (omega arith) (omega arith)

  pub nth-remove_at_lt : (j i : ℕ) (xs : List A) → i < j → nth (remove_at j xs) i ≡ nth xs i
  nth-remove_at_lt j i [] l = refl
  nth-remove_at_lt zero i (x ∷ xs) l = absurd (omega arith)
  nth-remove_at_lt (suc j) zero (x ∷ xs) l = refl
  nth-remove_at_lt (suc j) (suc i) (x ∷ xs) l = nth-remove_at_lt j i xs (omega arith)

  pub nth-remove_at_ge : (j i : ℕ) (xs : List A) → j ≤ i → nth (remove_at j xs) i ≡ nth xs (suc i)
  nth-remove_at_ge j i [] l = refl
  nth-remove_at_ge zero i (x ∷ xs) l = refl
  nth-remove_at_ge (suc j) zero (x ∷ xs) l = absurd (omega arith)
  nth-remove_at_ge (suc j) (suc i) (x ∷ xs) l = nth-remove_at_ge j i xs (omega arith)

  pub nth-some_lt : (i : ℕ) (xs : List A) {y : A} → nth xs i ≡ some y → i < length xs
  nth-some_lt i [] e = cc
  nth-some_lt zero (x ∷ xs) e = omega arith
  nth-some_lt (suc i) (x ∷ xs) e = omega (arith, nth-some_lt i xs e)

  pub nth-lt_some : (i : ℕ) (xs : List A) → i < length xs → nth xs i ≢ none
  nth-lt_some i [] l e = absurd (omega arith)
  nth-lt_some zero (x ∷ xs) l e = cc
  nth-lt_some (suc i) (x ∷ xs) l e = nth-lt_some i xs (omega arith) e

  pub length-remove_at :
      (j : ℕ) (xs : List A) → j < length xs → suc (length (remove_at j xs)) ≡ length xs
  length-remove_at j [] l = absurd (omega arith)
  length-remove_at zero (x ∷ xs) l = refl
  length-remove_at (suc j) (x ∷ xs) l = ap suc (length-remove_at j xs (omega arith))

  pub length-insert_at : (k : ℕ) (y : A) (xs : List A) → length (insert_at k y xs) ≡ suc (length xs)
  length-insert_at zero y xs = refl
  length-insert_at (suc k) y [] = refl
  length-insert_at (suc k) y (x ∷ xs) = ap suc (length-insert_at k y xs)

  pub insert_at-remove_at :
      (j : ℕ) (xs : List A) {y : A} → nth xs j ≡ some y → insert_at j y (remove_at j xs) ≡ xs
  insert_at-remove_at j [] e = cc
  insert_at-remove_at zero (x ∷ xs) e = ground arith
  insert_at-remove_at (suc j) (x ∷ xs) e = ap (λ l. x ∷ l) (insert_at-remove_at j xs e)

-- The position of an element after the one at `from` was moved to `to`.
unfoldable pub shift : (from to p : ℕ) → ℕ
shift from to p =
    if eqb p from
    then to
    else if ltb from to
    then (if ltb from p && leb p to then p - 1 else p)
    else (if leb to p && ltb p from then p + 1 else p)

pub shift-shift : (from to p : ℕ) → shift from to (shift to from p) ≡ p
unfolding shift
shift-shift from to p = ground arith

shift-cases :
    (from to p : ℕ)
    → ((p ≡ from) × (shift from to p ≡ to))
      ⊎ ((from < p) × (p ≤ to) × (suc (shift from to p) ≡ p))
      ⊎ ((from < p) × (to < p) × (shift from to p ≡ p))
      ⊎ ((p < from) × (to ≤ p) × (shift from to p ≡ suc p))
      ⊎ ((p < from) × (p < to) × (shift from to p ≡ p))
unfolding shift
shift-cases from to p = ground arith

module _ {A : Type 0} (from to p : ℕ) (xs : List A) (y : A) (e : nth xs from ≡ some y)
    (hf : from < length xs) (ht : to < length xs) where
  fits : to ≤ length (remove_at from xs)
  fits = omega (arith, length-remove_at from xs hf)

  nth-past : (q : ℕ) → from < q → to < q → nth (insert_at to y (remove_at from xs)) q ≡ nth xs q
  nth-past zero l m = absurd (omega arith)
  nth-past (suc q) l m =
      nth-insert_at_gt to q y (remove_at from xs) fits (omega arith)
      ∙ nth-remove_at_ge from q xs (omega arith)

  nth-moved : nth (insert_at to y (remove_at from xs)) (shift from to p) ≡ nth xs p
  nth-moved = elim (shift-cases from to p) [
    | inl (is, s) ↦ rw (s, is, nth-insert_at_eq to y (remove_at from xs) fits, e) refl
    | inr (inl (l, m, s)) ↦
        rw (nth-insert_at_lt to (shift from to p) y (remove_at from xs) fits (omega arith))
          (nth-remove_at_ge from (shift from to p) xs (omega arith) ∙ ap (nth xs) s)
    | inr (inr (inl (l, m, s))) ↦ rw s (nth-past p l m)
    | inr (inr (inr (inl (l, m, s)))) ↦
        rw (s, nth-insert_at_gt to p y (remove_at from xs) fits m) (nth-remove_at_lt from p xs l)
    | inr (inr (inr (inr (l, m, s)))) ↦
        rw (s, nth-insert_at_lt to p y (remove_at from xs) fits m) (nth-remove_at_lt from p xs l)
  ]

-- Moving an element shifts the positions.
pub nth-move_to :
    {A : Type 0} (from to p : ℕ) (xs : List A)
    → from < length xs
    → to < length xs
    → nth (move_to from to xs) (shift from to p) ≡ nth xs p
nth-move_to {A} from to p xs hf ht = elim (Option-cases (nth xs from)) [
  | inl e ↦ absurd (nth-lt_some from xs hf e)
  | inr (y, e) ↦ rw (e, move_to) (nth-moved from to p xs y e hf ht)
]

pub length-move_to :
    {A : Type 0} (from to : ℕ) (xs : List A) → length (move_to from to xs) ≡ length xs
length-move_to from to xs = elim (Option-cases (nth xs from)) [
  | inl e ↦ rw (e, move_to) refl
  | inr (y, e) ↦
      rw (e, move_to, length-insert_at to y (remove_at from xs))
        (length-remove_at from xs (nth-some_lt from xs e))
]

pub move_to_same : {A : Type 0} (from : ℕ) (xs : List A) → move_to from from xs ≡ xs
move_to_same from xs = elim (Option-cases (nth xs from)) [
  | inl e ↦ rw (e, move_to) refl
  | inr (y, e) ↦ rw (e, move_to) (insert_at-remove_at from xs e)
]
