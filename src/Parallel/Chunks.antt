-- ===== src/Parallel/Chunks.antt =====
-- The chunks of `splitIntoChunks`.
use vnp_dbms_backend.Common.{
  ℕ, zero, suc, ◌+◌, ◌-◌, ◌*◌, ◌/◌, ◌≤◌, ◌<◌, ◌≡◌, refl, sym, ap, ◌∙◌, min, List, [], ◌∷◌, ◌++◌,
  some, arith, length, take, drop, All, ltb, Bool-cases, inl, inr,
}
use mathlib.Core.List.{append-nil}
use native.Mathlib.Nat.{zero-add, suc-add, lt_of_mul-lt-mul_right}
use vnp_dbms_backend.Parallel.Processor.{slice, chunks_from, split_into_chunks}

add-sub : (i size : ℕ) → i + size - i ≡ size
add-sub i size = omega arith

ceil_bounds : (len k : ℕ) → 1 ≤ len → (1 ≤ (len + k) / suc k) × (len ≤ (len + k) / suc k * suc k)
ceil_bounds len k h = (grind arith, grind arith)

few_chunks : (count size len k : ℕ) → count * size < len + size → len ≤ size * suc k → count ≤ suc k
few_chunks count size len k h f =
    omega (arith, lt_of_mul-lt-mul_right size {m = count} {n = suc (suc k)} (omega arith))

next_few :
    (count size rest : ℕ)
    → count * size < rest - size + size
    → 1 ≤ rest
    → suc count * size < rest + size
next_few zero size rest h k = omega arith
next_few (suc c) size rest h k = omega arith

module _ {A : Type 0} where
  abbrev pub concat : List (List A) → List A
  concat [] = []
  concat (c ∷ cs) = c ++ concat cs

  pub take-append-drop : (n : ℕ) (xs : List A) → take n xs ++ drop n xs ≡ xs
  take-append-drop zero xs = refl
  take-append-drop (suc n) [] = refl
  take-append-drop (suc n) (x ∷ xs) = rw (take-append-drop n xs)

  drop-nil : (n : ℕ) → drop {A = A} n [] ≡ []
  drop-nil zero = refl
  drop-nil (suc n) = refl

  drop-drop : (m n : ℕ) (xs : List A) → drop n (drop m xs) ≡ drop (m + n) xs
  drop-drop zero n xs = rw zero-add
  drop-drop (suc m) n [] = drop-nil n ∙ sym (drop-nil (suc m + n))
  drop-drop (suc m) n (x ∷ xs) = rw suc-add (drop-drop m n xs)

  pub length-drop : (n : ℕ) (xs : List A) → length (drop n xs) ≡ length xs - n
  length-drop zero xs = omega arith
  length-drop (suc n) [] = omega arith
  length-drop (suc n) (x ∷ xs) = omega (arith, length-drop n xs)

  length-take : (n : ℕ) (xs : List A) → length (take n xs) ≡ min n (length xs)
  length-take zero xs = omega arith
  length-take (suc n) [] = omega arith
  length-take (suc n) (x ∷ xs) = omega (arith, length-take n xs)

  pub drop-all : (n : ℕ) (xs : List A) → length xs ≤ n → drop n xs ≡ []
  drop-all zero [] h = refl
  drop-all zero (x ∷ xs) h = absurd (omega arith)
  drop-all (suc n) [] h = refl
  drop-all (suc n) (x ∷ xs) h = drop-all n xs (omega arith)

  -- A round of a loop takes the first `size` items of those from index `i` on.
  pub slice-append-drop :
      (items : List A) (size i : ℕ)
      → slice items i (i + size) ++ drop (i + size) items ≡ drop i items
  slice-append-drop items size i =
      rw (add-sub i size, ← drop-drop i size items) (take-append-drop size (drop i items))

  length-slice :
      (items : List A) (size i : ℕ)
      → length (slice items i (i + size)) ≡ min size (length items - i)
  length-slice items size i =
      omega (arith, length-take (i + size - i) (drop i items), length-drop i items)

  -- A chunk has at least one item and at most `size`.
  abbrev pub Sized : ℕ → List A → Type 0
  Sized size chunk = (1 ≤ length chunk) × (length chunk ≤ size)

  -- What the loop has produced: the items from index `i` on, in chunks, no more than it takes.
  abbrev Chunked : List A → ℕ → ℕ → List (List A) → Type 0
  Chunked items size i cs =
      (concat cs ≡ drop i items)
      × All (Sized size) cs
      × (length cs * size < length items - i + size)

  chunks_from_lem :
      (fuel : ℕ) (items : List A) (size i : ℕ)
      → 1 ≤ size
      → length items - i < fuel
      → (cs : List (List A)) × (chunks_from fuel items size i ≡ some cs) × Chunked items size i cs
  unfolding chunks_from
  chunks_from_lem zero items size i h f = absurd (omega arith)
  chunks_from_lem (suc fuel) items size i h f = elim (Bool-cases (ltb i (length items))) [
    | inl more ↦
        let (cs, e, (joined, sized, few)) =
          chunks_from_lem fuel items size (i + size) h (ground arith) in
        (
          slice items i (i + size) ∷ cs,
          rw (more, e),
          (
            ap (◌++◌ (slice items i (i + size))) joined ∙ slice-append-drop items size i,
            (ground (arith, length-slice items size i), sized),
            ground (arith, next_few (length cs) size (length items - i)),
          ),
        )
    | inr done ↦ ([], rw done, (sym (drop-all i items (ground arith)), tt, omega arith))
  ]

  -- For at least one chunk the loop ends, and the chunks are the items in their order, split into
  -- at most `suc k` chunks of at least one item and at most `⌈length / suc k⌉`.
  pub split_into_chunks_lem :
      (items : List A) (k : ℕ)
      → (cs : List (List A)) × (split_into_chunks items (suc k) ≡ some cs)
        × (concat cs ≡ items)
        × All (Sized ((length items + k) / suc k)) cs
        × (length cs ≤ suc k)
  unfolding split_into_chunks
  split_into_chunks_lem [] k = ([], refl, refl, tt, omega arith)
  split_into_chunks_lem (x ∷ xs) k =
      let items : List A = x ∷ xs in
      let (pos, covers) = ceil_bounds (length items) k (omega arith) in
      let (cs, e, (joined, sized, few)) =
        chunks_from_lem (suc (length items)) items ((length items + k) / suc k) 0 pos
          (omega arith) in
      (
        cs,
        e,
        joined,
        sized,
        few_chunks (length cs) ((length items + k) / suc k) (length items) k (omega arith) covers,
      )

  -- Whatever the number of chunks, 0 included, the loop ends and loses no item.
  pub split_into_chunks-concat :
      (items : List A) (n : ℕ)
      → (cs : List (List A)) × (split_into_chunks items n ≡ some cs) × (concat cs ≡ items)
  unfolding split_into_chunks
  split_into_chunks-concat [] zero = ([], refl, refl)
  split_into_chunks-concat (x ∷ xs) zero = ((x ∷ xs) ∷ [], refl, append-nil (x ∷ xs))
  split_into_chunks-concat items (suc k) =
      let (cs, e, joined, sized, few) = split_into_chunks_lem items k in (cs, e, joined)
