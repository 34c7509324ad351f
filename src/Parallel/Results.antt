-- ===== src/Parallel/Results.antt =====
-- The three ways to process a list, against processing the items one by one.
use vnp_dbms_backend.Common.{
  ℕ, zero, suc, ◌+◌, ◌-◌, ◌*◌, ◌≤◌, ◌<◌, ◌≡◌, refl, sym, ap, ◌∙◌, List, [], ◌∷◌, ◌++◌, Option, none,
  some, arith, length, drop, ltb, Bool-cases, Option-cases, ◌⊎◌, inl, inr, ◌↔◌, ◌≢◌, Error, Result,
  ok, err, String, get_or, In, here, there,
}
use vnp_dbms_backend.Common.Text.{parse_positive, parse_positive-pos}
use vnp_dbms_backend.Parallel.Processor.{
  slice, Config, Outcome, value, null, threw, push, process_sequentially, worker_code, run_worker,
  run_all, process_with_workers, batches_from, process_in_batches, get_worker_count, min_items,
}
use vnp_dbms_backend.Parallel.Chunks.{concat, slice-append-drop, drop-all, split_into_chunks-concat}

module _ {T R : Type 0} (processor : T → Outcome R) where
  process-append :
      (xs ys : List T)
      → process_sequentially processor (xs ++ ys)
        ≡ process_sequentially processor xs ++ process_sequentially processor ys
  unfolding process_sequentially
  process-append [] ys = refl
  process-append (x ∷ xs) ys = push-append _ _ (processor x) (process-append xs ys)
    where
      push-append :
          {rs : List R} (bs cs : List R) (o : Outcome R)
          → rs ≡ bs ++ cs
          → push processor o rs ≡ push processor o bs ++ cs
      push-append bs cs (value r) e = ap (◌∷◌ r) e
      push-append bs cs null e = e
      push-append bs cs (threw m) e = e

  process-nil : process_sequentially processor [] ≡ []
  unfolding process_sequentially
  process-nil = refl

  worker_code-results :
      (xs : List T) → (worker_code processor xs).results ≡ process_sequentially processor xs
  unfolding worker_code process_sequentially
  worker_code-results [] = refl
  worker_code-results (x ∷ xs) = ground (arith, worker_code-results xs)

  module _ (dies : List T → Option Error) where
    run_worker-alive :
        (c : List T) → dies c ≡ none → run_worker processor dies c ≡ ok (worker_code processor c)
    unfolding run_worker
    run_worker-alive c alive = rw (alive, run_worker)

    -- What `Promise.all` over the workers gives: every result, or the error of a thread that died.
    abbrev AllOrError : List (List T) → List T → Result (List R) → Type 0
    AllOrError chunks items r =
        (r ≡ ok (process_sequentially processor items))
        ⊎ ((e : Error) × (c : List T) × In c chunks × (dies c ≡ some e) × (r ≡ err e))

    run_all-cases : (cs : List (List T)) → AllOrError cs (concat cs) (run_all processor dies cs)
    unfolding run_all
    run_all-cases [] = inl (ap ok (sym process-nil))
    run_all-cases (c ∷ cs) = elim (Option-cases (dies c)) [
      | inl alive ↦ elim (run_all-cases cs) [
        | inl good ↦ inl (
            rw (run_worker-alive c alive, good, process-append c (concat cs))
              (ap (λ rs. ok (rs ++ process_sequentially processor (concat cs)))
                (worker_code-results c)))
        | inr (e, d, i, died, bad) ↦ inr (e, d, there i, died, rw (run_worker-alive c alive, bad))
      ]
      | inr (e, died) ↦ inr (e, c, here, died, rw (died, run_worker))
    ]

    -- `processWithWorkers` always ends, whatever the numbers of workers and of processors and the threshold are. With
    -- fewer items than the threshold it returns what the text gives for them one by one in the main thread, in
    -- that order and without those that fail. Otherwise it returns what the text gives for them one by one
    -- in a worker, in the order of the whole list, or throws the error of a thread that died over a
    -- chunk. So it agrees with `processSequentially` where no thread dies and the text does the same in both.
    pub process_with_workers_lem :
        (in_main : T → Outcome R) (config : Config) (env_workers : Option String) (cpus : ℕ)
        (items : List T)
        → let call = process_with_workers processor dies in_main config env_workers cpus items in
          let threshold = get_or config.min_items_for_parallel min_items in
          ((length items < threshold) × (call ≡ some (ok (process_sequentially in_main items))))
          ⊎ ((chunks : List (List T)) × (r : Result (List R)) × (threshold ≤ length items)
              × (concat chunks ≡ items)
              × (call ≡ some r)
              × AllOrError chunks items r)
    unfolding process_with_workers
    process_with_workers_lem in_main config env_workers cpus items =
        let count = get_or config.worker_count (get_worker_count env_workers cpus) in
        let (cs, e, joined) = split_into_chunks-concat items count in
        elim (Bool-cases (ltb (length items) (get_or config.min_items_for_parallel min_items))) [
          | inl small ↦ inl (ground (arith, small), rw small)
          | inr large ↦ inr (
            cs,
            run_all processor dies cs,
            ground (arith, large),
            joined,
            rw (large, e),
            rw joined at (run_all-cases cs),
          )
        ]

  batches_from_lem :
      (fuel : ℕ) (items : List T) (size i : ℕ)
      → 1 ≤ size
      → length items - i < fuel
      → batches_from processor fuel items size i
        ≡ some (process_sequentially processor (drop i items))
  unfolding batches_from
  batches_from_lem zero items size i h f = absurd (omega arith)
  batches_from_lem (suc fuel) items size i h f = elim (Bool-cases (ltb i (length items))) [
    | inl more ↦
        rw (more, batches_from_lem fuel items size (i + size) h (ground arith))
          (ap some (
            sym (process-append (slice items i (i + size)) (drop (i + size) items))
            ∙ ap (process_sequentially processor) (slice-append-drop items size i)))
    | inr done ↦ rw (done, drop-all i items (ground arith), process-nil)
  ]

  -- With a batch size of at least 1 the loop of `processInBatches` ends, one round more than there
  -- are items being enough, and its results are those of processing the items one by one.
  pub process_in_batches_lem :
      (config : Config) (env_workers : Option String) (cpus : ℕ) (items : List T)
      → 1 ≤ get_or config.worker_count (get_worker_count env_workers cpus)
      → process_in_batches processor (suc (length items)) config env_workers cpus items
        ≡ some (process_sequentially processor items)
  unfolding process_in_batches
  process_in_batches_lem config env_workers cpus items h =
      batches_from_lem (suc (length items)) items
        (get_or config.worker_count (get_worker_count env_workers cpus)) 0 h (omega arith)

  stuck : (fuel : ℕ) (x : T) (xs : List T) → batches_from processor fuel (x ∷ xs) 0 0 ≡ none
  unfolding batches_from
  stuck zero x xs = refl
  stuck (suc fuel) x xs = ground (arith, stuck fuel x xs)

  -- With a batch size of 0 the loop never ends once there is an item: no fuel is enough.
  pub process_in_batches-zero :
      (config : Config) (env_workers : Option String) (cpus fuel : ℕ) (items : List T)
      → get_or config.worker_count (get_worker_count env_workers cpus) ≡ 0
      → items ≢ []
      → process_in_batches processor fuel config env_workers cpus items ≡ none
  unfolding process_in_batches
  process_in_batches-zero config env_workers cpus fuel [] e h = absurd (h refl)
  process_in_batches-zero config env_workers cpus fuel (x ∷ xs) e h = rw e (stuck fuel x xs)

count_pos :
    (env_workers : Option String) (cpus : ℕ) → (1 ≤ get_worker_count env_workers cpus) ↔ (1 ≤ cpus)
unfolding get_worker_count
count_pos none cpus = (λ h. omega arith, λ h. omega arith)
count_pos (some text) cpus = elim (Option-cases (parse_positive text)) [
  | inl e ↦ rw e (λ h. omega arith, λ h. omega arith)
  | inr (n, e) ↦ rw e (λ h. omega arith, λ h. omega (arith, parse_positive-pos text e))
]

count-le : (env_workers : Option String) (cpus : ℕ) → get_worker_count env_workers cpus ≤ cpus * 2
unfolding get_worker_count
count-le none cpus = omega arith
count-le (some text) cpus = elim (Option-cases (parse_positive text)) [
  | inl e ↦ rw e (omega arith)
  | inr (n, e) ↦ rw e (omega arith)
]

-- `getWorkerCount` is at least 1 exactly when the machine reports a processor; it is then at most
-- 8, or at most twice the number of processors where PARALLEL_WORKERS sets it.
pub get_worker_count_bounds :
    (env_workers : Option String) (cpus : ℕ)
    → ((1 ≤ get_worker_count env_workers cpus) ↔ (1 ≤ cpus))
      × (get_worker_count none cpus ≤ 8)
      × (get_worker_count env_workers cpus ≤ cpus * 2)
unfolding get_worker_count
get_worker_count_bounds env_workers cpus =
    (count_pos env_workers cpus, omega arith, count-le env_workers cpus)
