-- ===== src/Parallel/Examples.antt =====
-- The theorems at concrete inputs.
use vnp_dbms_backend.Common.{
  ℕ, ◌+◌, ◌*◌, ◌/◌, ◌≤◌, ◌<◌, ◌≡◌, ◌≢◌, ◌⊎◌, refl, Option, none, some, List, [], ◌∷◌, Error, Result,
  ok, err, In, All, length, ltb, if◌then◌else◌, arith,
}
use vnp_dbms_backend.Parallel.Processor.{
  Config, Outcome, value, null, threw, process_sequentially, process_with_workers,
  process_in_batches, split_into_chunks, chunks_from, run_all, run_worker, worker_code,
}
use vnp_dbms_backend.Parallel.Chunks.{concat, Sized, split_into_chunks_lem}
use vnp_dbms_backend.Parallel.Results.{
  process_with_workers_lem, process_in_batches_lem, process_in_batches-zero,
}

-- A processor that skips small items and fails for large ones.
abbrev doubled : ℕ → Outcome ℕ
doubled n = if ltb n 2 then null else if ltb 9 n then threw "too large" else value (n * 2)

abbrev never_dies : List ℕ → Option Error
never_dies chunk = none

abbrev five_items : List ℕ
five_items = 1 ∷ 2 ∷ 3 ∷ 10 ∷ 4 ∷ []

abbrev two_workers : Config
two_workers = record { worker_count = some 2; min_items_for_parallel = some 3 }

abbrev no_workers : Config
no_workers = record { worker_count = some 0; min_items_for_parallel = none }

split_into_chunks_lem_example :
    (cs : List (List ℕ)) × (split_into_chunks five_items 2 ≡ some cs)
    × (concat cs ≡ five_items)
    × All (Sized ((length five_items + 1) / 2)) cs
    × (length cs ≤ 2)
split_into_chunks_lem_example = split_into_chunks_lem five_items 1

-- In the main thread the text fails for every item.
abbrev fails : ℕ → Outcome ℕ
fails n = threw "require is not defined"

process_with_workers_lem_example :
    ((length five_items < 3)
      × (process_with_workers doubled never_dies fails two_workers none 4 five_items
          ≡ some (ok (process_sequentially fails five_items))))
    ⊎ ((chunks : List (List ℕ)) × (r : Result (List ℕ)) × (3 ≤ length five_items)
        × (concat chunks ≡ five_items)
        × (process_with_workers doubled never_dies fails two_workers none 4 five_items ≡ some r)
        × ((r ≡ ok (process_sequentially doubled five_items))
            ⊎ ((e : Error) × (c : List ℕ) × In c chunks × (never_dies c ≡ some e) × (r ≡ err e))))
process_with_workers_lem_example =
    process_with_workers_lem doubled never_dies fails two_workers none 4 five_items

-- A list of five items is lost below the threshold, and processed by the workers.
five_lost :
    process_with_workers doubled never_dies fails no_workers none 4 five_items ≡ some (ok [])
unfolding process_with_workers process_sequentially
five_lost = refl

five_done :
    process_with_workers doubled never_dies fails two_workers none 4 five_items
    ≡ some (ok (4 ∷ 6 ∷ 8 ∷ []))
unfolding process_with_workers split_into_chunks chunks_from run_all run_worker worker_code
five_done = refl

process_in_batches_lem_example :
    process_in_batches doubled 6 two_workers none 4 five_items
    ≡ some (process_sequentially doubled five_items)
process_in_batches_lem_example =
    process_in_batches_lem doubled two_workers none 4 five_items (omega arith)

five-ne-nil : five_items ≢ []
five-ne-nil e = cc

process_in_batches-zero_example : process_in_batches doubled 6 no_workers none 4 five_items ≡ none
process_in_batches-zero_example =
    process_in_batches-zero doubled no_workers none 4 6 five_items refl five-ne-nil
