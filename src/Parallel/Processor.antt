-- ===== src/Parallel/Processor.antt =====
-- The class `ParallelProcessor` of src/common/utils/parallel-processor.util.ts. A worker thread
-- (node's `worker_threads`) is not part of the repository: whether one dies is a parameter.
use vnp_dbms_backend.Common.{
  ℕ, zero, suc, ◌+◌, ◌-◌, ◌*◌, ◌/◌, min, String, Option, none, some, List, [], ◌∷◌, ◌++◌, ltb,
  if◌then◌else◌, length, take, drop, get_or, Error, Result, ok, err,
}
use vnp_dbms_backend.Common.Text.{parse_positive}

pub record Config : Type 0 where
  pub worker_count : Option ℕ
  pub min_items_for_parallel : Option ℕ

abbrev pub default_worker_count : ℕ
default_worker_count = 8

abbrev pub min_items : ℕ
min_items = 100

abbrev capped : Option ℕ → ℕ → ℕ
capped none cpus = min default_worker_count cpus
capped (some n) cpus = min n (cpus * 2)

abbrev parsed : Option String → Option ℕ
parsed none = none
parsed (some text) = parse_positive text

-- `getWorkerCount`, from the variable PARALLEL_WORKERS and the number of processors.
unfoldable pub get_worker_count : Option String → ℕ → ℕ
get_worker_count env_workers cpus = capped (parsed env_workers) cpus

-- How a call of the processor ends: by a value, by `null`, or by an exception.
pub data Outcome (R : Type 0) : Type 0 where
  value : R → Outcome R
  null : Outcome R
  threw : String → Outcome R

pub record WorkerResult (R : Type 0) : Type 0 where
  pub results : List R
  pub errors : List String

-- `Math.ceil(items.length / numChunks)`; `none` is Infinity, the quotient by 0.
abbrev pub chunk_size_of : ℕ → ℕ → Option ℕ
chunk_size_of len zero = none
chunk_size_of len (suc k) = some ((len + k) / suc k)

module _ {A : Type 0} where
  -- `items.slice(from, to)`
  abbrev pub slice : List A → ℕ → ℕ → List A
  slice items from to = take (to - from) (drop from items)

  -- The loop of `splitIntoChunks` at index `i`; `none` means that the fuel ran out.
  unfoldable pub chunks_from : ℕ → List A → ℕ → ℕ → Option (List (List A))
  chunks_from zero items size i = none
  chunks_from (suc fuel) items size i =
      let rest = chunks_from fuel items size (i + size) in
      if ltb i (length items)
      then elim rest [ none ↦ none | some cs ↦ some (slice items i (i + size) ∷ cs) ]
      else some []

  -- With an infinite step the loop runs once, and `slice(0, Infinity)` is the whole list.
  abbrev chunks_by : Option ℕ → List A → Option (List (List A))
  chunks_by none [] = some []
  chunks_by none (x ∷ xs) = some ((x ∷ xs) ∷ [])
  chunks_by (some size) items = chunks_from (suc (length items)) items size 0

  unfoldable pub split_into_chunks : List A → ℕ → Option (List (List A))
  unfolding chunks_from
  split_into_chunks items num_chunks = chunks_by (chunk_size_of (length items) num_chunks) items

-- `processor` is what a text of JavaScript does to an item where it is compiled: in the main thread for
-- `processSequentially`, in the worker for the code of `runWorker`. The two can differ: `require` is a
-- global of a worker that is started from a text, and not of the main thread. The text compiles.
module _ {T R : Type 0} (processor : T → Outcome R) where
  -- `results.push(result)` for a result that is not null, before the results that follow
  abbrev pub push : Outcome R → List R → List R
  push (value r) rest = r ∷ rest
  push null rest = rest
  push (threw message) rest = rest

  unfoldable pub process_sequentially : List T → List R
  process_sequentially [] = []
  process_sequentially (x ∷ xs) = push (processor x) (process_sequentially xs)

  -- The loop of `processInBatches` at index `i`. The calls of one batch run concurrently, and their
  -- results are pushed in the order of the items.
  unfoldable pub batches_from : ℕ → List T → ℕ → ℕ → Option (List R)
  batches_from zero items size i = none
  batches_from (suc fuel) items size i =
      let rest = batches_from fuel items size (i + size) in
      if ltb i (length items)
      then elim rest [
        | none ↦ none
        | some rs ↦ some (process_sequentially (slice items i (i + size)) ++ rs)
      ]
      else some []

  unfoldable pub process_in_batches : ℕ → Config → Option String → ℕ → List T → Option (List R)
  process_in_batches fuel config env_workers cpus items =
      batches_from fuel items (get_or config.worker_count (get_worker_count env_workers cpus)) 0

-- The side of the worker: `in_worker` is what the text does there.
module _ {T R : Type 0} (in_worker : T → Outcome R) where
  abbrev collect : Outcome R → WorkerResult R → WorkerResult R
  collect (value r) w = record w { results = r ∷ w.results }
  collect null w = w
  collect (threw message) w = record w { errors = message ∷ w.errors }

  -- The code that `runWorker` runs in the thread.
  unfoldable pub worker_code : List T → WorkerResult R
  worker_code [] = record { results = []; errors = [] }
  worker_code (x ∷ xs) = collect (in_worker x) (worker_code xs)

  module _ (dies : List T → Option Error) where
    -- The promise of `runWorker`: rejected if the thread dies before it posts its message.
    unfoldable pub run_worker : List T → Result (WorkerResult R)
    run_worker chunk = elim (dies chunk) [ none ↦ ok (worker_code chunk) | some e ↦ err e ]

    -- `Promise.all` of the workers, and `flatMap(r => r.results)`
    abbrev join : Result (WorkerResult R) → Result (List R) → Result (List R)
    join (err e) rest = err e
    join (ok w) (err e) = err e
    join (ok w) (ok rs) = ok (w.results ++ rs)

    unfoldable pub run_all : List (List T) → Result (List R)
    unfolding run_worker
    run_all [] = ok []
    run_all (c ∷ cs) = join (run_worker c) (run_all cs)

    -- `processWithWorkers`, with what the text does in the main thread and in a worker; `none` means that the
    -- loop of `splitIntoChunks` did not end.
    unfoldable pub process_with_workers :
        (in_main : T → Outcome R) → Config → Option String → ℕ → List T → Option (Result (List R))
    process_with_workers in_main config env_workers cpus items =
        let count = get_or config.worker_count (get_worker_count env_workers cpus) in
        if ltb (length items) (get_or config.min_items_for_parallel min_items)
        then some (ok (process_sequentially in_main items))
        else elim (split_into_chunks items count) [
          | none ↦ none
          | some chunks ↦ some (run_all chunks)
        ]
