-- ===== src/Loader/Ranges.antt =====
-- How the ids are divided among the workers, and a worker's ids into batches
-- (sample_app/loader.py, `insert_data_parallel`, `chunked_ids`).
use scylla_k8s_example.Base.{ℕ, zero, suc, ◌+◌, ◌-◌, ◌*◌, ◌/◌, List, [], ◌∷◌, Option, none, some}
use scylla_k8s_example.Base.{leb, ltb, if◌then◌else◌}

-- `range(a, a + n)` and `range(a, b)`
unfoldable pub ids_from : ℕ → ℕ → List ℕ
ids_from a zero = []
ids_from a (suc n) = a ∷ ids_from (suc a) n

abbrev pub range : ℕ → ℕ → List ℕ
range a b = ids_from a (b - a)

-- `min(a, b)`
abbrev pub min : ℕ → ℕ → ℕ
min a b = if leb a b then a else b

abbrev pub Span : Type 0
Span = ℕ × ℕ

-- The loop of `chunked_ids`, with the fuel that is left. Ids start at one.
unfoldable pub chunked_ids : ℕ → ℕ → ℕ → ℕ → Option (List Span)
chunked_ids zero i end_id batch_size = none
chunked_ids (suc fuel) i end_id batch_size =
    let j = min (i + batch_size - 1) end_id in
    let rest = chunked_ids fuel (j + 1) end_id batch_size in
    if leb i end_id then elim rest [ none ↦ none | some l ↦ some ((i, j) ∷ l) ] else some []

-- `ceil(row_count / procs)`, for fewer than 2 ^ 53 rows.
abbrev pub span_of : ℕ → ℕ → ℕ
span_of row_count procs = (row_count + procs - 1) / procs

-- A worker and its ids.
pub record Job : Type 0 where
  pub worker_index : ℕ
  pub start_id : ℕ
  pub end_id : ℕ

-- `for w in range(w, w + n)`
unfoldable pub jobs_from : ℕ → ℕ → ℕ → ℕ → List Job
jobs_from span row_count w zero = []
jobs_from span row_count w (suc n) =
    let rest = jobs_from span row_count (suc w) n in
    let start = w * span + 1 in
    let last = min (suc w * span) row_count in
    if ltb last start
    then rest
    else record { worker_index = w; start_id = start; end_id = last } ∷ rest

-- `max(1, workers if workers > 0 else cpu_count())`
abbrev pub processes : ℕ → ℕ → ℕ
processes workers cpus =
    let procs = if ltb 0 workers then workers else cpus in if leb 1 procs then procs else 1

unfoldable pub jobs : ℕ → ℕ → ℕ → List Job
jobs row_count workers cpus =
    let procs = processes workers cpus in jobs_from (span_of row_count procs) row_count 0 procs
