-- ===== src/Loader/Insert.antt =====
-- The workers of the loader (sample_app/loader.py, `_worker_insert_range`, `insert_data_parallel`).
use scylla_k8s_example.Base.{
  ℕ, suc, ◌+◌, ◌-◌, Bool, true, false, List, [], ◌∷◌, ◌++◌, Option, none, some, length, and_then,
  ◌⊎◌, inl, inr, String,
}
use scylla_k8s_example.Loader.Ranges.{range, Span, chunked_ids, Job, jobs}
use scylla_k8s_example.Loader.Row.{Draws, Row, generate_row}

-- What the loader asks of the outside: the draws for each id, and what
-- `execute_concurrent_with_args` does with a batch. It says of each row whether it was written, or
-- raises (`inr`) its first error.
pub record World : Type 0 where
  pub draws : ℕ → Draws
  pub execute : List Row → List Bool ⊎ String

-- How a step ends: with a result, with an exception, or never.
pub data Result (A : Type 0) : Type 0 where
  finished : A → Result A
  refused : String → Result A
  endless : Result A

module _ {A B : Type 0} where
  unfoldable pub then_do : Result A → (A → Result B) → Result B
  then_do (finished a) f = f a
  then_do (refused m) f = refused m
  then_do endless f = endless

  unfoldable pub when_some : Option A → (A → Result B) → Result B
  when_some none f = endless
  when_some (some a) f = f a

-- What a worker returns, with the rows that it has sent, in order.
pub record Tally : Type 0 where
  pub total : ℕ
  pub failed : ℕ
  pub sent : List Row

abbrev pub nothing : Tally
nothing = record { total = 0; failed = 0; sent = [] }

-- `total_rows += cnt` and `total_failed += failed`
abbrev pub merge : Tally → Tally → Tally
merge t u = record {
  total = t.total + u.total;
  failed = t.failed + u.failed;
  sent = t.sent ++ u.sent;
}

-- `sum(1 for (success, _) in results if not success)`
unfoldable pub failures : List Bool → ℕ
failures [] = 0
failures (true ∷ l) = failures l
failures (false ∷ l) = suc (failures l)

module _ (w : World) (offset num_buckets : ℕ) where
  -- `[generate_row(fake, i + offset, num_buckets) for i in ids]`
  unfoldable pub batch_of : List ℕ → Option (List Row)
  batch_of [] = some []
  batch_of (i ∷ ids) =
      and_then (generate_row (w.draws (i + offset)) (i + offset) num_buckets)
        λ row. and_then (batch_of ids) λ rows. some (row ∷ rows)

  -- A batch that was sent, added to the tally.
  abbrev pub with_batch : Tally → List Row → List Bool ⊎ String → Result Tally
  with_batch t batch (inl results) = finished (record {
    total = t.total + length batch;
    failed = t.failed + failures results;
    sent = t.sent ++ batch;
  })
  with_batch t batch (inr m) = refused m

  -- One batch. It is sent once each of its rows has its message.
  unfoldable pub insert_batch : Span → Tally → Result Tally
  insert_batch (s, e) t =
      when_some (batch_of (range s (e + 1))) λ batch. with_batch t batch (w.execute batch)

  unfoldable pub insert_batches : List Span → Tally → Result Tally
  insert_batches [] t = finished t
  insert_batches (span ∷ l) t = then_do (insert_batch span t) (insert_batches l)

  -- One round per id is enough.
  unfoldable pub worker_insert_range : ℕ → Job → Result Tally
  worker_insert_range batch_size j =
      when_some (chunked_ids (suc (j.end_id + 1 - j.start_id)) j.start_id j.end_id batch_size)
        λ l. insert_batches l nothing

  -- The results of the jobs, added up in their order. `j.get()` raises what the worker raised.
  unfoldable pub gather : ℕ → List Job → Tally → Result Tally
  gather batch_size [] t = finished t
  gather batch_size (j ∷ l) t =
      then_do (worker_insert_range batch_size j) λ u. gather batch_size l (merge t u)

  unfoldable pub insert_data_parallel : ℕ → ℕ → ℕ → ℕ → Result Tally
  insert_data_parallel row_count batch_size workers cpus =
      gather batch_size (jobs row_count workers cpus) nothing
