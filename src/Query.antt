-- ===== src/Query.antt =====
-- The query runner (sample_app/query.py, `TableQueryRunner`): the key that it looks up, what an
-- attempt means for its counters, and the final statistics.
pub mod Main
use scylla_k8s_example.Base.{
  ℕ, zero, suc, ◌+◌, ◌-◌, ◌%◌, ◌≤◌, ◌<◌, ◌≡◌, sym, ap, subst, Bool, true, false,
}
use scylla_k8s_example.Base.{
  List, [], ◌∷◌, map, some, arith, leb, if◌then◌else◌, Bool-cases, inl, inr,
}
use scylla_k8s_example.Base.{leb→le, leb-false→lt}
use scylla_k8s_example.Base.{length, nat_eq}
use scylla_k8s_example.Base.Text.{ℤ, pos, negsuc}
use scylla_k8s_example.Exec.Steps.{Some, here, there}
use scylla_k8s_example.Loader.Ranges.{ids_from, range}
use scylla_k8s_example.Loader.Insert.{World, Tally, insert_data_parallel}
use scylla_k8s_example.Loader.Totals.{
  key, key_of, Speaks, Ends, Ends-map, insert_data_parallel-total,
}

-- The prepared query is `none` when preparing it failed.
pub record Runner : Type 0 where
  pub prepared : Bool
  pub query_count : ℕ
  pub error_count : ℕ

-- What one attempt meets, for the number that `random.randint(1, row_count)` drew: an answer of some
-- rows, an exception, or an answer whose first row lacks the columns of the sample.
pub data Attempt : Type 0 where
  rows : ℕ → ℕ → Attempt
  exception : ℕ → Attempt
  unreadable : ℕ → Attempt

-- The bucket and the id that are looked up.
abbrev pub looked_up : ℕ → ℕ → ℕ → ℕ × ℕ
looked_up id_offset num_buckets drawn = let rid = id_offset + drawn in (rid % num_buckets, rid)

-- What an attempt means for the counters, and its result.
unfoldable pub execute_query : Attempt → Runner → Bool × Runner
execute_query (rows drawn n) r =
    if r.prepared then (true, record r { query_count = r.query_count + 1 }) else (false, r)
execute_query (exception drawn) r =
    if r.prepared then (false, record r { error_count = r.error_count + 1 }) else (false, r)
execute_query (unreadable drawn) r =
    if r.prepared
    then (false, record r { query_count = r.query_count + 1; error_count = r.error_count + 1 })
    else (false, r)

-- `a - b`
abbrev minus : ℕ → ℕ → ℤ
minus a b = if leb b a then pos (a - b) else negsuc (b - a - 1)

-- The numbers of the final statistics: queries, "successful" and "failed" ones.
abbrev pub statistics : Runner → ℕ × (ℤ × ℕ)
statistics r = (r.query_count, (minus r.query_count r.error_count, r.error_count))

Some-range :
    (f : ℕ → ℕ × ℕ) (i a n : ℕ) → a ≤ i → i < a + n → Some (λ k. k ≡ f i) (map f (ids_from a n))
unfolding ids_from
Some-range f i a zero h k = absurd (omega arith)
Some-range f i a (suc n) h k = elim (Bool-cases (leb i a)) [
  | inl e ↦ here (ap f (omega (arith, leb→le i a e, h)))
  | inr e ↦ there (Some-range f i (suc a) n (omega (arith, leb-false→lt i a e)) (omega arith))
]

-- With the loader's offset, buckets and number of rows, each key that a query can look up is among
-- those that the loader has sent, unless the driver refused a batch: the loader ends in one of these
-- ways, if batches have at least one row, there is at least one bucket, and each sentence that
-- `faker` makes has a character.
pub looked_up-sent :
    (w : World) (offset num_buckets : ℕ)
    → 1 ≤ num_buckets
    → Speaks w
    → (batch_size row_count workers cpus drawn : ℕ) → 1 ≤ batch_size
    → 1 ≤ drawn
    → drawn ≤ row_count
    → Ends w
        (λ t. Some (λ k. k ≡ looked_up offset num_buckets drawn) (map key t.sent))
        (insert_data_parallel w offset num_buckets row_count batch_size workers cpus)
looked_up-sent w offset num_buckets h k batch_size row_count workers cpus drawn b lo hi =
    let same_key : key_of offset num_buckets drawn ≡ looked_up offset num_buckets drawn =
      ap (λ i. (i % num_buckets, i)) (omega arith) in
    let sent =
      Some-range (key_of offset num_buckets) drawn 1 (row_count + 1 - 1) lo (omega arith) in
    Ends-map w offset num_buckets h k
      (λ t.
        (t.total ≡ row_count)
        × (map key t.sent ≡ map (key_of offset num_buckets) (range 1 (row_count + 1))))
      _ (insert_data_parallel w offset num_buckets row_count batch_size workers cpus)
      (insert_data_parallel-total w offset num_buckets h k batch_size b row_count workers cpus)
      λ t (total, keys).
        subst (λ l. Some (λ k. k ≡ looked_up offset num_buckets drawn) l) (sym keys)
          (subst
            (λ x. Some (λ k. k ≡ x) (map (key_of offset num_buckets) (range 1 (row_count + 1))))
            same_key sent)
