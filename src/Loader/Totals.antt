-- ===== src/Loader/Totals.antt =====
-- What a run of the loader has inserted (sample_app/loader.py).
use Prim.Native.String.{count}
use scylla_k8s_example.Base.{
  ℕ, zero, suc, ◌+◌, ◌-◌, ◌%◌, ◌≤◌, ◌≡◌, refl, sym, ap, subst, ◌∙◌, List, [], ◌∷◌, ◌++◌,
}
use scylla_k8s_example.Base.{
  Option, Bool, String, ◌⊎◌, inl, inr, map, some, All, length, length-append, arith, and_then-some,
}
use scylla_k8s_example.Loader.Ranges.{ids_from, range, Span, Job, jobs}
use scylla_k8s_example.Loader.Cover.{
  ids_of_spans, ids_of_jobs, chunked_ids-total, jobs-ids, jobs-start,
}
use scylla_k8s_example.Loader.Row.{Row, generate_row-total}
use scylla_k8s_example.Loader.Insert.{
  World, Tally, Result, finished, refused, endless, then_do, when_some, nothing, with_batch, merge,
  batch_of, insert_batch, insert_batches,
}
use scylla_k8s_example.Loader.Insert.{worker_insert_range, gather, insert_data_parallel}

-- The primary keys of the rows of an id: its bucket, and the id with the offset.
abbrev pub key_of : ℕ → ℕ → ℕ → ℕ × ℕ
key_of offset num_buckets i = ((i + offset) % num_buckets, i + offset)

abbrev pub key : Row → ℕ × ℕ
key r = (r.bucket, r.id)

-- Every sentence has a character.
abbrev pub Speaks : World → Type 0
Speaks w = (i k : ℕ) → 1 ≤ count ((w.draws i).sentence k)

pub map-append : {A B : Type 0} (f : A → B) (l m : List A) → map f (l ++ m) ≡ map f l ++ map f m
map-append f [] m = refl
map-append f (x ∷ l) m = ap (λ r. f x ∷ r) (map-append f l m)

append_assoc : {A : Type 0} (l m n : List A) → (l ++ m) ++ n ≡ l ++ (m ++ n)
append_assoc [] m n = refl
append_assoc (x ∷ l) m n = ap (λ r. x ∷ r) (append_assoc l m n)

append_nil : {A : Type 0} (l : List A) → l ≡ l ++ []
append_nil [] = refl
append_nil (x ∷ l) = ap (λ r. x ∷ r) (append_nil l)

ids_from-length : (a n : ℕ) → length (ids_from a n) ≡ n
unfolding ids_from
ids_from-length a zero = refl
ids_from-length a (suc n) = ap suc (ids_from-length (suc a) n)

-- The tally after the rows of the ids have been sent.
abbrev pub Grown : ℕ → ℕ → List ℕ → Tally → Tally → Type 0
Grown offset num_buckets ids t u =
    (u.total ≡ t.total + length ids)
    × (map key u.sent ≡ map key t.sent ++ map (key_of offset num_buckets) ids)

-- The step ends: with a result that satisfies this, or with the exception that the driver raised for
-- a batch.
abbrev pub Ends : World → (Tally → Type 0) → Result Tally → Type 0
Ends w P (finished t) = P t
Ends w P (refused m) = (batch : List Row) × (w.execute batch ≡ inr m)
Ends w P endless = ⊥

module _ (w : World) (offset num_buckets : ℕ) (h : 1 ≤ num_buckets) (k : Speaks w) where
  pub batch_of-keys :
      (ids : List ℕ)
      → (rows : List Row) × ((batch_of w offset num_buckets ids ≡ some rows)
          × ((length rows ≡ length ids) × (map key rows ≡ map (key_of offset num_buckets) ids)))
  unfolding batch_of
  batch_of-keys [] = ([], (refl, (refl, refl)))
  batch_of-keys (i ∷ ids) =
      let (r, (found, (same_id, (same_bucket, _)))) =
        generate_row-total (w.draws (i + offset)) (i + offset) num_buckets h (k (i + offset)) in
      let (rows, (others, (size, keys))) = batch_of-keys ids in
      (
        r ∷ rows,
        (
          and_then-some found _ ∙ and_then-some others _,
          (
            ap suc size,
            ap (λ b. (b, r.id) ∷ map key rows) same_bucket
                ∙ ap (λ j. ((i + offset) % num_buckets, j) ∷ map key rows) same_id
                ∙ ap (λ l. key_of offset num_buckets i ∷ l) keys,
          ),
        ),
      )

  Grown-append :
      (l m : List ℕ) (t u v : Tally)
      → Grown offset num_buckets l t u
      → Grown offset num_buckets m u v
      → Grown offset num_buckets (l ++ m) t v
  Grown-append l m t u v (a, x) (b, y) = (
    omega (arith, a, b, length-append l m),
    y
        ∙ ap (λ r. r ++ map (key_of offset num_buckets) m) x
        ∙ append_assoc (map key t.sent) _ _
        ∙ ap (λ r. map key t.sent ++ r) (sym (map-append (key_of offset num_buckets) l m)),
  )

  Ends-then :
      (P Q : Tally → Type 0) (x : Result Tally) (f : Tally → Result Tally)
      → Ends w P x
      → ((t : Tally) → P t → Ends w Q (f t))
      → Ends w Q (then_do x f)
  unfolding then_do
  Ends-then P Q (finished t) f p k = k t p
  Ends-then P Q (refused m) f p k = p
  Ends-then P Q endless f p k = absurd p

  pub Ends-map :
      (P Q : Tally → Type 0) (x : Result Tally)
      → Ends w P x
      → ((t : Tally) → P t → Q t)
      → Ends w Q x
  Ends-map P Q (finished t) p k = k t p
  Ends-map P Q (refused m) p k = p
  Ends-map P Q endless p k = absurd p

  Ends-found :
      {A : Type 0} (Q : Tally → Type 0) (o : Option A) (f : A → Result Tally) {a : A}
      → o ≡ some a
      → Ends w Q (f a)
      → Ends w Q (when_some o f)
  unfolding when_some
  Ends-found Q o f e k = rw e k

  with_batch-Grown :
      (ids : List ℕ) (rows : List Row) (t : Tally) (answer : List Bool ⊎ String)
      → w.execute rows ≡ answer
      → length rows ≡ length ids
      → map key rows ≡ map (key_of offset num_buckets) ids
      → Ends w (Grown offset num_buckets ids t) (with_batch w offset num_buckets t rows answer)
  with_batch-Grown ids rows t (inl results) asked size keys =
      (ap (λ n. t.total + n) size, map-append key t.sent rows ∙ ap (λ r. map key t.sent ++ r) keys)
  with_batch-Grown ids rows t (inr m) asked size keys = (rows, asked)

  insert_batch-Grown :
      (s e : ℕ) (t : Tally)
      → Ends w
          (Grown offset num_buckets (range s (e + 1)) t)
          (insert_batch w offset num_buckets (s, e) t)
  unfolding insert_batch
  insert_batch-Grown s e t =
      let ids = range s (e + 1) in
      let (rows, (made, (size, keys))) = batch_of-keys ids in
      Ends-found (Grown offset num_buckets ids t) (batch_of w offset num_buckets ids) _ made
        (with_batch-Grown ids rows t (w.execute rows) refl size keys)

  insert_batches-Grown :
      (l : List Span) (t : Tally)
      → Ends w
          (Grown offset num_buckets (ids_of_spans l) t)
          (insert_batches w offset num_buckets l t)
  unfolding insert_batches ids_of_spans
  insert_batches-Grown [] t = (omega arith, append_nil (map key t.sent))
  insert_batches-Grown ((s, e) ∷ l) t =
      let first = range s (e + 1) in
      let all = Grown offset num_buckets (first ++ ids_of_spans l) t in
      Ends-then (Grown offset num_buckets first t) all (insert_batch w offset num_buckets (s, e) t)
        _ (insert_batch-Grown s e t)
        λ u grown.
          Ends-map (Grown offset num_buckets (ids_of_spans l) u) all
            (insert_batches w offset num_buckets l u) (insert_batches-Grown l u)
            λ v grown'. Grown-append first (ids_of_spans l) t u v grown grown'

  module _ (batch_size : ℕ) (b : 1 ≤ batch_size) where
    pub worker_insert_range-Grown :
        (j : Job)
        → 1 ≤ j.start_id
        → Ends w
            (Grown offset num_buckets (range j.start_id (j.end_id + 1)) nothing)
            (worker_insert_range w offset num_buckets batch_size j)
    unfolding worker_insert_range
    worker_insert_range-Grown j first =
        let (l, (made, ids)) =
          chunked_ids-total (suc (j.end_id + 1 - j.start_id)) j.start_id j.end_id batch_size first b
            (omega arith) in
        Ends-found (Grown offset num_buckets (range j.start_id (j.end_id + 1)) nothing) _ _ made (
          subst
            (λ i.
              Ends w (Grown offset num_buckets i nothing)
                (insert_batches w offset num_buckets l nothing))
            ids (insert_batches-Grown l nothing))

    gather-Grown :
        (l : List Job) (t : Tally)
        → All (λ j. 1 ≤ j.start_id) l
        → Ends w
            (Grown offset num_buckets (ids_of_jobs l) t)
            (gather w offset num_buckets batch_size l t)
    unfolding gather ids_of_jobs
    gather-Grown [] t a = (omega arith, append_nil (map key t.sent))
    gather-Grown (j ∷ l) t (first, a) =
        let ids = range j.start_id (j.end_id + 1) in
        let all = Grown offset num_buckets (ids ++ ids_of_jobs l) t in
        Ends-then (Grown offset num_buckets ids nothing) all
          (worker_insert_range w offset num_buckets batch_size j) _
          (worker_insert_range-Grown j first)
          λ u (total, keys).
            let merged : Grown offset num_buckets ids t (merge t u) = (
              omega (arith, total),
              map-append key t.sent u.sent ∙ ap (λ r. map key t.sent ++ r) keys,
            ) in
            Ends-map (Grown offset num_buckets (ids_of_jobs l) (merge t u)) all
              (gather w offset num_buckets batch_size l (merge t u)) (gather-Grown l (merge t u) a)
              λ v grown. Grown-append ids (ids_of_jobs l) t (merge t u) v merged grown

    -- If batches have at least one row, there is at least one bucket, and each sentence that
    -- `faker` makes has a character, then the loader ends. It ends with an exception only if the
    -- driver raised it for a batch; otherwise, whatever the number of workers, the total it reports
    -- is the number of rows asked for, and the keys of the rows it has sent are those of the ids
    -- from one to that number, with the offset added, each once and in order.
    pub insert_data_parallel-total :
        (row_count workers cpus : ℕ)
        → Ends w
            (λ t.
              (t.total ≡ row_count)
              × (map key t.sent ≡ map (key_of offset num_buckets) (range 1 (row_count + 1))))
            (insert_data_parallel w offset num_buckets row_count batch_size workers cpus)
    unfolding insert_data_parallel
    insert_data_parallel-total row_count workers cpus =
        let l = jobs row_count workers cpus in
        let ids = jobs-ids row_count workers cpus in
        let size = ap length ids ∙ ids_from-length 1 (row_count + 1 - 1) in
        Ends-map (Grown offset num_buckets (ids_of_jobs l) nothing) _
          (gather w offset num_buckets batch_size l nothing)
          (gather-Grown l nothing (jobs-start row_count workers cpus))
          λ t (total, keys).
            (omega (arith, total, size), keys ∙ ap (map (key_of offset num_buckets)) ids)
