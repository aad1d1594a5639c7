-- ===== src/Loader/Cover.antt =====
-- The ranges of the loader (sample_app/loader.py) leave no id out and repeat none.
use scylla_k8s_example.Base.{
  ℕ, zero, suc, ◌+◌, ◌-◌, ◌*◌, ◌/◌, ◌%◌, ◌≤◌, ◌<◌, ◌≡◌, refl, sym, ap, ◌∙◌,
}
use scylla_k8s_example.Base.{All, List, [], ◌∷◌, ◌++◌, some, arith, Bool-cases, inl, inr, leb, ltb}
use scylla_k8s_example.Base.{leb→le, leb-false→lt, ltb→lt}
use native.Mathlib.Nat.{add-mul, mul_comm}
use scylla_k8s_example.Loader.Ranges.{
  ids_from, range, min, Span, chunked_ids, span_of, Job, jobs_from, processes, jobs,
}

-- The ids of consecutive batches, and of jobs.
unfoldable pub ids_of_spans : List Span → List ℕ
ids_of_spans [] = []
ids_of_spans ((s, t) ∷ l) = range s (t + 1) ++ ids_of_spans l

unfoldable pub ids_of_jobs : List Job → List ℕ
ids_of_jobs [] = []
ids_of_jobs (j ∷ l) = range j.start_id (j.end_id + 1) ++ ids_of_jobs l

pub ids_from-append : (a m n : ℕ) → ids_from a m ++ ids_from (a + m) n ≡ ids_from a (m + n)
unfolding ids_from
ids_from-append a zero n =
    let same_start : a + 0 ≡ a = omega arith in
    let same_count : n ≡ 0 + n = omega arith in
    ap (λ x. ids_from x n) same_start ∙ ap (ids_from a) same_count
ids_from-append a (suc m) n =
    let same_start : a + suc m ≡ suc a + m = omega arith in
    let same_count : suc (m + n) ≡ suc m + n = omega arith in
    ap (λ x. a ∷ (ids_from (suc a) m ++ ids_from x n)) same_start
    ∙ ap (λ l. a ∷ l) (ids_from-append (suc a) m n)
    ∙ ap (ids_from a) same_count

pub range-append : (a b c : ℕ) → a ≤ b → b ≤ c → range a b ++ range b c ≡ range a c
range-append a b c h k =
    let first : b ≡ a + (b - a) = omega arith in
    let both : (b - a) + (c - b) ≡ c - a = omega arith in
    ap (λ x. range a b ++ ids_from x (c - b)) first
    ∙ ids_from-append a (b - a) (c - b)
    ∙ ap (ids_from a) both

pub range-empty : (a b : ℕ) → b ≤ a → range a b ≡ []
unfolding ids_from
range-empty a b h = let none_left : b - a ≡ 0 = omega arith in ap (ids_from a) none_left

min-bounds : (a b : ℕ) → (min a b ≤ a) × ((min a b ≤ b) × ((c : ℕ) → c ≤ a → c ≤ b → c ≤ min a b))
min-bounds a b = (ground arith, (ground arith, λ c h k. ground arith))

-- Each batch starts where the last one ended, so the loop ends and the batches hold the ids from
-- `i` to the end, in order.
pub chunked_ids-total :
    (fuel i end_id batch_size : ℕ)
    → 1 ≤ i
    → 1 ≤ batch_size
    → end_id + 1 - i < fuel
    → (l : List Span) × ((chunked_ids fuel i end_id batch_size ≡ some l)
        × (ids_of_spans l ≡ range i (end_id + 1)))
unfolding chunked_ids ids_of_spans
chunked_ids-total zero i end_id batch_size h k enough = absurd (omega arith)
chunked_ids-total (suc fuel) i end_id batch_size h k enough = elim (Bool-cases (leb i end_id)) [
  | inl more ↦
      let i_le = leb→le i end_id more in
      let j = min (i + batch_size - 1) end_id in
      let (_, (j_le, j_least)) = min-bounds (i + batch_size - 1) end_id in
      let i_le_j = j_least i (omega arith) i_le in
      let (l, (found, ids)) =
        chunked_ids-total fuel (j + 1) end_id batch_size (omega arith) k (omega arith) in
      (
        (i, j) ∷ l,
        (
          rw more (rw found refl),
          ap (λ r. range i (j + 1) ++ r) ids
              ∙ range-append i (j + 1) (end_id + 1) (omega arith) (omega arith),
        ),
      )
  | inr done ↦
      let past = leb-false→lt i end_id done in
      ([], (rw done refl, sym (range-empty i (end_id + 1) (omega arith))))
]

append_nil : (l : List ℕ) → l ++ [] ≡ l
append_nil [] = refl
append_nil (x ∷ l) = ap (λ r. x ∷ r) (append_nil l)

-- Two neighbouring ranges, both cut off at the last id.
range-min :
    (a b c top : ℕ)
    → a ≤ b
    → b ≤ c
    → range (a + 1) (min b top + 1) ++ range (b + 1) (min c top + 1) ≡ range (a + 1) (min c top + 1)
range-min a b c top h k = elim (Bool-cases (leb b top)) [
  | inl inside ↦
      let b_le = leb→le b top inside in
      let (_, (_, least)) = min-bounds c top in
      let b_min : min b top ≡ b = ground arith in
      let b_le_min = least b k b_le in
      ap (λ m. range (a + 1) (m + 1) ++ range (b + 1) (min c top + 1)) b_min
      ∙ range-append (a + 1) (b + 1) (min c top + 1) (omega arith) (omega arith)
  | inr outside ↦
      let top_lt = leb-false→lt b top outside in
      let b_min : min b top ≡ top = ground arith in
      let c_min : min c top ≡ top = ground arith in
      ap (λ m. range (a + 1) (m + 1) ++ range (b + 1) (min c top + 1)) b_min
      ∙ ap (λ r. range (a + 1) (top + 1) ++ r)
          (range-empty (b + 1) (min c top + 1) (omega (arith, c_min)))
      ∙ append_nil (range (a + 1) (top + 1))
      ∙ ap (λ m. range (a + 1) (m + 1)) (sym c_min)
]

-- The jobs of the workers from `w` on hold the ids from the start of worker `w` on, in order.
jobs_from-ids :
    (span row_count n w : ℕ)
    → ids_of_jobs (jobs_from span row_count w n)
      ≡ range (w * span + 1) (min ((w + n) * span) row_count + 1)
unfolding jobs_from ids_of_jobs
jobs_from-ids span row_count zero w =
    let here_ends : (w + 0) * span ≡ w * span = ap (λ x. x * span) (omega arith) in
    let (le, _) = min-bounds ((w + 0) * span) row_count in sym (range-empty _ _ (omega arith))
jobs_from-ids span row_count (suc n) w =
    let ih = jobs_from-ids span row_count n (suc w) in
    let next : suc w * span ≡ w * span + span = omega arith in
    let same_end : (suc w + n) * span ≡ (w + suc n) * span = ap (λ x. x * span) (omega arith) in
    let later : (w + suc n) * span ≡ (w * span + span) + n * span =
      add-mul w (suc n) span ∙ omega (arith, add-mul 1 n span) in
    let joined =
      ap (λ r. range (w * span + 1) (min (suc w * span) row_count + 1) ++ r) ih
      ∙ range-min (w * span) (suc w * span) ((suc w + n) * span) row_count (omega arith)
          (omega arith)
      ∙ ap (λ x. range (w * span + 1) (min x row_count + 1)) same_end in
    elim (Bool-cases (ltb (min (suc w * span) row_count) (w * span + 1))) [
      | inl none_left ↦
          let is_empty =
            range-empty (w * span + 1) (min (suc w * span) row_count + 1)
              (omega (arith, ltb→lt _ _ none_left)) in
          rw none_left (
            ap (λ r. r ++ ids_of_jobs (jobs_from span row_count (suc w) n)) (sym is_empty) ∙ joined)
      | inr some_left ↦ rw some_left joined
    ]

span_of-enough : (row_count procs : ℕ) → 1 ≤ procs → row_count ≤ procs * span_of row_count procs
span_of-enough row_count procs h =
    let divides : (row_count + procs - 1) / procs * procs + (row_count + procs - 1) % procs
        ≡ row_count + procs - 1 =
      omega arith in
    let remainder : (row_count + procs - 1) % procs < procs = omega arith in
    let turned : procs * span_of row_count procs ≡ span_of row_count procs * procs =
      mul_comm procs _ in
    omega (arith, divides, remainder, turned)

processes-positive : (workers cpus : ℕ) → 1 ≤ processes workers cpus
processes-positive workers cpus = ground arith

-- However many workers there are, the ids of all jobs are those from one to the number of rows,
-- each once and in order.
pub jobs-ids :
    (row_count workers cpus : ℕ)
    → ids_of_jobs (jobs row_count workers cpus) ≡ range 1 (row_count + 1)
unfolding jobs
jobs-ids row_count workers cpus =
    let procs = processes workers cpus in
    let enough = span_of-enough row_count procs (processes-positive workers cpus) in
    let span = span_of row_count procs in
    let start : 0 * span + 1 ≡ 1 = omega arith in
    let same_count : (0 + procs) * span ≡ procs * span = ap (λ x. x * span) (omega arith) in
    let last : min (procs * span) row_count ≡ row_count = ground arith in
    jobs_from-ids span row_count procs 0
    ∙ ap (λ a. range a (min ((0 + procs) * span) row_count + 1)) start
    ∙ ap (λ x. range 1 (min x row_count + 1)) same_count
    ∙ ap (λ x. range 1 (x + 1)) last

jobs_from-start :
    (span row_count n w : ℕ) → All (λ j. 1 ≤ j.start_id) (jobs_from span row_count w n)
unfolding jobs_from
jobs_from-start span row_count zero w = tt
jobs_from-start span row_count (suc n) w =
    let ih = jobs_from-start span row_count n (suc w) in
    elim (Bool-cases (ltb (min (suc w * span) row_count) (w * span + 1))) [
      | inl none_left ↦ rw none_left ih
      | inr some_left ↦ rw some_left (omega arith, ih)
    ]

pub jobs-start :
    (row_count workers cpus : ℕ) → All (λ j. 1 ≤ j.start_id) (jobs row_count workers cpus)
unfolding jobs
jobs-start row_count workers cpus = jobs_from-start _ row_count _ 0
