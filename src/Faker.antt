-- ===== src/Faker.antt =====
-- The ids of the users that the generator inserts in batches
-- (sample_app/alternator-client/cql-faker.py, `generate_data`, `main`).
use scylla_k8s_example.Base.{
  ℕ, zero, suc, ◌+◌, ◌-◌, ◌*◌, ◌⊎◌, ◌≤◌, ◌<◌, ◌≡◌, refl, sym, ap, ◌∙◌, List, [], ◌++◌, Option, none,
  some,
}
use scylla_k8s_example.Base.{arith, ltb, ltb→lt, ltb-false→le, if◌then◌else◌, Bool-cases, inl, inr}
use scylla_k8s_example.Base.{and_then, and_then-some}
use scylla_k8s_example.Loader.Ranges.{ids_from}
use scylla_k8s_example.Loader.Cover.{ids_from-append}

-- The ids of the users of `generate_data(start_id, num_records)`.
abbrev pub generated : ℕ → ℕ → List ℕ
generated start_id num_records = ids_from start_id num_records

-- The loop of cql-faker.py, whose batches are always full, with the fuel that is left.
unfoldable pub insert_full : ℕ → ℕ → ℕ → ℕ → ℕ → Option (List ℕ)
insert_full zero i num_inserts batch_size next_id = none
insert_full (suc fuel) i num_inserts batch_size next_id =
    let users = generated next_id batch_size in
    let rest = insert_full fuel (i + batch_size) num_inserts batch_size (next_id + batch_size) in
    if ltb i num_inserts then and_then rest (λ l. some (users ++ l)) else some []

-- `k` full batches are enough for `left` users, and fewer are not.
abbrev RoundsUp : ℕ → ℕ → ℕ → Type 0
RoundsUp left b k = (left ≤ k * b) × ((k * b ≤ left + (b - 1)) × ((k ≡ 0) ⊎ (1 ≤ left)))

full_from :
    (fuel i n b start : ℕ)
    → 1 ≤ b
    → n - i < fuel
    → (k : ℕ) × ((insert_full fuel i n b start ≡ some (ids_from start (k * b)))
        × RoundsUp (n - i) b k)
unfolding insert_full ids_from
full_from zero i n b start h enough = absurd (omega arith)
full_from (suc fuel) i n b start h enough = elim (Bool-cases (ltb i n)) [
  | inl more ↦
      let i_lt = ltb→lt i n more in
      let (k, (found, (lo, (hi, last)))) = full_from fuel (i + b) n b (start + b) h (omega arith) in
      let one_more : suc k * b ≡ b + k * b = omega arith in
      let hi' : suc k * b ≤ n - i + (b - 1) = elim last [
        | inl none_more ↦
            let only : k * b ≡ 0 = ap (λ j. j * b) none_more ∙ omega arith in
            omega (arith, only, one_more)
        | inr some_more ↦ omega (arith, some_more, hi, one_more)
      ] in
      (
        suc k,
        (
          rw more (
              and_then-some found _
              ∙ ap some (ids_from-append start b (k * b) ∙ ap (ids_from start) (sym one_more))),
          (omega (arith, lo, one_more), (hi', inr (omega arith))),
        ),
      )
  | inr done ↦
      let past = ltb-false→le i n done in
      let none_sent : 0 ≡ 0 * b = omega arith in
      (
        0,
        (
          rw done (ap (λ k. some (ids_from start k)) none_sent),
          (omega arith, (omega arith, inl refl)),
        ),
      )
]

-- For batches of at least one user, the loop of cql-faker.py ends and inserts the users from the
-- first id on, each once and in order, as many as fill whole batches: at least the number asked
-- for, and less than a batch more.
pub insert_full-total :
    (num_inserts batch_size start : ℕ)
    → 1 ≤ batch_size
    → (k : ℕ) × ((insert_full (suc num_inserts) 0 num_inserts batch_size start
          ≡ some (ids_from start (k * batch_size)))
        × ((num_inserts ≤ k * batch_size) × (k * batch_size < num_inserts + batch_size)))
insert_full-total n b start h =
    let (k, (found, (lo, (hi, _)))) = full_from (suc n) 0 n b start h (omega arith) in
    (k, (found, (omega (arith, lo), omega (arith, hi))))
