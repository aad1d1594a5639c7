-- ===== src/Cleanup/Ranges.antt =====
-- The ranges of tokens and the tokens they select (sample_app/alternator-client/cleanup_userid_mt.py,
-- `get_token_ranges`, `cleanup_range`). A token is counted from -2 ** 63 on, so it is below 2 ** 64.
use scylla_k8s_example.Base.{
  ℕ, zero, suc, ◌+◌, ◌-◌, ◌^◌, ◌≤◌, ◌<◌, ◌≡◌, refl, List, [], ◌∷◌, Option, none, some, arith,
}
use scylla_k8s_example.Base.{
  Bool-cases, inl, inr, ◌⊎◌, ltb, ltb→lt, ltb-false→le, if◌then◌else◌, and_then, and_then-some,
}
use scylla_k8s_example.Exec.Steps.{Some, here, there}
use scylla_k8s_example.Loader.Ranges.{min}

-- The number of tokens.
abbrev pub tokens : ℕ
tokens = 2 ^ 64

-- The loop `while start < 2**63`, with the fuel that is left, for any number of tokens.
unfoldable pub ranges_from : ℕ → ℕ → ℕ → ℕ → Option (List (ℕ × ℕ))
ranges_from zero top token_step start = none
ranges_from (suc fuel) top token_step start =
    let last = min (start + token_step) (top - 1) in
    let rest = ranges_from fuel top token_step (last + 1) in
    if ltb start top then and_then rest (λ l. some ((start, last) ∷ l)) else some []

unfoldable pub get_token_ranges : ℕ → Option (List (ℕ × ℕ))
get_token_ranges token_step = ranges_from (suc tokens) tokens token_step 0

-- `WHERE TOKEN("UserID") > start AND TOKEN("UserID") <= end`
abbrev pub Selects : ℕ → ℕ × ℕ → Type 0
Selects t (start, last) = (start < t) × (t ≤ last)

abbrev pub Starts : ℕ → ℕ × ℕ → Type 0
Starts t (start, last) = start ≡ t

-- Some range selects the token, and none starts at it, or the other way around.
abbrev pub Decided : ℕ → List (ℕ × ℕ) → Type 0
Decided t l =
    (Some (Selects t) l × ¬ Some (Starts t) l) ⊎ (Some (Starts t) l × ¬ Some (Selects t) l)

-- A token before a range is neither selected by it nor its start.
abbrev Misses : ℕ → List (ℕ × ℕ) → Type 0
Misses t l = (¬ Some (Selects t) l) × (¬ Some (Starts t) l)

Misses-cons : (t s e : ℕ) (l : List (ℕ × ℕ)) → t < s → Misses t l → Misses t ((s, e) ∷ l)
Misses-cons t s e l h (m, n) = (
  λ p. elim p [ here (a, b) ↦ omega arith | there q ↦ m q ],
  λ p. elim p [ here a ↦ omega arith | there q ↦ n q ],
)

Decided-later :
    (t s e : ℕ) (l : List (ℕ × ℕ)) → e < t → s ≤ e → Decided t l → Decided t ((s, e) ∷ l)
Decided-later t s e l h k (inl (p, n)) =
    inl (there p, λ q. elim q [ here a ↦ omega arith | there r ↦ n r ])
Decided-later t s e l h k (inr (p, n)) =
    inr (there p, λ q. elim q [ here (a, b) ↦ omega arith | there r ↦ n r ])

Decided-now : (t s e : ℕ) (l : List (ℕ × ℕ)) → s ≤ t → t ≤ e → Misses t l → Decided t ((s, e) ∷ l)
Decided-now t s e l h k (m, n) = elim (Bool-cases (ltb s t)) [
  | inl b ↦
      let s_lt = ltb→lt s t b in
      inl (here (s_lt, k), λ q. elim q [ here a ↦ omega arith | there r ↦ n r ])
  | inr b ↦
      let t_le = ltb-false→le s t b in
      inr (here (omega arith), λ q. elim q [ here (a, c) ↦ omega arith | there r ↦ m r ])
]

pub ranges_from-total :
    (fuel top token_step start : ℕ)
    → top - start < fuel
    → (l : List (ℕ × ℕ)) × ((ranges_from fuel top token_step start ≡ some l)
        × (((t : ℕ) → t < start → Misses t l) × ((t : ℕ) → start ≤ t → t < top → Decided t l)))
unfolding ranges_from
ranges_from-total zero top token_step start enough = absurd (omega arith)
ranges_from-total (suc fuel) top token_step start enough = elim (Bool-cases (ltb start top)) [
  | inl more ↦
      let start_lt = ltb→lt start top more in
      let last = min (start + token_step) (top - 1) in
      let start_le : start ≤ last = ground arith in
      let last_lt : last < top = ground arith in
      let (l, (found, (misses, decided))) =
        ranges_from-total fuel top token_step (last + 1) (omega arith) in
      (
        (start, last) ∷ l,
        (
          rw more (and_then-some found _),
          (
            λ t h. Misses-cons t start last l h (misses t (omega arith)),
            λ t h k. elim (Bool-cases (ltb last t)) [
              | inl b ↦
                  let last_lt_t = ltb→lt last t b in
                  Decided-later t start last l last_lt_t start_le (decided t (omega arith) k)
              | inr b ↦
                  let t_le = ltb-false→le last t b in
                  Decided-now t start last l h t_le (misses t (omega arith))
            ],
          ),
        ),
      )
  | inr done ↦
      let past = ltb-false→le start top done in
      (
        [],
        (rw done refl, (λ t h. (λ p. elim p [ ], λ p. elim p [ ]), λ t h k. absurd (omega arith))),
      )
]

-- For any width of the ranges the loop ends, and a token is selected by one of the ranges if and
-- only if no range starts at it: the first token of each range is never cleaned up.
pub get_token_ranges-Decided :
    (token_step t : ℕ)
    → t < tokens
    → (l : List (ℕ × ℕ)) × ((get_token_ranges token_step ≡ some l) × Decided t l)
unfolding get_token_ranges
get_token_ranges-Decided token_step t h =
    let (l, (found, (_, decided))) =
      ranges_from-total (suc tokens) tokens token_step 0 (omega arith) in
    (l, (found, decided t (omega arith) h))
