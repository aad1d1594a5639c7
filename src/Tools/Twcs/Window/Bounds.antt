-- ===== src/Tools/Twcs/Window/Bounds.antt =====
-- Where the windows and the readings lie (sample_app/twcs/device_read_data_demo.py).
use native.Mathlib.Nat.{mul_assoc, div-lt_iff_lt-mul}
use scylla_k8s_example.Base.{ℕ, suc, ◌+◌, ◌*◌, ◌/◌, ◌%◌, ◌≤◌, ◌<◌, ◌≡◌, subst, ◌⊎◌, inl, inr, arith}
use scylla_k8s_example.Base.{Bool-cases, ltb, ltb→lt, ltb-false→le, lt→ltb}
use scylla_k8s_example.Tools.Twcs.Window.{
  micros, window_minutes, window_bucket, nearest, offset_of, window_start, reading_time,
}

-- Dividing rounds down.
divided : (a b : ℕ) → 1 ≤ b → ((a / b * b + a % b ≡ a) × (a % b < b))
divided a b h = (omega arith, omega arith)

-- The bucket of a time is a multiple of the length of the windows, not after the time, and less than
-- one window before it, for windows of at least a minute.
pub window_bucket-floor :
    (ts minutes : ℕ)
    → 1 ≤ minutes
    → (k : ℕ) × (window_bucket ts minutes ≡ k * micros minutes)
      × (window_bucket ts minutes ≤ ts)
      × (ts < window_bucket ts minutes + micros minutes)
unfolding window_bucket
window_bucket-floor ts minutes h =
    let (whole, rest) = divided (ts / 1000000) (minutes * 60) (omega arith) in
    (
      ts / 1000000 / (minutes * 60),
      mul_assoc (ts / 1000000 / (minutes * 60)) (minutes * 60) 1000000,
      omega arith,
      omega arith,
    )

rounded_up : (a b n : ℕ) → 1 ≤ b → a + n ≤ n * b → b ≤ n → a / b + 1 ≡ n → 2 * (a % b) < b
rounded_up a b n h room few last =
    let (whole, rest) = divided a b h in
    let full : n * b ≡ a / b * b + b = subst (λ m. m * b ≡ a / b * b + b) last (omega arith) in
    omega arith

nearest-below : (a b n : ℕ) → 1 ≤ b → a + n ≤ n * b → b ≤ n → nearest a b < n
unfolding nearest
nearest-below a b n h room few =
    let low : a / b < n = (div-lt_iff_lt-mul (omega arith)).1 (omega arith) in
    elim (Bool-cases (ltb (a / b + 1) n)) [
      | inl e ↦ let lower = ltb→lt _ _ e in ground arith
      | inr e ↦
          let near = lt→ltb _ _ (rounded_up a b n h room few (omega (arith, ltb-false→le _ _ e))) in
          rw near low
    ]

offset_of-below :
    (rows i : ℕ)
    → i < rows
    → rows ≤ micros window_minutes
    → offset_of rows i < micros window_minutes
unfolding offset_of
offset_of-below rows i h few = nearest-below _ rows _ (omega arith) (omega arith) few

-- Less than a window later, the bucket is the same or the next one.
next_bucket :
    (a c : ℕ)
    → c < micros window_minutes
    → (window_bucket (a + c) window_minutes ≡ window_bucket a window_minutes)
      ⊎ (window_bucket (a + c) window_minutes
          ≡ window_bucket a window_minutes + micros window_minutes)
unfolding window_bucket
next_bucket a c h = elim (Bool-cases (ltb (a / 1000000 / 600) ((a + c) / 1000000 / 600))) [
  | inl e ↦ let later = ltb→lt _ _ e in inr (omega arith)
  | inr e ↦ let same = ltb-false→le _ _ e in inl (omega arith)
]

-- Of at most 600 million readings per window, each lies in its window of ten minutes. The windows do
-- not start at the buckets: a reading lies in the bucket of its window's start or in the next one.
pub reading_time-InWindow :
    (start rows flush_idx i : ℕ)
    → i < rows
    → rows ≤ micros window_minutes
    → (window_start start flush_idx ≤ reading_time start rows flush_idx i)
      × (reading_time start rows flush_idx i < window_start start (suc flush_idx))
      × ((window_bucket (reading_time start rows flush_idx i) window_minutes
            ≡ window_bucket (window_start start flush_idx) window_minutes)
          ⊎ (window_bucket (reading_time start rows flush_idx i) window_minutes
              ≡ window_bucket (window_start start flush_idx) window_minutes
                + micros window_minutes))
reading_time-InWindow start rows flush_idx i h few =
    let below = offset_of-below rows i h few in (omega arith, omega arith, next_bucket _ _ below)
