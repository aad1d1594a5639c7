-- ===== src/Tools/Twcs/Window.antt =====
-- The time windows (sample_app/twcs/device_read_data_demo.py, `window_bucket`, `ddate_key`). Times are
-- microseconds from 1970 on, in UTC.
pub mod Bounds
use scylla_k8s_example.Base.{ℕ, ◌+◌, ◌*◌, ◌/◌, ◌%◌, String, ◌<>◌, if◌then◌else◌}
use scylla_k8s_example.Base.{ltb, nat_eq, ◌==◌}
use scylla_k8s_example.Base.Calendar.{show_date, show_minute}

-- `DEMO_WINDOW_MINUTES`
abbrev pub window_minutes : ℕ
window_minutes = 10

-- The length of a window.
abbrev pub micros : ℕ → ℕ
micros minutes = minutes * 60 * 1000000

unfoldable pub window_bucket : ℕ → ℕ → ℕ
window_bucket ts window_minutes =
    let window_secs = window_minutes * 60 in
    let elapsed = ts / 1000000 in
    let floored = elapsed / window_secs * window_secs in floored * 1000000

-- `%Y-%m-%d-%H-%M`
unfoldable pub ddate_key : ℕ → String
ddate_key ts = show_date (ts / 86400000000) <> "-" <> show_minute "-" (ts / 1000000)

-- The quotient rounded to the nearest whole number, and to the even one between two.
unfoldable pub nearest : ℕ → ℕ → ℕ
nearest a b =
    let q = a / b in
    let r = a % b in if ltb (2 * r) b then q else if ltb b (2 * r) then q + 1 else q + q % 2

-- `timedelta(seconds=offset_secs)`, for the reading `i` of `rows`, without the error of the floats.
unfoldable pub offset_of : ℕ → ℕ → ℕ
offset_of rows i = nearest (micros window_minutes * i) rows

-- `window_start` and `ts`
abbrev pub window_start : ℕ → ℕ → ℕ
window_start start flush_idx = start + micros (window_minutes * flush_idx)

abbrev pub reading_time : ℕ → ℕ → ℕ → ℕ → ℕ
reading_time start rows flush_idx i = window_start start flush_idx + offset_of rows i
