-- ===== src/Base/Calendar.antt =====
-- `strftime` of Python's `datetime`, for instants from 1970 on, in UTC.
use scylla_k8s_example.Base.{
  ℕ, zero, suc, ◌+◌, ◌-◌, ◌/◌, ◌%◌, ◌≡◌, refl, String, ◌<>◌, Bool, not, ◌&&◌, ◌||◌, List, [], ◌∷◌,
}
use scylla_k8s_example.Base.{nat_eq, ◌==◌, ltb, if◌then◌else◌}
use scylla_k8s_example.Base.Text.{show_nat}

is_leap : ℕ → Bool
is_leap y = (y % 4 == 0 && not (y % 100 == 0)) || y % 400 == 0

year_days : ℕ → ℕ
unfolding is_leap
year_days y = if is_leap y then 366 else 365

-- The year and the day in it, from a day counted from the start of year `y`.
find_year : ℕ → ℕ → ℕ → ℕ × ℕ
unfolding year_days
find_year zero y d = (y, d)
find_year (suc fuel) y d =
    let later = find_year fuel (y + 1) (d - year_days y) in
    if ltb d (year_days y) then (y, d) else later

month_lengths : ℕ → List ℕ
unfolding is_leap
month_lengths y =
    31 ∷ (if is_leap y then 29 else 28) ∷ 31 ∷ 30 ∷ 31 ∷ 30 ∷ 31 ∷ 31 ∷ 30 ∷ 31 ∷ 30 ∷ 31 ∷ []

-- The month and the day in it, both from one.
find_month : List ℕ → ℕ → ℕ → ℕ × ℕ
find_month [] m d = (m, d + 1)
find_month (n ∷ l) m d =
    let later = find_month l (m + 1) (d - n) in if ltb d n then (m, d + 1) else later

two_digits : ℕ → String
two_digits n = if ltb n 10 then "0" <> show_nat n else show_nat n

-- `%Y-%m-%d`. A year has at least 365 days.
unfoldable pub show_date : ℕ → String
unfolding find_year find_month month_lengths two_digits
show_date days =
    let (y, d) = find_year (suc (days / 365)) 1970 days in
    let (m, dd) = find_month (month_lengths y) 1 d in
    show_nat y <> "-" <> two_digits m <> "-" <> two_digits dd

-- `%H<sep>%M`, of the seconds of a day.
unfoldable pub show_minute : String → ℕ → String
unfolding two_digits
show_minute sep seconds = two_digits (seconds / 3600 % 24) <> sep <> two_digits (seconds / 60 % 60)

-- `%H:%M:%S`, of the seconds since the epoch.
unfoldable pub show_clock : ℕ → String
unfolding two_digits
show_clock seconds = show_minute ":" seconds <> ":" <> two_digits (seconds % 60)

-- `%Y-%m-%d %H:%M:%S`, of the seconds since the epoch.
unfoldable pub show_time : ℕ → String
show_time seconds = show_date (seconds / 86400) <> " " <> show_clock seconds

shows : show_time 1_709_210_096 ≡ "2024-02-29 12:34:56"
unfolding show_time show_clock show_date show_minute show_nat
shows = refl
