-- ===== src/Tools/Format.antt =====
-- Values in the output of the scripts: `:5.1f`, `datetime` and `None` in a format string.
use scylla_k8s_example.Base.{ℕ, ◌+◌, ◌-◌, ◌*◌, ◌/◌, ◌%◌, ◌^◌, String, ◌<>◌}
use scylla_k8s_example.Base.{if◌then◌else◌, nat_eq, ◌==◌}
use scylla_k8s_example.Base.Text.{show_nat, repeat_text}
use scylla_k8s_example.Base.Calendar.{show_date, show_clock, show_time}
use scylla_k8s_example.Script.{Value, null, num, text, decimal, instant}
use Prim.Native.String.{count}

pad_left : String → ℕ → String → String
pad_left fill n s = repeat_text (n - count s) fill <> s

-- `f"{x:<width>.1f}"`, for a number with `digits` decimal places, rounded half up.
unfoldable pub show_decimal : ℕ → ℕ → ℕ → String
unfolding pad_left
show_decimal width n digits =
    let tenths = (n * 10 + 10 ^ digits / 2) / 10 ^ digits in
    pad_left " " width (show_nat (tenths / 10) <> "." <> show_nat (tenths % 10))

-- `str` of a `datetime`: the microseconds are shown if there are any.
unfoldable pub show_instant : ℕ → String
unfolding pad_left
show_instant t =
    let micros = t % 1000000 in
    show_time (t / 1000000) <> (if micros == 0 then "" else "." <> pad_left "0" 6 (show_nat micros))

-- `isoformat` of a `datetime` in UTC.
unfoldable pub show_iso : ℕ → String
unfolding pad_left
show_iso t =
    let micros = t % 1000000 in
    show_date (t / 86400000000)
    <> "T"
    <> show_clock (t / 1000000)
    <> (if micros == 0 then "" else "." <> pad_left "0" 6 (show_nat micros))
    <> "+00:00"

unfoldable pub shown : Value → String
shown null = "None"
shown (num n) = show_nat n
shown (text s) = s
shown (decimal n d) = show_decimal 0 n d
shown (instant t) = show_instant t

-- The message of `None` where a text or number is formatted.
abbrev pub null_error : String
null_error = "unsupported format string passed to NoneType.__format__"
