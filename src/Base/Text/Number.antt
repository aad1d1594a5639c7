-- ===== src/Base/Text/Number.antt =====
-- `str(n)` of a natural number, and `int(s)`.
use Prim.Native.Char.{code}
use scylla_k8s_example.Base.{
  ℕ, zero, suc, ◌+◌, ◌-◌, ◌*◌, ◌/◌, ◌%◌, ◌≡◌, refl, Bool, true, false, ◌&&◌,
}
use scylla_k8s_example.Base.{String, ◌<>◌, Option, none, some}
use scylla_k8s_example.Base.{nat_eq, ◌==◌, leb, ltb, if◌then◌else◌}

-- `negsuc n` is -(n + 1).
pub data ℤ : Type 0 where
  pos : ℕ → ℤ
  negsuc : ℕ → ℤ

digit : ℕ → String
digit d =
    if d == 0
    then "0"
    else if d == 1
    then "1"
    else if d == 2
    then "2"
    else if d == 3
    then "3"
    else if d == 4
    then "4"
    else if d == 5
    then "5"
    else if d == 6
    then "6"
    else if d == 7
    then "7"
    else if d == 8
    then "8"
    else "9"

show_digits : ℕ → ℕ → String → String
show_digits zero n out = out
show_digits (suc f) n out =
    let more = show_digits f (n / 10) (digit (n % 10) <> out) in
    if ltb n 10 then digit n <> out else more

-- `n + 1` rounds are enough: each round divides `n` by ten.
unfoldable pub show_nat : ℕ → String
unfolding show_digits digit
show_nat n = show_digits (suc n) n ""

-- Digits, with single underscores between them. The flag says whether a digit came last.
read_digits : String → ℕ → Bool → Option ℕ
read_digits String.[] n true = some n
read_digits String.[] n false = none
read_digits (String.◌∷◌ c s) n after_digit =
    let next = read_digits s (n * 10 + (code c - 48)) true in
    let skip = read_digits s n false in
    if leb 48 (code c) && leb (code c) 57
    then next
    else if code c == 95 && after_digit
    then skip
    else none

negate : ℕ → ℤ
negate zero = pos 0
negate (suc n) = negsuc n

-- The body of a stripped text: an optional sign and digits.
unfoldable pub read_int : String → Option ℤ
unfolding read_digits negate
read_int String.[] = none
read_int (String.◌∷◌ c s) =
    if code c == b'-'
    then elim (read_digits s 0 false) [ none ↦ none | some n ↦ some (negate n) ]
    else elim (read_digits (if code c == b'+' then s else String.◌∷◌ c s) 0 false) [
      | none ↦ none
      | some n ↦ some (pos n)
    ]

-- `a >= n` and `a == n`, for a natural number `n`.
abbrev pub ge_nat : ℤ → ℕ → Bool
ge_nat (pos a) n = leb n a
ge_nat (negsuc a) n = false

abbrev pub eq_nat : ℤ → ℕ → Bool
eq_nat (pos a) n = a == n
eq_nat (negsuc a) n = false

shows : show_nat 3600 ≡ "3600"
unfolding show_nat
shows = refl

reads : read_int "2_026" ≡ some (pos 2026)
unfolding read_int
reads = refl
